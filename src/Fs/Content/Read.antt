-- ===== src/Fs/Content/Read.antt =====
-- readi on a well-formed inode.
use lab7sp25_shelnutt.Base.{
  ℕ, zero, suc, ◌+◌, ◌-◌, ◌*◌, ◌/◌, ◌%◌, ◌≤◌, ◌<◌, ◌≡◌, ◌≢◌, refl, ap, ◌∙◌, sym, false, List, [],
  ◌∷◌, ◌++◌, ◌==◌, ltb, min, get_or, length, length-append, length-take, take, drop, arith,
  Bool-cases, inl, inr, subst, Option, none, some, Option-cases, add32,
}
use lab7sp25_shelnutt.Fs.{bsize, maxfile}
use lab7sp25_shelnutt.Fs.Bitmap.{Superblock, Disk, bblock}
use lab7sp25_shelnutt.Fs.Content.{Content, bmap, read_from}
use lab7sp25_shelnutt.Fs.Content.Blocks.{Use, elsewhere, IsFile}
use lab7sp25_shelnutt.Fs.Content.View.{data_of, data_of-block, block_sized, byte_of}
use lab7sp25_shelnutt.Fs.Content.Given.{BlockGiven}
use lab7sp25_shelnutt.Fs.Content.Ranges.{length-drop, get_or-drop}
use lab7sp25_shelnutt.Fs.Content.Write.{Few, rounds, count, then-Few}

get_or-take : (n i : ℕ) (xs : List ℕ) → i < n → get_or (take n xs) i 0 ≡ get_or xs i 0
get_or-take zero i xs h = absurd (omega arith)
get_or-take (suc n) i [] h = refl
get_or-take (suc n) zero (x ∷ xs) h = refl
get_or-take (suc n) (suc i) (x ∷ xs) h = get_or-take n i xs (omega arith)

get_or-left : (xs ys : List ℕ) (i : ℕ) → i < length xs → get_or (xs ++ ys) i 0 ≡ get_or xs i 0
get_or-left [] ys i h = absurd (omega arith)
get_or-left (x ∷ xs) ys zero h = refl
get_or-left (x ∷ xs) ys (suc i) h = get_or-left xs ys i (omega arith)

get_or-right : (xs ys : List ℕ) (i : ℕ) → get_or (xs ++ ys) (length xs + i) 0 ≡ get_or ys i 0
get_or-right [] ys i = let e : 0 + i ≡ i = omega arith in ap (λ j. get_or ys j 0) e
get_or-right (x ∷ xs) ys i =
    let e : suc (length xs) + i ≡ suc (length xs + i) = omega arith in
    ap (λ j. get_or (x ∷ (xs ++ ys)) j 0) e ∙ get_or-right xs ys i

-- The bytes that a round takes from its block.
abbrev pub piece : List ℕ → ℕ → ℕ → List ℕ
piece d from m = take m (drop from d)

length-piece : (d : List ℕ) (from m : ℕ) → from + m ≤ length d → length (piece d from m) ≡ m
length-piece d from m h =
    let a = length-take m (drop from d) in let b = length-drop from d in omega (arith, a, b)

get_or-piece :
    (d : List ℕ) (from m i : ℕ) → i < m → get_or (piece d from m) i 0 ≡ get_or d (from + i) 0
get_or-piece d from m i h = get_or-take m i (drop from d) h ∙ get_or-drop from i d

-- What a read gives and leaves: no byte of the file changes, though bmap may fill a hole by zeros.
pub record HasRead (sb : Superblock) (off n : ℕ) (xs : List ℕ) (ip ip' : Content)
    (disk disk' : Disk) (uses uses' : ℕ → Use) : Type 0 where
  pub file : IsFile sb disk' ip' uses'
  pub size : ip'.size ≡ ip.size
  pub count_read : length xs ≡ n
  pub read : (i : ℕ) → i < n → get_or xs i 0 ≡ byte_of ip disk (off + i)
  pub same : (x : ℕ) → x < maxfile * bsize → byte_of ip' disk' x ≡ byte_of ip disk x
  pub others :
      (q : ℕ) → uses q ≡ elsewhere → ((j : ℕ) → j < sb.size → q ≢ bblock j sb) → disk' q ≡ disk q

abbrev pub ReadEnds :
    Superblock → ℕ → ℕ → Content → Disk → (ℕ → Use) → Option (List ℕ × Content × Disk) → Type 0
ReadEnds sb off n ip disk uses none = Few sb disk (2 * rounds off n)
ReadEnds sb off n ip disk uses (some (xs, ip', disk')) =
    (uses' : ℕ → Use) × HasRead sb off n xs ip ip' disk disk' uses uses'

-- How many of n bytes are in the block of the offset.
abbrev pub size_here : ℕ → ℕ → ℕ
size_here off n = min n (bsize - off % bsize)

abbrev pub prepend : List ℕ → Option (List ℕ × Content × Disk) → Option (List ℕ × Content × Disk)
prepend d none = none
prepend d (some (rest, ip2, disk2)) = some (d ++ rest, ip2, disk2)

pub round_done :
    (sb : Superblock) (fuel off : ℕ) (ip : Content) (disk : Disk)
    → read_from sb (suc fuel) off 0 ip disk ≡ some ([], ip, disk)
unfolding read_from
round_done sb fuel off ip disk = refl

pub round_full :
    (sb : Superblock) (fuel off n : ℕ) (ip : Content) (disk : Disk)
    → bmap sb (off / bsize) ip disk ≡ none
    → read_from sb (suc fuel) off (suc n) ip disk ≡ none
unfolding read_from
round_full sb fuel off n ip disk e =
    let c : (suc n == 0) ≡ false = ground arith in rw (c, read_from, e) refl

pub round_next :
    (sb : Superblock) (fuel off n : ℕ) (ip ip' : Content) (disk disk' : Disk) (b : ℕ)
    → off < maxfile * bsize
    → bmap sb (off / bsize) ip disk ≡ some (b, ip', disk')
    → read_from sb (suc fuel) off (suc n) ip disk
      ≡ prepend (piece (disk' b) (off % bsize) (size_here off (suc n))) (
          read_from sb fuel (off + size_here off (suc n)) (suc n - size_here off (suc n)) ip' disk')
unfolding read_from
round_next sb fuel off n ip ip' disk disk' b l e =
    let c : (suc n == 0) ≡ false = ground arith in
    let s : add32 off (size_here off (suc n)) ≡ off + size_here off (suc n) = omega arith in
    elim (Option-cases
      (read_from sb fuel (off + size_here off (suc n)) (suc n - size_here off (suc n)) ip' disk')) [
        | inl r ↦ rw (c, read_from, e, s, r) refl
        | inr ((rest, ip2, disk2), r) ↦ rw (c, read_from, e, s, r) refl
      ]

module _ (sb : Superblock) (off n b : ℕ) (ip ip1 : Content) (disk disk1 : Disk)
    (uses uses1 : ℕ → Use) (g : BlockGiven sb (off / bsize) b ip ip1 disk disk1 uses uses1)
    (l : off + suc n ≤ maxfile * bsize) where
  abbrev m : ℕ
  m = size_here off (suc n)

  block_data : disk1 b ≡ data_of ip disk (off / bsize)
  block_data =
      ap disk1 (sym g.here)
      ∙ sym (data_of-block ip1 disk1 (off / bsize) (λ x. g.nonzero (sym g.here ∙ x)))
      ∙ g.holds (off / bsize) (omega arith)

  block_length : length (disk1 b) ≡ bsize
  block_length =
      ap (λ q. length (disk1 q)) (sym g.here)
      ∙ block_sized sb disk1 ip1 uses1 g.file (off / bsize) (omega arith)
          (λ x. g.nonzero (sym g.here ∙ x))

  abbrev got : List ℕ
  got = piece (disk1 b) (off % bsize) m

  length-got : length got ≡ m
  length-got = length-piece (disk1 b) (off % bsize) m (omega (arith, block_length))

  same_byte : (x : ℕ) → x < maxfile * bsize → byte_of ip1 disk1 x ≡ byte_of ip disk x
  same_byte x a = ap (λ d. get_or d (x % bsize) 0) (g.holds (x / bsize) (omega arith))

  first_bytes : (i : ℕ) → i < m → get_or got i 0 ≡ byte_of ip disk (off + i)
  first_bytes i h =
      let a : (off + i) / bsize ≡ off / bsize = omega (arith, h) in
      let c : (off + i) % bsize ≡ off % bsize + i = omega (arith, h) in
      get_or-piece (disk1 b) (off % bsize) m i h
      ∙ ap (λ d. get_or d (off % bsize + i) 0) block_data
      ∙ ap (λ j. get_or (data_of ip disk (off / bsize)) j 0) (sym c)
      ∙ ap (λ k. get_or (data_of ip disk k) ((off + i) % bsize) 0) (sym a)

  pub after_round :
      (r : Option (List ℕ × Content × Disk))
      → ReadEnds sb (off + m) (suc n - m) ip1 disk1 uses1 r
      → ReadEnds sb off (suc n) ip disk uses (prepend got r)
  after_round none few =
      subst (λ k. Few sb disk (2 * k)) (count off n (suc n - m) refl)
        (then-Few sb disk disk1 (rounds (off + m) (suc n - m)) g.spent few)
  after_round (some (rest, ip2, disk2)) ends =
      let (uses2, t) = ends in
      let size = t.count_read in
      let whole = length-append got rest in
      (
        uses2,
        record {
          file = t.file;
          size = t.size ∙ g.size;
          count_read = omega (arith, whole, length-got, size);
          read = λ i h. elim (Bool-cases (ltb i m)) [
            | inl y ↦
                let c : i < m = ground arith in
                get_or-left got rest i (omega (arith, length-got, c)) ∙ first_bytes i c
            | inr z ↦
                let c : m ≤ i = ground arith in
                let e : i ≡ length got + (i - m) = omega (arith, c, length-got) in
                let f : off + m + (i - m) ≡ off + i = omega (arith, c) in
                ap (λ j. get_or (got ++ rest) j 0) e
                ∙ get_or-right got rest (i - m)
                ∙ t.read (i - m) (omega (arith, c, h))
                ∙ ap (byte_of ip1 disk1) f
                ∙ same_byte (off + i) (omega (arith, h))
          ];
          same = λ x a. t.same x a ∙ same_byte x a;
          others = λ q h c. t.others q (g.roles q h) c ∙ g.others q h c;
        },
      )
