-- ===== src/Fs/Content/Write.antt =====
-- The loop of writei on a well-formed inode, where the log takes every call.
use lab7sp25_shelnutt.Base.{
  ℕ, zero, suc, ◌+◌, ◌-◌, ◌*◌, ◌/◌, ◌%◌, ◌≤◌, ◌<◌, ◌≡◌, ◌≢◌, refl, ◌∙◌, sym, false, ◌&&◌, List, [],
  ◌∷◌, ◌++◌, ltb, leb, min, length, length-append, drop, arith, inl, inr, subst, Option, none, some,
  Option-cases, add32,
}
use lab7sp25_shelnutt.Fs.{bsize, maxfile}
use lab7sp25_shelnutt.Fs.Bitmap.{Superblock, Disk, bblock, write_block}
use lab7sp25_shelnutt.Fs.Bitmap.Blocks.{is_free}
use lab7sp25_shelnutt.Fs.Content.{Content, put_bytes, bmap}
use lab7sp25_shelnutt.Fs.Content.Blocks.{Use, elsewhere, IsFile}
use lab7sp25_shelnutt.Fs.Content.View.{byte_of}
use lab7sp25_shelnutt.Fs.Content.Bmap.{BmapEnds, bmap_lem}
use lab7sp25_shelnutt.Fs.Content.Given.{Spent, among}
use lab7sp25_shelnutt.Fs.Content.Round.{bytes_with, if_false, Round, round_lem}
use lab7sp25_shelnutt.Fs.Content.Ranges.{length-drop, among-append, part, join}

-- The loop of writei where the log takes every call of log_write.
unfoldable pub fill_from :
    Superblock → ℕ → ℕ → List ℕ → Content → Disk → Option (ℕ × Content × Disk)
unfolding put_bytes
fill_from sb zero off src ip disk = none
fill_from sb (suc fuel) off [] ip disk = some (off, ip, disk)
fill_from sb (suc fuel) off (x ∷ xs) ip disk = elim (bmap sb (off / bsize) ip disk) [
  | none ↦ none
  | some (b, ip', disk') ↦
      let m = min (length (x ∷ xs)) (bsize - off % bsize) in
      fill_from sb fuel (add32 off m) (drop m (x ∷ xs)) ip'
        (write_block b (put_bytes (disk' b) (off % bsize) m (x ∷ xs)) disk')
]

-- What a write leaves.
pub record Written (sb : Superblock) (off : ℕ) (xs : List ℕ) (ip ip' : Content) (disk disk' : Disk)
    (uses uses' : ℕ → Use) : Type 0 where
  pub file : IsFile sb disk' ip' uses'
  pub size : ip'.size ≡ ip.size
  pub bytes :
      (x : ℕ) → x < maxfile * bsize → byte_of ip' disk' x ≡ bytes_with off xs (byte_of ip disk x) x
  pub others :
      (q : ℕ) → uses q ≡ elsewhere → ((j : ℕ) → j < sb.size → q ≢ bblock j sb) → disk' q ≡ disk q

-- At most n blocks are free.
abbrev pub Few : Superblock → Disk → ℕ → Type 0
Few sb disk n =
    (bs : List ℕ) × (length bs ≤ n)
    × ((j : ℕ) → j < sb.size → among bs j ≡ false → is_free sb disk j ≡ false)

-- The number of blocks with the n bytes from `off` on.
abbrev pub rounds : ℕ → ℕ → ℕ
rounds off zero = 0
rounds off (suc n) = (off % bsize + n) / bsize + 1

pub count :
    (off n r : ℕ)
    → r ≡ suc n - min (suc n) (bsize - off % bsize)
    → suc (rounds (off + min (suc n) (bsize - off % bsize)) r) ≡ rounds off (suc n)
count off n zero e = omega arith
count off n (suc r) e = omega (arith, e)

pub then-Few :
    (sb : Superblock) (disk disk' : Disk) (n : ℕ)
    → Spent sb disk disk' 2
    → Few sb disk' (2 * n)
    → Few sb disk (2 * suc n)
then-Few sb disk disk' n (bs, l, same) (cs, m, full) =
    let e = length-append bs cs in
    (
      bs ++ cs,
      omega (arith, e),
      λ j k h.
          let a = sym (among-append bs cs j) ∙ h in
          let b : among bs j ≡ false = ground arith in
          let c : among cs j ≡ false = ground arith in sym (same j k b) ∙ full j k c,
    )

pub one-Few :
    (sb : Superblock) (disk : Disk) (n : ℕ)
    → 0 < n
    → ((a : ℕ) × ((j : ℕ) → j < sb.size → j ≢ a → is_free sb disk j ≡ false))
    → Few sb disk (2 * n)
one-Few sb disk n l (a, full) = (a ∷ [], omega arith, λ j k h. full j k (λ e. ground (arith, e)))

pub round_done :
    (sb : Superblock) (fuel off : ℕ) (ip : Content) (disk : Disk)
    → fill_from sb (suc fuel) off [] ip disk ≡ some (off, ip, disk)
unfolding fill_from
round_done sb fuel off ip disk = refl

no_bytes : (off x : ℕ) → (leb off x && ltb x (off + 0)) ≡ false
no_bytes off x = ground arith

-- A round of the loop, by what bmap finds.
pub round_full :
    (sb : Superblock) (fuel off x : ℕ) (xs : List ℕ) (ip : Content) (disk : Disk)
    → bmap sb (off / bsize) ip disk ≡ none
    → fill_from sb (suc fuel) off (x ∷ xs) ip disk ≡ none
unfolding fill_from
round_full sb fuel off x xs ip disk e = rw (fill_from, e) refl

pub round_next :
    (sb : Superblock) (fuel off x : ℕ) (xs : List ℕ) (ip ip' : Content) (disk disk' : Disk) (b : ℕ)
    → off < maxfile * bsize
    → bmap sb (off / bsize) ip disk ≡ some (b, ip', disk')
    → fill_from sb (suc fuel) off (x ∷ xs) ip disk
      ≡ fill_from sb fuel
          (off + part off (x ∷ xs))
          (drop (part off (x ∷ xs)) (x ∷ xs))
          ip'
          (write_block b (put_bytes (disk' b) (off % bsize) (part off (x ∷ xs)) (x ∷ xs)) disk')
unfolding fill_from
round_next sb fuel off x xs ip ip' disk disk' b l e =
    let s : add32 off (part off (x ∷ xs)) ≡ off + part off (x ∷ xs) = omega arith in
    rw (fill_from, e, s) refl

module _ (sb : Superblock) (some_block : 0 < sb.size) where
  abbrev pub LoopEnds :
      ℕ → List ℕ → Content → Disk → (ℕ → Use) → Option (ℕ × Content × Disk) → Type 0
  LoopEnds off xs ip disk uses none = Few sb disk (2 * rounds off (length xs))
  LoopEnds off xs ip disk uses (some (off', ip', disk')) =
      (off' ≡ off + length xs) × (uses' : ℕ → Use) × Written sb off xs ip ip' disk disk' uses uses'

  after-Round :
      (off x : ℕ) (xs : List ℕ) (ip ip1 : Content) (disk disk1 : Disk) (uses uses1 : ℕ → Use)
      → off + length (x ∷ xs) ≤ maxfile * bsize
      → Round sb
          (off / bsize)
          (off % bsize)
          (part off (x ∷ xs))
          (x ∷ xs)
          ip
          ip1
          disk
          disk1
          uses
          uses1
      → (r : Option (ℕ × Content × Disk))
      → LoopEnds (off + part off (x ∷ xs)) (drop (part off (x ∷ xs)) (x ∷ xs)) ip1 disk1 uses1 r
      → LoopEnds off (x ∷ xs) ip disk uses r
  after-Round off x xs ip ip1 disk disk1 uses uses1 l s none few =
      let k = part off (x ∷ xs) in
      let len = length-drop k (x ∷ xs) in
      let e : suc (rounds (off + k) (length (drop k (x ∷ xs)))) ≡ rounds off (length (x ∷ xs)) =
        count off (length xs) (length (drop k (x ∷ xs))) len in
      subst (λ n. Few sb disk (2 * n)) e
        (then-Few sb disk disk1 (rounds (off + k) (length (drop k (x ∷ xs)))) s.spent few)
  after-Round off x xs ip ip1 disk disk1 uses uses1 l s (some (off', ip', disk')) ends =
      let k = part off (x ∷ xs) in
      let len = length-drop k (x ∷ xs) in
      let (e, uses', w) = ends in
      (
        omega (arith, e, len),
        uses',
        record {
          file = w.file;
          size = w.size ∙ s.size;
          bytes = λ i a.
              join off (x ∷ xs) i (byte_of ip disk i) (byte_of ip1 disk1 i) (byte_of ip' disk' i)
                (w.bytes i a) (s.bytes i a);
          others = λ q h c. w.others q (s.roles q h) c ∙ s.others q h c;
        },
      )

  pub fill_from_lem :
      (fuel off : ℕ) (xs : List ℕ) (ip : Content) (disk : Disk) (uses : ℕ → Use)
      → IsFile sb disk ip uses
      → length xs < fuel
      → off + length xs ≤ maxfile * bsize
      → LoopEnds off xs ip disk uses (fill_from sb fuel off xs ip disk)
  fill_from_lem zero off xs ip disk uses v f l = absurd (omega arith)
  fill_from_lem (suc fuel) off [] ip disk uses v f l =
      subst (LoopEnds off [] ip disk uses) (sym (round_done sb fuel off ip disk)) (
        omega arith,
        uses,
        record {
          file = v;
          size = refl;
          bytes = λ x a. sym (if_false _ _ (no_bytes off x));
          others = λ q h c. refl;
        },
      )
  fill_from_lem (suc fuel) off (x ∷ xs) ip disk uses v f l =
      elim (Option-cases (bmap sb (off / bsize) ip disk)) [
        | inl e ↦
            let none_left =
              subst (BmapEnds sb ip disk uses v (off / bsize)) e
                (bmap_lem sb ip disk uses v (off / bsize) (omega arith)) in
            subst (LoopEnds off (x ∷ xs) ip disk uses) (sym (round_full sb fuel off x xs ip disk e))
              (one-Few sb disk (rounds off (length (x ∷ xs))) (omega arith) none_left)
        | inr ((b, ip1, disk1), e) ↦
            let (uses1, g) =
              subst (BmapEnds sb ip disk uses v (off / bsize)) e
                (bmap_lem sb ip disk uses v (off / bsize) (omega arith)) in
            let k = part off (x ∷ xs) in
            let len = length-drop k (x ∷ xs) in
            let s =
              round_lem sb (off / bsize) b ip ip1 disk disk1 uses uses1 g (omega arith) some_block
                (off % bsize) k (x ∷ xs) (omega arith) (omega arith) in
            let disk2 = write_block b (put_bytes (disk1 b) (off % bsize) k (x ∷ xs)) disk1 in
            subst (LoopEnds off (x ∷ xs) ip disk uses)
              (sym (round_next sb fuel off x xs ip ip1 disk disk1 b (omega arith) e))
              (after-Round off x xs ip ip1 disk disk2 uses uses1 l s
                (fill_from sb fuel (off + k) (drop k (x ∷ xs)) ip1 disk2)
                (fill_from_lem fuel (off + k) (drop k (x ∷ xs)) ip1 disk2 uses1 s.file
                  (omega (arith, len)) (omega (arith, len))))
      ]
