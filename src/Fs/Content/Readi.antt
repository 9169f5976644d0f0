-- ===== src/Fs/Content/Readi.antt =====
-- readi, with its guards.
use lab7sp25_shelnutt.Base.{
  ℕ, zero, suc, ◌+◌, ◌-◌, ◌*◌, ◌/◌, ◌^◌, ◌≤◌, ◌<◌, ◌≡◌, refl, sym, true, false, List, ltb, min,
  if◌then◌else◌, arith, Bool-cases, inl, inr, subst, Option, none, some, Option-cases, add32,
}
use lab7sp25_shelnutt.Fs.{bsize, maxfile}
use lab7sp25_shelnutt.Fs.Bitmap.{Superblock, Disk}
use lab7sp25_shelnutt.Fs.Content.{
  Content, bmap, read_from, read_bytes, readi, ReadFile, refused, bytes, panicked,
}
use lab7sp25_shelnutt.Fs.Content.Blocks.{Use, IsFile}
use lab7sp25_shelnutt.Fs.Content.Bmap.{BmapEnds, bmap_lem}
use lab7sp25_shelnutt.Fs.Content.Write.{Few, rounds, one-Few}
use lab7sp25_shelnutt.Fs.Content.Read.{
  HasRead, ReadEnds, size_here, round_done, round_full, round_next, after_round,
}

read_from_lem :
    (sb : Superblock) (fuel off n : ℕ) (ip : Content) (disk : Disk) (uses : ℕ → Use)
    → IsFile sb disk ip uses
    → n < fuel
    → off + n ≤ maxfile * bsize
    → ReadEnds sb off n ip disk uses (read_from sb fuel off n ip disk)
read_from_lem sb zero off n ip disk uses v f l = absurd (omega arith)
read_from_lem sb (suc fuel) off zero ip disk uses v f l =
    subst (ReadEnds sb off 0 ip disk uses) (sym (round_done sb fuel off ip disk)) (
      uses,
      record {
        file = v;
        size = refl;
        count_read = refl;
        read = λ i h. absurd (omega arith);
        same = λ x a. refl;
        others = λ q h c. refl;
      },
    )
read_from_lem sb (suc fuel) off (suc n) ip disk uses v f l =
    elim (Option-cases (bmap sb (off / bsize) ip disk)) [
      | inl e ↦
          let none_left =
            subst (BmapEnds sb ip disk uses v (off / bsize)) e
              (bmap_lem sb ip disk uses v (off / bsize) (omega arith)) in
          subst (ReadEnds sb off (suc n) ip disk uses) (sym (round_full sb fuel off n ip disk e))
            (one-Few sb disk (rounds off (suc n)) (omega arith) none_left)
      | inr ((b, ip1, disk1), e) ↦
          let (uses1, g) =
            subst (BmapEnds sb ip disk uses v (off / bsize)) e
              (bmap_lem sb ip disk uses v (off / bsize) (omega arith)) in
          let k = size_here off (suc n) in
          subst (ReadEnds sb off (suc n) ip disk uses)
            (sym (round_next sb fuel off n ip ip1 disk disk1 b (omega arith) e))
            (after_round sb off n b ip ip1 disk disk1 uses uses1 g l
              (read_from sb fuel (off + k) (suc n - k) ip1 disk1)
              (read_from_lem sb fuel (off + k) (suc n - k) ip1 disk1 uses1 g.file (omega arith)
                (omega arith)))
    ]

module _ (sb : Superblock) (ip : Content) (disk : Disk) (uses : ℕ → Use)
    (v : IsFile sb disk ip uses) (off n : ℕ) where
  abbrev pub ReadiEnds : ReadFile → Type 0
  ReadiEnds refused = ip.size < off
  ReadiEnds panicked = Few sb disk (2 * rounds off (min n (ip.size - off)))
  ReadiEnds (bytes xs ip' disk') =
      (off ≤ ip.size)
      × (uses' : ℕ → Use) × HasRead sb off (min n (ip.size - off)) xs ip ip' disk disk' uses uses'

  abbrev finish : Option (List ℕ × Content × Disk) → ReadFile
  finish none = panicked
  finish (some (xs, ip', disk')) = bytes xs ip' disk'

  finish_ends :
      off ≤ ip.size
      → (r : Option (List ℕ × Content × Disk))
      → ReadEnds sb off (min n (ip.size - off)) ip disk uses r
      → ReadiEnds (finish r)
  finish_ends l none few = few
  finish_ends l (some (xs, ip', disk')) ends = let (uses', h) = ends in (l, uses', h)

  clipped :
      off ≤ ip.size
      → off + n < 2 ^ 32
      → (if ltb ip.size (add32 off n) then ip.size - off else n) ≡ min n (ip.size - off)
  clipped l fits =
      let b : add32 off n ≡ off + n = omega arith in
      elim (Bool-cases (ltb ip.size (off + n))) [
        | inl y ↦ rw (b, y) (ground arith)
        | inr z ↦ rw (b, z) (ground arith)
      ]

  readi-finish :
      off ≤ ip.size
      → off + n < 2 ^ 32
      → readi sb off n ip disk ≡ read_bytes sb off (min n (ip.size - off)) ip disk
  unfolding readi
  readi-finish l fits =
      let a : ltb ip.size off ≡ false = ground arith in
      let b : add32 off n ≡ off + n = omega arith in
      let c : ltb (add32 off n) off ≡ false = ground (arith, b) in
      let d = clipped l fits in rw (a, c, d) refl

  bytes_ends :
      (k : ℕ)
      → k ≡ min n (ip.size - off)
      → off ≤ ip.size
      → ip.size ≤ maxfile * bsize
      → ReadiEnds (read_bytes sb off k ip disk)
  unfolding read_bytes
  bytes_ends k e l small =
      let r = read_from_lem sb (suc k) off k ip disk uses v (omega arith) (omega (arith, e)) in
      let run =
        subst (λ m. ReadEnds sb off m ip disk uses (read_from sb (suc k) off k ip disk)) e r in
      elim (Option-cases (read_from sb (suc k) off k ip disk)) [
        | inl q ↦
            subst (λ o. ReadiEnds (finish o)) (sym q)
              (finish_ends l none
                (subst (ReadEnds sb off (min n (ip.size - off)) ip disk uses) q run))
        | inr (o, q) ↦
            subst (λ o. ReadiEnds (finish o)) (sym q)
              (finish_ends l (some o)
                (subst (ReadEnds sb off (min n (ip.size - off)) ip disk uses) q run))
      ]

  readi_refused : ltb ip.size off ≡ true → readi sb off n ip disk ≡ refused
  unfolding readi
  readi_refused y = rw y refl

  -- readi on a well-formed inode whose size is at most MAXFILE blocks, for a range below 2^32,
  -- returns -1 only where it starts beyond the file, and panics only where at most two blocks are
  -- free for each block of the range, cut off at the end of the file. Else it gives the bytes of that
  -- range, in order and all of them; every byte of the file is as before, the inode is
  -- well-formed, and blocks of others are unchanged.
  pub readi_lem : ip.size ≤ maxfile * bsize → off + n < 2 ^ 32 → ReadiEnds (readi sb off n ip disk)
  readi_lem small fits = elim (Bool-cases (ltb ip.size off)) [
    | inl y ↦ subst ReadiEnds (sym (readi_refused y)) (ground arith)
    | inr z ↦
        let l : off ≤ ip.size = ground arith in
        subst ReadiEnds (sym (readi-finish l fits))
          (bytes_ends (min n (ip.size - off)) refl l small)
  ]
