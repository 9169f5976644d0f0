-- ===== src/Fs/Bitmap/Blocks.antt =====
-- balloc and bfree on the map as a set of block numbers.
use lab7sp25_shelnutt.Base.{
  ℕ, zero, suc, ◌+◌, ◌-◌, ◌*◌, ◌/◌, ◌%◌, ◌≤◌, ◌<◌, ◌≡◌, ◌≢◌, refl, ap, ◌∙◌, sym, Bool, true, false,
  Option, none, some, List, ◌==◌, ltb, ℕ_discrete, dec_lt, length, replicate, length-set, get_or,
  ◌^◌, arith, Bool-cases, Option-cases, inl, inr, subst, subst₂,
}
use lab7sp25_shelnutt.Fs.{bsize}
use lab7sp25_shelnutt.Fs.Bitmap.{
  bpb, Superblock, Disk, bblock, is_clear, set_bit, clear_bit, write_block, bzero, find_clear,
  balloc_from, balloc, bfree,
}
use lab7sp25_shelnutt.Fs.Bitmap.Bytes.{
  Found, find_clear-Found, set_bit-same, set_bit-other, clear_bit-same, clear_bit-other,
}

-- A block is free in the map.
abbrev pub is_free : Superblock → Disk → ℕ → Bool
is_free sb disk b = is_clear (disk (bblock b sb)) (b % bpb)

-- The blocks of the map have their size, and are themselves in use.
pub record IsMap (sb : Superblock) (disk : Disk) : Type 0 where
  pub sized : (j : ℕ) → j < sb.size → length (disk (bblock j sb)) ≡ bsize
  pub guarded : (j : ℕ) → j < sb.size → is_free sb disk (bblock j sb) ≡ false

-- What balloc does when it takes the block b.
pub record Allocated (sb : Superblock) (disk : Disk) (b : ℕ) (disk' : Disk) : Type 0 where
  pub in_range : b < sb.size
  pub was_free : is_free sb disk b ≡ true
  pub first : (j : ℕ) → j < b → is_free sb disk j ≡ false
  pub taken : is_free sb disk' b ≡ false
  pub others : (j : ℕ) → j < sb.size → j ≢ b → is_free sb disk' j ≡ is_free sb disk j
  pub zeroed : disk' b ≡ replicate bsize 0
  pub sized : (j : ℕ) → j < sb.size → length (disk' (bblock j sb)) ≡ bsize
  pub kept : (n : ℕ) → n ≢ b → n ≢ bblock b sb → disk' n ≡ disk n

pub write_block-same : (n : ℕ) (d : List ℕ) (disk : Disk) → write_block n d disk n ≡ d
write_block-same n d disk = let e : (n == n) ≡ true = ground arith in rw e refl

pub write_block-other :
    (n m : ℕ) (d : List ℕ) (disk : Disk) → m ≢ n → write_block n d disk m ≡ disk m
write_block-other n m d disk h = let e : (m == n) ≡ false = ground arith in rw e refl

-- The block b is free, so it is no block of the map.
no_map_block :
    (sb : Superblock) (disk : Disk) (b j : ℕ)
    → IsMap sb disk
    → j < sb.size
    → is_free sb disk b ≡ true
    → bblock j sb ≢ b
no_map_block sb disk b j v l h e =
    let f = sym (subst (λ x. is_free sb disk x ≡ false) e (v.guarded j l)) ∙ h in ground arith

take_block :
    (sb : Superblock) (disk : Disk) (b : ℕ)
    → IsMap sb disk
    → b < sb.size
    → is_free sb disk b ≡ true
    → ((j : ℕ) → j < b → is_free sb disk j ≡ false)
    → Allocated sb disk b
        (bzero b (write_block (bblock b sb) (set_bit (disk (bblock b sb)) (b % bpb)) disk))
take_block sb disk b v l h f =
    let n = bblock b sb in
    let d = set_bit (disk n) (b % bpb) in
    let room : (b % bpb) / 8 < length (disk n) = omega (arith, v.sized b l) in
    let apart : b ≢ n = λ e. no_map_block sb disk b b v l h (sym e) in
    let map_read : (j : ℕ)
        → j < sb.size
        → bzero b (write_block n d disk) (bblock j sb) ≡ write_block n d disk (bblock j sb) =
      λ j k.
        write_block-other b (bblock j sb) (replicate bsize 0) (write_block n d disk)
          (no_map_block sb disk b j v k h) in
    record {
      in_range = l;
      was_free = h;
      first = f;
      taken =
          ap (λ x. is_clear x (b % bpb)) (map_read b l ∙ write_block-same n d disk)
          ∙ set_bit-same (disk n) (b % bpb) room h;
      others = λ j k m.
          ap (λ x. is_clear x (j % bpb)) (map_read j k) ∙ elim (ℕ_discrete (bblock j sb) n) [
            | yes e ↦
                let q : j % bpb ≢ b % bpb = omega arith in
                ap (λ i. is_clear (write_block n d disk i) (j % bpb)) e
                ∙ ap (λ x. is_clear x (j % bpb)) (write_block-same n d disk)
                ∙ set_bit-other (disk n) (b % bpb) (j % bpb) room q h
                ∙ ap (λ i. is_clear (disk i) (j % bpb)) (sym e)
            | no e ↦ ap (λ x. is_clear x (j % bpb)) (write_block-other n (bblock j sb) d disk e)
          ];
      sized = λ j k. ap length (map_read j k) ∙ elim (ℕ_discrete (bblock j sb) n) [
        | yes e ↦
            ap (λ x. length (write_block n d disk x)) e
            ∙ ap length (write_block-same n d disk)
            ∙ length-set (disk n) ((b % bpb) / 8)
                (get_or (disk n) ((b % bpb) / 8) 0 + 2 ^ ((b % bpb) % 8))
            ∙ v.sized b l
        | no e ↦ ap length (write_block-other n (bblock j sb) d disk e) ∙ v.sized j k
      ];
      zeroed = write_block-same b (replicate bsize 0) (write_block n d disk);
      kept = λ m p q.
          write_block-other b m (replicate bsize 0) (write_block n d disk) p
          ∙ write_block-other n m d disk q;
    }

-- A bit of the k-th block of the map, as a block number.
place : (sb : Superblock) (k j : ℕ) → j < bpb → bblock (k * bpb + j) sb ≡ bblock (k * bpb) sb
place sb k j l = omega arith

index : (k j : ℕ) → j < bpb → (k * bpb + j) % bpb ≡ j
index k j l = omega arith

in_map :
    (sb : Superblock) (disk : Disk) (k j : ℕ)
    → j < bpb
    → is_free sb disk (k * bpb + j) ≡ is_clear (disk (bblock (k * bpb) sb)) j
in_map sb disk k j l =
    ap (λ n. is_clear (disk n) ((k * bpb + j) % bpb)) (place sb k j l)
    ∙ ap (is_clear (disk (bblock (k * bpb) sb))) (index k j l)

abbrev pub AllocEnds : Superblock → Disk → Option (ℕ × Disk) → Type 0
AllocEnds sb disk none = (j : ℕ) → j < sb.size → is_free sb disk j ≡ false
AllocEnds sb disk (some (b, disk')) = Allocated sb disk b disk'

-- The blocks before those of a block of the map are in use, and so are the first i of these.
passed :
    (sb : Superblock) (disk : Disk) (k i : ℕ)
    → i ≤ bpb
    → ((j : ℕ) → j < k * bpb → j < sb.size → is_free sb disk j ≡ false)
    → ((j : ℕ) → j < i → k * bpb + j < sb.size → is_clear (disk (bblock (k * bpb) sb)) j ≡ false)
    → (j : ℕ) → j < k * bpb + i
    → j < sb.size
    → is_free sb disk j ≡ false
passed sb disk k i l before inner j m q = elim (dec_lt j (k * bpb)) [
  | yes a ↦ before j a q
  | no a ↦
      let e : k * bpb + (j - k * bpb) ≡ j = omega arith in
      subst (λ x. is_free sb disk x ≡ false) e
        (in_map sb disk k (j - k * bpb) (omega arith)
          ∙ inner (j - k * bpb) (omega arith) (omega arith))
]

balloc_from-AllocEnds :
    (sb : Superblock) (disk : Disk) (fuel k : ℕ)
    → IsMap sb disk
    → sb.size < k + fuel
    → ((j : ℕ) → j < k * bpb → j < sb.size → is_free sb disk j ≡ false)
    → AllocEnds sb disk (balloc_from sb disk fuel k)
unfolding balloc_from
balloc_from-AllocEnds sb disk zero k v l before = λ j m. before j (omega arith) m
balloc_from-AllocEnds sb disk (suc fuel) k v l before = elim (Bool-cases (ltb (k * bpb) sb.size)) [
  | inr n ↦ rw (n, balloc_from) (λ j m. before j (ground arith) m)
  | inl y ↦
      let n = bblock (k * bpb) sb in
      let found = find_clear-Found sb.size (k * bpb) (disk n) bpb 0 in
      elim (Option-cases (find_clear sb.size (k * bpb) (disk n) bpb 0)) [
        | inl e ↦
            let f = subst (Found sb.size (k * bpb) (disk n) bpb 0) e found in
            let all =
              passed sb disk k bpb (omega arith) before
                (λ j a b. f j (omega arith) (omega arith) b) in
            rw (y, e, balloc_from)
              (balloc_from-AllocEnds sb disk fuel (suc k) v (omega arith)
                (λ j a b. all j (omega arith) b))
        | inr (i, e) ↦
            let (a, b, c, h, f) = subst (Found sb.size (k * bpb) (disk n) bpb 0) e found in
            let all = passed sb disk k i (omega arith) before (λ j q r. f j (omega arith) q) in
            let got =
              take_block sb disk (k * bpb + i) v c (in_map sb disk k i (omega arith) ∙ h)
                (λ j q. all j q (omega arith)) in
            rw (y, e, balloc_from)
              (subst₂
                (λ m x.
                  Allocated sb disk (k * bpb + i)
                    (bzero (k * bpb + i) (write_block m (set_bit (disk m) x) disk)))
                (place sb k i (omega arith)) (index k i (omega arith)) got)
      ]
]

-- balloc on a map whose blocks are marked as in use. It panics only if no block of the disk is free.
-- Otherwise it takes the first block that is: this is in use then, and zero; the map is the same for
-- all others; and no other block but the one of the map is written.
pub balloc_lem :
    (sb : Superblock) (disk : Disk) → IsMap sb disk → AllocEnds sb disk (balloc sb disk)
unfolding balloc
balloc_lem sb disk v =
    balloc_from-AllocEnds sb disk (suc sb.size) 0 v (omega arith) (λ j l m. absurd (omega arith))

-- What bfree of the block b leaves.
pub record Freed (sb : Superblock) (disk : Disk) (b : ℕ) (disk' : Disk) : Type 0 where
  pub was_used : is_free sb disk b ≡ false
  pub freed : is_free sb disk' b ≡ true
  pub others : (j : ℕ) → j ≢ b → is_free sb disk' j ≡ is_free sb disk j
  pub kept : (n : ℕ) → n ≢ bblock b sb → disk' n ≡ disk n

abbrev pub FreeEnds : Superblock → Disk → ℕ → Option Disk → Type 0
FreeEnds sb disk b none = is_free sb disk b ≡ true
FreeEnds sb disk b (some disk') = Freed sb disk b disk'

-- bfree of a block of the disk, on such a map: it panics exactly if the block is free; if not, that
-- block is free then, the map is the same for all others, and no block but the one of the map is
-- written.
pub bfree_lem :
    (sb : Superblock) (disk : Disk) (b : ℕ)
    → IsMap sb disk
    → b < sb.size
    → FreeEnds sb disk b (bfree sb b disk)
unfolding bfree
bfree_lem sb disk b v l =
    let n = bblock b sb in
    let d = clear_bit (disk n) (b % bpb) in
    let room : (b % bpb) / 8 < length (disk n) = omega (arith, v.sized b l) in
    elim (Bool-cases (is_clear (disk n) (b % bpb))) [
      | inl y ↦ rw (y, bfree) y
      | inr z ↦
          rw (z, bfree)
            (record {
              was_used = z;
              freed =
                  ap (λ x. is_clear x (b % bpb)) (write_block-same n d disk)
                  ∙ clear_bit-same (disk n) (b % bpb) room z;
              others = λ j m. elim (ℕ_discrete (bblock j sb) n) [
                | yes e ↦
                    let q : j % bpb ≢ b % bpb = omega arith in
                    ap (λ i. is_clear (write_block n d disk i) (j % bpb)) e
                    ∙ ap (λ x. is_clear x (j % bpb)) (write_block-same n d disk)
                    ∙ clear_bit-other (disk n) (b % bpb) (j % bpb) room q z
                    ∙ ap (λ i. is_clear (disk i) (j % bpb)) (sym e)
                | no e ↦ ap (λ x. is_clear x (j % bpb)) (write_block-other n (bblock j sb) d disk e)
              ];
              kept = λ m q. write_block-other n m d disk q;
            })
    ]
