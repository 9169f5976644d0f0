-- ===== src/Fs/Content/View.antt =====
-- A file as the data of its blocks, where a block that is not there is zero.
use lab7sp25_shelnutt.Base.{
  ℕ, ◌-◌, ◌/◌, ◌%◌, ◌≤◌, ◌<◌, ◌≡◌, ◌≢◌, refl, ap, ◌∙◌, sym, Bool, true, false, List, ◌==◌, ltb,
  if◌then◌else◌, get_or, length, replicate, arith, ℕ_discrete, Bool-cases, inl, inr,
}
use lab7sp25_shelnutt.Fs.{bsize}
use lab7sp25_shelnutt.Fs.Bitmap.{Superblock, Disk}
use lab7sp25_shelnutt.Fs.Content.{Content}
use lab7sp25_shelnutt.Fs.Content.Blocks.{
  Use, slot, cell, unused, elsewhere, at_slot, at_cell, IsFile,
}

-- The number of the k-th block of a file, or 0.
abbrev pub block_of : Content → Disk → ℕ → ℕ
block_of ip disk k =
    if ltb k 12 then at_slot ip k else if at_slot ip 12 == 0 then 0 else at_cell ip disk (k - 12)

abbrev pub data_of : Content → Disk → ℕ → List ℕ
data_of ip disk k = if block_of ip disk k == 0 then replicate bsize 0 else disk (block_of ip disk k)

abbrev pub use_of : ℕ → Use
use_of k = if ltb k 12 then slot k else cell (k - 12)

module _ (ip : Content) (disk : Disk) (k : ℕ) where
  pub block_of-slot : k < 12 → block_of ip disk k ≡ at_slot ip k
  block_of-slot l = let c : ltb k 12 ≡ true = ground arith in rw c refl

  pub block_of-none : 12 ≤ k → at_slot ip 12 ≡ 0 → block_of ip disk k ≡ 0
  block_of-none l h =
      let c : ltb k 12 ≡ false = ground arith in
      let z : (at_slot ip 12 == 0) ≡ true = ground arith in rw (c, z) refl

  pub block_of-cell : 12 ≤ k → at_slot ip 12 ≢ 0 → block_of ip disk k ≡ at_cell ip disk (k - 12)
  block_of-cell l h =
      let c : ltb k 12 ≡ false = ground arith in
      let z : (at_slot ip 12 == 0) ≡ false = ground arith in rw (c, z) refl

  pub data_of-block : block_of ip disk k ≢ 0 → data_of ip disk k ≡ disk (block_of ip disk k)
  data_of-block h = let z : (block_of ip disk k == 0) ≡ false = ground arith in rw z refl

  pub data_of-none : block_of ip disk k ≡ 0 → data_of ip disk k ≡ replicate bsize 0
  data_of-none h = let z : (block_of ip disk k == 0) ≡ true = ground arith in rw z refl

pub use_of-slot : (k : ℕ) → k < 12 → use_of k ≡ slot k
use_of-slot k l = let c : ltb k 12 ≡ true = ground arith in rw c refl

pub use_of-cell : (k : ℕ) → 12 ≤ k → use_of k ≡ cell (k - 12)
use_of-cell k l = let c : ltb k 12 ≡ false = ground arith in rw c refl

-- The data of a block stays where its number and the block do.
pub data_kept :
    (ip ip' : Content) (disk disk' : Disk) (k : ℕ)
    → block_of ip' disk' k ≡ block_of ip disk k
    → (block_of ip disk k ≢ 0 → disk' (block_of ip disk k) ≡ disk (block_of ip disk k))
    → data_of ip' disk' k ≡ data_of ip disk k
data_kept ip ip' disk disk' k e f = elim (ℕ_discrete (block_of ip disk k) 0) [
  | yes z ↦ data_of-none ip' disk' k (e ∙ z) ∙ sym (data_of-none ip disk k z)
  | no n ↦
      data_of-block ip' disk' k (λ x. n (sym e ∙ x))
      ∙ ap disk' e
      ∙ f n
      ∙ sym (data_of-block ip disk k n)
]

-- A block that comes is zero.
pub data_new :
    (ip ip' : Content) (disk disk' : Disk) (k b : ℕ)
    → block_of ip disk k ≡ 0
    → block_of ip' disk' k ≡ b
    → b ≢ 0
    → disk' b ≡ replicate bsize 0
    → data_of ip' disk' k ≡ data_of ip disk k
data_new ip ip' disk disk' k b z e n d =
    data_of-block ip' disk' k (λ x. n (sym e ∙ x)) ∙ ap disk' e ∙ d ∙ sym (data_of-none ip disk k z)

-- What the k-th block of the file is for.
pub use_of-block :
    (sb : Superblock) (disk : Disk) (ip : Content) (uses : ℕ → Use)
    → IsFile sb disk ip uses
    → (k : ℕ) → k < 140
    → block_of ip disk k ≢ 0
    → uses (block_of ip disk k) ≡ use_of k
use_of-block sb disk ip uses v k l h = elim (Bool-cases (ltb k 12)) [
  | inl y ↦
      let c : k < 12 = ground arith in
      let e = block_of-slot ip disk k c in
      ap uses e ∙ v.slots k (omega arith) (λ x. h (e ∙ x)) ∙ sym (use_of-slot k c)
  | inr z ↦
      let c : 12 ≤ k = ground arith in
      elim (ℕ_discrete (at_slot ip 12) 0) [
        | yes n ↦ absurd (h (block_of-none ip disk k c n))
        | no n ↦
            let e = block_of-cell ip disk k c n in
            ap uses e ∙ v.cells (k - 12) (omega arith) n (λ x. h (e ∙ x)) ∙ sym (use_of-cell k c)
      ]
]

-- It is neither free nor another's nor the indirect block.
pub use_of-unused : (k : ℕ) → use_of k ≢ unused
use_of-unused k h = elim (Bool-cases (ltb k 12)) [
  | inl y ↦ let e = sym (use_of-slot k (ground arith)) ∙ h in ground arith
  | inr z ↦ let e = sym (use_of-cell k (ground arith)) ∙ h in ground arith
]

pub use_of-elsewhere : (k : ℕ) → use_of k ≢ elsewhere
use_of-elsewhere k h = elim (Bool-cases (ltb k 12)) [
  | inl y ↦ let e = sym (use_of-slot k (ground arith)) ∙ h in ground arith
  | inr z ↦ let e = sym (use_of-cell k (ground arith)) ∙ h in ground arith
]

number : Use → ℕ
number (slot i) = i
number (cell i) = i
number unused = 0
number elsewhere = 0

pub use_of-indirect : (k : ℕ) → use_of k ≢ slot 12
unfolding number
use_of-indirect k h = elim (Bool-cases (ltb k 12)) [
  | inl y ↦ let e = ap number (sym (use_of-slot k (ground arith)) ∙ h) in ground arith
  | inr z ↦ let e = sym (use_of-cell k (ground arith)) ∙ h in ground arith
]

is_cell : Use → Bool
is_cell (slot i) = false
is_cell (cell i) = true
is_cell unused = false
is_cell elsewhere = false

pub use_of-apart : (k n : ℕ) → k ≢ n → use_of k ≢ use_of n
unfolding number is_cell
use_of-apart k n h e = elim (Bool-cases (ltb k 12)) [
  | inl y ↦ elim (Bool-cases (ltb n 12)) [
    | inl y' ↦
        let f = ap number (sym (use_of-slot k (ground arith)) ∙ e ∙ use_of-slot n (ground arith)) in
        ground (arith, f)
    | inr z' ↦
        let f =
          ap is_cell (sym (use_of-slot k (ground arith)) ∙ e ∙ use_of-cell n (ground arith)) in
        ground arith
  ]
  | inr z ↦ elim (Bool-cases (ltb n 12)) [
    | inl y' ↦
        let f =
          ap is_cell (sym (use_of-cell k (ground arith)) ∙ e ∙ use_of-slot n (ground arith)) in
        ground arith
    | inr z' ↦
        let f = ap number (sym (use_of-cell k (ground arith)) ∙ e ∙ use_of-cell n (ground arith)) in
        ground (arith, f)
  ]
]

pub block_sized :
    (sb : Superblock) (disk : Disk) (ip : Content) (uses : ℕ → Use)
    → IsFile sb disk ip uses
    → (k : ℕ) → k < 140
    → block_of ip disk k ≢ 0
    → length (disk (block_of ip disk k)) ≡ bsize
block_sized sb disk ip uses v k l h = elim (Bool-cases (ltb k 12)) [
  | inl y ↦
      let e = block_of-slot ip disk k (ground arith) in
      ap (λ q. length (disk q)) e ∙ v.slots_sized k (ground arith) (λ x. h (e ∙ x))
  | inr z ↦ elim (ℕ_discrete (at_slot ip 12) 0) [
    | yes n ↦ absurd (h (block_of-none ip disk k (ground arith) n))
    | no n ↦
        let e = block_of-cell ip disk k (ground arith) n in
        ap (λ q. length (disk q)) e ∙ v.cells_sized (k - 12) (ground arith) n (λ x. h (e ∙ x))
  ]
]

-- The byte of a file at an offset.
abbrev pub byte_of : Content → Disk → ℕ → ℕ
byte_of ip disk x = get_or (data_of ip disk (x / bsize)) (x % bsize) 0
