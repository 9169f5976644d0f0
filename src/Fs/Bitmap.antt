-- ===== src/Fs/Bitmap.antt =====
-- fs.c: the map of the free blocks. `disk` is what bread returns by the number of a block, with all
-- that the current transaction wrote; a byte of the map is a number below 256.
pub mod Bits
pub mod Bytes
pub mod Blocks
use lab7sp25_shelnutt.Base.{
  ℕ, zero, suc, ◌+◌, ◌-◌, ◌*◌, ◌/◌, ◌%◌, ◌^◌, Bool, true, false, not, Option, none, some, List, [],
  ◌∷◌, ◌==◌, ltb, if◌then◌else◌, get_or, set, replicate,
}
use lab7sp25_shelnutt.Fs.{bsize}

-- BPB
abbrev pub bpb : ℕ
bpb = bsize * 8

pub record Superblock : Type 0 where
  pub size : ℕ
  pub bmapstart : ℕ

abbrev pub Disk : Type 0
Disk = ℕ → List ℕ

abbrev pub bblock : ℕ → Superblock → ℕ
bblock b sb = b / bpb + sb.bmapstart

-- Whether x & (1 << k) is not 0: the bit itself.
unfoldable pub bit_at : ℕ → ℕ → ℕ
bit_at zero x = x % 2
bit_at (suc k) x = bit_at k (x / 2)

-- Bit `bi` of a block of the map is clear.
abbrev pub is_clear : List ℕ → ℕ → Bool
is_clear d bi = bit_at (bi % 8) (get_or d (bi / 8) 0) == 0

-- d[bi/8] |= m where the bit is clear, and d[bi/8] &= ~m where it is set.
abbrev pub set_bit : List ℕ → ℕ → List ℕ
set_bit d bi = set d (bi / 8) (get_or d (bi / 8) 0 + 2 ^ (bi % 8))

abbrev pub clear_bit : List ℕ → ℕ → List ℕ
clear_bit d bi = set d (bi / 8) (get_or d (bi / 8) 0 - 2 ^ (bi % 8))

abbrev pub write_block : ℕ → List ℕ → Disk → Disk
write_block n d disk = λ m. if m == n then d else disk m

abbrev pub bzero : ℕ → Disk → Disk
bzero n disk = write_block n (replicate bsize 0) disk

-- The inner loop of balloc from `bi` on, over the block of the map for the blocks from b on.
unfoldable pub find_clear : ℕ → ℕ → List ℕ → ℕ → ℕ → Option ℕ
unfolding bit_at
find_clear size b d zero bi = none
find_clear size b d (suc left) bi =
    let rest = find_clear size b d left (suc bi) in
    if not (ltb (b + bi) size) then none else if is_clear d bi then some bi else rest

-- The outer loop of balloc; `k` counts the blocks of the map and `fuel` bounds the rounds.
unfoldable pub balloc_from : Superblock → Disk → ℕ → ℕ → Option (ℕ × Disk)
unfolding find_clear
balloc_from sb disk zero k = none
balloc_from sb disk (suc fuel) k =
    let b = k * bpb in
    let n = bblock b sb in
    let rest = balloc_from sb disk fuel (suc k) in
    let here = elim (find_clear sb.size b (disk n) bpb 0) as (λ _. Option (ℕ × Disk)) [
      | some bi ↦ some (b + bi, bzero (b + bi) (write_block n (set_bit (disk n) bi) disk))
      | none ↦ rest
    ] in
    if ltb b sb.size then here else none

-- balloc; `none` is its panic.
unfoldable pub balloc : Superblock → Disk → Option (ℕ × Disk)
unfolding balloc_from
balloc sb disk = balloc_from sb disk (suc sb.size) 0

-- bfree; `none` is its panic.
unfoldable pub bfree : Superblock → ℕ → Disk → Option Disk
bfree sb b disk =
    let n = bblock b sb in
    let bi = b % bpb in
    if is_clear (disk n) bi then none else some (write_block n (clear_bit (disk n) bi) disk)
