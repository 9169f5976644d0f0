-- ===== src/Tests/DiskMap.antt =====
-- A disk of three blocks, the last of which is free.
use lab7sp25_shelnutt.Base.{
  ℕ, ◌<◌, ◌≡◌, refl, arith, false, List, ◌∷◌, replicate, length, length-replicate, subst,
  if◌then◌else◌, ◌==◌,
}
use lab7sp25_shelnutt.Fs.Bitmap.{Superblock, Disk, bblock, balloc, bfree, bit_at}
use lab7sp25_shelnutt.Fs.Bitmap.Blocks.{IsMap, AllocEnds, FreeEnds, is_free, balloc_lem, bfree_lem}

abbrev small : Superblock
small = record { size = 3; bmapstart = 1 }

abbrev map_block : List ℕ
map_block = 3 ∷ replicate 511 0

abbrev blocks : Disk
blocks = λ n. if n == 1 then map_block else replicate 512 0

only_block : (j : ℕ) → j < 3 → 1 ≡ bblock j small
only_block j l = omega arith

in_use : is_free small blocks 1 ≡ false
unfolding bit_at
in_use = refl

blocks-IsMap : IsMap small blocks
blocks-IsMap = record {
  sized = λ j l.
      subst (λ n. length (blocks n) ≡ 512) (only_block j l)
        (omega (arith, length-replicate {A = ℕ} 511 0));
  guarded = λ j l. subst (λ n. is_free small blocks n ≡ false) (only_block j l) in_use;
}

balloc_lem_example : AllocEnds small blocks (balloc small blocks)
balloc_lem_example = balloc_lem small blocks blocks-IsMap

bfree_lem_example : FreeEnds small blocks 1 (bfree small 1 blocks)
bfree_lem_example = bfree_lem small blocks 1 blocks-IsMap (omega arith)
