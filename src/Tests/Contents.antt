-- ===== src/Tests/Contents.antt =====
-- Runs of bmap, readi and writei on a file of three bytes.
use lab7sp25_shelnutt.Base.{
  ℕ, zero, suc, ◌<◌, ◌≡◌, ◌≢◌, refl, ap, sym, ◌∙◌, arith, false, [], ◌∷◌, replicate, length,
  length-replicate, get_or-replicate, subst, if◌then◌else◌, ◌==◌, ℕ_discrete,
}
use lab7sp25_shelnutt.Fs.Bitmap.{Superblock, Disk, bblock, bit_at}
use lab7sp25_shelnutt.Fs.Bitmap.Blocks.{is_free}
use lab7sp25_shelnutt.Fs.Content.{Content, bmap, readi, writei}
use lab7sp25_shelnutt.Fs.Content.Blocks.{Use, slot, unused, elsewhere, at_slot, IsFile}
use lab7sp25_shelnutt.Fs.Content.Bmap.{BmapEnds, bmap_lem}
use lab7sp25_shelnutt.Fs.Content.Readi.{ReadiEnds, readi_lem}
use lab7sp25_shelnutt.Fs.Content.Writei.{WriteiEnds, writei_lem}

abbrev small : Superblock
small = record { size = 4; bmapstart = 1 }

-- Block 1 is the map, block 2 is the file's, and block 3 is free.
abbrev blocks : Disk
blocks n =
    if n == 1
    then 7 ∷ replicate 511 0
    else if n == 2
    then 7 ∷ 8 ∷ 9 ∷ replicate 509 0
    else replicate 512 0

abbrev three_bytes : Content
three_bytes = record { addrs = 2 ∷ replicate 12 0; size = 3 }

abbrev uses : ℕ → Use
uses q = if q == 2 then slot 0 else if q == 3 then unused else elsewhere

only_block : (j : ℕ) → j < 4 → 1 ≡ bblock j small
only_block j l = omega arith

used : (j : ℕ) → j < 3 → is_free small blocks j ≡ false
unfolding bit_at
used zero l = refl
used (suc zero) l = refl
used (suc (suc zero)) l = refl
used (suc (suc (suc j))) l = absurd (omega arith)

only_slot : (i : ℕ) → at_slot three_bytes i ≢ 0 → i ≡ 0
only_slot zero h = refl
only_slot (suc i) h = absurd (h (get_or-replicate {A = ℕ} 12 i 0))

three_bytes-IsFile : IsFile small blocks three_bytes uses
three_bytes-IsFile = record {
  map = record {
    sized = λ j l.
        subst (λ n. length (blocks n) ≡ 512) (only_block j l)
          (omega (arith, length-replicate {A = ℕ} 511 0));
    guarded =
        λ j l. subst (λ n. is_free small blocks n ≡ false) (only_block j l) (used 1 (omega arith));
  };
  in_range = λ j l. omega arith;
  map_use = λ j l. subst (λ n. uses n ≡ elsewhere) (only_block j l) refl;
  free_use = λ b l h. elim (ℕ_discrete b 3) [
    | yes e ↦ ap uses e
    | no e ↦ let f = sym h ∙ used b (omega arith) in ground arith
  ];
  zero_used = used 0 (omega arith);
  small = omega arith;
  all_slots = omega (arith, length-replicate {A = ℕ} 12 0);
  slots = λ i l h. subst (λ k. uses (at_slot three_bytes k) ≡ slot k) (sym (only_slot i h)) refl;
  slots_sized = λ i l h.
      subst (λ k. length (blocks (at_slot three_bytes k)) ≡ 512) (sym (only_slot i h))
        (omega (arith, length-replicate {A = ℕ} 509 0));
  cells = λ j l h c. absurd (h refl);
  cells_sized = λ j l h c. absurd (h refl);
}

bmap_lem_example :
    BmapEnds small three_bytes blocks uses three_bytes-IsFile 1 (bmap small 1 three_bytes blocks)
bmap_lem_example = bmap_lem small three_bytes blocks uses three_bytes-IsFile 1 (omega arith)

readi_lem_example :
    ReadiEnds small three_bytes blocks uses three_bytes-IsFile 1 5
      (readi small 1 5 three_bytes blocks)
readi_lem_example =
    readi_lem small three_bytes blocks uses three_bytes-IsFile 1 5 (omega arith) (omega arith)

writei_lem_example :
    WriteiEnds small three_bytes blocks uses
      (omega arith)
      three_bytes-IsFile
      30
      2
      (4 ∷ 5 ∷ [])
      (writei small 30 2 (4 ∷ 5 ∷ []) three_bytes blocks)
writei_lem_example =
    writei_lem small three_bytes blocks uses (omega arith) three_bytes-IsFile 30 2 (4 ∷ 5 ∷ [])
      (omega arith)
