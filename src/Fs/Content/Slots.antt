-- ===== src/Fs/Content/Slots.antt =====
-- An inode gets a block: in its addrs, or in its indirect block.
use lab7sp25_shelnutt.Base.{
  ℕ, ◌%◌, ◌^◌, ◌<◌, ◌≡◌, ◌≢◌, ap, ◌∙◌, sym, set, length, length-set, arith, ℕ_discrete,
}
use lab7sp25_shelnutt.Fs.{bsize}
use lab7sp25_shelnutt.Fs.Bitmap.{is_clear, Superblock, Disk, write_block, bblock, bpb}
use lab7sp25_shelnutt.Fs.Bitmap.Blocks.{is_free, write_block-same, write_block-other}
use lab7sp25_shelnutt.Fs.Content.{Content, word, set_word}
use lab7sp25_shelnutt.Fs.Content.Words.{set-same, set-other, word-same, word-other, length-set_word}
use lab7sp25_shelnutt.Fs.Content.Blocks.{Use, slot, cell, apart, at_slot, at_cell, IsFile}

module _ (sb : Superblock) (disk : Disk) (ip : Content) (uses : ℕ → Use)
    (v : IsFile sb disk ip uses) where
  -- ip->addrs[i] gets the block b, which is zero.
  module _ (i b : ℕ) (l : i < 13) (empty : at_slot ip i ≡ 0) (u : uses b ≡ slot i)
      (size : length (disk b) ≡ bsize) (zeros : (j : ℕ) → word (disk b) j ≡ 0) where
    abbrev pub with_slot : Content
    with_slot = record ip { addrs = set ip.addrs i b }

    pub slot-here : at_slot with_slot i ≡ b
    slot-here = let n = v.all_slots in set-same ip.addrs i b (omega (arith, n))

    pub slot-there : (k : ℕ) → k ≢ i → at_slot with_slot k ≡ at_slot ip k
    slot-there k h = set-other ip.addrs i b k h

    pub with_slot-IsFile : IsFile sb disk with_slot uses
    with_slot-IsFile = record {
      map = v.map;
      in_range = v.in_range;
      map_use = v.map_use;
      free_use = v.free_use;
      zero_used = v.zero_used;
      small = v.small;
      all_slots = length-set ip.addrs i b ∙ v.all_slots;
      slots = λ k m h. elim (ℕ_discrete k i) [
        | yes e ↦ ap (λ x. uses (at_slot with_slot x)) e ∙ ap uses slot-here ∙ u ∙ ap slot (sym e)
        | no e ↦ let s = slot-there k e in ap uses s ∙ v.slots k m (λ x. h (s ∙ x))
      ];
      slots_sized = λ k m h. elim (ℕ_discrete k i) [
        | yes e ↦
            ap (λ x. length (disk (at_slot with_slot x))) e
            ∙ ap (λ x. length (disk x)) slot-here
            ∙ size
        | no e ↦
            let s = slot-there k e in
            ap (λ x. length (disk x)) s ∙ v.slots_sized k m (λ x. h (s ∙ x))
      ];
      cells = λ j m h k. elim (ℕ_discrete 12 i) [
        | yes e ↦ absurd (
            k (
              ap (λ x. word (disk (at_slot with_slot x)) j) e
              ∙ ap (λ x. word (disk x) j) slot-here
              ∙ zeros j))
        | no e ↦
            let s = slot-there 12 e in
            let c = ap (λ x. word (disk x) j) s in
            ap uses c ∙ v.cells j m (λ x. h (s ∙ x)) (λ x. k (c ∙ x))
      ];
      cells_sized = λ j m h k. elim (ℕ_discrete 12 i) [
        | yes e ↦ absurd (
            k (
              ap (λ x. word (disk (at_slot with_slot x)) j) e
              ∙ ap (λ x. word (disk x) j) slot-here
              ∙ zeros j))
        | no e ↦
            let s = slot-there 12 e in
            let c = ap (λ x. word (disk x) j) s in
            ap (λ x. length (disk x)) c ∙ v.cells_sized j m (λ x. h (s ∙ x)) (λ x. k (c ∙ x))
      ];
    }

  -- a[i] gets the block b.
  module _ (i b : ℕ) (l : i < 128) (there : at_slot ip 12 ≢ 0) (u : uses b ≡ cell i)
      (size : length (disk b) ≡ bsize) (m : b < 2 ^ 32) where
    abbrev pub with_cell : Disk
    with_cell = write_block (at_slot ip 12) (set_word (disk (at_slot ip 12)) i b) disk

    pub indirect_use : uses (at_slot ip 12) ≡ slot 12
    indirect_use = v.slots 12 (omega arith) there

    pub cell_kept : (q : ℕ) {x : Use} → uses q ≡ x → x ≢ slot 12 → with_cell q ≡ disk q
    cell_kept q h c =
        write_block-other (at_slot ip 12) q (set_word (disk (at_slot ip 12)) i b) disk
          (apart uses q (at_slot ip 12) h indirect_use c)

    same_block : with_cell (at_slot ip 12) ≡ set_word (disk (at_slot ip 12)) i b
    same_block = write_block-same (at_slot ip 12) (set_word (disk (at_slot ip 12)) i b) disk

    pub cell-here : at_cell ip with_cell i ≡ b
    cell-here =
        let n = v.slots_sized 12 (omega arith) there in
        ap (λ x. word x i) same_block ∙ word-same (disk (at_slot ip 12)) i b (omega (arith, n)) m

    pub cell-there : (k : ℕ) → k ≢ i → at_cell ip with_cell k ≡ at_cell ip disk k
    cell-there k h = ap (λ x. word x k) same_block ∙ word-other (disk (at_slot ip 12)) i b k h

    pub length-with_cell : (q : ℕ) → length (with_cell q) ≡ length (disk q)
    length-with_cell q = elim (ℕ_discrete q (at_slot ip 12)) [
      | yes e ↦
          ap (λ x. length (with_cell x)) e
          ∙ ap length same_block
          ∙ length-set_word (disk (at_slot ip 12)) i b
          ∙ ap (λ x. length (disk x)) (sym e)
      | no e ↦
          ap length
            (write_block-other (at_slot ip 12) q (set_word (disk (at_slot ip 12)) i b) disk e)
    ]

    map_kept : (j : ℕ) → j < sb.size → with_cell (bblock j sb) ≡ disk (bblock j sb)
    map_kept j k = cell_kept (bblock j sb) (v.map_use j k) (λ x. ground arith)

    free_kept : (j : ℕ) → j < sb.size → is_free sb with_cell j ≡ is_free sb disk j
    free_kept j k = ap (λ x. is_clear x (j % bpb)) (map_kept j k)

    pub with_cell-IsFile : 0 < sb.size → IsFile sb with_cell ip uses
    with_cell-IsFile some_block = record {
      map = record {
        sized = λ j k. length-with_cell (bblock j sb) ∙ v.map.sized j k;
        guarded = λ j k. free_kept (bblock j sb) (v.in_range j k) ∙ v.map.guarded j k;
      };
      in_range = v.in_range;
      map_use = v.map_use;
      free_use = λ j k h. v.free_use j k (sym (free_kept j k) ∙ h);
      zero_used = free_kept 0 some_block ∙ v.zero_used;
      small = v.small;
      all_slots = v.all_slots;
      slots = v.slots;
      slots_sized = λ k n h. length-with_cell (at_slot ip k) ∙ v.slots_sized k n h;
      cells = λ k n h c. elim (ℕ_discrete k i) [
        | yes e ↦
            ap (λ x. uses (at_cell ip with_cell x)) e ∙ ap uses cell-here ∙ u ∙ ap cell (sym e)
        | no e ↦ let s = cell-there k e in ap uses s ∙ v.cells k n h (λ x. c (s ∙ x))
      ];
      cells_sized = λ k n h c. length-with_cell (at_cell ip with_cell k) ∙ elim (ℕ_discrete k i) [
        | yes e ↦
            ap (λ x. length (disk (at_cell ip with_cell x))) e
            ∙ ap (λ x. length (disk x)) cell-here
            ∙ size
        | no e ↦
            let s = cell-there k e in
            ap (λ x. length (disk x)) s ∙ v.cells_sized k n h (λ x. c (s ∙ x))
      ];
    }
