-- ===== src/Fs/Content/Store.antt =====
-- A write to a block of a file.
use lab7sp25_shelnutt.Base.{
  ℕ, ◌-◌, ◌%◌, ◌<◌, ◌≡◌, ◌≢◌, ap, ◌∙◌, sym, List, ltb, length, arith, ℕ_discrete, Bool-cases, inl,
  inr,
}
use lab7sp25_shelnutt.Fs.{bsize}
use lab7sp25_shelnutt.Fs.Bitmap.{is_clear, bpb, Superblock, Disk, bblock, write_block}
use lab7sp25_shelnutt.Fs.Bitmap.Blocks.{is_free, write_block-same, write_block-other}
use lab7sp25_shelnutt.Fs.Content.{Content, word}
use lab7sp25_shelnutt.Fs.Content.Blocks.{Use, apart, at_slot, at_cell, IsFile}
use lab7sp25_shelnutt.Fs.Content.View.{
  block_of, data_of, use_of, block_of-slot, block_of-none, block_of-cell, data_of-block, data_kept,
  use_of-block, use_of-elsewhere, use_of-indirect, use_of-apart,
}

module _ (sb : Superblock) (ip : Content) (disk : Disk) (uses : ℕ → Use)
    (v : IsFile sb disk ip uses) (n : ℕ) (l : n < 140) (there : block_of ip disk n ≢ 0) (d : List ℕ)
    (size : length d ≡ bsize) where
  abbrev pub stored : Disk
  stored = write_block (block_of ip disk n) d disk

  mine : uses (block_of ip disk n) ≡ use_of n
  mine = use_of-block sb disk ip uses v n l there

  pub stored_other : (q : ℕ) {x : Use} → uses q ≡ x → x ≢ use_of n → stored q ≡ disk q
  stored_other q h c =
      write_block-other (block_of ip disk n) q d disk (apart uses q (block_of ip disk n) h mine c)

  length-stored : (q : ℕ) → length (disk q) ≡ bsize → length (stored q) ≡ bsize
  length-stored q h = elim (ℕ_discrete q (block_of ip disk n)) [
    | yes e ↦
        ap (λ x. length (stored x)) e
        ∙ ap length (write_block-same (block_of ip disk n) d disk)
        ∙ size
    | no e ↦ ap length (write_block-other (block_of ip disk n) q d disk e) ∙ h
  ]

  stored_cell : (j : ℕ) → at_slot ip 12 ≢ 0 → at_cell ip stored j ≡ at_cell ip disk j
  stored_cell j h =
      ap (λ x. word x j)
        (stored_other (at_slot ip 12) (v.slots 12 (omega arith) h) (λ x. use_of-indirect n (sym x)))

  pub stored_free : (j : ℕ) → j < sb.size → is_free sb stored j ≡ is_free sb disk j
  stored_free j k =
      ap (λ x. is_clear x (j % bpb))
        (stored_other (bblock j sb) (v.map_use j k) (λ x. use_of-elsewhere n (sym x)))

  pub stored_block : (k : ℕ) → block_of ip stored k ≡ block_of ip disk k
  stored_block k = elim (Bool-cases (ltb k 12)) [
    | inl y ↦
        block_of-slot ip stored k (ground arith) ∙ sym (block_of-slot ip disk k (ground arith))
    | inr z ↦ elim (ℕ_discrete (at_slot ip 12) 0) [
      | yes e ↦
          block_of-none ip stored k (ground arith) e
          ∙ sym (block_of-none ip disk k (ground arith) e)
      | no e ↦
          block_of-cell ip stored k (ground arith) e
          ∙ stored_cell (k - 12) e
          ∙ sym (block_of-cell ip disk k (ground arith) e)
    ]
  ]

  pub stored-here : data_of ip stored n ≡ d
  stored-here =
      data_of-block ip stored n (λ x. there (sym (stored_block n) ∙ x))
      ∙ ap stored (stored_block n)
      ∙ write_block-same (block_of ip disk n) d disk

  pub stored-there : (k : ℕ) → k < 140 → k ≢ n → data_of ip stored k ≡ data_of ip disk k
  stored-there k m h = data_kept ip ip disk stored k (stored_block k) (λ x.
      stored_other (block_of ip disk k) (use_of-block sb disk ip uses v k m x) (use_of-apart k n h))

  pub stored-IsFile : 0 < sb.size → IsFile sb stored ip uses
  stored-IsFile some_block = record {
    map = record {
      sized = λ j k. length-stored (bblock j sb) (v.map.sized j k);
      guarded = λ j k. stored_free (bblock j sb) (v.in_range j k) ∙ v.map.guarded j k;
    };
    in_range = v.in_range;
    map_use = v.map_use;
    free_use = λ j k h. v.free_use j k (sym (stored_free j k) ∙ h);
    zero_used = stored_free 0 some_block ∙ v.zero_used;
    small = v.small;
    all_slots = v.all_slots;
    slots = v.slots;
    slots_sized = λ i k h. length-stored (at_slot ip i) (v.slots_sized i k h);
    cells = λ j k h c. let e = stored_cell j h in ap uses e ∙ v.cells j k h (λ x. c (e ∙ x));
    cells_sized = λ j k h c.
        let e = stored_cell j h in
        ap (λ q. length (stored q)) e
        ∙ length-stored (at_cell ip disk j) (v.cells_sized j k h (λ x. c (e ∙ x)));
  }
