-- ===== src/Fs/Content/Steps.antt =====
-- The two steps of bmap, each of which finds a block or allocates it.
use lab7sp25_shelnutt.Base.{
  ℕ, ◌%◌, ◌^◌, ◌<◌, ◌≡◌, ◌≢◌, refl, ap, ◌∙◌, sym, true, false, ◌==◌, set, replicate, arith,
  Bool-cases, inl, inr, subst, Option, none, some, Option-cases,
}
use lab7sp25_shelnutt.Fs.{bsize}
use lab7sp25_shelnutt.Fs.Bitmap.{is_clear, bpb, Superblock, Disk, write_block, bblock, balloc}
use lab7sp25_shelnutt.Fs.Bitmap.Blocks.{is_free, Allocated, AllocEnds, balloc_lem}
use lab7sp25_shelnutt.Fs.Content.{Content, word, set_word, slot_block, word_block}
use lab7sp25_shelnutt.Fs.Content.Words.{word-zero}
use lab7sp25_shelnutt.Fs.Content.Blocks.{
  Use, slot, cell, unused, elsewhere, assign, assign-same, apart, at_slot, at_cell, IsFile,
  alloc-IsFile, alloc_kept, alloc_use, alloc_cell, fresh, not_zero, new_sized,
}
use lab7sp25_shelnutt.Fs.Content.Slots.{
  with_slot-IsFile, slot-here, slot-there, with_cell-IsFile, cell-here, cell-there, cell_kept,
}

-- No block is free.
abbrev pub IsFull : Superblock → Disk → Type 0
IsFull sb disk = (j : ℕ) → j < sb.size → is_free sb disk j ≡ false

-- What a step leaves as it was: all blocks of the file but `x`, where a block number is stored, and
-- the blocks of others that are not in the map.
pub record Kept (sb : Superblock) (x : Use) (disk disk' : Disk) (uses uses' : ℕ → Use)
    : Type 0 where
  pub kept : (q : ℕ) {y : Use} → uses q ≡ y → y ≢ unused → y ≢ elsewhere → y ≢ x → disk' q ≡ disk q
  pub others :
      (q : ℕ) → uses q ≡ elsewhere → ((j : ℕ) → j < sb.size → q ≢ bblock j sb) → disk' q ≡ disk q
  pub roles : (q : ℕ) {y : Use} → uses q ≡ y → y ≢ unused → uses' q ≡ y

-- A block that a step found or allocated, where the old one is `old`.
abbrev pub IsNew : ℕ → ℕ → Disk → Type 0
IsNew old b disk' = (b ≢ 0) × (old ≢ 0 → b ≡ old) × (old ≡ 0 → disk' b ≡ replicate bsize 0)

pub record SlotGiven (sb : Superblock) (i b : ℕ) (ip ip' : Content) (disk disk' : Disk)
    (uses uses' : ℕ → Use) : Type 0 where
  pub file : IsFile sb disk' ip' uses'
  pub size : ip'.size ≡ ip.size
  pub here : at_slot ip' i ≡ b
  pub there : (k : ℕ) → k ≢ i → at_slot ip' k ≡ at_slot ip k
  pub new : IsNew (at_slot ip i) b disk'
  pub rest : Kept sb unused disk disk' uses uses'
  pub free : (j : ℕ) → j < sb.size → j ≢ b → is_free sb disk' j ≡ is_free sb disk j

pub record CellGiven (sb : Superblock) (i b : ℕ) (ip ip' : Content) (disk disk' : Disk)
    (uses uses' : ℕ → Use) : Type 0 where
  pub file : IsFile sb disk' ip' uses'
  pub same_ip : ip' ≡ ip
  pub here : at_cell ip disk' i ≡ b
  pub there : (k : ℕ) → k ≢ i → at_cell ip disk' k ≡ at_cell ip disk k
  pub new : IsNew (at_cell ip disk i) b disk'
  pub rest : Kept sb (slot 12) disk disk' uses uses'
  pub free : (j : ℕ) → j < sb.size → j ≢ b → is_free sb disk' j ≡ is_free sb disk j

module _ (sb : Superblock) (i : ℕ) (ip : Content) (disk : Disk) where
  slot_found : (at_slot ip i == 0) ≡ false → slot_block sb i ip disk ≡ some (at_slot ip i, ip, disk)
  unfolding slot_block
  slot_found z = rw (slot_block, z) refl

  slot_full : (at_slot ip i == 0) ≡ true → balloc sb disk ≡ none → slot_block sb i ip disk ≡ none
  unfolding slot_block
  slot_full y e = rw (slot_block, y, e) refl

  cell_found :
      (at_cell ip disk i == 0) ≡ false
      → word_block sb (at_slot ip 12) i ip disk ≡ some (at_cell ip disk i, ip, disk)
  unfolding word_block
  cell_found z = rw (word_block, z) refl

  cell_full :
      (at_cell ip disk i == 0) ≡ true
      → balloc sb disk ≡ none
      → word_block sb (at_slot ip 12) i ip disk ≡ none
  unfolding word_block
  cell_full y e = rw (word_block, y, e) refl

module _ (sb : Superblock) (i b : ℕ) (ip : Content) (disk disk' : Disk) where
  slot_taken :
      (at_slot ip i == 0) ≡ true
      → balloc sb disk ≡ some (b, disk')
      → slot_block sb i ip disk ≡ some (b, record ip { addrs = set ip.addrs i b }, disk')
  unfolding slot_block
  slot_taken y e = rw (slot_block, y, e) refl

  cell_taken :
      (at_cell ip disk i == 0) ≡ true
      → balloc sb disk ≡ some (b, disk')
      → word_block sb (at_slot ip 12) i ip disk
        ≡ some (b, ip, write_block (at_slot ip 12) (set_word (disk' (at_slot ip 12)) i b) disk')
  unfolding word_block
  cell_taken y e = rw (word_block, y, e) refl

module _ (sb : Superblock) (ip : Content) (disk : Disk) (uses : ℕ → Use)
    (v : IsFile sb disk ip uses) where
  abbrev pub SlotEnds : ℕ → Option (ℕ × Content × Disk) → Type 0
  SlotEnds i none = IsFull sb disk
  SlotEnds i (some (b, ip', disk')) =
      (uses' : ℕ → Use) × SlotGiven sb i b ip ip' disk disk' uses uses'

  nothing : (x : Use) → Kept sb x disk disk uses uses
  nothing x = record { kept = λ q a b c e. refl; others = λ q a b. refl; roles = λ q a b. a }

  allocated :
      (b : ℕ) (disk' : Disk)
      → Allocated sb disk b disk'
      → (x : Use) → Kept sb unused disk disk' uses (assign b x uses)
  allocated b disk' a x = record {
    kept = λ q h c e f. alloc_kept sb disk ip uses v b disk' a x q h c e;
    others = λ q h m.
        a.kept q (apart uses q b h (fresh sb disk ip uses v b disk' a x) (λ e. ground arith))
          (m b a.in_range);
    roles = λ q h c. alloc_use sb disk ip uses v b disk' a x q h c;
  }

  slot_there :
      (i : ℕ) → i < 13 → (at_slot ip i == 0) ≡ false → SlotEnds i (some (at_slot ip i, ip, disk))
  slot_there i l h = (
    uses,
    record {
      file = v;
      size = refl;
      here = refl;
      there = λ k c. refl;
      new = (λ e. ground arith, λ e. refl, λ e. absurd (ground arith));
      rest = nothing unused;
      free = λ j c e. refl;
    },
  )

  slot_new :
      (i b : ℕ) (disk' : Disk)
      → i < 13
      → at_slot ip i ≡ 0
      → Allocated sb disk b disk'
      → SlotEnds i (some (b, record ip { addrs = set ip.addrs i b }, disk'))
  slot_new i b disk' l h a =
      let uses' = assign b (slot i) uses in
      let file = alloc-IsFile sb disk ip uses v b disk' a (slot i) in
      let mine = assign-same b (slot i) uses in
      let size = new_sized sb disk ip uses v b disk' a (slot i) in
      let zeros : (j : ℕ) → word (disk' b) j ≡ 0 = λ j. ap (λ x. word x j) a.zeroed ∙ word-zero j in
      (
        uses',
        record {
          file = with_slot-IsFile sb disk' ip uses' file i b l h mine size zeros;
          size = refl;
          here = slot-here sb disk' ip uses' file i b l h mine size zeros;
          there = slot-there sb disk' ip uses' file i b l h mine size zeros;
          new = (not_zero sb disk ip uses v b disk' a (slot i), λ e. absurd (e h), λ e. a.zeroed);
          rest = allocated b disk' a (slot i);
          free = a.others;
        },
      )

  pub slot_block_lem : (i : ℕ) → i < 13 → SlotEnds i (slot_block sb i ip disk)
  slot_block_lem i l = elim (Bool-cases (at_slot ip i == 0)) [
    | inr z ↦ subst (SlotEnds i) (sym (slot_found sb i ip disk z)) (slot_there i l z)
    | inl y ↦
        let ends = balloc_lem sb disk v.map in
        elim (Option-cases (balloc sb disk)) [
          | inl e ↦
              subst (SlotEnds i) (sym (slot_full sb i ip disk y e))
                (subst (AllocEnds sb disk) e ends)
          | inr ((b, disk'), e) ↦
              subst (SlotEnds i) (sym (slot_taken sb i b ip disk disk' y e))
                (slot_new i b disk' l (ground arith) (subst (AllocEnds sb disk) e ends))
        ]
  ]

  abbrev pub CellEnds : ℕ → Option (ℕ × Content × Disk) → Type 0
  CellEnds i none = IsFull sb disk
  CellEnds i (some (b, ip', disk')) =
      (uses' : ℕ → Use) × CellGiven sb i b ip ip' disk disk' uses uses'

  cell_there :
      (i : ℕ) → (at_cell ip disk i == 0) ≡ false → CellEnds i (some (at_cell ip disk i, ip, disk))
  cell_there i h = (
    uses,
    record {
      file = v;
      same_ip = refl;
      here = refl;
      there = λ k c. refl;
      new = (λ e. ground arith, λ e. refl, λ e. absurd (ground arith));
      rest = nothing (slot 12);
      free = λ j c e. refl;
    },
  )

  cell_new :
      (i b : ℕ) (disk' : Disk)
      → i < 128
      → at_slot ip 12 ≢ 0
      → at_cell ip disk i ≡ 0
      → Allocated sb disk b disk'
      → CellEnds i
          (some (b, ip, write_block (at_slot ip 12) (set_word (disk' (at_slot ip 12)) i b) disk'))
  cell_new i b disk' l there h a =
      let uses' = assign b (cell i) uses in
      let file = alloc-IsFile sb disk ip uses v b disk' a (cell i) in
      let mine = assign-same b (cell i) uses in
      let size = new_sized sb disk ip uses v b disk' a (cell i) in
      let fits : b < 2 ^ 32 = let x = a.in_range in let y = v.small in omega arith in
      let r = allocated b disk' a (cell i) in
      let some_block : 0 < sb.size = let x = a.in_range in omega arith in
      (
        uses',
        record {
          file = with_cell-IsFile sb disk' ip uses' file i b l there mine size fits some_block;
          same_ip = refl;
          here = cell-here sb disk' ip uses' file i b l there mine size fits;
          there = λ k c.
              cell-there sb disk' ip uses' file i b l there mine size fits k c
              ∙ alloc_cell sb disk ip uses v b disk' a (cell i) k there;
          new = (
            not_zero sb disk ip uses v b disk' a (cell i),
            λ e. absurd (e h),
            λ e.
                cell_kept sb disk' ip uses' file i b l there mine size fits b mine
                  (λ x. ground arith)
                ∙ a.zeroed,
          );
          rest = record {
            kept = λ q x c e f.
                cell_kept sb disk' ip uses' file i b l there mine size fits q (r.roles q x c) f
                ∙ r.kept q x c e c;
            others = λ q x m.
                cell_kept sb disk' ip uses' file i b l there mine size fits q
                  (r.roles q x (λ w. ground arith)) (λ w. ground arith)
                ∙ r.others q x m;
            roles = r.roles;
          };
          free = λ j c e.
              ap (λ x. is_clear x (j % bpb))
                (cell_kept sb disk' ip uses' file i b l there mine size fits (bblock j sb)
                  (file.map_use j c) (λ x. ground arith))
              ∙ a.others j c e;
        },
      )

  pub word_block_lem :
      (i : ℕ) → i < 128 → at_slot ip 12 ≢ 0 → CellEnds i (word_block sb (at_slot ip 12) i ip disk)
  word_block_lem i l there = elim (Bool-cases (at_cell ip disk i == 0)) [
    | inr z ↦ subst (CellEnds i) (sym (cell_found sb i ip disk z)) (cell_there i z)
    | inl y ↦
        let ends = balloc_lem sb disk v.map in
        elim (Option-cases (balloc sb disk)) [
          | inl e ↦
              subst (CellEnds i) (sym (cell_full sb i ip disk y e))
                (subst (AllocEnds sb disk) e ends)
          | inr ((b, disk'), e) ↦
              subst (CellEnds i) (sym (cell_taken sb i b ip disk disk' y e))
                (cell_new i b disk' l there (ground arith) (subst (AllocEnds sb disk) e ends))
        ]
  ]
