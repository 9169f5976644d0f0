-- ===== src/Fs/Content/Blocks.antt =====
-- What each block of the disk is for, while an inode is well-formed.
use lab7sp25_shelnutt.Base.{
  ℕ, ◌^◌, ◌≤◌, ◌<◌, ◌≡◌, ◌≢◌, refl, ap, ◌∙◌, sym, true, false, ◌==◌, if◌then◌else◌, get_or, length,
  length-replicate, arith,
}
use lab7sp25_shelnutt.Fs.{bsize}
use lab7sp25_shelnutt.Fs.Bitmap.{Superblock, Disk, bblock}
use lab7sp25_shelnutt.Fs.Bitmap.Blocks.{is_free, IsMap, Allocated}
use lab7sp25_shelnutt.Fs.Content.{Content, word}

-- A block: the one of ip->addrs[i], the one of a[j] in the indirect block, none's, or another's.
pub data Use : Type 0 where
  slot : ℕ → Use
  cell : ℕ → Use
  unused : Use
  elsewhere : Use

abbrev pub assign : ℕ → Use → (ℕ → Use) → ℕ → Use
assign b u uses q = if q == b then u else uses q

pub assign-same : (b : ℕ) (u : Use) (uses : ℕ → Use) → assign b u uses b ≡ u
assign-same b u uses = let e : (b == b) ≡ true = ground arith in rw e refl

pub assign-other : (b : ℕ) (u : Use) (uses : ℕ → Use) (q : ℕ) → q ≢ b → assign b u uses q ≡ uses q
assign-other b u uses q h = let e : (q == b) ≡ false = ground arith in rw e refl

pub apart : (uses : ℕ → Use) (p q : ℕ) {x y : Use} → uses p ≡ x → uses q ≡ y → x ≢ y → p ≢ q
apart uses p q a b h e = h (sym a ∙ ap uses e ∙ b)

abbrev pub at_slot : Content → ℕ → ℕ
at_slot ip i = get_or ip.addrs i 0

abbrev pub at_cell : Content → Disk → ℕ → ℕ
at_cell ip disk j = word (disk (at_slot ip 12)) j

-- The blocks of the file are all different, in use in the map, and no blocks of the map.
pub record IsFile (sb : Superblock) (disk : Disk) (ip : Content) (uses : ℕ → Use) : Type 0 where
  pub map : IsMap sb disk
  pub in_range : (j : ℕ) → j < sb.size → bblock j sb < sb.size
  pub map_use : (j : ℕ) → j < sb.size → uses (bblock j sb) ≡ elsewhere
  pub free_use : (b : ℕ) → b < sb.size → is_free sb disk b ≡ true → uses b ≡ unused
  pub zero_used : is_free sb disk 0 ≡ false
  pub small : sb.size ≤ 2 ^ 32
  pub all_slots : length ip.addrs ≡ 13
  pub slots : (i : ℕ) → i < 13 → at_slot ip i ≢ 0 → uses (at_slot ip i) ≡ slot i
  pub slots_sized : (i : ℕ) → i < 13 → at_slot ip i ≢ 0 → length (disk (at_slot ip i)) ≡ bsize
  pub cells :
      (j : ℕ)
      → j < 128
      → at_slot ip 12 ≢ 0
      → at_cell ip disk j ≢ 0
      → uses (at_cell ip disk j) ≡ cell j
  pub cells_sized :
      (j : ℕ)
      → j < 128
      → at_slot ip 12 ≢ 0
      → at_cell ip disk j ≢ 0
      → length (disk (at_cell ip disk j)) ≡ bsize

module _ (sb : Superblock) (disk : Disk) (ip : Content) (uses : ℕ → Use)
    (v : IsFile sb disk ip uses) (b : ℕ) (disk' : Disk) (a : Allocated sb disk b disk')
    (u : Use) where
  pub fresh : uses b ≡ unused
  fresh = v.free_use b a.in_range a.was_free

  pub not_zero : b ≢ 0
  not_zero e =
      let f = sym (ap (is_free sb disk) e) ∙ a.was_free in let z = v.zero_used in ground arith

  -- The blocks of files hold what they held.
  pub alloc_kept : (q : ℕ) {x : Use} → uses q ≡ x → x ≢ unused → x ≢ elsewhere → disk' q ≡ disk q
  alloc_kept q h c e =
      a.kept q (apart uses q b h fresh c) (apart uses q (bblock b sb) h (v.map_use b a.in_range) e)

  pub alloc_use : (q : ℕ) {x : Use} → uses q ≡ x → x ≢ unused → assign b u uses q ≡ x
  alloc_use q h c = assign-other b u uses q (apart uses q b h fresh c) ∙ h

  slot_kept : (i : ℕ) → i < 13 → at_slot ip i ≢ 0 → disk' (at_slot ip i) ≡ disk (at_slot ip i)
  slot_kept i l h =
      alloc_kept (at_slot ip i) (v.slots i l h) (λ x. ground arith) (λ x. ground arith)

  pub alloc_cell : (j : ℕ) → at_slot ip 12 ≢ 0 → at_cell ip disk' j ≡ at_cell ip disk j
  alloc_cell j h = ap (λ x. word x j) (slot_kept 12 (omega arith) h)

  pub alloc-IsFile : IsFile sb disk' ip (assign b u uses)
  alloc-IsFile = record {
    map = record {
      sized = a.sized;
      guarded = λ j l.
          a.others (bblock j sb) (v.in_range j l)
            (apart uses (bblock j sb) b (v.map_use j l) fresh (λ x. ground arith))
          ∙ v.map.guarded j l;
    };
    in_range = v.in_range;
    map_use = λ j l. alloc_use (bblock j sb) (v.map_use j l) (λ x. ground arith);
    free_use = λ j l h.
        let other : j ≢ b =
          λ e. let t = sym (ap (is_free sb disk') e ∙ a.taken) ∙ h in ground arith in
        assign-other b u uses j other ∙ v.free_use j l (sym (a.others j l other) ∙ h);
    zero_used =
        let l = a.in_range in a.others 0 (omega arith) (λ e. not_zero (sym e)) ∙ v.zero_used;
    small = v.small;
    all_slots = v.all_slots;
    slots = λ i l h. alloc_use (at_slot ip i) (v.slots i l h) (λ x. ground arith);
    slots_sized = λ i l h. ap length (slot_kept i l h) ∙ v.slots_sized i l h;
    cells = λ j l h k.
        let e = alloc_cell j h in
        let w = v.cells j l h (λ x. k (e ∙ x)) in
        ap (assign b u uses) e ∙ alloc_use (at_cell ip disk j) w (λ x. ground arith);
    cells_sized = λ j l h k.
        let e = alloc_cell j h in
        let k' : at_cell ip disk j ≢ 0 = λ x. k (e ∙ x) in
        ap (λ q. length (disk' q)) e
        ∙ ap length (
            alloc_kept (at_cell ip disk j) (v.cells j l h k') (λ x. ground arith)
              (λ x. ground arith))
        ∙ v.cells_sized j l h k';
  }

  pub new_sized : length (disk' b) ≡ bsize
  new_sized = ap length a.zeroed ∙ length-replicate {A = ℕ} bsize 0
