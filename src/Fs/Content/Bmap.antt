-- ===== src/Fs/Content/Bmap.antt =====
-- bmap on a well-formed inode.
use lab7sp25_shelnutt.Base.{
  ℕ, ◌-◌, ◌≤◌, ◌<◌, ◌≡◌, ◌≢◌, refl, ap, ◌∙◌, sym, true, false, [], ◌∷◌, ltb, arith, Bool-cases, inl,
  inr, subst, Option, none, some,
}
use lab7sp25_shelnutt.Fs.{maxfile}
use lab7sp25_shelnutt.Fs.Bitmap.{Superblock, Disk}
use lab7sp25_shelnutt.Fs.Bitmap.Blocks.{is_free}
use lab7sp25_shelnutt.Fs.Content.{Content, slot_block, word_block, bmap, ndirect, nindirect}
use lab7sp25_shelnutt.Fs.Content.Blocks.{Use, at_slot, IsFile}
use lab7sp25_shelnutt.Fs.Content.View.{data_kept, use_of-unused}
use lab7sp25_shelnutt.Fs.Content.Steps.{
  SlotGiven, SlotEnds, CellEnds, slot_block_lem, word_block_lem,
}
use lab7sp25_shelnutt.Fs.Content.Given.{BlockGiven, block-Kept, direct, indirect_same, behind}

-- bmap by the number of the block.
bmap_direct :
    (sb : Superblock) (n : ℕ) (ip : Content) (disk : Disk)
    → n < 12
    → bmap sb n ip disk ≡ slot_block sb n ip disk
unfolding bmap
bmap_direct sb n ip disk l = let c : ltb n ndirect ≡ true = ground arith in rw c refl

bmap_full :
    (sb : Superblock) (n : ℕ) (ip : Content) (disk : Disk)
    → 12 ≤ n
    → n < 140
    → slot_block sb 12 ip disk ≡ none
    → bmap sb n ip disk ≡ none
unfolding bmap
bmap_full sb n ip disk l m e =
    let c : ltb n ndirect ≡ false = ground arith in
    let d : ltb (n - ndirect) nindirect ≡ true = ground arith in rw (c, d, e) refl

bmap_behind :
    (sb : Superblock) (n a : ℕ) (ip ip' : Content) (disk disk' : Disk)
    → 12 ≤ n
    → n < 140
    → slot_block sb 12 ip disk ≡ some (a, ip', disk')
    → bmap sb n ip disk ≡ word_block sb a (n - 12) ip' disk'
unfolding bmap
bmap_behind sb n a ip ip' disk disk' l m e =
    let c : ltb n ndirect ≡ false = ground arith in
    let d : ltb (n - ndirect) nindirect ≡ true = ground arith in rw (c, d, e) refl

module _ (sb : Superblock) (ip : Content) (disk : Disk) (uses : ℕ → Use)
    (v : IsFile sb disk ip uses) where
  then_behind :
      (n a b : ℕ) (ip1 ip2 : Content) (disk1 disk2 : Disk) (uses1 uses2 : ℕ → Use)
      → n < 140
      → SlotGiven sb 12 a ip ip1 disk disk1 uses uses1
      → BlockGiven sb n b ip1 ip2 disk1 disk2 uses1 uses2
      → ((j : ℕ) → j < sb.size → j ≢ b → is_free sb disk2 j ≡ is_free sb disk1 j)
      → BlockGiven sb n b ip ip2 disk disk2 uses uses2
  then_behind n a b ip1 ip2 disk1 disk2 uses1 uses2 l s t c_free =
      let same = indirect_same sb ip disk uses v a ip1 disk1 uses1 s in
      record {
        file = t.file;
        size = t.size ∙ s.size;
        here = t.here;
        nonzero = t.nonzero;
        old = λ h. t.old (λ x. h (sym (same n) ∙ x)) ∙ same n;
        there = λ k m c. t.there k m c ∙ same k;
        holds = λ k m.
            t.holds k m
            ∙ data_kept ip ip1 disk disk1 k (same k)
                (block-Kept sb ip disk uses v disk1 uses1 s.rest k m (use_of-unused k));
        others = λ q h m. t.others q (s.rest.roles q h (λ x. ground arith)) m ∙ s.rest.others q h m;
        roles = λ q h. t.roles q (s.rest.roles q h (λ x. ground arith));
        spent = (
          a ∷ b ∷ [],
          omega arith,
          λ j c e. c_free j c (λ x. ground (arith, x)) ∙ s.free j c (λ x. ground (arith, x)),
        );
      }

  -- bmap panics only where at most one block is free.
  abbrev pub BmapEnds : ℕ → Option (ℕ × Content × Disk) → Type 0
  BmapEnds n none = (a : ℕ) × ((j : ℕ) → j < sb.size → j ≢ a → is_free sb disk j ≡ false)
  BmapEnds n (some (b, ip', disk')) =
      (uses' : ℕ → Use) × BlockGiven sb n b ip ip' disk disk' uses uses'

  direct_ends :
      (n : ℕ)
      → n < 12
      → (r : Option (ℕ × Content × Disk)) → SlotEnds sb ip disk uses v n r
      → BmapEnds n r
  direct_ends n l none full = (0, λ j m c. full j m)
  direct_ends n l (some (b, ip', disk')) ends =
      let (uses', s) = ends in (uses', direct sb ip disk uses v n b ip' disk' uses' l s)

  behind_ends :
      (n a : ℕ) (ip1 : Content) (disk1 : Disk) (uses1 : ℕ → Use)
      → 12 ≤ n
      → n < 140
      → (s : SlotGiven sb 12 a ip ip1 disk disk1 uses uses1) → (r : Option (ℕ × Content × Disk))
      → CellEnds sb ip1 disk1 uses1 s.file (n - 12) r
      → BmapEnds n r
  behind_ends n a ip1 disk1 uses1 l m s none full = (a, λ j k c. sym (s.free j k c) ∙ full j k)
  behind_ends n a ip1 disk1 uses1 l m s (some (b, ip2, disk2)) ends =
      let (uses2, c) = ends in
      let (nonzero, old, zeros) = s.new in
      (
        uses2,
        then_behind n a b ip1 ip2 disk1 disk2 uses1 uses2 m s
            (behind sb ip1 disk1 uses1 s.file n b ip2 disk2 uses2 l m
              (λ e. nonzero (sym s.here ∙ e)) c)
            c.free,
      )

  behind_slot :
      (n : ℕ)
      → 12 ≤ n
      → n < 140
      → (r : Option (ℕ × Content × Disk)) → slot_block sb 12 ip disk ≡ r
      → SlotEnds sb ip disk uses v 12 r
      → BmapEnds n (bmap sb n ip disk)
  behind_slot n l m none e full =
      subst (BmapEnds n) (sym (bmap_full sb n ip disk l m e)) (0, λ j k c. full j k)
  behind_slot n l m (some (a, ip1, disk1)) e ends =
      let (uses1, s) = ends in
      let (nonzero, old, zeros) = s.new in
      subst (BmapEnds n)
        (sym (
          bmap_behind sb n a ip ip1 disk disk1 l m e
          ∙ ap (λ x. word_block sb x (n - 12) ip1 disk1) (sym s.here)))
        (behind_ends n a ip1 disk1 uses1 l m s (word_block sb (at_slot ip1 12) (n - 12) ip1 disk1) (
          word_block_lem sb ip1 disk1 uses1 s.file (n - 12) (omega arith)
            (λ x. nonzero (sym s.here ∙ x))))

  -- For a well-formed inode and a block number below MAXFILE, bmap returns the block of the file with
  -- that number, which it allocates where there is none; every block of the file holds what it held,
  -- one that was not there counting as zeros, the other numbers stay, the inode is well-formed, and
  -- blocks of others are unchanged. It panics only where at most one block is free.
  pub bmap_lem : (n : ℕ) → n < maxfile → BmapEnds n (bmap sb n ip disk)
  bmap_lem n l = elim (Bool-cases (ltb n 12)) [
    | inl y ↦
        let d : n < 12 = ground arith in
        subst (BmapEnds n) (sym (bmap_direct sb n ip disk d)) (
          direct_ends n d (slot_block sb n ip disk)
            (slot_block_lem sb ip disk uses v n (omega arith)))
    | inr z ↦
        behind_slot n (ground arith) l (slot_block sb 12 ip disk) refl
          (slot_block_lem sb ip disk uses v 12 (omega arith))
  ]
