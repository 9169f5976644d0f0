-- ===== src/Fs/Content/Given.antt =====
-- What bmap gives, from what its steps give.
use lab7sp25_shelnutt.Base.{
  ℕ, ◌-◌, ◌≤◌, ◌<◌, ◌≡◌, ◌≢◌, ap, ◌∙◌, sym, Bool, false, ◌||◌, List, [], ◌∷◌, ◌==◌, ltb, length,
  arith, ℕ_discrete, Bool-cases, inl, inr,
}
use lab7sp25_shelnutt.Fs.Bitmap.{Superblock, Disk, bblock}
use lab7sp25_shelnutt.Fs.Bitmap.Blocks.{is_free}
use lab7sp25_shelnutt.Fs.Content.{Content, word}
use lab7sp25_shelnutt.Fs.Content.Words.{word-zero}
use lab7sp25_shelnutt.Fs.Content.Blocks.{Use, elsewhere, at_slot, at_cell, IsFile}
use lab7sp25_shelnutt.Fs.Content.View.{
  block_of, data_of, use_of, block_of-slot, block_of-none, block_of-cell, data_kept, data_new,
  use_of-block, use_of-unused, use_of-elsewhere, use_of-indirect,
}
use lab7sp25_shelnutt.Fs.Content.Steps.{Kept, SlotGiven, CellGiven}

-- All blocks but those of a list of n at most are free or in use as before.
abbrev pub among : List ℕ → ℕ → Bool
among [] j = false
among (a ∷ bs) j = (a == j) || among bs j

abbrev pub Spent : Superblock → Disk → Disk → ℕ → Type 0
Spent sb disk disk' n =
    (bs : List ℕ) × (length bs ≤ n)
    × ((j : ℕ) → j < sb.size → among bs j ≡ false → is_free sb disk' j ≡ is_free sb disk j)

-- The n-th block of the file is b; the file has the data that it had, and other files have their blocks.
pub record BlockGiven (sb : Superblock) (n b : ℕ) (ip ip' : Content) (disk disk' : Disk)
    (uses uses' : ℕ → Use) : Type 0 where
  pub file : IsFile sb disk' ip' uses'
  pub size : ip'.size ≡ ip.size
  pub here : block_of ip' disk' n ≡ b
  pub nonzero : b ≢ 0
  pub old : block_of ip disk n ≢ 0 → b ≡ block_of ip disk n
  pub there : (k : ℕ) → k < 140 → k ≢ n → block_of ip' disk' k ≡ block_of ip disk k
  pub holds : (k : ℕ) → k < 140 → data_of ip' disk' k ≡ data_of ip disk k
  pub others :
      (q : ℕ) → uses q ≡ elsewhere → ((j : ℕ) → j < sb.size → q ≢ bblock j sb) → disk' q ≡ disk q
  pub roles : (q : ℕ) → uses q ≡ elsewhere → uses' q ≡ elsewhere
  pub spent : Spent sb disk disk' 2

module _ (sb : Superblock) (ip : Content) (disk : Disk) (uses : ℕ → Use)
    (v : IsFile sb disk ip uses) where
  -- A block of the file, after a step that keeps them.
  pub block-Kept :
      {x : Use} (disk' : Disk) (uses' : ℕ → Use)
      → Kept sb x disk disk' uses uses'
      → (k : ℕ) → k < 140
      → use_of k ≢ x
      → block_of ip disk k ≢ 0
      → disk' (block_of ip disk k) ≡ disk (block_of ip disk k)
  block-Kept disk' uses' r k l c h =
      r.kept (block_of ip disk k) (use_of-block sb disk ip uses v k l h) (use_of-unused k)
        (use_of-elsewhere k) c

  -- Blocks behind the indirect block, after a step on another slot.
  cell_kept :
      (i b : ℕ) (ip' : Content) (disk' : Disk) (uses' : ℕ → Use)
      → SlotGiven sb i b ip ip' disk disk' uses uses'
      → i ≢ 12
      → (k : ℕ) → 12 ≤ k
      → block_of ip' disk' k ≡ block_of ip disk k
  cell_kept i b ip' disk' uses' s c k l =
      let e = s.there 12 (λ x. c (sym x)) in
      elim (ℕ_discrete (at_slot ip 12) 0) [
        | yes z ↦ block_of-none ip' disk' k l (e ∙ z) ∙ sym (block_of-none ip disk k l z)
        | no n ↦
            block_of-cell ip' disk' k l (λ x. n (sym e ∙ x))
            ∙ ap (λ q. word (disk' q) (k - 12)) e
            ∙ ap (λ d. word d (k - 12))
                (s.rest.kept (at_slot ip 12) (v.slots 12 (omega arith) n) (λ x. ground arith)
                  (λ x. ground arith) (λ x. ground arith))
            ∙ sym (block_of-cell ip disk k l n)
      ]

  pub direct :
      (n b : ℕ) (ip' : Content) (disk' : Disk) (uses' : ℕ → Use)
      → n < 12
      → SlotGiven sb n b ip ip' disk disk' uses uses'
      → BlockGiven sb n b ip ip' disk disk' uses uses'
  direct n b ip' disk' uses' l s =
      let (nonzero, old, zeros) = s.new in
      let o = block_of-slot ip disk n l in
      let here = block_of-slot ip' disk' n l ∙ s.here in
      let there : (k : ℕ) → k < 140 → k ≢ n → block_of ip' disk' k ≡ block_of ip disk k = λ k m c.
        elim (Bool-cases (ltb k 12)) [
          | inl y ↦
              let d : k < 12 = ground arith in
              block_of-slot ip' disk' k d ∙ s.there k c ∙ sym (block_of-slot ip disk k d)
          | inr z ↦ cell_kept n b ip' disk' uses' s (omega arith) k (ground arith)
        ] in
      record {
        file = s.file;
        size = s.size;
        here = here;
        nonzero = nonzero;
        old = λ h. old (λ x. h (o ∙ x)) ∙ sym o;
        there = there;
        holds = λ k m. elim (ℕ_discrete k n) [
          | no c ↦
              data_kept ip ip' disk disk' k (there k m c)
                (block-Kept disk' uses' s.rest k m (use_of-unused k))
          | yes e ↦ elim (ℕ_discrete (at_slot ip n) 0) [
            | yes z ↦
                data_new ip ip' disk disk' k b (ap (block_of ip disk) e ∙ o ∙ z)
                  (ap (block_of ip' disk') e ∙ here) nonzero (zeros z)
            | no h ↦
                data_kept ip ip' disk disk' k
                  (ap (block_of ip' disk') e ∙ here ∙ old h ∙ sym o ∙ ap (block_of ip disk) (sym e))
                  (block-Kept disk' uses' s.rest k m (use_of-unused k))
          ]
        ];
        others = s.rest.others;
        roles = λ q h. s.rest.roles q h (λ x. ground arith);
        spent = (b ∷ [], omega arith, λ j c e. s.free j c (λ x. ground (arith, x)));
      }

  -- The indirect block comes empty.
  pub indirect_same :
      (b : ℕ) (ip' : Content) (disk' : Disk) (uses' : ℕ → Use)
      → SlotGiven sb 12 b ip ip' disk disk' uses uses'
      → (k : ℕ) → block_of ip' disk' k ≡ block_of ip disk k
  indirect_same b ip' disk' uses' s k =
      let (nonzero, old, zeros) = s.new in
      elim (Bool-cases (ltb k 12)) [
        | inl y ↦
            let d : k < 12 = ground arith in
            block_of-slot ip' disk' k d ∙ s.there k (omega arith) ∙ sym (block_of-slot ip disk k d)
        | inr x ↦
            let d : 12 ≤ k = ground arith in
            let now =
              block_of-cell ip' disk' k d (λ e. nonzero (sym s.here ∙ e))
              ∙ ap (λ q. word (disk' q) (k - 12)) s.here in
            elim (ℕ_discrete (at_slot ip 12) 0) [
              | yes z ↦
                  now
                  ∙ ap (λ c. word c (k - 12)) (zeros z)
                  ∙ word-zero (k - 12)
                  ∙ sym (block_of-none ip disk k d z)
              | no n ↦
                  now
                  ∙ ap (λ q. word (disk' q) (k - 12)) (old n)
                  ∙ ap (λ c. word c (k - 12))
                      (s.rest.kept (at_slot ip 12) (v.slots 12 (omega arith) n) (λ e. ground arith)
                        (λ e. ground arith) (λ e. ground arith))
                  ∙ sym (block_of-cell ip disk k d n)
            ]
      ]

module _ (sb : Superblock) (ip : Content) (disk : Disk) (uses : ℕ → Use)
    (v : IsFile sb disk ip uses) where
  -- The block of the indirect block, once that is there.
  pub behind :
      (n b : ℕ) (ip' : Content) (disk' : Disk) (uses' : ℕ → Use)
      → 12 ≤ n
      → n < 140
      → at_slot ip 12 ≢ 0
      → CellGiven sb (n - 12) b ip ip' disk disk' uses uses'
      → BlockGiven sb n b ip ip' disk disk' uses uses'
  behind n b ip' disk' uses' l m full s =
      let (nonzero, old, zeros) = s.new in
      let full' : at_slot ip' 12 ≢ 0 = λ x. full (sym (ap (λ p. at_slot p 12) s.same_ip) ∙ x) in
      let o = block_of-cell ip disk n l full in
      let cells : (k : ℕ) → 12 ≤ k → block_of ip' disk' k ≡ at_cell ip disk' (k - 12) =
        λ k c. block_of-cell ip' disk' k c full' ∙ ap (λ p. at_cell p disk' (k - 12)) s.same_ip in
      let here = cells n l ∙ s.here in
      let there : (k : ℕ) → k < 140 → k ≢ n → block_of ip' disk' k ≡ block_of ip disk k = λ k a c.
        elim (Bool-cases (ltb k 12)) [
          | inl y ↦
              let d : k < 12 = ground arith in
              block_of-slot ip' disk' k d
              ∙ ap (λ p. at_slot p k) s.same_ip
              ∙ sym (block_of-slot ip disk k d)
          | inr z ↦
              let d : 12 ≤ k = ground arith in
              cells k d ∙ s.there (k - 12) (omega arith) ∙ sym (block_of-cell ip disk k d full)
        ] in
      record {
        file = s.file;
        size = ap (λ p. p.size) s.same_ip;
        here = here;
        nonzero = nonzero;
        old = λ h. old (λ x. h (o ∙ x)) ∙ sym o;
        there = there;
        holds = λ k a. elim (ℕ_discrete k n) [
          | no c ↦
              data_kept ip ip' disk disk' k (there k a c)
                (block-Kept sb ip disk uses v disk' uses' s.rest k a (use_of-indirect k))
          | yes e ↦ elim (ℕ_discrete (at_cell ip disk (n - 12)) 0) [
            | yes z ↦
                data_new ip ip' disk disk' k b (ap (block_of ip disk) e ∙ o ∙ z)
                  (ap (block_of ip' disk') e ∙ here) nonzero (zeros z)
            | no h ↦
                data_kept ip ip' disk disk' k
                  (ap (block_of ip' disk') e ∙ here ∙ old h ∙ sym o ∙ ap (block_of ip disk) (sym e))
                  (block-Kept sb ip disk uses v disk' uses' s.rest k a (use_of-indirect k))
          ]
        ];
        others = s.rest.others;
        roles = λ q h. s.rest.roles q h (λ x. ground arith);
        spent = (b ∷ [], omega arith, λ j c e. s.free j c (λ x. ground (arith, x)));
      }
