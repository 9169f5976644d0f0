-- ===== src/Vm/Walk.antt =====
-- The ways of walkpgdir.
use lab7sp25_shelnutt.Base.{
  ℕ, ◌+◌, ◌*◌, ◌/◌, ◌%◌, ◌<◌, ◌≡◌, refl, ap, ◌∙◌, sym, Bool, true, false, none, some, List, [], ◌∷◌,
  arith, Bool-cases, inl, inr, ◌⊎◌, subst,
}
use lab7sp25_shelnutt.Kalloc.{pgsize, kalloc}
use lab7sp25_shelnutt.Vm.{Mem, Vm, write, clear_page, v2p, pdx, ptx, is_present, pte_pwu, walkpgdir}
use lab7sp25_shelnutt.Vm.Space.{page_of, entry, all_pages}

pub pdx-page : (n : ℕ) → n < all_pages → pdx (n * pgsize) ≡ n / 1024
pdx-page n h = omega arith

pub ptx-page : (n : ℕ) → n < all_pages → ptx (n * pgsize) ≡ n % 1024
ptx-page n h = omega arith

-- The entry of a page whose directory entry is known.
pub entry-present :
    (vm : Vm) (d n : ℕ)
    → is_present (vm.mem d (n / 1024)) ≡ true
    → entry vm d n ≡ vm.mem (page_of (vm.mem d (n / 1024))) (n % 1024)
entry-present vm d n h = rw h refl

pub entry-absent : (vm : Vm) (d n : ℕ) → is_present (vm.mem d (n / 1024)) ≡ false → entry vm d n ≡ 0
entry-absent vm d n h = rw h refl

-- A change of memory that leaves the directory entry of a page and the place of its entry.
pub entry-kept :
    (vm vm' : Vm) (d n : ℕ)
    → vm'.mem d (n / 1024) ≡ vm.mem d (n / 1024)
    → (is_present (vm.mem d (n / 1024)) ≡ true
        → vm'.mem (page_of (vm.mem d (n / 1024))) (n % 1024)
          ≡ vm.mem (page_of (vm.mem d (n / 1024))) (n % 1024))
    → entry vm' d n ≡ entry vm d n
entry-kept vm vm' d n e f = elim (Bool-cases (is_present (vm.mem d (n / 1024)))) [
  | inl y ↦
      entry-present vm' d n (ap is_present e ∙ y)
      ∙ ap (λ x. vm'.mem (page_of x) (n % 1024)) e
      ∙ f y
      ∙ sym (entry-present vm d n y)
  | inr z ↦ entry-absent vm' d n (ap is_present e ∙ z) ∙ sym (entry-absent vm d n z)
]

-- A new table for the pages of an entry that has none.
abbrev pub made : ℕ → ℕ → ℕ → List ℕ → Mem → Vm
made d n r free m = record {
  free = free;
  mem = write d (n / 1024) (v2p r + pte_pwu) (clear_page r m);
}

pub List-cases : {A : Type 0} (xs : List A) → (xs ≡ []) ⊎ ((x : A) × (ys : List A) × (xs ≡ x ∷ ys))
List-cases [] = inl refl
List-cases (x ∷ xs) = inr (x, xs, refl)

-- The three ways of walkpgdir.
pub walk_there :
    (d n : ℕ) (alloc : Bool) (vm : Vm)
    → n < all_pages
    → is_present (vm.mem d (n / 1024)) ≡ true
    → walkpgdir d (n * pgsize) alloc vm ≡ (some (page_of (vm.mem d (n / 1024)), n % 1024), vm)
unfolding walkpgdir
walk_there d n alloc vm l y = rw (pdx-page n l, ptx-page n l, y) refl

pub walk_absent :
    (d n : ℕ) (vm : Vm)
    → n < all_pages
    → is_present (vm.mem d (n / 1024)) ≡ false
    → walkpgdir d (n * pgsize) false vm ≡ (none, vm)
unfolding walkpgdir
walk_absent d n vm l z = rw (pdx-page n l, z) refl

pub walk_full :
    (d n : ℕ) (vm : Vm)
    → n < all_pages
    → is_present (vm.mem d (n / 1024)) ≡ false
    → vm.free ≡ []
    → walkpgdir d (n * pgsize) true vm ≡ (none, vm)
unfolding walkpgdir kalloc
walk_full d n vm l z e =
    let w : Vm = record { free = []; mem = vm.mem } in
    let same : vm ≡ w = ap (λ f. record { free = f; mem = vm.mem }) e in
    let run : walkpgdir d (n * pgsize) true w ≡ (none, w) = rw (pdx-page n l, z) refl in
    subst (λ x. walkpgdir d (n * pgsize) true x ≡ (none, x)) (sym same) run

pub walk_made :
    (d n r : ℕ) (vm : Vm) (free : List ℕ)
    → n < all_pages
    → is_present (vm.mem d (n / 1024)) ≡ false
    → vm.free ≡ r ∷ free
    → walkpgdir d (n * pgsize) true vm ≡ (some (r, n % 1024), made d n r free vm.mem)
unfolding walkpgdir kalloc
walk_made d n r vm free l z e =
    let same : vm ≡ record { free = r ∷ free; mem = vm.mem } =
      ap (λ f. record { free = f; mem = vm.mem }) e in
    ap (walkpgdir d (n * pgsize) true) same ∙ rw (pdx-page n l, ptx-page n l, z) refl
