-- ===== src/Vm/AllocRounds.antt =====
-- The rounds of the loop of allocuvm.
use lab7sp25_shelnutt.Base.{
  ℕ, suc, ◌*◌, ◌≤◌, ◌<◌, ◌≡◌, refl, ap, ◌∙◌, sym, true, false, some, List, [], ◌∷◌, ltb, add32,
  arith,
}
use lab7sp25_shelnutt.Kalloc.{pgsize, kalloc, kfree}
use lab7sp25_shelnutt.Vm.{
  Vm, junk_page, v2p, pte_wu, mapped, no_memory, mappages, deallocuvm, alloc_from,
}
use lab7sp25_shelnutt.Vm.Space.{user_pages}
use lab7sp25_shelnutt.Vm.Grow.{cleared}

next_page : (n : ℕ) → n < user_pages → add32 (n * pgsize) pgsize ≡ suc n * pgsize
next_page n l = omega arith

module _ (bottom d oldsz newsz : ℕ) where
  -- A round of the loop, by what it finds.
  pub round_done :
      (fuel n : ℕ) (vm : Vm)
      → newsz ≤ n * pgsize
      → alloc_from bottom (suc fuel) d (n * pgsize) oldsz newsz vm ≡ some (newsz, vm)
  unfolding alloc_from
  round_done fuel n vm h =
      let e : ltb (n * pgsize) newsz ≡ false = ground arith in rw (e, alloc_from) refl

  pub round_no_page :
      (fuel n size : ℕ) (vm vm' : Vm)
      → n * pgsize < newsz
      → vm.free ≡ []
      → deallocuvm bottom d newsz oldsz vm ≡ some (size, vm')
      → alloc_from bottom (suc fuel) d (n * pgsize) oldsz newsz vm ≡ some (0, vm')
  unfolding alloc_from kalloc
  round_no_page fuel n size vm vm' h e q =
      let w : Vm = record { free = []; mem = vm.mem } in
      let same : vm ≡ w = ap (λ f. record { free = f; mem = vm.mem }) e in
      let c : ltb (n * pgsize) newsz ≡ true = ground arith in
      let q' : deallocuvm bottom d newsz oldsz w ≡ some (size, vm') =
        ap (deallocuvm bottom d newsz oldsz) (sym same) ∙ q in
      ap (alloc_from bottom (suc fuel) d (n * pgsize) oldsz newsz) same
      ∙ rw (c, alloc_from, q') refl

  -- A page f was taken: `now` is the state where it is clear.
  module _ (fuel n f : ℕ) (free : List ℕ) (vm : Vm) (h : n * pgsize < newsz)
      (e : vm.free ≡ f ∷ free) where
    abbrev now : Vm
    now = cleared f free vm

    pub round_mapped :
        (vm' : Vm)
        → n < user_pages
        → mappages d (n * pgsize) pgsize (v2p f) pte_wu now ≡ mapped vm'
        → alloc_from bottom (suc fuel) d (n * pgsize) oldsz newsz vm
          ≡ alloc_from bottom fuel d (suc n * pgsize) oldsz newsz vm'
    unfolding alloc_from kalloc
    round_mapped vm' l q =
        let same : vm ≡ record { free = f ∷ free; mem = vm.mem } =
          ap (λ f. record { free = f; mem = vm.mem }) e in
        let c : ltb (n * pgsize) newsz ≡ true = ground arith in
        ap (alloc_from bottom (suc fuel) d (n * pgsize) oldsz newsz) same
        ∙ rw (c, alloc_from, q, next_page n l) refl

    pub round_no_table :
        (size : ℕ) (vm' : Vm)
        → mappages d (n * pgsize) pgsize (v2p f) pte_wu now ≡ no_memory now
        → deallocuvm bottom d newsz oldsz now ≡ some (size, vm')
        → kfree bottom f vm'.free ≡ some (f ∷ vm'.free)
        → alloc_from bottom (suc fuel) d (n * pgsize) oldsz newsz vm
          ≡ some (0, record { free = f ∷ vm'.free; mem = junk_page f vm'.mem })
    unfolding alloc_from kalloc
    round_no_table size vm' q r k =
        let same : vm ≡ record { free = f ∷ free; mem = vm.mem } =
          ap (λ f. record { free = f; mem = vm.mem }) e in
        let c : ltb (n * pgsize) newsz ≡ true = ground arith in
        ap (alloc_from bottom (suc fuel) d (n * pgsize) oldsz newsz) same
        ∙ rw (c, alloc_from, q, r, k) refl
