-- ===== src/Vm/Dealloc.antt =====
-- deallocuvm on a well-formed address space.
use lab7sp25_shelnutt.Base.{
  ℕ, zero, suc, ◌+◌, ◌-◌, ◌*◌, ◌/◌, ◌%◌, ◌≤◌, ◌<◌, ◌≡◌, refl, ap, ◌∙◌, sym, true, false, Option,
  none, some, ◌∷◌, ◌==◌, ltb, leb, add32, sub32, arith, Bool-cases, inl, inr, subst,
}
use lab7sp25_shelnutt.Kalloc.{pgsize, kernbase}
use lab7sp25_shelnutt.Kalloc.Pages.{kfree-some}
use lab7sp25_shelnutt.Vm.{
  Vm, write, junk_page, is_present, pgaddr, pdx, pte_addr, dealloc_from, deallocuvm,
}
use lab7sp25_shelnutt.Vm.Space.{
  Role, spare, page_of, entry, user_pages, all_pages, Usable, IsSpace, assign,
}
use lab7sp25_shelnutt.Vm.Walk.{walk_there, walk_absent, entry-present, entry-absent}
use lab7sp25_shelnutt.Vm.Shrink.{Shrunk, none_gone, skip_gone, then_gone}
use lab7sp25_shelnutt.Vm.Drop.{page_gone}

-- The first page of the next table, by the source's address.
next_table :
    (n : ℕ)
    → n < user_pages
    → add32 (sub32 (pgaddr (pdx (n * pgsize) + 1)) pgsize) pgsize ≡ (n / 1024 + 1) * 1024 * pgsize
next_table n l = omega arith

next_page : (n : ℕ) → n < user_pages → add32 (n * pgsize) pgsize ≡ suc n * pgsize
next_page n l = omega arith

module _ (bottom d oldsz : ℕ) (top : oldsz ≤ kernbase) (kernel : kernbase < bottom) where
  abbrev pub DeallocEnds : ℕ → Vm → (ℕ → Role) → Option Vm → Type 0
  DeallocEnds n vm role none = ⊥
  DeallocEnds n vm role (some vm') = (role' : ℕ → Role) × Shrunk bottom d n oldsz vm vm' role role'

  after_skip :
      (lo n : ℕ) (vm : Vm) (role : ℕ → Role)
      → lo ≤ n
      → n ≤ all_pages
      → ((m : ℕ) → lo ≤ m → m < n → is_present (entry vm d m) ≡ false)
      → (r : Option Vm) → DeallocEnds n vm role r
      → DeallocEnds lo vm role r
  after_skip lo n vm role l top' absent none ends = ends
  after_skip lo n vm role l top' absent (some vm') ends =
      let (role', t) = ends in
      (role', skip_gone bottom d oldsz lo n vm vm' role role' l top' absent t)

  after_page :
      (n : ℕ) (vm vm1 : Vm) (role role1 : ℕ → Role)
      → n * pgsize < oldsz
      → Shrunk bottom d n (n * pgsize + 1) vm vm1 role role1
      → (r : Option Vm) → DeallocEnds (suc n) vm1 role1 r
      → DeallocEnds n vm role r
  after_page n vm vm1 role role1 h one none ends = ends
  after_page n vm vm1 role role1 h one (some vm2) ends =
      let (role2, t) = ends in
      (role2, then_gone bottom d oldsz n vm vm1 vm2 role role1 role2 h (omega arith) one t)

  ended :
      (n : ℕ) (vm : Vm) (role : ℕ → Role) (r : Option Vm)
      → DeallocEnds n vm role r
      → (vm' : Vm) × (role' : ℕ → Role) × (r ≡ some vm') × Shrunk bottom d n oldsz vm vm' role role'
  ended n vm role none ends = absurd ends
  ended n vm role (some vm') ends = let (role', t) = ends in (vm', role', refl, t)

  -- A round of the loop, by what it finds.
  round_done :
      (fuel n : ℕ) (vm : Vm)
      → oldsz ≤ n * pgsize
      → dealloc_from bottom (suc fuel) d (n * pgsize) oldsz vm ≡ some vm
  unfolding dealloc_from
  round_done fuel n vm h =
      let e : ltb (n * pgsize) oldsz ≡ false = ground arith in rw (e, dealloc_from) refl

  round_absent :
      (fuel n : ℕ) (vm : Vm)
      → n < user_pages
      → n * pgsize < oldsz
      → is_present (vm.mem d (n / 1024)) ≡ false
      → dealloc_from bottom (suc fuel) d (n * pgsize) oldsz vm
        ≡ dealloc_from bottom fuel d ((n / 1024 + 1) * 1024 * pgsize) oldsz vm
  unfolding dealloc_from
  round_absent fuel n vm l h z =
      let e : ltb (n * pgsize) oldsz ≡ true = ground arith in
      rw (e, dealloc_from, walk_absent d n vm (omega arith) z, next_table n l) refl

  round_clear :
      (fuel n : ℕ) (vm : Vm)
      → n < user_pages
      → n * pgsize < oldsz
      → is_present (vm.mem d (n / 1024)) ≡ true
      → is_present (entry vm d n) ≡ false
      → dealloc_from bottom (suc fuel) d (n * pgsize) oldsz vm
        ≡ dealloc_from bottom fuel d (suc n * pgsize) oldsz vm
  unfolding dealloc_from
  round_clear fuel n vm l h y z =
      let e : ltb (n * pgsize) oldsz ≡ true = ground arith in
      let p = ap is_present (sym (entry-present vm d n y)) ∙ z in
      rw (e, dealloc_from, walk_there d n false vm (omega arith) y, p, next_page n l) refl

  -- The frame of a present page is freed and its entry cleared.
  abbrev after_drop : ℕ → Vm → Vm
  after_drop n vm = record {
    free = page_of (entry vm d n) ∷ vm.free;
    mem =
        write (page_of (vm.mem d (n / 1024))) (n % 1024) 0
          (junk_page (page_of (entry vm d n)) vm.mem);
  }

  round_present :
      (fuel n : ℕ) (vm : Vm)
      → n < user_pages
      → n * pgsize < oldsz
      → is_present (vm.mem d (n / 1024)) ≡ true
      → is_present (entry vm d n) ≡ true
      → Usable bottom (page_of (entry vm d n))
      → dealloc_from bottom (suc fuel) d (n * pgsize) oldsz vm
        ≡ dealloc_from bottom fuel d (suc n * pgsize) oldsz (after_drop n vm)
  unfolding dealloc_from
  round_present fuel n vm l h y p u =
      let e : ltb (n * pgsize) oldsz ≡ true = ground arith in
      let here = sym (entry-present vm d n y) in
      let p' = ap is_present here ∙ p in
      let u' : Usable bottom (page_of (vm.mem (page_of (vm.mem d (n / 1024))) (n % 1024))) =
        subst (λ x. Usable bottom (page_of x)) (sym here) u in
      let k =
        kfree-some bottom (page_of (vm.mem (page_of (vm.mem d (n / 1024))) (n % 1024))) vm.free
          u'.whole u'.above u'.in_kernel u'.in_memory in
      let above = u'.above in
      let z : (pte_addr (vm.mem (page_of (vm.mem d (n / 1024))) (n % 1024)) == 0) ≡ false =
        ground arith in
      rw (e, dealloc_from, walk_there d n false vm (omega arith) y, p', z, k, next_page n l)
        (ap
          (λ x. dealloc_from bottom fuel d (suc n * pgsize) oldsz (record {
            free = page_of x ∷ vm.free;
            mem = write (page_of (vm.mem d (n / 1024))) (n % 1024) 0 (junk_page (page_of x) vm.mem);
          }))
          here)

  dealloc_from_lem :
      (fuel n : ℕ) (vm : Vm) (role : ℕ → Role)
      → IsSpace bottom d vm role
      → n ≤ user_pages
      → 0 < fuel
      → oldsz < n * pgsize + fuel
      → DeallocEnds n vm role (dealloc_from bottom fuel d (n * pgsize) oldsz vm)
  dealloc_from_lem zero n vm role s l g f = absurd (omega arith)
  dealloc_from_lem (suc fuel) n vm role s l g f = elim (Bool-cases (ltb (n * pgsize) oldsz)) [
    | inr z ↦
        subst (DeallocEnds n vm role) (sym (round_done fuel n vm (ground arith)))
          (role, none_gone bottom d oldsz n vm role s (ground arith))
    | inl x ↦
        let h : n * pgsize < oldsz = ground arith in
        let k : n < user_pages = omega arith in
        elim (Bool-cases (is_present (vm.mem d (n / 1024)))) [
          | inr z ↦ subst (DeallocEnds n vm role) (sym (round_absent fuel n vm k h z)) (
              after_skip n ((n / 1024 + 1) * 1024) vm role (omega arith) (omega arith)
                (λ m a b.
                  let e : m / 1024 ≡ n / 1024 = omega arith in
                  ap is_present (entry-absent vm d m (ap (λ i. is_present (vm.mem d i)) e ∙ z)))
                (dealloc_from bottom fuel d ((n / 1024 + 1) * 1024 * pgsize) oldsz vm)
                (dealloc_from_lem fuel ((n / 1024 + 1) * 1024) vm role s (omega arith) (omega arith)
                  (omega arith)))
          | inl y ↦ elim (Bool-cases (is_present (entry vm d n))) [
            | inr z ↦ subst (DeallocEnds n vm role) (sym (round_clear fuel n vm k h y z)) (
                after_skip n (suc n) vm role (omega arith) (omega arith)
                  (λ m a b.
                    let e : m ≡ n = omega arith in ap (λ i. is_present (entry vm d i)) e ∙ z)
                  (dealloc_from bottom fuel d (suc n * pgsize) oldsz vm)
                  (dealloc_from_lem fuel (suc n) vm role s (omega arith) (omega arith)
                    (omega arith)))
            | inl p ↦
                let one = page_gone bottom d n vm role s k p in
                subst (DeallocEnds n vm role)
                  (sym (round_present fuel n vm k h y p (s.frames_usable n k p)))
                  (after_page n vm (after_drop n vm) role
                    (assign (page_of (entry vm d n)) spare role) h one
                    (dealloc_from bottom fuel d (suc n * pgsize) oldsz (after_drop n vm))
                    (dealloc_from_lem fuel (suc n) (after_drop n vm)
                      (assign (page_of (entry vm d n)) spare role) one.space (omega arith)
                      (omega arith) (omega arith)))
          ]
        ]
  ]

  -- In a well-formed address space, with newsz < oldsz <= KERNBASE, deallocuvm returns newsz,
  -- without a panic: no page from PGROUNDUP(newsz) up to oldsz is present, the frames that these
  -- had are free, what was free is free, and the other pages have the entries that they had and
  -- hold what they held.
  pub deallocuvm_lem :
      (newsz : ℕ) (vm : Vm) (role : ℕ → Role)
      → IsSpace bottom d vm role
      → newsz < oldsz
      → (vm' : Vm) × (role' : ℕ → Role) × (deallocuvm bottom d oldsz newsz vm ≡ some (newsz, vm'))
        × Shrunk bottom d ((newsz + pgsize - 1) / pgsize) oldsz vm vm' role role'
  unfolding deallocuvm
  deallocuvm_lem newsz vm role s l =
      let n = (newsz + pgsize - 1) / pgsize in
      let (vm', role', e, t) =
        ended n vm role (dealloc_from bottom (suc oldsz) d (n * pgsize) oldsz vm)
          (dealloc_from_lem (suc oldsz) n vm role s (omega arith) (omega arith) (omega arith)) in
      let c : leb oldsz newsz ≡ false = ground arith in (vm', role', rw (c, e) refl, t)
