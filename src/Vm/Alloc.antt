-- ===== src/Vm/Alloc.antt =====
-- allocuvm on a well-formed address space.
use lab7sp25_shelnutt.Base.{
  ℕ, zero, suc, ◌+◌, ◌-◌, ◌*◌, ◌/◌, ◌≤◌, ◌<◌, ◌≡◌, refl, ap, ◌∙◌, sym, false, Option, some, List,
  [], ◌∷◌, ltb, leb, arith, Bool-cases, inl, inr, subst, ℕ_discrete, ◌⊎◌,
}
use lab7sp25_shelnutt.Kalloc.{pgsize, kernbase}
use lab7sp25_shelnutt.Kalloc.Pages.{times, kfree-some}
use lab7sp25_shelnutt.Vm.{
  Vm, is_present, v2p, pte_wu, Mapped, mapped, no_memory, remap, mappages, alloc_from, allocuvm,
}
use lab7sp25_shelnutt.Vm.Space.{
  Role, frame, spare, other, entry, user_pages, Usable, IsSpace, apart, assign, assign-same,
  assign-other, clear-other,
}
use lab7sp25_shelnutt.Vm.Walk.{List-cases}
use lab7sp25_shelnutt.Vm.Frames.{taken_same, taken-IsSpace, taken_times}
use lab7sp25_shelnutt.Vm.MapPage.{PageMapped, MapEnds, mappages_lem}
use lab7sp25_shelnutt.Vm.Dealloc.{deallocuvm_lem}
use lab7sp25_shelnutt.Vm.Grow.{
  cleared, Grown, Used, still_free, none_new, cut_new, ready-IsSpace, f-Usable, f_spare, was_spare,
  one_more, one_more-Used,
}
use lab7sp25_shelnutt.Vm.Restore.{Restored, Returned, restore, gone-Used, given, give_back}
use lab7sp25_shelnutt.Vm.AllocRounds.{round_done, round_no_page, round_mapped, round_no_table}

-- How allocuvm ends: with all pages, or with 0 and none of them.
abbrev pub AllocEnds : ℕ → ℕ → ℕ → ℕ → Vm → (ℕ → Role) → ℕ → Vm → Type 0
AllocEnds bottom d lo newsz vm role size vm' =
    ((size ≡ newsz) × (role' : ℕ → Role) × Grown bottom d lo newsz vm vm' role role')
    ⊎ ((size ≡ 0)
        × (role' : ℕ → Role) × Restored bottom d lo newsz vm vm' role role'
        × Returned vm vm' role')

module _ (bottom d oldsz newsz : ℕ) (kernel : kernbase < bottom) (top : newsz < kernbase) (vm : Vm)
    (role : ℕ → Role) where
  abbrev first : ℕ
  first = (oldsz + pgsize - 1) / pgsize

  abbrev Loop : Option (ℕ × Vm) → Type 0
  Loop r =
      (size : ℕ) × (vm' : Vm) × (r ≡ some (size, vm'))
      × AllocEnds bottom d first newsz vm role size vm'

  -- A state of the loop: the pages up to n have come.
  module _ (n : ℕ) (vm1 : Vm) (role1 : ℕ → Role) (low : first ≤ n)
      (g : Grown bottom d first (n * pgsize) vm vm1 role role1)
      (used : (v : ℕ) → 0 < times vm.free v → Used d first (n * pgsize) vm1 role1 v)
      (h : n * pgsize < newsz) where
    grow_no_page :
        (fuel : ℕ)
        → vm1.free ≡ []
        → Loop (alloc_from bottom (suc fuel) d (n * pgsize) oldsz newsz vm1)
    grow_no_page fuel e =
        let (vm2, role2, q, s) =
          deallocuvm_lem bottom d newsz (omega arith) kernel oldsz vm1 role1 g.space
            (omega arith) in
        (
          0,
          vm2,
          round_no_page bottom d oldsz newsz fuel n oldsz vm1 vm2 h e q,
          inr (
            refl,
            role2,
            restore bottom d first n newsz vm vm1 vm1 vm2 role role1 role1 role2 h g (λ m a. refl)
                (λ q j a. refl) g.roles s,
            λ v a.
                gone-Used bottom d first n newsz vm vm1 vm1 vm2 role role1 role1 role2 v h
                  (omega arith) g (λ m b. refl) (λ b. b) (λ i b. b) s (used v a),
          ),
        )

    module _ (f : ℕ) (free : List ℕ) (e : vm1.free ≡ f ∷ free) where
      -- Without a table the page f is freed.
      grow_no_table :
          (fuel : ℕ)
          → mappages d (n * pgsize) pgsize (v2p f) pte_wu (cleared f free vm1)
            ≡ no_memory (cleared f free vm1)
          → Loop (alloc_from bottom (suc fuel) d (n * pgsize) oldsz newsz vm1)
      grow_no_table fuel q =
          let l : n < user_pages = omega arith in
          let u = f-Usable bottom d first n vm vm1 role role1 low l g f free e in
          let sp = f_spare bottom d first n vm vm1 role role1 low l g f free e in
          let was = was_spare bottom d first n vm vm1 role role1 low l g f free e in
          let rolex = assign f other role1 in
          let (vm2, role2, r, s) =
            deallocuvm_lem bottom d newsz (omega arith) kernel oldsz (cleared f free vm1) rolex
              (taken-IsSpace bottom d vm1 role1 g.space other f free e) (omega arith) in
          let now_other : role2 f ≡ other =
            s.roles f (λ m a b c. let w = sym (assign-same f other role1) ∙ c in ground arith)
            ∙ assign-same f other role1 in
          let back =
            restore bottom d first n newsz vm vm1 (cleared f free vm1) vm2 role role1 rolex role2 h
              g (taken_same bottom d vm1 role1 g.space other f free e)
              (λ q j a. clear-other f vm1.mem q j (apart role q f refl was a))
              (λ q a. assign-other f other role1 q (apart role q f refl was a) ∙ g.roles q a) s in
          (
            0,
            given bottom d first newsz f vm vm2 role role2 (omega arith) u was now_other back,
            round_no_table bottom d oldsz newsz fuel n f free vm1 h e oldsz vm2 q r
                (kfree-some bottom f vm2.free u.whole u.above u.in_kernel u.in_memory),
            inr (
              refl,
              assign f spare role2,
              give_back bottom d first newsz f vm vm2 role role2 (omega arith) u was now_other back,
              λ v a. elim (ℕ_discrete v f) [
                | yes x ↦ inl (ground (arith, x))
                | no x ↦
                    let w = taken_times bottom d vm1 role1 g.space other f free e v in
                    elim (gone-Used bottom d first n newsz vm vm1 (cleared f free vm1) vm2 role
                      role1 rolex role2 v h (omega arith) g
                      (taken_same bottom d vm1 role1 g.space other f free e)
                      (λ b. ground (arith, w, x)) (λ i b. assign-other f other role1 v x ∙ b) s
                      (used v a)) [
                        | inl y ↦ inl (ground (arith, y))
                        | inr (i, y) ↦ inr (i, assign-other f spare role2 v x ∙ y)
                      ]
              ],
            ),
          )

  -- A round after mappages, which has three ends.
  by_map :
      (fuel n : ℕ) (vm1 : Vm) (role1 : ℕ → Role) (low : first ≤ n)
      (g : Grown bottom d first (n * pgsize) vm vm1 role role1)
      (used : (v : ℕ) → 0 < times vm.free v → Used d first (n * pgsize) vm1 role1 v)
      (h : n * pgsize < newsz) (f : ℕ) (free : List ℕ) (e : vm1.free ≡ f ∷ free)
      (s : IsSpace bottom d (cleared f free vm1) (assign f (frame n) role1)) (l : n < user_pages)
      (z : is_present (entry (cleared f free vm1) d n) ≡ false) (u : Usable bottom f) (r : Mapped)
      → mappages d (n * pgsize) pgsize (v2p f) pte_wu (cleared f free vm1) ≡ r
      → MapEnds bottom d n f
          (cleared f free vm1)
          (assign f (frame n) role1)
          s
          l
          z
          u
          (assign-same f (frame n) role1)
          r
      → ((vm2 : Vm) (role2 : ℕ → Role)
          → PageMapped bottom d n f (cleared f free vm1) vm2 (assign f (frame n) role1) role2
          → Loop (alloc_from bottom fuel d (suc n * pgsize) oldsz newsz vm2))
      → Loop (alloc_from bottom (suc fuel) d (n * pgsize) oldsz newsz vm1)
  by_map fuel n vm1 role1 low g used h f free e s l z u (mapped vm2) q ends rest =
      let (role2, m) = ends in
      subst Loop (sym (round_mapped bottom d oldsz newsz fuel n f free vm1 h e vm2 l q))
        (rest vm2 role2 m)
  by_map fuel n vm1 role1 low g used h f free e s l z u (no_memory vm2) q ends rest =
      grow_no_table n vm1 role1 low g used h f free e fuel (q ∙ ap no_memory ends)
  by_map fuel n vm1 role1 low g used h f free e s l z u remap q ends rest = absurd ends

  module _
      (absent : (m : ℕ) → first ≤ m → m * pgsize < newsz → is_present (entry vm d m) ≡ false) where
    alloc_from_lem :
        (fuel n : ℕ) (vm1 : Vm) (role1 : ℕ → Role)
        → first ≤ n
        → Grown bottom d first (n * pgsize) vm vm1 role role1
        → ((v : ℕ) → 0 < times vm.free v → Used d first (n * pgsize) vm1 role1 v)
        → n * pgsize < newsz + pgsize
        → 0 < fuel
        → newsz < n * pgsize + fuel
        → Loop (alloc_from bottom fuel d (n * pgsize) oldsz newsz vm1)
    alloc_from_lem zero n vm1 role1 low g used b p t = absurd (omega arith)
    alloc_from_lem (suc fuel) n vm1 role1 low g used b p t =
        elim (Bool-cases (ltb (n * pgsize) newsz)) [
          | inr z ↦ (
            newsz,
            vm1,
            round_done bottom d oldsz newsz fuel n vm1 (ground arith),
            inl (
              refl,
              role1,
              cut_new bottom d first n newsz vm vm1 role role1 (ground arith) (ground arith) g,
            ),
          )
          | inl y ↦
              let h : n * pgsize < newsz = ground arith in
              let l : n < user_pages = omega arith in
              elim (List-cases vm1.free) [
                | inl e ↦ grow_no_page n vm1 role1 low g used h fuel e
                | inr (f, free, e) ↦
                    let u = f-Usable bottom d first n vm vm1 role role1 low l g f free e in
                    let z =
                      ap is_present (
                        taken_same bottom d vm1 role1 g.space (frame n) f free e n (omega arith)
                        ∙ g.same n (omega arith) (inr (omega arith)))
                      ∙ absent n low h in
                    by_map fuel n vm1 role1 low g used h f free e
                      (ready-IsSpace bottom d first n vm vm1 role role1 low l g f free e) l z u
                      (mappages d (n * pgsize) pgsize (v2p f) pte_wu (cleared f free vm1)) refl
                      (mappages_lem bottom d n f (cleared f free vm1) (assign f (frame n) role1)
                        (ready-IsSpace bottom d first n vm vm1 role role1 low l g f free e) l z u
                        (assign-same f (frame n) role1))
                      (λ vm2 role2 m.
                        alloc_from_lem fuel (suc n) vm2 role2 (omega arith)
                          (one_more bottom d first n vm vm1 role role1 low l g f free e vm2 role2 m)
                          (λ v a.
                            one_more-Used bottom d first n vm vm1 role role1 low l g f free e vm2
                              role2 m v (used v a))
                          (omega arith) (omega arith) (omega arith))
              ]
        ]

    -- In a well-formed address space, with oldsz <= newsz < KERNBASE and none of the pages from
    -- PGROUNDUP(oldsz) up to newsz present, allocuvm returns newsz or 0, without a panic. With
    -- newsz, each of these pages has a frame that was free and holds zeros, for the user to read
    -- and write. With 0, none of them is present, and every page that was free is free again or is
    -- a page table. Either way the space is well-formed, and the other pages have the entries that
    -- they had and hold what they held.
    pub allocuvm_lem :
        IsSpace bottom d vm role
        → oldsz ≤ newsz
        → (size : ℕ) × (vm' : Vm) × (allocuvm bottom d oldsz newsz vm ≡ some (size, vm'))
          × AllocEnds bottom d first newsz vm role size vm'
    unfolding allocuvm
    allocuvm_lem s l =
        let (size, vm', e, ends) =
          alloc_from_lem (suc newsz) first vm role (omega arith)
            (none_new bottom d first (first * pgsize) vm role s (omega arith)) (λ v a. still_free a)
            (omega arith) (omega arith) (omega arith) in
        let a : leb kernbase newsz ≡ false = ground arith in
        let b : ltb newsz oldsz ≡ false = ground arith in (size, vm', rw (a, b, e) refl, ends)
