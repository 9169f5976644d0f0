-- ===== src/Vm/Made.antt =====
-- walkpgdir: the table of a page, found or made.
use lab7sp25_shelnutt.Base.{
  ℕ, ◌+◌, ◌*◌, ◌/◌, ◌%◌, ◌≤◌, ◌<◌, ◌≡◌, ◌≢◌, refl, ap, ◌∙◌, sym, true, false, Option, none, some,
  List, [], ◌∷◌, ◌==◌, if◌then◌else◌, arith, Bool-cases, inl, inr, ◌⊎◌, subst, ℕ_discrete,
}
use lab7sp25_shelnutt.Kalloc.{pgsize}
use lab7sp25_shelnutt.Kalloc.Pages.{times}
use lab7sp25_shelnutt.Vm.{Vm, clear_page, v2p, is_present, pte_pwu, walkpgdir}
use lab7sp25_shelnutt.Vm.Space.{
  Role, root, table, spare, page_of, entry, all_pages, Usable, IsSpace, write-same, write-other,
  write-index, clear-same, clear-other, apart, assign, assign-same, assign-other, page_of-v2p,
  present-v2p,
}
use lab7sp25_shelnutt.Vm.Walk.{
  entry-present, entry-absent, entry-kept, made, List-cases, walk_there, walk_full, walk_made,
}

module _ (bottom : ℕ) where
  -- What walkpgdir with alloc does for the n-th page, where it finds the table t.
  pub record Walked (d n : ℕ) (vm vm' : Vm) (role role' : ℕ → Role) (t : ℕ) : Type 0 where
    pub space : IsSpace bottom d vm' role'
    pub there : is_present (vm'.mem d (n / 1024)) ≡ true
    pub found : page_of (vm'.mem d (n / 1024)) ≡ t
    pub same : (m : ℕ) → m < all_pages → entry vm' d m ≡ entry vm d m
    pub kept : (q j : ℕ) → role q ≢ spare → role q ≢ root → vm'.mem q j ≡ vm.mem q j
    pub roles : (q : ℕ) → role q ≢ spare → role' q ≡ role q
    pub fewer : (v : ℕ) → times vm'.free v ≤ times vm.free v
    pub used : (v : ℕ) → 0 < times vm.free v → (0 < times vm'.free v) ⊎ (role' v ≡ table (n / 1024))

  module _ (d n r : ℕ) (vm : Vm) (free : List ℕ) (role : ℕ → Role) (v : IsSpace bottom d vm role)
      (l : n < all_pages) (gone : is_present (vm.mem d (n / 1024)) ≡ false)
      (e : vm.free ≡ r ∷ free) where
    r_times : (w : ℕ) → times vm.free w ≡ (if r == w then 1 else 0) + times free w
    r_times w = ap (λ x. times x w) e

    r_spare : role r ≡ spare
    r_spare = v.spares r (ground (arith, r_times r))

    r-Usable : Usable bottom r
    r-Usable = v.spares_usable r (ground (arith, r_times r))

    d_not_r : d ≢ r
    d_not_r = apart role d r v.roots r_spare (λ h. ground arith)

    pde_same : (made d n r free vm.mem).mem d (n / 1024) ≡ v2p r + pte_pwu
    pde_same = write-same d (n / 1024) (v2p r + pte_pwu) (clear_page r vm.mem)

    pde_there : is_present ((made d n r free vm.mem).mem d (n / 1024)) ≡ true
    pde_there =
        ap is_present pde_same ∙ present-v2p r r-Usable.whole r-Usable.in_kernel r-Usable.in_memory

    pde_found : page_of ((made d n r free vm.mem).mem d (n / 1024)) ≡ r
    pde_found =
        ap page_of pde_same
        ∙ page_of-v2p r pte_pwu r-Usable.whole r-Usable.in_kernel r-Usable.in_memory (omega arith)

    other_dir : (i : ℕ) → i ≢ n / 1024 → (made d n r free vm.mem).mem d i ≡ vm.mem d i
    other_dir i h =
        write-index d (n / 1024) (v2p r + pte_pwu) (clear_page r vm.mem) d i h
        ∙ clear-other r vm.mem d i d_not_r

    not_r : (q : ℕ) {x : Role} → role q ≡ x → x ≢ spare → q ≢ r
    not_r q h k = apart role q r h r_spare k

    made_kept :
        (q j : ℕ) → role q ≢ spare → role q ≢ root → (made d n r free vm.mem).mem q j ≡ vm.mem q j
    made_kept q j a b =
        write-other d (n / 1024) (v2p r + pte_pwu) (clear_page r vm.mem) q j
          (λ h. b (ap role h ∙ v.roots))
        ∙ clear-other r vm.mem q j (not_r q refl a)

    made_same : (m : ℕ) → m < all_pages → entry (made d n r free vm.mem) d m ≡ entry vm d m
    made_same m k = elim (ℕ_discrete (m / 1024) (n / 1024)) [
      | yes h ↦
          let there = ap (λ i. is_present ((made d n r free vm.mem).mem d i)) h ∙ pde_there in
          entry-present (made d n r free vm.mem) d m there
          ∙ ap
              (λ i.
                (made d n r free vm.mem).mem (page_of ((made d n r free vm.mem).mem d i))
                  (m % 1024))
              h
          ∙ ap (λ t. (made d n r free vm.mem).mem t (m % 1024)) pde_found
          ∙ write-other d (n / 1024) (v2p r + pte_pwu) (clear_page r vm.mem) r (m % 1024)
              (λ x. d_not_r (sym x))
          ∙ clear-same r vm.mem (m % 1024)
          ∙ sym (entry-absent vm d m (ap (λ i. is_present (vm.mem d i)) h ∙ gone))
      | no h ↦ entry-kept vm (made d n r free vm.mem) d m (other_dir (m / 1024) h) (λ y.
          let t = v.tables (m / 1024) (omega arith) y in
          made_kept (page_of (vm.mem d (m / 1024))) (m % 1024)
            (λ x. let f = sym t ∙ x in ground arith) (λ x. let f = sym t ∙ x in ground arith))
    ]

    new_role : ℕ → Role
    new_role = assign r (table (n / 1024)) role

    role_kept : (q : ℕ) → role q ≢ spare → new_role q ≡ role q
    unfolding new_role
    role_kept q h = assign-other r (table (n / 1024)) role q (not_r q refl h)

    r_used : (w : ℕ) → 0 < times vm.free w → (0 < times free w) ⊎ (new_role w ≡ table (n / 1024))
    unfolding new_role
    r_used w h = elim (ℕ_discrete w r) [
      | yes x ↦ inr (ap new_role x ∙ assign-same r (table (n / 1024)) role)
      | no x ↦ inl (ground (arith, r_times w, x))
    ]

    made-IsSpace : IsSpace bottom d (made d n r free vm.mem) new_role
    unfolding new_role
    made-IsSpace = record {
      roots = role_kept d (λ h. let f = sym v.roots ∙ h in ground arith) ∙ v.roots;
      tables = λ i k h. elim (ℕ_discrete i (n / 1024)) [
        | yes x ↦
            ap (λ j. new_role (page_of ((made d n r free vm.mem).mem d j))) x
            ∙ ap new_role pde_found
            ∙ assign-same r (table (n / 1024)) role
            ∙ ap table (sym x)
        | no x ↦
            let old = other_dir i x in
            let t = v.tables i k (ap is_present (sym old) ∙ h) in
            ap (λ y. new_role (page_of y)) old
            ∙ role_kept (page_of (vm.mem d i)) (λ z. let f = sym t ∙ z in ground arith)
            ∙ t
      ];
      frames = λ m k h.
          let old = made_same m (omega arith) in
          let t = v.frames m k (ap is_present (sym old) ∙ h) in
          ap (λ y. new_role (page_of y)) old
          ∙ role_kept (page_of (entry vm d m)) (λ z. let f = sym t ∙ z in ground arith)
          ∙ t;
      frames_usable = λ m k h.
          let old = made_same m (omega arith) in
          subst (λ y. Usable bottom (page_of y)) (sym old)
            (v.frames_usable m k (ap is_present (sym old) ∙ h));
      spares = λ w h.
          let o = v.once w in
          let was = v.spares w (omega (arith, r_times w)) in
          assign-other r (table (n / 1024)) role w (λ x. ground (arith, r_times w, x)) ∙ was;
      spares_usable = λ w h. v.spares_usable w (omega (arith, r_times w));
      once = λ w. let o = v.once w in omega (arith, r_times w);
    }

  abbrev pub WalkEnds : ℕ → ℕ → Vm → (ℕ → Role) → Option (ℕ × ℕ) → Vm → Type 0
  WalkEnds d n vm role none vm' = (vm.free ≡ []) × (vm' ≡ vm)
  WalkEnds d n vm role (some (t, i)) vm' =
      (i ≡ n % 1024) × (role' : ℕ → Role) × Walked d n vm vm' role role' t

  -- walkpgdir with alloc in a well-formed space: it fails only without a free page; the entries of all
  -- pages stay the same.
  pub walk_lem :
      (d n : ℕ) (vm : Vm) (role : ℕ → Role)
      → IsSpace bottom d vm role
      → n < all_pages
      → WalkEnds d n vm role
          (walkpgdir d (n * pgsize) true vm).0
          (walkpgdir d (n * pgsize) true vm).1
  walk_lem d n vm role v l = elim (Bool-cases (is_present (vm.mem d (n / 1024)))) [
    | inl y ↦
        subst (λ q. WalkEnds d n vm role q.0 q.1) (sym (walk_there d n true vm l y))
          (
            refl,
            role,
            record {
              space = v;
              there = y;
              found = refl;
              same = λ m k. refl;
              kept = λ q j a b. refl;
              roles = λ q a. refl;
              fewer = λ w. omega arith;
              used = λ w h. inl h;
            },
          )
    | inr z ↦ elim (List-cases vm.free) [
      | inl e ↦ subst (λ q. WalkEnds d n vm role q.0 q.1) (sym (walk_full d n vm l z e)) (e, refl)
      | inr (r, free, e) ↦
          subst (λ q. WalkEnds d n vm role q.0 q.1) (sym (walk_made d n r vm free l z e))
            (
              refl,
              new_role d n r vm free role v l z e,
              record {
                space = made-IsSpace d n r vm free role v l z e;
                there = pde_there d n r vm free role v l z e;
                found = pde_found d n r vm free role v l z e;
                same = made_same d n r vm free role v l z e;
                kept = made_kept d n r vm free role v l z e;
                roles = role_kept d n r vm free role v l z e;
                fewer = λ w. omega (arith, r_times d n r vm free role v l z e w);
                used = r_used d n r vm free role v l z e;
              },
            )
    ]
  ]
