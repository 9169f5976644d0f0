-- ===== src/Vm/Frames.antt =====
-- The frames of user pages: taken from the free list, given back, and changed in what they hold.
use lab7sp25_shelnutt.Base.{
  ℕ, ◌+◌, ◌/◌, ◌%◌, ◌<◌, ◌≡◌, ◌≢◌, refl, ap, ◌∙◌, sym, true, false, List, ◌∷◌, ◌==◌, ltb,
  if◌then◌else◌, arith, Bool-cases, inl, inr, subst, ℕ_discrete,
}
use lab7sp25_shelnutt.Kalloc.Pages.{times}
use lab7sp25_shelnutt.Vm.{Mem, Vm, clear_page, is_present}
use lab7sp25_shelnutt.Vm.Space.{
  Role, root, table, frame, spare, other, page_of, entry, user_pages, all_pages, Usable, IsSpace,
  clear-other, apart, assign, assign-same, assign-other,
}
use lab7sp25_shelnutt.Vm.Walk.{entry-kept}
use lab7sp25_shelnutt.Vm.Entries.{frame_injective}

module _ (bottom d : ℕ) (vm : Vm) (role : ℕ → Role) (s : IsSpace bottom d vm role) where
  no_spare : (q : ℕ) → role q ≢ spare → times vm.free q ≡ 0
  no_spare q h = elim (Bool-cases (ltb 0 (times vm.free q))) [
    | inl y ↦ absurd (h (s.spares q (ground arith)))
    | inr z ↦ ground arith
  ]

  -- A page f that is no more in use comes back to the free list.
  pub give-IsSpace :
      (f : ℕ)
      → Usable bottom f
      → role f ≢ spare
      → d ≢ f
      → ((i : ℕ) → i < 1024 → is_present (vm.mem d i) ≡ true → page_of (vm.mem d i) ≢ f)
      → ((n : ℕ) → n < user_pages → is_present (entry vm d n) ≡ true → page_of (entry vm d n) ≢ f)
      → IsSpace bottom d (record vm { free = f ∷ vm.free }) (assign f spare role)
  give-IsSpace f u r dir tables frames =
      let zero_times = no_spare f r in
      record {
        roots = assign-other f spare role d dir ∙ s.roots;
        tables = λ i k h.
            assign-other f spare role (page_of (vm.mem d i)) (tables i k h) ∙ s.tables i k h;
        frames = λ m k h.
            assign-other f spare role (page_of (entry vm d m)) (frames m k h) ∙ s.frames m k h;
        frames_usable = s.frames_usable;
        spares = λ w h. elim (ℕ_discrete w f) [
          | yes e ↦ ap (assign f spare role) e ∙ assign-same f spare role
          | no e ↦ assign-other f spare role w e ∙ s.spares w (ground (arith, e))
        ];
        spares_usable = λ w h. elim (ℕ_discrete w f) [
          | yes e ↦ subst (Usable bottom) (sym e) u
          | no e ↦ s.spares_usable w (ground (arith, e))
        ];
        once = λ w.
            let o = s.once w in
            elim (ℕ_discrete w f) [
              | yes e ↦ ground (arith, zero_times, e)
              | no e ↦ ground (arith, e)
            ];
      }

  -- The frame f of the page n, which is not present.
  pub free-IsSpace :
      (n f : ℕ)
      → n < user_pages
      → is_present (entry vm d n) ≡ false
      → Usable bottom f
      → role f ≡ frame n
      → IsSpace bottom d (record vm { free = f ∷ vm.free }) (assign f spare role)
  free-IsSpace n f l z u r =
      give-IsSpace f u (λ h. let g = sym r ∙ h in ground arith)
        (apart role d f s.roots r (λ h. ground arith))
        (λ i k h. apart role (page_of (vm.mem d i)) f (s.tables i k h) r (λ g. ground arith))
        (λ m k h. apart role (page_of (entry vm d m)) f (s.frames m k h) r (λ g.
          let e = frame_injective g in
          let w = sym (ap (λ j. is_present (entry vm d j)) e ∙ z) ∙ h in ground arith))

  -- A page that is another's.
  pub return-IsSpace :
      (f : ℕ)
      → Usable bottom f
      → role f ≡ other
      → IsSpace bottom d (record vm { free = f ∷ vm.free }) (assign f spare role)
  return-IsSpace f u r =
      give-IsSpace f u (λ h. let g = sym r ∙ h in ground arith)
        (apart role d f s.roots r (λ h. ground arith))
        (λ i k h. apart role (page_of (vm.mem d i)) f (s.tables i k h) r (λ g. ground arith))
        (λ m k h. apart role (page_of (entry vm d m)) f (s.frames m k h) r (λ g. ground arith))

  -- The first free page is taken for a use `x`, and cleared.
  module _ (x : Role) (f : ℕ) (free : List ℕ) (e : vm.free ≡ f ∷ free) where
    pub taken_times : (w : ℕ) → times vm.free w ≡ (if f == w then 1 else 0) + times free w
    taken_times w = ap (λ ys. times ys w) e

    pub taken_spare : role f ≡ spare
    taken_spare = s.spares f (ground (arith, taken_times f))

    pub taken-Usable : Usable bottom f
    taken-Usable = s.spares_usable f (ground (arith, taken_times f))

    pub taken_once : times free f ≡ 0
    taken_once = let o = s.once f in ground (arith, taken_times f)

    abbrev pub taken : Vm
    taken = record { free = free; mem = clear_page f vm.mem }

    pub taken_role : (q : ℕ) → role q ≢ spare → assign f x role q ≡ role q
    taken_role q h = assign-other f x role q (apart role q f refl taken_spare h)

    pub taken_dir : (i : ℕ) → taken.mem d i ≡ vm.mem d i
    taken_dir i = clear-other f vm.mem d i (apart role d f s.roots taken_spare (λ h. ground arith))

    pub taken_same : (m : ℕ) → m < all_pages → entry taken d m ≡ entry vm d m
    taken_same m k = entry-kept vm taken d m (taken_dir (m / 1024)) (λ y.
        clear-other f vm.mem (page_of (vm.mem d (m / 1024))) (m % 1024) (
          apart role (page_of (vm.mem d (m / 1024))) f (s.tables (m / 1024) (omega arith) y)
            taken_spare (λ h. ground arith)))

    pub taken-IsSpace : IsSpace bottom d taken (assign f x role)
    taken-IsSpace = record {
      roots = taken_role d (λ h. let g = sym s.roots ∙ h in ground arith) ∙ s.roots;
      tables = λ i k h.
          let t = s.tables i k (ap is_present (sym (taken_dir i)) ∙ h) in
          ap (λ v. assign f x role (page_of v)) (taken_dir i)
          ∙ taken_role (page_of (vm.mem d i)) (λ g. let w = sym t ∙ g in ground arith)
          ∙ t;
      frames = λ m k h.
          let same = taken_same m (omega arith) in
          let t = s.frames m k (ap is_present (sym same) ∙ h) in
          ap (λ v. assign f x role (page_of v)) same
          ∙ taken_role (page_of (entry vm d m)) (λ g. let w = sym t ∙ g in ground arith)
          ∙ t;
      frames_usable = λ m k h.
          let same = taken_same m (omega arith) in
          subst (λ v. Usable bottom (page_of v)) (sym same)
            (s.frames_usable m k (ap is_present (sym same) ∙ h));
      spares = λ w h.
          let o = s.once w in
          let was = s.spares w (omega (arith, taken_times w)) in
          assign-other f x role w (λ h'. ground (arith, taken_times w, h')) ∙ was;
      spares_usable = λ w h. s.spares_usable w (omega (arith, taken_times w));
      once = λ w. let o = s.once w in omega (arith, taken_times w);
    }

  -- A change of what lies in the page f, which is neither the directory nor a table.
  module _ (f : ℕ) (m : Mem) (others : (q j : ℕ) → q ≢ f → m q j ≡ vm.mem q j)
      (no_root : role f ≢ root) (no_table : (i : ℕ) → role f ≢ table i) where
    abbrev pub changed : Vm
    changed = record vm { mem = m }

    pub changed_dir : (i : ℕ) → changed.mem d i ≡ vm.mem d i
    changed_dir i = others d i (λ e. no_root (ap role (sym e) ∙ s.roots))

    pub changed_same : (n : ℕ) → n < all_pages → entry changed d n ≡ entry vm d n
    changed_same n l = entry-kept vm changed d n (changed_dir (n / 1024)) (λ y.
        others (page_of (vm.mem d (n / 1024))) (n % 1024)
          (λ e. no_table (n / 1024) (ap role (sym e) ∙ s.tables (n / 1024) (omega arith) y)))

    pub changed-IsSpace : IsSpace bottom d changed role
    changed-IsSpace = record {
      roots = s.roots;
      tables = λ i k h.
          ap (λ x. role (page_of x)) (changed_dir i)
          ∙ s.tables i k (ap is_present (sym (changed_dir i)) ∙ h);
      frames = λ n k h.
          let same = changed_same n (omega arith) in
          ap (λ x. role (page_of x)) same ∙ s.frames n k (ap is_present (sym same) ∙ h);
      frames_usable = λ n k h.
          let same = changed_same n (omega arith) in
          subst (λ x. Usable bottom (page_of x)) (sym same)
            (s.frames_usable n k (ap is_present (sym same) ∙ h));
      spares = s.spares;
      spares_usable = s.spares_usable;
      once = s.once;
    }
