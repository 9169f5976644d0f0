-- ===== src/Vm/Grow.antt =====
-- allocuvm: pages that come.
use lab7sp25_shelnutt.Base.{
  ℕ, suc, ◌+◌, ◌*◌, ◌/◌, ◌%◌, ◌≤◌, ◌<◌, ◌≡◌, ◌≢◌, refl, ap, ◌∙◌, sym, true, List, ◌∷◌, arith, inl,
  inr, subst, ℕ_discrete, ◌⊎◌,
}
use lab7sp25_shelnutt.Kalloc.{pgsize, kernbase, phystop}
use lab7sp25_shelnutt.Kalloc.Pages.{times}
use lab7sp25_shelnutt.Vm.{Vm, clear_page, is_present, v2p, pte_pwu, pte_flags}
use lab7sp25_shelnutt.Vm.Space.{
  Role, root, table, frame, spare, other, page_of, entry, user_pages, all_pages, Usable, IsSpace,
  page_of-v2p, present-v2p, clear-same, clear-other, apart, assign, assign-same,
}
use lab7sp25_shelnutt.Vm.MapPage.{PageMapped}
use lab7sp25_shelnutt.Vm.Frames.{
  taken_same, taken_role, taken_spare, taken-Usable, taken-IsSpace, taken_times,
}

-- The state after kalloc has given the page f and memset has cleared it.
abbrev pub cleared : ℕ → List ℕ → Vm → Vm
cleared f free vm = record { free = free; mem = clear_page f vm.mem }

-- A page that was free is the user's, to read and write, and zero.
pub record IsNew (d : ℕ) (vm' : Vm) (role : ℕ → Role) (m : ℕ) : Type 0 where
  pub there : is_present (entry vm' d m) ≡ true
  pub flags : pte_flags (entry vm' d m) ≡ pte_pwu
  pub was_free : role (page_of (entry vm' d m)) ≡ spare
  pub zeroed : (j : ℕ) → vm'.mem (page_of (entry vm' d m)) j ≡ 0

-- The pages from `lo` on that start before the address `hi` are new, and nothing else has changed but
-- for tables that were made.
pub record Grown (bottom d lo hi : ℕ) (vm vm' : Vm) (role role' : ℕ → Role) : Type 0 where
  pub space : IsSpace bottom d vm' role'
  pub new : (m : ℕ) → lo ≤ m → m * pgsize < hi → IsNew d vm' role m
  pub same : (m : ℕ) → m < all_pages → (m < lo) ⊎ (hi ≤ m * pgsize) → entry vm' d m ≡ entry vm d m
  pub kept :
      (q j : ℕ)
      → role q ≢ spare
      → role q ≢ root
      → ((i : ℕ) → role q ≢ table i)
      → vm'.mem q j ≡ vm.mem q j
  pub roles : (q : ℕ) → role q ≢ spare → role' q ≡ role q
  pub fewer : (v : ℕ) → times vm'.free v ≤ times vm.free v

-- Where a page is that was free: still free, a page of the user, or a table.
pub data Used (d lo hi : ℕ) (vm' : Vm) (role' : ℕ → Role) (v : ℕ) : Type 0 where
  still_free : 0 < times vm'.free v → Used d lo hi vm' role' v
  user_page :
      (m : ℕ) → lo ≤ m → m * pgsize < hi → page_of (entry vm' d m) ≡ v → Used d lo hi vm' role' v
  a_table : (i : ℕ) → role' v ≡ table i → Used d lo hi vm' role' v

pub none_new :
    (bottom d lo hi : ℕ) (vm : Vm) (role : ℕ → Role)
    → IsSpace bottom d vm role
    → hi ≤ lo * pgsize
    → Grown bottom d lo hi vm vm role role
none_new bottom d lo hi vm role s h = record {
  space = s;
  new = λ m a b. absurd (omega arith);
  same = λ m a b. refl;
  kept = λ q j a b c. refl;
  roles = λ q a. refl;
  fewer = λ v. omega arith;
}

flags-v2p :
    (v : ℕ)
    → v % pgsize ≡ 0
    → kernbase ≤ v
    → v < kernbase + phystop
    → pte_flags (v2p v + pte_pwu) ≡ pte_pwu
flags-v2p v a k m = omega arith

-- The end may lie within the last page.
pub cut_new :
    (bottom d lo n hi : ℕ) (vm vm' : Vm) (role role' : ℕ → Role)
    → hi ≤ n * pgsize
    → n * pgsize < hi + pgsize
    → Grown bottom d lo (n * pgsize) vm vm' role role'
    → Grown bottom d lo hi vm vm' role role'
cut_new bottom d lo n hi vm vm' role role' a b g = record {
  space = g.space;
  new = λ m x y. g.new m x (omega arith);
  same = λ m x y. g.same m x (elim y [ inl h ↦ inl h | inr h ↦ inr (omega arith) ]);
  kept = g.kept;
  roles = g.roles;
  fewer = g.fewer;
}

-- The pages up to n have come; the page n comes.
module _ (bottom d lo n : ℕ) (vm vm1 : Vm) (role role1 : ℕ → Role) (low : lo ≤ n)
    (l : n < user_pages) (g : Grown bottom d lo (n * pgsize) vm vm1 role role1) (f : ℕ)
    (free : List ℕ) (e : vm1.free ≡ f ∷ free) where
  abbrev pub ready : Vm
  ready = cleared f free vm1

  abbrev pub ready_role : ℕ → Role
  ready_role = assign f (frame n) role1

  pub ready-IsSpace : IsSpace bottom d ready ready_role
  ready-IsSpace = taken-IsSpace bottom d vm1 role1 g.space (frame n) f free e

  pub f-Usable : Usable bottom f
  f-Usable = taken-Usable bottom d vm1 role1 g.space (frame n) f free e

  pub f_spare : role1 f ≡ spare
  f_spare = taken_spare bottom d vm1 role1 g.space (frame n) f free e

  -- It was free from the start.
  pub was_spare : role f ≡ spare
  was_spare = elim (is_spare (role f)) [
    | inl h ↦ h
    | inr h ↦ absurd (h (sym (g.roles f h) ∙ f_spare))
  ]
    where
      is_spare : (x : Role) → (x ≡ spare) ⊎ (x ≢ spare)
      is_spare root = inr (λ h. ground arith)
      is_spare (table i) = inr (λ h. ground arith)
      is_spare (frame i) = inr (λ h. ground arith)
      is_spare spare = inl refl
      is_spare other = inr (λ h. ground arith)

  ready_kept : (q : ℕ) → role1 q ≢ spare → ready_role q ≡ role1 q
  ready_kept = taken_role bottom d vm1 role1 g.space (frame n) f free e

  pub one_more :
      (vm2 : Vm) (role2 : ℕ → Role)
      → PageMapped bottom d n f ready vm2 ready_role role2
      → Grown bottom d lo (suc n * pgsize) vm vm2 role role2
  one_more vm2 role2 p =
      let mine : page_of (entry vm2 d n) ≡ f =
        ap page_of p.here
        ∙ page_of-v2p f pte_pwu f-Usable.whole f-Usable.in_kernel f-Usable.in_memory
            (omega arith) in
      let f_frame : ready_role f ≡ frame n = assign-same f (frame n) role1 in
      let not_spare : (q : ℕ) → role1 q ≢ spare → ready_role q ≢ spare =
        λ q a h. a (sym (ready_kept q a) ∙ h) in
      let kept : (q j : ℕ)
          → role1 q ≢ spare
          → role1 q ≢ root
          → ((i : ℕ) → role1 q ≢ table i)
          → vm2.mem q j ≡ vm1.mem q j =
        λ q j a b c.
          p.kept q j (not_spare q a) (λ h. b (sym (ready_kept q a) ∙ h))
            (λ i h. c i (sym (ready_kept q a) ∙ h))
          ∙ clear-other f vm1.mem q j (apart role1 q f refl f_spare a) in
      let same : (m : ℕ) → m < all_pages → m ≢ n → entry vm2 d m ≡ entry vm1 d m =
        λ m a b. p.same m a b ∙ taken_same bottom d vm1 role1 g.space (frame n) f free e m a in
      record {
        space = p.space;
        new = λ m a b. elim (ℕ_discrete m n) [
          | yes x ↦ subst (IsNew d vm2 role) (sym x) (record {
            there =
                ap is_present p.here
                ∙ present-v2p f f-Usable.whole f-Usable.in_kernel f-Usable.in_memory;
            flags =
                ap pte_flags p.here
                ∙ flags-v2p f f-Usable.whole f-Usable.in_kernel f-Usable.in_memory;
            was_free = ap role mine ∙ was_spare;
            zeroed = λ j.
                ap (λ q. vm2.mem q j) mine
                ∙ p.kept f j (λ h. let c = sym f_frame ∙ h in ground arith)
                    (λ h. let c = sym f_frame ∙ h in ground arith)
                    (λ i h. let c = sym f_frame ∙ h in ground arith)
                ∙ clear-same f vm1.mem j;
          })
          | no x ↦
              let old = g.new m a (omega (arith, x)) in
              let eq = same m (omega arith) x in
              let r = g.space.frames m (omega arith) old.there in
              record {
                there = ap is_present eq ∙ old.there;
                flags = ap pte_flags eq ∙ old.flags;
                was_free = ap (λ y. role (page_of y)) eq ∙ old.was_free;
                zeroed = λ j.
                    ap (λ y. vm2.mem (page_of y) j) eq
                    ∙ kept (page_of (entry vm1 d m)) j (λ h. let c = sym r ∙ h in ground arith)
                        (λ h. let c = sym r ∙ h in ground arith)
                        (λ i h. let c = sym r ∙ h in ground arith)
                    ∙ old.zeroed j;
              }
        ];
        same = λ m a b. elim b [
          | inl x ↦ same m a (omega arith) ∙ g.same m a (inl x)
          | inr x ↦ same m a (omega arith) ∙ g.same m a (inr (omega arith))
        ];
        kept = λ q j a b c.
            let r = g.roles q a in
            kept q j (λ h. a (sym r ∙ h)) (λ h. b (sym r ∙ h)) (λ i h. c i (sym r ∙ h))
            ∙ g.kept q j a b c;
        roles = λ q a.
            let r = g.roles q a in
            let ns : role1 q ≢ spare = λ h. a (sym r ∙ h) in
            p.roles q (not_spare q ns) ∙ ready_kept q ns ∙ r;
        fewer = λ v.
            let x = p.fewer v in
            let y = g.fewer v in
            let w = taken_times bottom d vm1 role1 g.space (frame n) f free e v in omega arith;
      }

  pub one_more-Used :
      (vm2 : Vm) (role2 : ℕ → Role)
      → PageMapped bottom d n f ready vm2 ready_role role2
      → (v : ℕ) → Used d lo (n * pgsize) vm1 role1 v
      → Used d lo (suc n * pgsize) vm2 role2 v
  one_more-Used vm2 role2 p v (still_free h) = elim (ℕ_discrete v f) [
    | yes x ↦ user_page n low (omega arith) (
        ap page_of p.here
        ∙ page_of-v2p f pte_pwu f-Usable.whole f-Usable.in_kernel f-Usable.in_memory (omega arith)
        ∙ sym x)
    | no x ↦
        let w = taken_times bottom d vm1 role1 g.space (frame n) f free e v in
        elim (p.used v (ground (arith, w, x))) [
          | inl y ↦ still_free y
          | inr y ↦ a_table (n / 1024) y
        ]
  ]
  one_more-Used vm2 role2 p v (user_page m a b y) = user_page m a (omega arith) (
      ap page_of (
        p.same m (omega arith) (omega arith)
        ∙ taken_same bottom d vm1 role1 g.space (frame n) f free e m (omega arith))
      ∙ y)
  one_more-Used vm2 role2 p v (a_table i y) =
      let k : role1 v ≢ spare = λ h. let c = sym y ∙ h in ground arith in
      let r = ready_kept v k in a_table i (p.roles v (λ h. k (sym r ∙ h)) ∙ r ∙ y)
