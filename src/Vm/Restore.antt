-- ===== src/Vm/Restore.antt =====
-- allocuvm without memory: the address space is as before.
use lab7sp25_shelnutt.Base.{
  ℕ, ◌*◌, ◌≤◌, ◌<◌, ◌≡◌, ◌≢◌, refl, ap, ◌∙◌, sym, false, ◌∷◌, arith, inl, inr, subst, ◌⊎◌,
}
use lab7sp25_shelnutt.Kalloc.{pgsize, kernbase}
use lab7sp25_shelnutt.Kalloc.Pages.{times}
use lab7sp25_shelnutt.Vm.{Vm, junk_page, is_present}
use lab7sp25_shelnutt.Vm.Space.{
  Role, root, table, frame, spare, other, page_of, entry, all_pages, Usable, IsSpace, apart, assign,
  assign-other,
}
use lab7sp25_shelnutt.Vm.Frames.{changed_same, changed-IsSpace, return-IsSpace}
use lab7sp25_shelnutt.Vm.Shrink.{Shrunk}
use lab7sp25_shelnutt.Vm.Drop.{junk-other}
use lab7sp25_shelnutt.Vm.Grow.{Grown, Used, still_free, user_page, a_table}

-- No page from `lo` on that starts before the address `hi` is there, the others are as before, and what
-- lies in pages that were in use is unchanged.
pub record Restored (bottom d lo hi : ℕ) (vm vm' : Vm) (role role' : ℕ → Role) : Type 0 where
  pub space : IsSpace bottom d vm' role'
  pub gone : (m : ℕ) → lo ≤ m → m * pgsize < hi → is_present (entry vm' d m) ≡ false
  pub same : (m : ℕ) → m < all_pages → (m < lo) ⊎ (hi ≤ m * pgsize) → entry vm' d m ≡ entry vm d m
  pub kept :
      (q j : ℕ)
      → role q ≢ spare
      → role q ≢ root
      → ((i : ℕ) → role q ≢ table i)
      → ((m : ℕ) → lo ≤ m → m * pgsize < hi → role q ≢ frame m)
      → vm'.mem q j ≡ vm.mem q j
  pub roles :
      (q : ℕ)
      → role q ≢ spare
      → ((m : ℕ) → lo ≤ m → m * pgsize < hi → role q ≢ frame m)
      → role' q ≡ role q

-- No page is lost: what was free is free again, or a table.
abbrev pub Returned : Vm → Vm → (ℕ → Role) → Type 0
Returned vm vm' role' =
    (v : ℕ) → 0 < times vm.free v → (0 < times vm'.free v) ⊎ ((i : ℕ) × (role' v ≡ table i))

-- The pages that came go again; `vmx` is vm1 but for free pages.
pub restore :
    (bottom d lo n hi : ℕ) (vm vm1 vmx vm2 : Vm) (role role1 rolex role2 : ℕ → Role)
    → n * pgsize < hi
    → Grown bottom d lo (n * pgsize) vm vm1 role role1
    → ((m : ℕ) → m < all_pages → entry vmx d m ≡ entry vm1 d m)
    → ((q j : ℕ) → role q ≢ spare → vmx.mem q j ≡ vm1.mem q j)
    → ((q : ℕ) → role q ≢ spare → rolex q ≡ role q)
    → Shrunk bottom d lo hi vmx vm2 rolex role2
    → Restored bottom d lo hi vm vm2 role role2
restore bottom d lo n hi vm vm1 vmx vm2 role role1 rolex role2 l g same kept roles s = record {
  space = s.space;
  gone = s.gone;
  same = λ m a b.
      s.same m a b ∙ same m a ∙ g.same m a (elim b [ inl x ↦ inl x | inr x ↦ inr (omega arith) ]);
  kept = λ q j a b c e.
      let r = roles q a in
      s.kept q j (λ i h. c i (sym r ∙ h)) (λ m x y h. e m x y (sym r ∙ h))
      ∙ kept q j a
      ∙ g.kept q j a b c;
  roles = λ q a e. let r = roles q a in s.roles q (λ m x y h. e m x y (sym r ∙ h)) ∙ r;
}

-- Where the pages are that were free, after the pages that came have gone.
pub gone-Used :
    (bottom d lo n hi : ℕ) (vm vm1 vmx vm2 : Vm) (role role1 rolex role2 : ℕ → Role) (v : ℕ)
    → n * pgsize < hi
    → hi ≤ kernbase
    → Grown bottom d lo (n * pgsize) vm vm1 role role1
    → ((m : ℕ) → m < all_pages → entry vmx d m ≡ entry vm1 d m)
    → (0 < times vm1.free v → 0 < times vmx.free v)
    → ((i : ℕ) → role1 v ≡ table i → rolex v ≡ table i)
    → Shrunk bottom d lo hi vmx vm2 rolex role2
    → Used d lo (n * pgsize) vm1 role1 v
    → (0 < times vm2.free v) ⊎ ((i : ℕ) × (role2 v ≡ table i))
gone-Used bottom d lo n hi vm vm1 vmx vm2 role role1 rolex role2 v l top g same more tables s
      (still_free h) =
    let a = more h in let b = s.more v in inl (omega arith)
gone-Used bottom d lo n hi vm vm1 vmx vm2 role role1 rolex role2 v l top g same more tables s
      (user_page m a b y) =
    let e = same m (omega arith) in
    let new = g.new m a b in
    inl (
      subst (λ w. 0 < times vm2.free w) (ap page_of e ∙ y)
        (s.freed m a (omega arith) (ap is_present e ∙ new.there)))
gone-Used bottom d lo n hi vm vm1 vmx vm2 role role1 rolex role2 v l top g same more tables s
      (a_table i y) =
    let x = tables i y in inr (i, s.roles v (λ m a b h. let c = sym x ∙ h in ground arith) ∙ x)

-- The page f that mappages was to map is freed.
module _ (bottom d lo hi f : ℕ) (vm vm2 : Vm) (role role2 : ℕ → Role) (top : hi ≤ kernbase)
    (u : Usable bottom f) (was : role f ≡ spare) (now : role2 f ≡ other)
    (r : Restored bottom d lo hi vm vm2 role role2) where
  abbrev pub given : Vm
  given = record { free = f ∷ vm2.free; mem = junk_page f vm2.mem }

  no_root : role2 f ≢ root
  no_root h = let c = sym now ∙ h in ground arith

  no_table : (i : ℕ) → role2 f ≢ table i
  no_table i h = let c = sym now ∙ h in ground arith

  given_same : (m : ℕ) → m < all_pages → entry given d m ≡ entry vm2 d m
  given_same =
      changed_same bottom d vm2 role2 r.space f (junk_page f vm2.mem) (junk-other f vm2.mem) no_root
        no_table

  pub give_back : Restored bottom d lo hi vm given role (assign f spare role2)
  give_back = record {
    space =
        return-IsSpace bottom d (record vm2 { mem = junk_page f vm2.mem }) role2
          (changed-IsSpace bottom d vm2 role2 r.space f (junk_page f vm2.mem) (junk-other f vm2.mem)
            no_root no_table)
          f u now;
    gone = λ m a b. ap is_present (given_same m (omega arith)) ∙ r.gone m a b;
    same = λ m a b. given_same m a ∙ r.same m a b;
    kept = λ q j a b c e. junk-other f vm2.mem q j (apart role q f refl was a) ∙ r.kept q j a b c e;
    roles = λ q a e. assign-other f spare role2 q (apart role q f refl was a) ∙ r.roles q a e;
  }
