-- ===== src/Vm/Shrink.antt =====
-- deallocuvm: pages that go.
use lab7sp25_shelnutt.Base.{
  ℕ, suc, ◌+◌, ◌*◌, ◌≤◌, ◌<◌, ◌≡◌, ◌≢◌, refl, ap, ◌∙◌, sym, true, false, ltb, arith, Bool-cases,
  inl, inr, subst, ℕ_discrete, ◌⊎◌,
}
use lab7sp25_shelnutt.Kalloc.{pgsize}
use lab7sp25_shelnutt.Kalloc.Pages.{times}
use lab7sp25_shelnutt.Vm.{Vm, is_present}
use lab7sp25_shelnutt.Vm.Space.{Role, table, frame, page_of, entry, all_pages, IsSpace}

-- The pages from `lo` on that start before the address `hi` are gone, and nothing else has changed.
pub record Shrunk (bottom d lo hi : ℕ) (vm vm' : Vm) (role role' : ℕ → Role) : Type 0 where
  pub space : IsSpace bottom d vm' role'
  pub gone : (m : ℕ) → lo ≤ m → m * pgsize < hi → is_present (entry vm' d m) ≡ false
  pub freed :
      (m : ℕ)
      → lo ≤ m
      → m * pgsize < hi
      → is_present (entry vm d m) ≡ true
      → 0 < times vm'.free (page_of (entry vm d m))
  pub same : (m : ℕ) → m < all_pages → (m < lo) ⊎ (hi ≤ m * pgsize) → entry vm' d m ≡ entry vm d m
  pub kept :
      (q j : ℕ)
      → ((i : ℕ) → role q ≢ table i)
      → ((m : ℕ) → lo ≤ m → m * pgsize < hi → role q ≢ frame m)
      → vm'.mem q j ≡ vm.mem q j
  pub roles : (q : ℕ) → ((m : ℕ) → lo ≤ m → m * pgsize < hi → role q ≢ frame m) → role' q ≡ role q
  pub more : (v : ℕ) → times vm.free v ≤ times vm'.free v

module _ (bottom d hi : ℕ) where
  pub none_gone :
      (n : ℕ) (vm : Vm) (role : ℕ → Role)
      → IsSpace bottom d vm role
      → hi ≤ n * pgsize
      → Shrunk bottom d n hi vm vm role role
  none_gone n vm role s h = record {
    space = s;
    gone = λ m a b. ground arith;
    freed = λ m a b y. omega arith;
    same = λ m a b. refl;
    kept = λ q j a b. refl;
    roles = λ q a. refl;
    more = λ v. omega arith;
  }

  -- Pages that are not present are gone as they are.
  pub skip_gone :
      (lo n : ℕ) (vm vm' : Vm) (role role' : ℕ → Role)
      → lo ≤ n
      → n ≤ all_pages
      → ((m : ℕ) → lo ≤ m → m < n → is_present (entry vm d m) ≡ false)
      → Shrunk bottom d n hi vm vm' role role'
      → Shrunk bottom d lo hi vm vm' role role'
  skip_gone lo n vm vm' role role' l top absent s = record {
    space = s.space;
    gone = λ m a b. elim (Bool-cases (ltb m n)) [
      | inl y ↦
          ap is_present (s.same m (ground arith) (inl (ground arith))) ∙ absent m a (ground arith)
      | inr z ↦ s.gone m (ground arith) b
    ];
    freed = λ m a b p. elim (Bool-cases (ltb m n)) [
      | inl y ↦ let z = sym p ∙ absent m a (ground arith) in ground arith
      | inr z ↦ s.freed m (ground arith) b p
    ];
    same = λ m a b. s.same m a (elim b [ inl x ↦ inl (omega arith) | inr x ↦ inr x ]);
    kept = λ q j a b. s.kept q j a (λ m x. b m (omega arith));
    roles = λ q a. s.roles q (λ m x. a m (omega arith));
    more = s.more;
  }

  -- One page goes, then the pages after it.
  pub then_gone :
      (n : ℕ) (vm vm1 vm2 : Vm) (role role1 role2 : ℕ → Role)
      → n * pgsize < hi
      → hi ≤ all_pages * pgsize
      → Shrunk bottom d n (n * pgsize + 1) vm vm1 role role1
      → Shrunk bottom d (suc n) hi vm1 vm2 role1 role2
      → Shrunk bottom d n hi vm vm2 role role2
  then_gone n vm vm1 vm2 role role1 role2 l top s t = record {
    space = t.space;
    gone = λ m a b. elim (ℕ_discrete m n) [
      | yes e ↦
          ap is_present (t.same m (omega arith) (inl (omega arith))) ∙ s.gone m a (omega (arith, e))
      | no e ↦ t.gone m (omega (arith, e)) b
    ];
    freed = λ m a b p. elim (ℕ_discrete m n) [
      | yes e ↦
          let one = s.freed m a (omega (arith, e)) p in
          let grows = t.more (page_of (entry vm d m)) in omega (arith, one, grows)
      | no e ↦
          let same = s.same m (omega arith) (inr (omega (arith, e))) in
          subst (λ x. 0 < times vm2.free (page_of x)) same
            (t.freed m (omega (arith, e)) b (ap is_present same ∙ p))
    ];
    same = λ m a b. elim b [
      | inl x ↦ t.same m a (inl (omega arith)) ∙ s.same m a (inl x)
      | inr x ↦ t.same m a (inr x) ∙ s.same m a (inr (omega arith))
    ];
    kept = λ q j a b.
        let r = s.roles q (λ m x y. b m x (omega arith)) in
        t.kept q j (λ i e. a i (sym r ∙ e)) (λ m x y e. b m (omega arith) y (sym r ∙ e))
        ∙ s.kept q j a (λ m x y. b m x (omega arith));
    roles = λ q a.
        let r = s.roles q (λ m x y. a m x (omega arith)) in
        t.roles q (λ m x y e. a m (omega arith) y (sym r ∙ e)) ∙ r;
    more = λ v. let x = s.more v in let y = t.more v in omega arith;
  }
