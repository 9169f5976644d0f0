-- ===== src/Tests/Paging.antt =====
-- Runs of vm.c.
use lab7sp25_shelnutt.Base.{
  ℕ, ◌+◌, ◌≡◌, refl, ap, ◌∙◌, sym, true, ◌&&◌, ◌||◌, ◌/◌, ◌%◌, Bool-cases, [], ◌∷◌, ◌==◌,
  if◌then◌else◌, arith, inl, inr, subst, some,
}
use lab7sp25_shelnutt.Vm.User.{copyout}
use lab7sp25_shelnutt.Vm.Copyout.{Copied, copyout_lem}
use lab7sp25_shelnutt.Vm.{is_user, Vm, v2p, is_present, allocuvm, deallocuvm, pte_pwu}
use lab7sp25_shelnutt.Vm.Space.{
  Role, root, table, frame, spare, other, page_of, entry, Usable, IsSpace,
}
use lab7sp25_shelnutt.Vm.Walk.{entry-present, entry-absent}
use lab7sp25_shelnutt.Vm.Entries.{not_true}
use lab7sp25_shelnutt.Vm.Alloc.{AllocEnds, allocuvm_lem}
use lab7sp25_shelnutt.Vm.Shrink.{Shrunk}
use lab7sp25_shelnutt.Vm.Dealloc.{deallocuvm_lem}

-- The end of the kernel, and pages after it.
abbrev bottom : ℕ
bottom = 0x80300000

abbrev dir : ℕ
dir = 0x80400000

abbrev page_1 : ℕ
page_1 = 0x80401000

abbrev page_2 : ℕ
page_2 = 0x80402000

abbrev page_3 : ℕ
page_3 = 0x80403000

abbrev empty_space : Vm
empty_space = record { free = page_1 ∷ page_2 ∷ page_3 ∷ []; mem = λ q j. 0 }

abbrev empty_roles : ℕ → Role
empty_roles q =
    if q == dir
    then root
    else if (q == page_1) || ((q == page_2) || (q == page_3))
    then spare
    else other

empty_space-IsSpace : IsSpace bottom dir empty_space empty_roles
empty_space-IsSpace = record {
  roots = refl;
  tables = λ i k h. absurd (not_true h);
  frames = λ n k h. absurd (not_true h);
  frames_usable = λ n k h. absurd (not_true h);
  spares = λ v h. ground arith;
  spares_usable = λ v h. record {
    whole = ground arith;
    above = ground arith;
    in_kernel = ground arith;
    in_memory = ground arith;
  };
  once = λ v. ground arith;
}

-- Two pages, and a table for them.
allocuvm_lem_example :
    (size : ℕ) × (vm' : Vm) × (allocuvm bottom dir 0 5000 empty_space ≡ some (size, vm'))
    × AllocEnds bottom dir 0 5000 empty_space empty_roles size vm'
allocuvm_lem_example =
    allocuvm_lem bottom dir 0 5000 (omega arith) (omega arith) empty_space empty_roles
      (λ m a b. refl) empty_space-IsSpace (omega arith)

-- One page.
abbrev one_page : Vm
one_page = record {
  free = page_3 ∷ [];
  mem = λ q j.
      if (q == dir) && (j == 0)
      then v2p page_1 + pte_pwu
      else if (q == page_1) && (j == 0)
      then v2p page_2 + pte_pwu
      else 0;
}

abbrev one_page_roles : ℕ → Role
one_page_roles q =
    if q == dir
    then root
    else if q == page_1
    then table 0
    else if q == page_2
    then frame 0
    else if q == page_3
    then spare
    else other

only_table : (i : ℕ) → is_present (one_page.mem dir i) ≡ true → i ≡ 0
only_table i h = ground arith

only_entry : (i : ℕ) → is_present (one_page.mem page_1 i) ≡ true → i ≡ 0
only_entry i h = ground arith

only_page : (n : ℕ) → is_present (entry one_page dir n) ≡ true → n ≡ 0
only_page n h = elim (Bool-cases (is_present (one_page.mem dir (n / 1024)))) [
  | inr z ↦ absurd (not_true (sym (ap is_present (entry-absent one_page dir n z)) ∙ h))
  | inl y ↦
      let a = only_table (n / 1024) y in
      let there : page_of (one_page.mem dir (n / 1024)) ≡ page_1 =
        ap (λ i. page_of (one_page.mem dir i)) a in
      let b = only_entry (n % 1024) (
        ap (λ t. is_present (one_page.mem t (n % 1024))) (sym there)
        ∙ ap is_present (sym (entry-present one_page dir n y))
        ∙ h) in
      omega arith
]

one_page-IsSpace : IsSpace bottom dir one_page one_page_roles
one_page-IsSpace = record {
  roots = refl;
  tables = λ i k h.
      let e = only_table i h in
      subst (λ j. one_page_roles (page_of (one_page.mem dir j)) ≡ table j) (sym e) refl;
  frames = λ n k h.
      let e = only_page n h in
      subst (λ m. one_page_roles (page_of (entry one_page dir m)) ≡ frame m) (sym e) refl;
  frames_usable = λ n k h.
      let e = only_page n h in
      subst (λ m. Usable bottom (page_of (entry one_page dir m))) (sym e)
        (record {
          whole = refl;
          above = omega arith;
          in_kernel = omega arith;
          in_memory = omega arith;
        });
  spares = λ v h. ground arith;
  spares_usable = λ v h. record {
    whole = ground arith;
    above = ground arith;
    in_kernel = ground arith;
    in_memory = ground arith;
  };
  once = λ v. ground arith;
}

deallocuvm_lem_example :
    (vm' : Vm) × (role' : ℕ → Role) × (deallocuvm bottom dir 4096 0 one_page ≡ some (0, vm'))
    × Shrunk bottom dir 0 4096 one_page vm' one_page_roles role'
deallocuvm_lem_example =
    deallocuvm_lem bottom dir 4096 (omega arith) (omega arith) 0 one_page one_page_roles
      one_page-IsSpace (omega arith)

copyout_lem_example :
    (vm' : Vm) × (copyout dir 4090 (7 ∷ 8 ∷ 9 ∷ []) one_page ≡ some (true, vm'))
    × Copied bottom dir 4090 (7 ∷ 8 ∷ 9 ∷ []) one_page vm' one_page_roles
copyout_lem_example =
    copyout_lem bottom dir 4090 (7 ∷ 8 ∷ 9 ∷ []) one_page one_page_roles one_page-IsSpace
      (omega arith)
      (λ n a b.
        let e : n ≡ 0 = omega arith in
        subst
          (λ m.
            (is_present (entry one_page dir m) ≡ true) × (is_user (entry one_page dir m) ≡ true))
          (sym e) (refl, refl))
