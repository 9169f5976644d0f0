-- ===== src/Vm/Drop.antt =====
-- A user page that deallocuvm drops.
use lab7sp25_shelnutt.Base.{
  ℕ, ◌+◌, ◌*◌, ◌/◌, ◌%◌, ◌<◌, ◌≡◌, ◌≢◌, ap, ◌∙◌, sym, true, false, ◌∷◌, arith, Bool-cases, inl, inr,
  subst,
}
use lab7sp25_shelnutt.Kalloc.{pgsize}
use lab7sp25_shelnutt.Kalloc.Pages.{times}
use lab7sp25_shelnutt.Vm.{Mem, Vm, write, junk_page, is_present}
use lab7sp25_shelnutt.Vm.Space.{
  Role, root, table, spare, page_of, entry, user_pages, all_pages, IsSpace, assign, assign-other,
}
use lab7sp25_shelnutt.Vm.Walk.{entry-absent}
use lab7sp25_shelnutt.Vm.Entries.{set_entry, set-here, set-there, set-kept, unmap-IsSpace}
use lab7sp25_shelnutt.Vm.Frames.{changed_dir, changed_same, changed-IsSpace, free-IsSpace}
use lab7sp25_shelnutt.Vm.Shrink.{Shrunk}

pub junk-other : (p : ℕ) (m : Mem) (q j : ℕ) → q ≢ p → junk_page p m q j ≡ m q j
junk-other p m q j h = ground arith

module _ (bottom d n : ℕ) (vm : Vm) (role : ℕ → Role) (s : IsSpace bottom d vm role)
    (l : n < user_pages) (y : is_present (entry vm d n) ≡ true) where
  abbrev its_frame : ℕ
  its_frame = page_of (entry vm d n)

  there : is_present (vm.mem d (n / 1024)) ≡ true
  there = elim (Bool-cases (is_present (vm.mem d (n / 1024)))) [
    | inl h ↦ h
    | inr h ↦ let f = sym (ap is_present (entry-absent vm d n h)) ∙ y in ground arith
  ]

  abbrev junked : Vm
  junked = record vm { mem = junk_page its_frame vm.mem }

  no_table : (i : ℕ) → role its_frame ≢ table i
  no_table i h = let f = sym (s.frames n l y) ∙ h in ground arith

  no_root : role its_frame ≢ root
  no_root h = let f = sym (s.frames n l y) ∙ h in ground arith

  junked-IsSpace : IsSpace bottom d junked role
  junked-IsSpace =
      changed-IsSpace bottom d vm role s its_frame (junk_page its_frame vm.mem)
        (junk-other its_frame vm.mem) no_root no_table

  junked_dir : (i : ℕ) → junked.mem d i ≡ vm.mem d i
  junked_dir =
      changed_dir bottom d vm role s its_frame (junk_page its_frame vm.mem)
        (junk-other its_frame vm.mem) no_root no_table

  junked_same : (m : ℕ) → m < all_pages → entry junked d m ≡ entry vm d m
  junked_same =
      changed_same bottom d vm role s its_frame (junk_page its_frame vm.mem)
        (junk-other its_frame vm.mem) no_root no_table

  there_still : is_present (junked.mem d (n / 1024)) ≡ true
  there_still = ap is_present (junked_dir (n / 1024)) ∙ there

  -- The page is gone and its frame is free; the entry lies in the table t.
  abbrev dropped : ℕ → Vm
  dropped t = record {
    free = its_frame ∷ vm.free;
    mem = write t (n % 1024) 0 (junk_page its_frame vm.mem);
  }

  abbrev here_table : ℕ
  here_table = page_of (junked.mem d (n / 1024))

  absent_now : is_present (entry (dropped here_table) d n) ≡ false
  absent_now =
      ap is_present (set-here bottom d junked role junked-IsSpace n 0 (omega arith) there_still)

  dropped-IsSpace : IsSpace bottom d (dropped here_table) (assign its_frame spare role)
  dropped-IsSpace =
      free-IsSpace bottom d
        (set_entry bottom d junked role junked-IsSpace n 0 (omega arith) there_still) role
        (unmap-IsSpace bottom d junked role junked-IsSpace n l there_still) n its_frame l absent_now
        (s.frames_usable n l y) (s.frames n l y)

  page_gone_here :
      Shrunk bottom d n (n * pgsize + 1) vm (dropped here_table) role (assign its_frame spare role)
  page_gone_here =
      let set_same = set-there bottom d junked role junked-IsSpace n 0 (omega arith) there_still in
      let set_kept = set-kept bottom d junked role junked-IsSpace n 0 (omega arith) there_still in
      record {
        space = dropped-IsSpace;
        gone = λ m a b.
            let e : m ≡ n = omega arith in
            ap (λ x. is_present (entry (dropped here_table) d x)) e ∙ absent_now;
        freed = λ m a b p.
            let e : m ≡ n = omega arith in
            subst (λ x. 0 < times (its_frame ∷ vm.free) (page_of (entry vm d x))) (sym e)
              (ground arith);
        same = λ m a b.
            let e : m ≢ n = elim b [ inl x ↦ omega arith | inr x ↦ omega arith ] in
            set_same m a e ∙ junked_same m a;
        kept = λ q j a b.
            set_kept q j (a (n / 1024))
            ∙ junk-other its_frame vm.mem q j
                (λ e. b n (omega arith) (omega arith) (ap role e ∙ s.frames n l y));
        roles = λ q a.
            assign-other its_frame spare role q
              (λ e. a n (omega arith) (omega arith) (ap role e ∙ s.frames n l y));
        more = λ v. ground arith;
      }

  pub page_gone :
      Shrunk bottom d n
        (n * pgsize + 1)
        vm
        (dropped (page_of (vm.mem d (n / 1024))))
        role
        (assign its_frame spare role)
  page_gone =
      subst
        (λ t. Shrunk bottom d n (n * pgsize + 1) vm (dropped t) role (assign its_frame spare role))
        (ap page_of (junked_dir (n / 1024))) page_gone_here
