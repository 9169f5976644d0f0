-- ===== src/Vm/Copyout.antt =====
-- copyout on a well-formed address space.
use lab7sp25_shelnutt.Base.{
  ℕ, zero, suc, ◌+◌, ◌-◌, ◌*◌, ◌/◌, ◌%◌, ◌≤◌, ◌<◌, ◌≡◌, refl, ap, ◌∙◌, sym, true, false, ◌&&◌, some,
  List, [], ◌∷◌, ◌==◌, ltb, leb, if◌then◌else◌, add32, sub32, arith, Bool-cases, inl, inr,
  ℕ_discrete, length, drop, get_or,
}
use lab7sp25_shelnutt.Kalloc.{pgsize, kernbase}
use lab7sp25_shelnutt.Vm.{Vm, is_present, is_user}
use lab7sp25_shelnutt.Vm.Space.{Role, page_of, entry, user_pages, all_pages, IsSpace}
use lab7sp25_shelnutt.Vm.Walk.{walk_there, entry-present, entry-absent}
use lab7sp25_shelnutt.Vm.Entries.{frame_injective, not_true}
use lab7sp25_shelnutt.Vm.Frames.{changed_same, changed-IsSpace}
use lab7sp25_shelnutt.Vm.User.{copy_in, uva2ka, copyout_from, copyout}
use lab7sp25_shelnutt.Vm.Bytes.{
  user_byte, byte_with, AreUser, copy_in-other, length-drop, if_false, no_bytes, size_of,
  after_page,
}

module _ (bottom d n : ℕ) (vm : Vm) (role : ℕ → Role) (s : IsSpace bottom d vm role)
    (l : n < user_pages) (y : is_present (entry vm d n) ≡ true) where
  there : is_present (vm.mem d (n / 1024)) ≡ true
  there = elim (Bool-cases (is_present (vm.mem d (n / 1024)))) [
    | inl h ↦ h
    | inr h ↦ absurd (not_true (sym (ap is_present (entry-absent vm d n h)) ∙ y))
  ]

  uva2ka_lem :
      is_user (entry vm d n) ≡ true → uva2ka d (n * pgsize) vm ≡ some (page_of (entry vm d n))
  unfolding uva2ka
  uva2ka_lem u =
      let here = sym (entry-present vm d n there) in
      let y' = ap is_present here ∙ y in
      let u' = ap is_user here ∙ u in
      rw (uva2ka, walk_there d n false vm (omega arith) there, y', u')
        (ap (λ x. some (page_of x)) here)

  -- The page gets k bytes at `from`.
  module _ (from k : ℕ) (xs : List ℕ) where
    abbrev pub stored : Vm
    stored = record vm { mem = copy_in (page_of (entry vm d n)) from k xs vm.mem }

    pub stored_same : (m : ℕ) → m < all_pages → entry stored d m ≡ entry vm d m
    stored_same =
        changed_same bottom d vm role s (page_of (entry vm d n)) stored.mem
          (copy_in-other (page_of (entry vm d n)) from k xs vm.mem)
          (λ h. let c = sym (s.frames n l y) ∙ h in ground arith)
          (λ i h. let c = sym (s.frames n l y) ∙ h in ground arith)

    pub stored-IsSpace : IsSpace bottom d stored role
    stored-IsSpace =
        changed-IsSpace bottom d vm role s (page_of (entry vm d n)) stored.mem
          (copy_in-other (page_of (entry vm d n)) from k xs vm.mem)
          (λ h. let c = sym (s.frames n l y) ∙ h in ground arith)
          (λ i h. let c = sym (s.frames n l y) ∙ h in ground arith)

    pub stored_byte :
        (x : ℕ)
        → x < kernbase
        → is_present (entry vm d (x / pgsize)) ≡ true
        → user_byte stored d x ≡ (
            if (x / pgsize == n) && (leb from (x % pgsize) && ltb (x % pgsize) (from + k))
            then get_or xs (x % pgsize - from) 0
            else user_byte vm d x)
    stored_byte x a b =
        ap (λ e. stored.mem (page_of e) (x % pgsize)) (stored_same (x / pgsize) (omega arith))
        ∙ elim (ℕ_discrete (x / pgsize) n) [
          | yes e ↦
              let c : (page_of (entry vm d (x / pgsize)) == page_of (entry vm d n)) ≡ true =
                let g : page_of (entry vm d (x / pgsize)) ≡ page_of (entry vm d n) =
                  ap (λ m. page_of (entry vm d m)) e in
                ground (arith, g) in
              let c' : (x / pgsize == n) ≡ true = ground arith in rw (c, c') refl
          | no e ↦
              let c' : (x / pgsize == n) ≡ false = ground arith in
              rw c' (
                copy_in-other (page_of (entry vm d n)) from k xs vm.mem
                  (page_of (entry vm d (x / pgsize))) (x % pgsize)
                  (λ h. e (
                    frame_injective
                      (sym (s.frames (x / pgsize) (omega arith) b) ∙ ap role h ∙ s.frames n l y))))
        ]

module _ (bottom d : ℕ) where
  -- The bytes are there, and no other user memory has changed.
  pub record Copied (va : ℕ) (buf : List ℕ) (vm vm' : Vm) (role : ℕ → Role) : Type 0 where
    pub space : IsSpace bottom d vm' role
    pub free : vm'.free ≡ vm.free
    pub same : (m : ℕ) → m < all_pages → entry vm' d m ≡ entry vm d m
    pub bytes :
        (x : ℕ)
        → x < kernbase
        → is_present (entry vm d (x / pgsize)) ≡ true
        → user_byte vm' d x ≡ byte_with va buf vm d x

  copy_nothing : (fuel va : ℕ) (vm : Vm) → copyout_from (suc fuel) d va [] vm ≡ some (true, vm)
  unfolding copyout_from
  copy_nothing fuel va vm = refl

  round :
      (fuel va x : ℕ) (xs : List ℕ) (vm : Vm) (role : ℕ → Role) (s : IsSpace bottom d vm role)
      (l : va / pgsize < user_pages) (y : is_present (entry vm d (va / pgsize)) ≡ true)
      → is_user (entry vm d (va / pgsize)) ≡ true
      → copyout_from (suc fuel) d va (x ∷ xs) vm
        ≡ copyout_from fuel d ((va / pgsize + 1) * pgsize) (drop (size_of d va (x ∷ xs)) (x ∷ xs)) (
            stored bottom d
              (va / pgsize)
              vm
              role
              s
              l
              y
              (va % pgsize)
              (size_of d va (x ∷ xs))
              (x ∷ xs))
  unfolding copyout_from
  round fuel va x xs vm role s l y u =
      let a = uva2ka_lem bottom d (va / pgsize) vm role s l y u in
      let above = (s.frames_usable (va / pgsize) l y).in_kernel in
      let z : (page_of (entry vm d (va / pgsize)) == 0) ≡ false = ground arith in
      let b : sub32 va (va / pgsize * pgsize) ≡ va % pgsize = omega arith in
      let c : sub32 pgsize (va % pgsize) ≡ pgsize - va % pgsize = omega arith in
      let e : add32 (va / pgsize * pgsize) pgsize ≡ (va / pgsize + 1) * pgsize = omega arith in
      rw (copyout_from, a, z, b, c, e) refl

  copyout_from_lem :
      (fuel va : ℕ) (buf : List ℕ) (vm : Vm) (role : ℕ → Role)
      → IsSpace bottom d vm role
      → length buf < fuel
      → (0 < length buf → va + length buf ≤ kernbase)
      → AreUser d va buf vm
      → (vm' : Vm) × (copyout_from fuel d va buf vm ≡ some (true, vm')) × Copied va buf vm vm' role
  copyout_from_lem zero va buf vm role s f top user = absurd (omega arith)
  copyout_from_lem (suc fuel) va [] vm role s f top user = (
    vm,
    copy_nothing fuel va vm,
    record {
      space = s;
      free = refl;
      same = λ m a. refl;
      bytes = λ x a b. sym (if_false _ _ (no_bytes va x));
    },
  )
  copyout_from_lem (suc fuel) va (x ∷ xs) vm role s f top user =
      let top' = top (omega arith) in
      let l : va / pgsize < user_pages = omega arith in
      let (y, u) = user (va / pgsize) (omega arith) (omega arith) in
      let k = size_of d va (x ∷ xs) in
      let buf = drop k (x ∷ xs) in
      let len = length-drop k (x ∷ xs) in
      let vm1 = stored bottom d (va / pgsize) vm role s l y (va % pgsize) k (x ∷ xs) in
      let same = stored_same bottom d (va / pgsize) vm role s l y (va % pgsize) k (x ∷ xs) in
      let (vm2, e, r) =
        copyout_from_lem fuel ((va / pgsize + 1) * pgsize) buf vm1 role
          (stored-IsSpace bottom d (va / pgsize) vm role s l y (va % pgsize) k (x ∷ xs))
          (omega (arith, len)) (λ a. omega (arith, len, a))
          (λ n a b.
            let (p, q) = user n (omega (arith, a)) (omega (arith, len, a, b)) in
            let o = same n (omega (arith, len, a, b)) in (ap is_present o ∙ p, ap is_user o ∙ q)) in
      (
        vm2,
        round fuel va x xs vm role s l y u ∙ e,
        record {
          space = r.space;
          free = r.free;
          same = λ m a. r.same m a ∙ same m a;
          bytes = λ i a b.
              after_page d va (x ∷ xs) vm vm1 vm2 i top'
                (r.bytes i a (ap is_present (same (i / pgsize) (omega arith)) ∙ b))
                (stored_byte bottom d (va / pgsize) vm role s l y (va % pgsize) k (x ∷ xs) i a b);
        },
      )

  -- In a well-formed address space, copyout of bytes whose pages are all present, the user's and
  -- below KERNBASE returns 0: the bytes lie at their addresses, and every other byte of a user page
  -- that is present, the entries of all pages and the free list are as before.
  pub copyout_lem :
      (va : ℕ) (buf : List ℕ) (vm : Vm) (role : ℕ → Role)
      → IsSpace bottom d vm role
      → va + length buf ≤ kernbase
      → AreUser d va buf vm
      → (vm' : Vm) × (copyout d va buf vm ≡ some (true, vm')) × Copied va buf vm vm' role
  unfolding copyout
  copyout_lem va buf vm role s top user =
      copyout_from_lem (suc (length buf)) va buf vm role s (omega arith) (λ a. top) user
