-- ===== src/Vm/Entries.antt =====
-- Entries of user pages that are set and cleared.
use lab7sp25_shelnutt.Base.{
  ℕ, ◌+◌, ◌/◌, ◌%◌, ◌<◌, ◌≡◌, ◌≢◌, ap, ◌∙◌, sym, true, false, arith, subst, ℕ_discrete,
}
use lab7sp25_shelnutt.Kalloc.{pgsize}
use lab7sp25_shelnutt.Vm.{Vm, write, v2p, is_present}
use lab7sp25_shelnutt.Vm.Space.{
  Role, root, table, frame, spare, other, page_of, entry, user_pages, all_pages, Usable, IsSpace,
  write-same, write-other, write-index, apart, page_of-v2p,
}
use lab7sp25_shelnutt.Vm.Walk.{entry-present, entry-kept}

module _ (bottom d : ℕ) (vm : Vm) (role : ℕ → Role) (s : IsSpace bottom d vm role) where
  pub table_apart :
      (n m : ℕ)
      → n < all_pages
      → m < all_pages
      → is_present (vm.mem d (n / 1024)) ≡ true
      → is_present (vm.mem d (m / 1024)) ≡ true
      → m / 1024 ≢ n / 1024
      → page_of (vm.mem d (m / 1024)) ≢ page_of (vm.mem d (n / 1024))
  table_apart n m l k y z h =
      apart role (page_of (vm.mem d (m / 1024))) (page_of (vm.mem d (n / 1024)))
        (s.tables (m / 1024) (omega arith) z) (s.tables (n / 1024) (omega arith) y)
        (λ e. h (table_injective e))
    where
      number : Role → ℕ
      number root = 0
      number (table i) = i
      number (frame i) = 0
      number spare = 0
      number other = 0

      table_injective : {i j : ℕ} → table i ≡ table j → i ≡ j
      table_injective e = ap number e

  pub dir_apart :
      (n : ℕ)
      → n < all_pages
      → is_present (vm.mem d (n / 1024)) ≡ true
      → d ≢ page_of (vm.mem d (n / 1024))
  dir_apart n l y =
      apart role d (page_of (vm.mem d (n / 1024))) s.roots (s.tables (n / 1024) (omega arith) y)
        (λ h. ground arith)

  module _ (n v : ℕ) (l : n < all_pages) (y : is_present (vm.mem d (n / 1024)) ≡ true) where
    -- The memory after the write of an entry.
    abbrev pub set_entry : Vm
    set_entry = record vm { mem = write (page_of (vm.mem d (n / 1024))) (n % 1024) v vm.mem }

    pub set-dir : (i : ℕ) → set_entry.mem d i ≡ vm.mem d i
    set-dir i =
        write-other (page_of (vm.mem d (n / 1024))) (n % 1024) v vm.mem d i (dir_apart n l y)

    pub set-here : entry set_entry d n ≡ v
    set-here =
        entry-present set_entry d n (ap is_present (set-dir (n / 1024)) ∙ y)
        ∙ ap (λ x. set_entry.mem (page_of x) (n % 1024)) (set-dir (n / 1024))
        ∙ write-same (page_of (vm.mem d (n / 1024))) (n % 1024) v vm.mem

    pub set-there : (m : ℕ) → m < all_pages → m ≢ n → entry set_entry d m ≡ entry vm d m
    set-there m k h = entry-kept vm set_entry d m (set-dir (m / 1024)) (λ z.
        elim (ℕ_discrete (m / 1024) (n / 1024)) [
          | yes e ↦
              write-index (page_of (vm.mem d (n / 1024))) (n % 1024) v vm.mem
                (page_of (vm.mem d (m / 1024))) (m % 1024) (omega arith)
          | no e ↦
              write-other (page_of (vm.mem d (n / 1024))) (n % 1024) v vm.mem
                (page_of (vm.mem d (m / 1024))) (m % 1024) (table_apart n m l k y z e)
        ])

    pub set-kept : (q j : ℕ) → role q ≢ table (n / 1024) → set_entry.mem q j ≡ vm.mem q j
    set-kept q j h =
        write-other (page_of (vm.mem d (n / 1024))) (n % 1024) v vm.mem q j
          (λ e. h (ap role e ∙ s.tables (n / 1024) (omega arith) y))

pub not_true : false ≢ true
not_true h = ground arith

frame_number : Role → ℕ
frame_number root = 0
frame_number (table i) = 0
frame_number (frame i) = i
frame_number spare = 0
frame_number other = 0

pub frame_injective : {i j : ℕ} → frame i ≡ frame j → i ≡ j
unfolding frame_number
frame_injective e = ap frame_number e

module _ (bottom d : ℕ) (vm : Vm) (role : ℕ → Role) (s : IsSpace bottom d vm role) where
  -- The entry of the page n gets the frame f.
  pub map-IsSpace :
      (n f flags : ℕ) (l : n < user_pages) (y : is_present (vm.mem d (n / 1024)) ≡ true)
      → Usable bottom f
      → role f ≡ frame n
      → flags < pgsize
      → IsSpace bottom d (set_entry bottom d vm role s n (v2p f + flags) (omega arith) y) role
  map-IsSpace n f flags l y u r p =
      let t : n < all_pages = omega arith in
      let v = v2p f + flags in
      let here = set-here bottom d vm role s n v t y in
      let there = set-there bottom d vm role s n v t y in
      let dir = set-dir bottom d vm role s n v t y in
      let mine = page_of-v2p f flags u.whole u.in_kernel u.in_memory p in
      record {
        roots = s.roots;
        tables = λ i k h.
            ap (λ x. role (page_of x)) (dir i) ∙ s.tables i k (ap is_present (sym (dir i)) ∙ h);
        frames = λ m k h. elim (ℕ_discrete m n) [
          | yes e ↦
              ap (λ j. role (page_of (entry (set_entry bottom d vm role s n v t y) d j))) e
              ∙ ap (λ x. role (page_of x)) here
              ∙ ap role mine
              ∙ r
              ∙ ap frame (sym e)
          | no e ↦
              let same = there m (omega arith) e in
              ap (λ x. role (page_of x)) same ∙ s.frames m k (ap is_present (sym same) ∙ h)
        ];
        frames_usable = λ m k h. elim (ℕ_discrete m n) [
          | yes e ↦
              subst (Usable bottom)
                (sym (
                  ap (λ j. page_of (entry (set_entry bottom d vm role s n v t y) d j)) e
                  ∙ ap page_of here
                  ∙ mine))
                u
          | no e ↦
              let same = there m (omega arith) e in
              subst (λ x. Usable bottom (page_of x)) (sym same)
                (s.frames_usable m k (ap is_present (sym same) ∙ h))
        ];
        spares = s.spares;
        spares_usable = s.spares_usable;
        once = s.once;
      }

  -- The entry of the page n is no more present.
  pub unmap-IsSpace :
      (n : ℕ) (l : n < user_pages) (y : is_present (vm.mem d (n / 1024)) ≡ true)
      → IsSpace bottom d (set_entry bottom d vm role s n 0 (omega arith) y) role
  unmap-IsSpace n l y =
      let t : n < all_pages = omega arith in
      let here = set-here bottom d vm role s n 0 t y in
      let there = set-there bottom d vm role s n 0 t y in
      let dir = set-dir bottom d vm role s n 0 t y in
      let old : (m : ℕ)
          → m < user_pages
          → is_present (entry (set_entry bottom d vm role s n 0 t y) d m) ≡ true
          → entry (set_entry bottom d vm role s n 0 t y) d m ≡ entry vm d m =
        λ m k h. elim (ℕ_discrete m n) [
          | yes e ↦
              let f =
                sym (
                  ap (λ j. is_present (entry (set_entry bottom d vm role s n 0 t y) d j)) e
                  ∙ ap is_present here)
                ∙ h in
              absurd (not_true f)
          | no e ↦ there m (omega arith) e
        ] in
      record {
        roots = s.roots;
        tables = λ i k h.
            ap (λ x. role (page_of x)) (dir i) ∙ s.tables i k (ap is_present (sym (dir i)) ∙ h);
        frames = λ m k h.
            let same = old m k h in
            ap (λ x. role (page_of x)) same ∙ s.frames m k (ap is_present (sym same) ∙ h);
        frames_usable = λ m k h.
            let same = old m k h in
            subst (λ x. Usable bottom (page_of x)) (sym same)
              (s.frames_usable m k (ap is_present (sym same) ∙ h));
        spares = s.spares;
        spares_usable = s.spares_usable;
        once = s.once;
      }
