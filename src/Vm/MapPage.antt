-- ===== src/Vm/MapPage.antt =====
-- mappages of one user page.
use lab7sp25_shelnutt.Base.{
  ℕ, ◌+◌, ◌*◌, ◌/◌, ◌%◌, ◌≤◌, ◌<◌, ◌≡◌, ◌≢◌, refl, ap, ◌∙◌, sym, true, false, Option, none, some,
  if◌then◌else◌, add32, sub32, arith, inl, inr, subst, ◌⊎◌, Option-cases,
}
use lab7sp25_shelnutt.Kalloc.{pgsize}
use lab7sp25_shelnutt.Kalloc.Pages.{times}
use lab7sp25_shelnutt.Vm.{
  Vm, write, is_present, walkpgdir, v2p, with_present, pte_wu, pte_pwu, Mapped, mapped, no_memory,
  remap, map_page, map_from, mappages,
}
use lab7sp25_shelnutt.Vm.Space.{
  Role, root, table, frame, spare, page_of, entry, user_pages, all_pages, Usable, IsSpace,
}
use lab7sp25_shelnutt.Vm.Walk.{entry-present}
use lab7sp25_shelnutt.Vm.Made.{walk_lem, WalkEnds, Walked}
use lab7sp25_shelnutt.Vm.Entries.{set-here, set-there, set-kept, map-IsSpace}

-- The page n has got the frame f, and nothing else has changed but for tables that were made.
pub record PageMapped (bottom d n f : ℕ) (vm vm' : Vm) (role role' : ℕ → Role) : Type 0 where
  pub space : IsSpace bottom d vm' role'
  pub here : entry vm' d n ≡ v2p f + pte_pwu
  pub same : (m : ℕ) → m < all_pages → m ≢ n → entry vm' d m ≡ entry vm d m
  pub kept :
      (q j : ℕ)
      → role q ≢ spare
      → role q ≢ root
      → ((i : ℕ) → role q ≢ table i)
      → vm'.mem q j ≡ vm.mem q j
  pub roles : (q : ℕ) → role q ≢ spare → role' q ≡ role q
  pub fewer : (v : ℕ) → times vm'.free v ≤ times vm.free v
  pub used : (v : ℕ) → 0 < times vm.free v → (0 < times vm'.free v) ⊎ (role' v ≡ table (n / 1024))

-- mappages of a whole page does one round.
one_round :
    (d n pa perm : ℕ) (vm : Vm)
    → n < user_pages
    → mappages d (n * pgsize) pgsize pa perm vm ≡ map_page d (n * pgsize) pa perm vm
unfolding mappages map_from
one_round d n pa perm vm l =
    let a : n * pgsize / pgsize * pgsize ≡ n * pgsize = omega arith in
    let b : sub32 (sub32 (add32 (n * pgsize) pgsize) 1 / pgsize * pgsize) (n * pgsize) / pgsize
        ≡ 0 =
      omega arith in
    rw (a, b) refl

-- The rest of a round after walkpgdir.
abbrev set_page : ℕ → ℕ → Option (ℕ × ℕ) → Vm → Mapped
set_page pa perm none vm = no_memory vm
set_page pa perm (some (t, i)) vm =
    if is_present (vm.mem t i)
    then remap
    else mapped (record vm { mem = write t i (pa + with_present perm) vm.mem })

map_page-set_page :
    (d a pa perm : ℕ) (vm : Vm)
    → map_page d a pa perm vm ≡ set_page pa perm (walkpgdir d a true vm).0 (walkpgdir d a true vm).1
unfolding map_page
map_page-set_page d a pa perm vm = elim (Option-cases ((walkpgdir d a true vm).0)) [
  | inl e ↦ rw (e, map_page) refl
  | inr ((t, i), e) ↦ rw (e, map_page) refl
]

module _ (bottom d n f : ℕ) (vm : Vm) (role : ℕ → Role) (s : IsSpace bottom d vm role)
    (l : n < user_pages) (z : is_present (entry vm d n) ≡ false) (u : Usable bottom f)
    (r : role f ≡ frame n) where
  abbrev pub MapEnds : Mapped → Type 0
  MapEnds (mapped vm') = (role' : ℕ → Role) × PageMapped bottom d n f vm vm' role role'
  MapEnds (no_memory vm') = vm' ≡ vm
  MapEnds remap = ⊥

  set_page_lem :
      (vm1 : Vm) (role1 : ℕ → Role) (t : ℕ)
      → Walked bottom d n vm vm1 role role1 t
      → MapEnds (set_page (v2p f) pte_wu (some (t, n % 1024)) vm1)
  set_page_lem vm1 role1 t w =
      let k : n < all_pages = omega arith in
      let at : vm1.mem (page_of (vm1.mem d (n / 1024))) (n % 1024) ≡ entry vm d n =
        sym (entry-present vm1 d n w.there) ∙ w.same n k in
      let f1 : role1 f ≡ frame n = w.roles f (λ h. let g = sym r ∙ h in ground arith) ∙ r in
      subst (λ t. MapEnds (set_page (v2p f) pte_wu (some (t, n % 1024)) vm1)) w.found
        (let clear = ap is_present at ∙ z in
          rw clear (
            role1,
            record {
              space =
                  map-IsSpace bottom d vm1 role1 w.space n f pte_pwu l w.there u f1 (omega arith);
              here = set-here bottom d vm1 role1 w.space n (v2p f + pte_pwu) k w.there;
              same = λ m a b.
                  set-there bottom d vm1 role1 w.space n (v2p f + pte_pwu) k w.there m a b
                  ∙ w.same m a;
              kept = λ q j a b c.
                  set-kept bottom d vm1 role1 w.space n (v2p f + pte_pwu) k w.there q j
                    (λ h. c (n / 1024) (sym (w.roles q a) ∙ h))
                  ∙ w.kept q j a b;
              roles = w.roles;
              fewer = w.fewer;
              used = w.used;
            },
          ))

  set_page_ends :
      (o : Option (ℕ × ℕ)) (vm1 : Vm)
      → WalkEnds bottom d n vm role o vm1
      → MapEnds (set_page (v2p f) pte_wu o vm1)
  set_page_ends none vm1 ends = ends.1
  set_page_ends (some (t, i)) vm1 ends =
      let (e, role1, w) = ends in
      subst (λ i. MapEnds (set_page (v2p f) pte_wu (some (t, i)) vm1)) (sym e)
        (set_page_lem vm1 role1 t w)

  -- A user page that is not present is mapped, or there is no free page for its table.
  pub mappages_lem : MapEnds (mappages d (n * pgsize) pgsize (v2p f) pte_wu vm)
  mappages_lem =
      subst MapEnds
        (sym
          (one_round d n (v2p f) pte_wu vm l ∙ map_page-set_page d (n * pgsize) (v2p f) pte_wu vm))
        (set_page_ends (walkpgdir d (n * pgsize) true vm).0 (walkpgdir d (n * pgsize) true vm).1
          (walk_lem bottom d n vm role s (omega arith)))
