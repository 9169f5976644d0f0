-- ===== src/Proc/Alloc/Slot.antt =====
-- allocproc: the entry that it takes and the pid that it hands out.
use lab7sp25_shelnutt.Base.{
  ℕ, zero, suc, ◌+◌, ◌^◌, ◌<◌, ◌≡◌, ◌≢◌, refl, true, false, List, [], ◌∷◌, none, some, arith,
  length, length-set, Bool-cases, inl, inr, Option-cases, add32, subst,
}
use lab7sp25_shelnutt.Proc.Table.{Proc, Kernel, the_proc, proc_at, live, is_state, unused, embryo}
use lab7sp25_shelnutt.Proc.Services.{Services}
use lab7sp25_shelnutt.Proc.Inv.{
  IsValid, Retains, Retains-world, Retains-trans, Retains-IsValid, the_proc-update, update-Retains,
}
use lab7sp25_shelnutt.Proc.Alloc.{
  find_unused, claim, give_up, set_up, claim_at, finish_alloc, alloc_at, allocproc,
}

-- `i` is the first entry that is not in use.
abbrev pub FirstFree : List Proc → ℕ → Type 0
FirstFree t i =
    (i < length t) × (live (proc_at t i) ≡ false) × ((j : ℕ) → j < i → live (proc_at t j) ≡ true)

pub find_unused-some :
    (n : ℕ) (t : List Proc) {i : ℕ}
    → find_unused n t ≡ some i
    → (m : ℕ) × (i ≡ n + m) × FirstFree t m
unfolding find_unused
find_unused-some n [] e = cc
find_unused-some n (p ∷ t) {i} e = elim (Bool-cases (is_state p.state unused)) [
  | inl h ↦ (0, ground arith, (omega arith, ground arith, λ j l. absurd (omega arith)))
  | inr h ↦
      let (m, q, (l, free, before)) = find_unused-some (suc n) t {i = i} (ground arith) in
      (
        suc m,
        omega arith,
        (
          omega arith,
          free,
          elim [ zero ↦ λ _. ground arith | suc j ↦ λ lt. before j (omega arith) ],
        ),
      )
]

pub find_unused-FirstFree : (t : List Proc) {i : ℕ} → find_unused 0 t ≡ some i → FirstFree t i
find_unused-FirstFree t {i} e =
    let (m, q, f) = find_unused-some 0 t {i = i} e in
    let mi : m ≡ i = omega (arith, q) in subst (FirstFree t) mi f

pub find_unused-none :
    (n : ℕ) (t : List Proc)
    → find_unused n t ≡ none
    → (j : ℕ) → j < length t
    → live (proc_at t j) ≡ true
unfolding find_unused
find_unused-none n [] e j l = absurd (omega arith)
find_unused-none n (p ∷ t) e zero l = ground arith
find_unused-none n (p ∷ t) e (suc j) l = find_unused-none (suc n) t (ground arith) j (omega arith)

pub claim_at-IsValid :
    {W : Type 0} (i : ℕ) (k : Kernel W) → IsValid k → k.nextpid < 2 ^ 31 → IsValid (claim_at i k)
claim_at-IsValid i k v small = record {
  sized = omega (arith, length-set k.procs i (claim k.nextpid (the_proc k i)), v.sized);
  started = omega arith;
  named = λ j h. ground (arith, the_proc-update i j (claim k.nextpid) k, v.named j);
  unique = λ j l hj hl e. ground (
    arith,
    the_proc-update i j (claim k.nextpid) k,
    the_proc-update i l (claim k.nextpid) k,
    v.named j,
    v.named l,
    v.unique j l,
  );
}

module _ (sys : Services) where
  open sys use {World}

  pub finish_alloc-Retains :
      (i : ℕ) (k : Kernel World)
      → is_state (the_proc k i).state embryo ≡ true
      → Retains k (finish_alloc sys i k).1
  finish_alloc-Retains i k h = elim (Option-cases (sys.kalloc k.world).0) [
    | inl e ↦
        rw (e, finish_alloc)
          (Retains-trans (Retains-world k _)
            (update-Retains i give_up _ (λ l. absurd (ground arith))))
    | inr (s, e) ↦
        rw (e, finish_alloc)
          (Retains-trans (Retains-world k _)
            (update-Retains i (set_up s sys.trapret sys.forkret) _ (λ l. (ground arith, refl))))
  ]

  claim_at-Retains : (i : ℕ) (k : Kernel World) → Retains (claim_at i k) (alloc_at sys i k).1
  unfolding alloc_at
  claim_at-Retains i k = elim (Option-cases (sys.kalloc k.world).0) [
    | inl e ↦
        rw (e, alloc_at, finish_alloc)
          (Retains-trans (Retains-world _ _)
            (update-Retains i give_up _ (λ l. absurd (ground arith))))
    | inr (s, e) ↦
        rw (e, alloc_at, finish_alloc)
          (Retains-trans (Retains-world _ _)
            (update-Retains i (set_up s sys.trapret sys.forkret) _ (λ l. (l, refl))))
  ]

  -- Every outcome of allocproc keeps the invariant, as long as the counter has not run through the
  -- positive ints.
  pub allocproc-IsValid :
      (k : Kernel World) → IsValid k → k.nextpid < 2 ^ 31 → IsValid (allocproc sys k).1
  unfolding allocproc
  allocproc-IsValid k v small = elim (Option-cases (find_unused 0 k.procs)) [
    | inl e ↦ rw (e, allocproc) v
    | inr (i, e) ↦
        rw (e, allocproc) (Retains-IsValid (claim_at-Retains i k) (claim_at-IsValid i k v small))
  ]

  -- What allocproc leaves when it finds an entry: the table with that entry, now EMBRYO, under the
  -- next pid. All other entries are as before.
  pub record Allocated (k k' : Kernel World) (i : ℕ) : Type 0 where
    pub free : FirstFree k.procs i
    pub embryo_now : (the_proc k' i).state ≡ embryo
    pub pid_now : (the_proc k' i).pid ≡ k.nextpid
    pub next : k'.nextpid ≡ add32 k.nextpid 1
    pub starts : (the_proc k' i).context.eip ≡ sys.forkret
    pub killed_still : (the_proc k' i).killed ≡ (the_proc k i).killed
    pub others : (j : ℕ) → i ≢ j → the_proc k' j ≡ the_proc k j

  alloc_at-slot : (j : ℕ) (k : Kernel World) {i : ℕ} → (alloc_at sys j k).0 ≡ some i → j ≡ i
  unfolding alloc_at
  alloc_at-slot j k h = ground arith

  alloc_at-Allocated :
      (i : ℕ) (k : Kernel World)
      → FirstFree k.procs i
      → (alloc_at sys i k).0 ≡ some i
      → Allocated k (alloc_at sys i k).1 i
  alloc_at-Allocated i k f h = elim (Option-cases (sys.kalloc k.world).0) [
    | inl e ↦ absurd (unfold alloc_at in ground arith)
    | inr (s, e) ↦
        let p = set_up s sys.trapret sys.forkret in
        let k2 = record (claim_at i k) { world = (sys.kalloc k.world).1 } in
        unfold alloc_at in
        rw (e, alloc_at, finish_alloc)
          (record {
            free = f;
            embryo_now = ground (
              arith,
              the_proc-update i i p k2,
              the_proc-update i i (claim k.nextpid) k,
              length-set k.procs i (claim k.nextpid (the_proc k i)),
            );
            pid_now = ground (
              arith,
              the_proc-update i i p k2,
              the_proc-update i i (claim k.nextpid) k,
              length-set k.procs i (claim k.nextpid (the_proc k i)),
            );
            next = refl;
            starts = ground (
              arith,
              the_proc-update i i p k2,
              length-set k.procs i (claim k.nextpid (the_proc k i)),
            );
            killed_still = ground (
              arith,
              the_proc-update i i p k2,
              the_proc-update i i (claim k.nextpid) k,
              length-set k.procs i (claim k.nextpid (the_proc k i)),
            );
            others = λ j n.
                ground (arith, the_proc-update i j p k2, the_proc-update i j (claim k.nextpid) k);
          })
  ]

  pub allocproc-some :
      (k : Kernel World) {i : ℕ} → (allocproc sys k).0 ≡ some i → Allocated k (allocproc sys k).1 i
  allocproc-some k {i} h = elim (Option-cases (find_unused 0 k.procs)) [
    | inl e ↦ absurd (unfold allocproc in ground arith)
    | inr (j, e) ↦
        let f = find_unused-FirstFree k.procs e in
        let r : (alloc_at sys j k).0 ≡ some i = unfold allocproc in ground arith in
        let ji : j ≡ i = alloc_at-slot j k r in
        let fi : FirstFree k.procs i = subst (FirstFree k.procs) ji f in
        let ri : (alloc_at sys i k).0 ≡ some i = rw ji at r in
        let ei : find_unused 0 k.procs ≡ some i = rw ji at e in
        unfold allocproc in rw (ei, allocproc) (alloc_at-Allocated i k fi ri)
  ]
