-- ===== src/Proc/Sleep/Kills.antt =====
-- kill: which entry it marks, and what it says when there is none.
use lab7sp25_shelnutt.Base.{
  refl, ap, sym, subst, true, length-set, ℕ, zero, suc, ◌<◌, ◌≡◌, ◌≢◌, List, [], ◌∷◌, ◌==◌, arith,
  length, set, none, some, Bool-cases, inl, inr, Option-cases, pos, minus_one, ==_iff, ◌⊎◌,
}
use lab7sp25_shelnutt.Proc.Table.{
  ProcState, unused, embryo, sleeping, runnable, running, zombie, is_state, Proc, proc_at, Kernel,
  the_proc, update,
}
use lab7sp25_shelnutt.Proc.Inv.{the_proc-update_self, the_proc-update_ne}
use lab7sp25_shelnutt.Proc.Sleep.{mark_killed, kill_from, kill}

-- `i` is the first entry of the table with the pid.
abbrev pub FirstWith : ℕ → List Proc → ℕ → Type 0
FirstWith pid t i =
    (i < length t) × ((proc_at t i).pid ≡ pid) × ((j : ℕ) → j < i → (proc_at t j).pid ≢ pid)

pub kill_from-some :
    (pid : ℕ) (t : List Proc) {t' : List Proc}
    → kill_from pid t ≡ some t'
    → (i : ℕ) × FirstWith pid t i × (t' ≡ set t i (mark_killed (proc_at t i)))
unfolding kill_from
kill_from-some pid [] e = cc
kill_from-some pid (p ∷ t) {t'} e = elim (Bool-cases (p.pid == pid)) [
  | inl h ↦ (0, (omega arith, (==_iff p.pid pid).0 h, λ j l. absurd (omega arith)), ground arith)
  | inr h ↦ elim (Option-cases (kill_from pid t)) [
    | inl n ↦ ground arith
    | inr (t₂, s) ↦
        let (i, (l, q, first), u) = kill_from-some pid t s in
        (
          suc i,
          (omega arith, q, elim [ zero ↦ λ _. ground arith | suc j ↦ λ lt. first j (omega arith) ]),
          ground arith,
        )
  ]
]

pub kill_from-none :
    (pid : ℕ) (t : List Proc)
    → kill_from pid t ≡ none
    → (j : ℕ) → j < length t
    → (proc_at t j).pid ≢ pid
unfolding kill_from
kill_from-none pid [] e j l = absurd (omega arith)
kill_from-none pid (p ∷ t) e zero l = ground arith
kill_from-none pid (p ∷ t) e (suc j) l = kill_from-none pid t (ground arith) j (omega arith)

pub kill_cases :
    {W : Type 0} (pid : ℕ) (k : Kernel W)
    → ((kill pid k ≡ (minus_one, k)) × ((j : ℕ) → j < length k.procs → (the_proc k j).pid ≢ pid))
      ⊎ ((i : ℕ) × FirstWith pid k.procs i × (kill pid k ≡ (pos 0, update i mark_killed k)))
unfolding kill
kill_cases pid k = elim (Option-cases (kill_from pid k.procs)) [
  | inl n ↦ inl (rw (n, kill), kill_from-none pid k.procs n)
  | inr (t, s) ↦ let (i, first, u) = kill_from-some pid k.procs s in inr (i, first, rw (s, u, kill))
]

-- The fields that kill sets in an entry p, by its state.
pub record Marked (p p' : Proc) : Type 0 where
  pub woken : p.state ≡ sleeping → p' ≡ record p { killed = true; state = runnable }
  pub going_on : p.state ≢ sleeping → p' ≡ record p { killed = true }

mark_killed-Marked : (p : Proc) → Marked p (mark_killed p)
mark_killed-Marked p = record {
  woken =
      λ e. let y : is_state p.state sleeping ≡ true = ap (λ s. is_state s sleeping) e in rw y refl;
  going_on = λ h. elim (Bool-cases (is_state p.state sleeping)) [
    | inl y ↦ absurd (h (is_sleeping p.state y))
    | inr z ↦ rw z refl
  ];
}
  where
    is_sleeping : (s : ProcState) → is_state s sleeping ≡ true → s ≡ sleeping
    is_sleeping unused y = absurd (ground arith)
    is_sleeping embryo y = absurd (ground arith)
    is_sleeping sleeping y = refl
    is_sleeping runnable y = absurd (ground arith)
    is_sleeping running y = absurd (ground arith)
    is_sleeping zombie y = absurd (ground arith)

-- What kill does to the table: its entry i is marked, and all else is as before.
pub record Killed {W : Type 0} (i : ℕ) (k k' : Kernel W) : Type 0 where
  pub marked : Marked (the_proc k i) (the_proc k' i)
  pub others : (j : ℕ) → i ≢ j → the_proc k' j ≡ the_proc k j
  pub size : length k'.procs ≡ length k.procs
  pub next : k'.nextpid ≡ k.nextpid
  pub init : k'.initproc ≡ k.initproc
  pub rest : k'.world ≡ k.world

-- kill on each branch. Either no entry of the table has the pid: the result is -1 and nothing
-- changes. Or the first entry with the pid, whatever its state, is marked as killed (and made
-- RUNNABLE if it was SLEEPING): the result is 0 and no other entry changes.
pub kill_lem :
    {W : Type 0} (pid : ℕ) (k : Kernel W)
    → ((kill pid k ≡ (minus_one, k)) × ((j : ℕ) → j < length k.procs → (the_proc k j).pid ≢ pid))
      ⊎ ((i : ℕ) × FirstWith pid k.procs i
          × (k' : Kernel W) × (kill pid k ≡ (pos 0, k'))
          × Killed i k k')
kill_lem pid k = elim (kill_cases pid k) [
  | inl h ↦ inl h
  | inr (i, first, e) ↦ inr (
    i,
    first,
    update i mark_killed k,
    e,
    record {
      marked =
          subst (Marked (the_proc k i)) (sym (the_proc-update_self i mark_killed k first.0))
            (mark_killed-Marked (the_proc k i));
      others = λ j n. the_proc-update_ne i j mark_killed k n;
      size = length-set k.procs i (mark_killed (the_proc k i));
      next = refl;
      init = refl;
      rest = refl;
    },
  )
]
