-- ===== src/Proc/Schedule/Turns.antt =====
-- scheduler: which processes have a turn in a pass.
use lab7sp25_shelnutt.Base.{
  ℕ, zero, suc, ◌+◌, ◌≤◌, ◌<◌, ◌≡◌, ◌≢◌, true, arith, Bool-cases, inl, inr, ℕ_discrete,
}
use lab7sp25_shelnutt.Proc.Table.{Kernel, the_proc, is_state, runnable, nproc}
use lab7sp25_shelnutt.Proc.Inv.{the_proc-update}
use lab7sp25_shelnutt.Proc.Schedule.{make_running, dispatch, contains, pass_from, pass}

module _ {W : Type 0} (run : ℕ → Kernel W → Kernel W) (i : ℕ)
    (waits : (j : ℕ) (k : Kernel W)
      → j ≢ i
      → is_state (the_proc k i).state runnable ≡ true
      → is_state (the_proc (run j k) i).state runnable ≡ true) where
  pass_from-turn :
      (n j : ℕ) (k : Kernel W)
      → j ≤ i
      → i < j + n
      → is_state (the_proc k i).state runnable ≡ true
      → contains (pass_from run j n k).1 i ≡ true
  unfolding pass_from
  pass_from-turn zero j k lo hi ready = absurd (omega arith)
  pass_from-turn (suc n) j k lo hi ready = elim (ℕ_discrete j i) [
    | yes e ↦
        let here : is_state (the_proc k j).state runnable ≡ true = rw e ready in
        rw (here, pass_from) (ground arith)
    | no ne ↦ elim (Bool-cases (is_state (the_proc k j).state runnable)) [
      | inr h ↦ rw (h, pass_from) (pass_from-turn n (suc j) k (omega arith) (omega arith) ready)
      | inl h ↦
          let still =
            waits j (dispatch j k) ne (ground (arith, the_proc-update j i make_running k)) in
          let rest =
            pass_from-turn n (suc j) (run j (dispatch j k)) (omega arith) (omega arith) still in
          rw (h, pass_from) (ground (arith, rest))
    ]
  ]

  -- A process that is RUNNABLE when a pass of the scheduler begins, and that no turn of another process
  -- takes out of that state, has a turn in that pass.
  pub pass-turn :
      (k : Kernel W)
      → i < nproc
      → is_state (the_proc k i).state runnable ≡ true
      → contains (pass run k).1 i ≡ true
  unfolding pass
  pass-turn k l ready = pass_from-turn 64 0 k (omega arith) l ready
