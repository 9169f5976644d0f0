-- ===== src/Proc/Schedule.antt =====
-- scheduler of proc.c: one pass of its loop over the table. `run i` is what happens from the switch
-- to the process `i`, which is `c->proc` meanwhile, until it switches back.
pub mod Turns
use lab7sp25_shelnutt.Base.{ℕ, zero, suc, Bool, false, List, [], ◌∷◌, ◌==◌, ◌||◌, true}
use lab7sp25_shelnutt.Proc.Table.{runnable, running, is_state, Proc, Kernel, the_proc, update}

abbrev pub make_running : Proc → Proc
make_running p = record p { state = running }

unfoldable pub dispatch : {W : Type 0} → ℕ → Kernel W → Kernel W
dispatch i k = update i make_running k

abbrev pub contains : List ℕ → ℕ → Bool
contains [] i = false
contains (x ∷ xs) i = (x == i) || contains xs i

module _ {W : Type 0} (run : ℕ → Kernel W → Kernel W) where
  -- The rounds from the entry `i` on, `n` of them, with the processes that had a turn.
  unfoldable pub pass_from : ℕ → ℕ → Kernel W → Kernel W × List ℕ
  unfolding dispatch
  pass_from i zero k = (k, [])
  pass_from i (suc n) k = elim (is_state (the_proc k i).state runnable) [
    | true ↦ let (k', turns) = pass_from (suc i) n (run i (dispatch i k)) in (k', i ∷ turns)
    | false ↦ pass_from (suc i) n k
  ]

  unfoldable pub pass : Kernel W → Kernel W × List ℕ
  unfolding pass_from
  pass k = pass_from 0 64 k
