-- ===== src/Proc/Info/Tickets.antt =====
-- gettickets: what it finds for the pid of a process in use.
use lab7sp25_shelnutt.Base.{ℕ, zero, suc, ◌≡◌, ◌≢◌, true, List, [], ◌∷◌, arith, minus_one, ==_refl}
use lab7sp25_shelnutt.Proc.Table.{Proc, blank, proc_at, live}
use lab7sp25_shelnutt.Proc.Info.{gettickets}

live-blank : live blank ≢ true
unfolding blank
live-blank e = cc

-- The entry is found if no other in use has its pid.
pub gettickets_lem :
    (t : List Proc) (i : ℕ)
    → live (proc_at t i) ≡ true
    → ((j : ℕ) → live (proc_at t j) ≡ true → (proc_at t j).pid ≡ (proc_at t i).pid → j ≡ i)
    → gettickets (proc_at t i).pid t ≡ (proc_at t i).tickets
unfolding gettickets
gettickets_lem [] i l only = absurd (live-blank l)
gettickets_lem (p ∷ t) zero l only = rw (l, ==_refl)
gettickets_lem (p ∷ t) (suc i) l only =
    ground (arith, only 0, gettickets_lem t i l (λ j lj e. omega (arith, only (suc j) lj e)))

-- The result is -1 if no entry in use has the pid.
pub gettickets-absent :
    (pid : ℕ) (t : List Proc)
    → ((j : ℕ) → live (proc_at t j) ≡ true → (proc_at t j).pid ≢ pid)
    → gettickets pid t ≡ minus_one
unfolding gettickets
gettickets-absent pid [] h = ground arith
gettickets-absent pid (p ∷ t) h = ground (arith, h 0, gettickets-absent pid t (λ j. h (suc j)))
