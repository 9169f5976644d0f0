-- ===== src/Proc/Sleep/Wakeups.antt =====
-- wakeup1: each entry under its loop.
use lab7sp25_shelnutt.Base.{ℕ, ◌≡◌, refl, get_or-map}
use lab7sp25_shelnutt.Proc.Table.{Chan, Kernel, the_proc, blank}
use lab7sp25_shelnutt.Proc.Sleep.{rouse, wakeup1}

pub the_proc-wakeup1 :
    {W : Type 0} (c : Chan) (k : Kernel W) (i : ℕ)
    → the_proc (wakeup1 c k) i ≡ rouse c (the_proc k i)
unfolding wakeup1 blank
the_proc-wakeup1 c k i = get_or-map (rouse c) k.procs i blank refl
