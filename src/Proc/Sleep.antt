-- ===== src/Proc/Sleep.antt =====
-- wakeup1, wakeup, sleep, yield and kill of proc.c. Each body runs under ptable.lock, so it is one
-- step on the table. `sleep` is in two halves, before and after the call of sched.
pub mod Wakeups
pub mod Kills
use lab7sp25_shelnutt.Base.{
  ℕ, Bool, true, Option, none, some, List, [], ◌∷◌, ◌==◌, ◌&&◌, if◌then◌else◌, map, ℤ, pos,
  minus_one,
}
use lab7sp25_shelnutt.Proc.Table.{
  sleeping, runnable, is_state, Chan, null, same_chan, Proc, Kernel, update,
}

-- The body of the loop of wakeup1.
abbrev pub rouse : Chan → Proc → Proc
rouse c p =
    if is_state p.state sleeping && same_chan p.chan c then record p { state = runnable } else p

unfoldable pub wakeup1 : {W : Type 0} → Chan → Kernel W → Kernel W
wakeup1 c k = record k { procs = map (rouse c) k.procs }

-- A row of calls of wakeup.
unfoldable pub wakeups : {W : Type 0} → List Chan → Kernel W → Kernel W
wakeups [] k = k
wakeups (c ∷ cs) k = wakeups cs (wakeup1 c k)

abbrev pub fall_asleep : Chan → Proc → Proc
fall_asleep c p = record p { chan = c; state = sleeping }

abbrev pub forget_chan : Proc → Proc
forget_chan p = record p { chan = null }

abbrev pub make_runnable : Proc → Proc
make_runnable p = record p { state = runnable }

-- sleep, up to its call of sched.
unfoldable pub sleep : {W : Type 0} → ℕ → Chan → Kernel W → Kernel W
sleep cur c = update cur (fall_asleep c)

-- sleep, from the return of sched on.
unfoldable pub sleep_return : {W : Type 0} → ℕ → Kernel W → Kernel W
sleep_return cur = update cur forget_chan

-- yield, up to its call of sched.
unfoldable pub yield : {W : Type 0} → ℕ → Kernel W → Kernel W
yield cur = update cur make_runnable

-- What kill does to the entry that it finds.
abbrev pub mark_killed : Proc → Proc
mark_killed p =
    if is_state p.state sleeping
    then record p { killed = true; state = runnable }
    else record p { killed = true }

-- The loop of kill: the first entry with the pid is marked.
unfoldable pub kill_from : ℕ → List Proc → Option (List Proc)
kill_from pid [] = none
kill_from pid (p ∷ t) =
    let rest = kill_from pid t in
    if p.pid == pid
    then some (mark_killed p ∷ t)
    else elim rest [ none ↦ none | some t' ↦ some (p ∷ t') ]

unfoldable pub kill : {W : Type 0} → ℕ → Kernel W → ℤ × Kernel W
unfolding kill_from
kill pid k = elim (kill_from pid k.procs) [
  | none ↦ (minus_one, k)
  | some t ↦ (pos 0, record k { procs = t })
]
