-- ===== src/Spinlock.antt =====
-- spinlock.c: the spin locks, with the nesting of pushcli and popcli, as one CPU runs them. Another
-- CPU that holds a lock is `other`; what the CPUs do in turn is a sequence of these steps.
pub mod Nesting
use lab7sp25_shelnutt.Base.{
  ℕ, zero, suc, ◌+◌, ◌-◌, Bool, true, false, ◌&&◌, not, Option, none, some, ◌==◌, ltb,
  if◌then◌else◌,
}

-- Of struct cpu what these functions use, and the interrupt flag of the processor.
pub record Cpu : Type 0 where
  pub ncli : ℕ
  pub intena : Bool
  pub eflags_if : Bool

-- The holder of a lock that is locked: `some true` is this CPU.
pub record Spinlock : Type 0 where
  pub locked : Bool
  pub mine : Bool

abbrev pub free_lock : Spinlock
free_lock = record { locked = false; mine = false }

unfoldable pub pushcli : Cpu → Cpu
pushcli c = record c {
  ncli = c.ncli + 1;
  intena = if c.ncli == 0 then c.eflags_if else c.intena;
  eflags_if = false;
}

-- `none` is a panic.
unfoldable pub popcli : Cpu → Option Cpu
popcli c =
    if c.eflags_if
    then none
    else if ltb c.ncli 1
    then none
    else some (record c { ncli = c.ncli - 1; eflags_if = (c.ncli - 1 == 0) && c.intena })

-- holding between its pushcli and popcli.
abbrev pub is_held : Spinlock → Bool
is_held l = l.locked && l.mine

-- holding.
unfoldable pub holding : Spinlock → Cpu → Option (Bool × Cpu)
unfolding pushcli popcli
holding l c = elim (popcli (pushcli c)) [ none ↦ none | some c' ↦ some (is_held l, c') ]

-- How a try of acquire ends: with a panic, with the lock taken, or spinning on.
pub data Acquire : Type 0 where
  panics : Acquire
  taken : Spinlock → Cpu → Acquire
  spins : Cpu → Acquire

-- acquire up to one xchg of its loop.
unfoldable pub acquire : Spinlock → Cpu → Acquire
unfolding pushcli holding
acquire l c = elim (holding l (pushcli c)) [
  | none ↦ panics
  | some (h, c') ↦
      if h
      then panics
      else if l.locked
      then spins c'
      else taken (record { locked = true; mine = true }) c'
]

unfoldable pub release : Spinlock → Cpu → Option (Spinlock × Cpu)
unfolding holding popcli
release l c = elim (holding l c) [
  | none ↦ none
  | some (h, c') ↦ elim (popcli c') [
    | none ↦ none
    | some c'' ↦ if h then some (free_lock, c'') else none
  ]
]
