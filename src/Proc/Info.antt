-- ===== src/Proc/Info.antt =====
-- gettickets and fillpstat of proc.c with pstat.h, and the body of sys_settickets in sysproc.c behind
-- the fetch of its argument.
pub mod Tickets
pub mod Listing
use lab7sp25_shelnutt.Base.{
  ℕ, Bool, true, false, List, [], ◌∷◌, ◌==◌, ◌&&◌, not, if◌then◌else◌, ℤ, pos, minus_one, ltb_ℤ,
  map, take,
}
use lab7sp25_shelnutt.Proc.Table.{
  ProcState, unused, embryo, sleeping, runnable, running, zombie, is_state, Proc, Kernel, update,
  live,
}

-- The loop of gettickets.
unfoldable pub gettickets : ℕ → List Proc → ℤ
gettickets pid [] = minus_one
gettickets pid (p ∷ t) =
    let rest = gettickets pid t in if (p.pid == pid) && live p then p.tickets else rest

-- struct pstat_t; `state` is a character.
pub record Pstat : Type 0 where
  pub inuse : ℕ
  pub tickets : ℤ
  pub pid : ℕ
  pub ticks : ℤ
  pub name : List ℕ
  pub state : ℕ

-- The chain of tests of fillpstat on the state.
abbrev pub letter : ProcState → ℕ
letter s =
    if is_state s embryo
    then b'E'
    else if is_state s running
    then b'R'
    else if is_state s runnable
    then b'A'
    else if is_state s sleeping
    then b'S'
    else if is_state s zombie
    then b'Z'
    else b'?'

-- The body of the loop of fillpstat.
unfoldable pub pstat_of : Proc → Pstat
pstat_of p = record {
  inuse = if not (is_state p.state unused) then 1 else 0;
  tickets = p.tickets;
  pid = p.pid;
  ticks = p.ticks;
  name = take 16 p.name;
  state = letter p.state;
}

unfoldable pub fillpstat : List Proc → List Pstat
unfolding pstat_of
fillpstat t = map pstat_of t

abbrev pub with_tickets : ℤ → Proc → Proc
with_tickets n p = record p { tickets = n }

-- sys_settickets for a fetched argument and a current process.
unfoldable pub settickets : {W : Type 0} → ℕ → ℤ → Kernel W → ℤ × Kernel W
settickets cur n k =
    if ltb_ℤ n (pos 10) then (minus_one, k) else (pos 0, update cur (with_tickets n) k)
