-- ===== src/Proc/Life.antt =====
-- exit and wait of proc.c. `exit` runs up to its call of sched; `wait_pass` is one pass of the
-- loop of wait, which returns or goes to sleep.
pub mod Orphans
pub mod Exits
pub mod Reaped
pub mod Waiting
pub mod Meeting
use lab7sp25_shelnutt.Base.{
  ℕ, zero, suc, ◌+◌, Bool, true, false, ◌&&◌, ◌||◌, not, Option, none, some, List, [], ◌∷◌, set,
  get_or, if◌then◌else◌, points_to, ℤ, pos, minus_one, map,
}
use lab7sp25_shelnutt.Strings.{put_nul}
use lab7sp25_shelnutt.Proc.Table.{
  unused, zombie, is_state, Chan, entry, chan_of, Proc, Kernel, the_proc, update, nofile,
}
use lab7sp25_shelnutt.Proc.Services.{Services}
use lab7sp25_shelnutt.Proc.Sleep.{wakeup1, wakeups, sleep}

abbrev pub give_to : Option ℕ → Proc → Proc
give_to q p = record p { parent = q }

abbrev pub close_fd : ℕ → Proc → Proc
close_fd fd p = record p { ofile = set p.ofile fd none }

abbrev pub leave_dir : Proc → Proc
leave_dir p = record p { cwd = none }

abbrev pub make_zombie : Proc → Proc
make_zombie p = record p { state = zombie }

-- The assignments of wait to a ZOMBIE that it has found.
abbrev pub wipe : Proc → Proc
wipe p = record p {
  kstack = none;
  pid = 0;
  parent = none;
  name = put_nul p.name;
  killed = false;
  state = unused;
}

-- One round of the loop of exit over the children, at the entry `i`.
unfoldable pub adopt : {W : Type 0} → ℕ → ℕ → Kernel W → Kernel W
unfolding wakeup1
adopt cur i k =
    let k1 = update i (give_to k.initproc) k in
    if points_to (the_proc k i).parent cur
    then if is_state (the_proc k i).state zombie then wakeup1 (chan_of k.initproc) k1 else k1
    else k

-- The rounds from the entry `i` on, `n` of them.
unfoldable pub adopt_from : {W : Type 0} → ℕ → ℕ → ℕ → Kernel W → Kernel W
unfolding adopt
adopt_from cur i zero k = k
adopt_from cur i (suc n) k = adopt_from cur (suc i) n (adopt cur i k)

-- exit under ptable.lock.
unfoldable pub bury : {W : Type 0} → ℕ → Kernel W → Kernel W
unfolding adopt_from
bury cur k =
    let k1 = wakeup1 (chan_of (the_proc k cur).parent) k in
    update cur make_zombie (adopt_from cur 0 64 k1)

-- The scan of wait from the entry `i` on: the first ZOMBIE child, and whether there are children.
unfoldable pub scan : ℕ → ℕ → Bool → List Proc → Option ℕ × Bool
scan cur i havekids [] = (none, havekids)
scan cur i havekids (p ∷ t) =
    let skip = scan cur (suc i) havekids t in
    let more = scan cur (suc i) true t in
    if not (points_to p.parent cur)
    then skip
    else if is_state p.state zombie
    then (some i, true)
    else more

module _ (sys : Services) where
  open sys use {World}

  -- A service that may wake processes.
  abbrev pub calling : (World → World × List Chan) → Kernel World → Kernel World
  calling f k = let (w, woken) = f k.world in wakeups woken (record k { world = w })

  -- The loop of exit over the descriptors from `fd` on, `n` of them.
  unfoldable pub close_from : ℕ → ℕ → ℕ → Kernel World → Kernel World
  unfolding wakeups
  close_from cur fd zero k = k
  close_from cur fd (suc n) k = elim (get_or (the_proc k cur).ofile fd none) [
    | none ↦ close_from cur (suc fd) n k
    | some f ↦ close_from cur (suc fd) n (update cur (close_fd fd) (calling (sys.fileclose f) k))
  ]

  -- exit until it takes ptable.lock.
  unfoldable pub drop_files : ℕ → Kernel World → Kernel World
  unfolding close_from
  drop_files cur k =
      let k1 = close_from cur 0 nofile k in
      let k2 = record k1 { world = sys.begin_op k1.world } in
      let k3 = calling (sys.iput (the_proc k2 cur).cwd) k2 in
      update cur leave_dir (calling sys.end_op k3)

  -- `none` is the panic "init exiting".
  unfoldable pub exit : ℕ → Kernel World → Option (Kernel World)
  unfolding drop_files bury
  exit cur k = if points_to k.initproc cur then none else some (bury cur (drop_files cur k))

  -- The block of wait that frees a ZOMBIE.
  unfoldable pub reap : ℕ → Kernel World → Kernel World
  reap i k = update i wipe (record k {
    world = sys.freevm (the_proc k i).pgdir (sys.kfree (the_proc k i).kstack k.world);
  })

  -- `some r`: wait returns r. `none`: the caller sleeps on its own entry, and scans again when it
  -- is woken.
  unfoldable pub wait_pass : ℕ → Kernel World → Option ℤ × Kernel World
  unfolding scan reap
  wait_pass cur k =
      let (found, havekids) = scan cur 0 false k.procs in
      elim found [
        | some i ↦ (some (pos (the_proc k i).pid), reap i k)
        | none ↦
            if not havekids || (the_proc k cur).killed
            then (some minus_one, k)
            else (none, sleep cur (entry cur) k)
      ]
