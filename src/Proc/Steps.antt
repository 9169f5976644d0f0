-- ===== src/Proc/Steps.antt =====
-- The process table under any sequence of the parts of the calls of proc.c, from boot on. A step is
-- what a process does under one hold of ptable.lock, or one group of its stores to an entry that only
-- it writes then, or a part of another call of the kernel that may wake processes. fork and exit have
-- several steps; `Step` does not record how far a call has come, and so allows more orders than there
-- are.
use lab7sp25_shelnutt.Base.{
  ℕ, ◌<◌, ◌≡◌, ◌^◌, refl, true, none, some, arith, replicate, ℤ, List, false, points_to,
  get_or-replicate,
}
use lab7sp25_shelnutt.Proc.Table.{
  nproc, blank, live, Chan, Kernel, the_proc, is_state, runnable, embryo, update,
}
use lab7sp25_shelnutt.Proc.Services.{Services}
use lab7sp25_shelnutt.Proc.Sleep.{wakeup1, wakeups, make_runnable, sleep, sleep_return, yield, kill}
use lab7sp25_shelnutt.Proc.Info.{settickets}
use lab7sp25_shelnutt.Proc.Alloc.{
  find_unused, claim_at, finish_alloc, give_up, fill_fields, child_tickets, userinit, growproc,
}
use lab7sp25_shelnutt.Proc.Alloc.Slot.{claim_at-IsValid, finish_alloc-Retains}
use lab7sp25_shelnutt.Proc.Life.{close_fd, leave_dir, bury, wait_pass}
use lab7sp25_shelnutt.Proc.Schedule.{dispatch, make_running}
use lab7sp25_shelnutt.Proc.Inv.{
  IsValid, Retains-IsValid, Retains-trans, Retains-world, update-Retains,
}
use lab7sp25_shelnutt.Proc.Inv.Keeps.{
  wakeup1-Retains, sleep-Retains, sleep_return-Retains, yield-Retains, kill-Retains,
  settickets-Retains, growproc-Retains, bury-Retains, wait_pass-Retains, wakeups-Retains,
  fill_fields-Retains, userinit-IsValid,
}

module _ (sys : Services) where
  open sys use {World}

  pub data Step (k : Kernel World) : Kernel World → Type 0 where
    -- fork: the entry and the pid under the lock; the stack and what allocproc sets up, or its way
    -- back; the way back of fork; the copies; the tickets that gettickets has returned before; and
    -- under the lock, the state.
    fork_claims :
        (cur i : ℕ)
        → live (the_proc k cur) ≡ true
        → find_unused 0 k.procs ≡ some i
        → k.nextpid < 2 ^ 31
        → Step k (claim_at i k)
    fork_sets_up :
        (np : ℕ) → is_state (the_proc k np).state embryo ≡ true → Step k (finish_alloc sys np k).1
    fork_fails :
        (np : ℕ)
        → is_state (the_proc k np).state embryo ≡ true
        → Step k (update np give_up (record k { world = sys.kfree (the_proc k np).kstack k.world }))
    fork_fills :
        (cur np pgdir : ℕ)
        → is_state (the_proc k np).state embryo ≡ true
        → Step k (fill_fields sys cur np pgdir k)
    fork_tickets :
        (np : ℕ) (tickets : ℤ)
        → is_state (the_proc k np).state embryo ≡ true
        → Step k (update np (child_tickets tickets) k)
    fork_starts :
        (np : ℕ) → is_state (the_proc k np).state embryo ≡ true → Step k (update np make_runnable k)
    -- exit: the stores to its own entry, and the part under the lock. What fileclose, begin_op, iput
    -- and end_op do are steps `elsewhere` and sleeps.
    exit_closes : (cur fd : ℕ) → Step k (update cur (close_fd fd) k)
    exit_leaves : (cur : ℕ) → Step k (update cur leave_dir k)
    exit_ends :
        (cur : ℕ)
        → live (the_proc k cur) ≡ true
        → points_to k.initproc cur ≡ false
        → Step k (bury cur k)
    -- Another part of the kernel, with the channels on which it wakes processes.
    elsewhere : (w : World) (cs : List Chan) → Step k (wakeups cs (record k { world = w }))
    wait_call : (cur : ℕ) → live (the_proc k cur) ≡ true → Step k (wait_pass sys cur k).1
    sleep_call : (cur : ℕ) (c : Chan) → live (the_proc k cur) ≡ true → Step k (sleep cur c k)
    sleep_ends : (cur : ℕ) → Step k (sleep_return cur k)
    yield_call : (cur : ℕ) → live (the_proc k cur) ≡ true → Step k (yield cur k)
    wakeup_call : (c : Chan) → Step k (wakeup1 c k)
    kill_call : (pid : ℕ) → Step k (kill pid k).1
    turn : (i : ℕ) → is_state (the_proc k i).state runnable ≡ true → Step k (dispatch i k)
    set_tickets : (cur : ℕ) (n : ℤ) → Step k (settickets cur n k).1
    grow : (cur : ℕ) (n : ℤ) → Step k (growproc sys cur n k).1

  -- The statics as the loader leaves them, and the first process.
  abbrev pub boot : World → Kernel World
  boot w = record { procs = replicate nproc blank; nextpid = 1; initproc = none; world = w }

  pub data Reach : Kernel World → Type 0 where
    booted : (w : World) {k : Kernel World} → userinit sys (boot w) ≡ some k → Reach k
    later : {k k' : Kernel World} → Reach k → Step k k' → Reach k'

  boot-IsValid : (w : World) → IsValid (boot w)
  unfolding blank
  boot-IsValid w = record {
    sized = refl;
    started = omega arith;
    named = λ i h. absurd (ground (arith, get_or-replicate nproc i blank));
    unique = λ i j h. absurd (ground (arith, get_or-replicate nproc i blank));
  }

  Step-IsValid : {k k' : Kernel World} → Step k k' → IsValid k → IsValid k'
  Step-IsValid {k} (fork_claims cur i l e small) v = claim_at-IsValid i k v small
  Step-IsValid {k} (fork_sets_up np h) v = Retains-IsValid (finish_alloc-Retains sys np k h) v
  Step-IsValid {k} (fork_fails np h) v =
      Retains-IsValid
        (Retains-trans (Retains-world k _)
          (update-Retains np give_up _ (λ l. absurd (ground arith))))
        v
  Step-IsValid {k} (fork_fills cur np pgdir h) v =
      Retains-IsValid (fill_fields-Retains sys cur np pgdir k (ground arith)) v
  Step-IsValid {k} (fork_tickets np t h) v =
      Retains-IsValid (update-Retains np (child_tickets t) k (λ l. (l, refl))) v
  Step-IsValid {k} (fork_starts np h) v =
      Retains-IsValid (update-Retains np make_runnable k (λ l. (ground arith, refl))) v
  Step-IsValid {k} (exit_closes cur fd) v =
      Retains-IsValid (update-Retains cur (close_fd fd) k (λ l. (l, refl))) v
  Step-IsValid {k} (exit_leaves cur) v =
      Retains-IsValid (update-Retains cur leave_dir k (λ l. (l, refl))) v
  Step-IsValid {k} (exit_ends cur l _) v = Retains-IsValid (bury-Retains cur k v l) v
  Step-IsValid {k} (elsewhere w cs) v =
      Retains-IsValid (Retains-trans (Retains-world k w) (wakeups-Retains cs _)) v
  Step-IsValid {k} (wait_call cur l) v = Retains-IsValid (wait_pass-Retains sys cur k l) v
  Step-IsValid {k} (sleep_call cur c l) v = Retains-IsValid (sleep-Retains cur c k l) v
  Step-IsValid {k} (sleep_ends cur) v = Retains-IsValid (sleep_return-Retains cur k) v
  Step-IsValid {k} (yield_call cur l) v = Retains-IsValid (yield-Retains cur k l) v
  Step-IsValid {k} (wakeup_call c) v = Retains-IsValid (wakeup1-Retains c k) v
  Step-IsValid {k} (kill_call pid) v = Retains-IsValid (kill-Retains pid k) v
  Step-IsValid {k} (turn i l) v =
      unfold dispatch in
      Retains-IsValid (update-Retains i make_running k (λ h. (ground arith, refl))) v
  Step-IsValid {k} (set_tickets cur n) v = Retains-IsValid (settickets-Retains cur n k) v
  Step-IsValid {k} (grow cur n) v = Retains-IsValid (growproc-Retains sys cur n k) v

  -- Whatever the processes call from boot on, in any interleaving of the parts of these calls, as long
  -- as fork takes no pid after the counter has run through the positive ints: the table has its 64
  -- entries, each process in use has a positive pid below the counter, and no two processes in use have
  -- the same pid.
  pub Reach-IsValid : {k : Kernel World} → Reach k → IsValid k
  Reach-IsValid (booted w e) = userinit-IsValid sys (boot w) (boot-IsValid w) (omega arith) e
  Reach-IsValid (later r s) = Step-IsValid s (Reach-IsValid r)
