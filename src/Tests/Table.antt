-- ===== src/Tests/Table.antt =====
-- The process table on the small machine.
use lab7sp25_shelnutt.Base.{
  ℕ, ◌<◌, ◌≡◌, ◌≢◌, refl, arith, ◌⊎◌, inl, inr, none, some, ◌^◌, pos, true, false, minus_one,
  length, points_to, ap, subst, zero, suc,
}
use lab7sp25_shelnutt.Proc.Table.{
  Kernel, the_proc, live, is_state, sleeping, runnable, zombie, embryo, update, nproc, blank,
}
use lab7sp25_shelnutt.Proc.Sleep.{kill, make_runnable, sleep_return, sleep, wakeup1}
use lab7sp25_shelnutt.Proc.Sleep.Kills.{FirstWith, Killed, kill_lem}
use lab7sp25_shelnutt.Proc.Inv.{IsValid}
use lab7sp25_shelnutt.Proc.Alloc.{
  fork, allocproc, userinit, find_unused, claim_at, finish_alloc, fill_fields,
}
use lab7sp25_shelnutt.Proc.Alloc.Failure.{Untouched}
use lab7sp25_shelnutt.Proc.Alloc.Slot.{FirstFree}
use lab7sp25_shelnutt.Proc.Alloc.Child.{Forked, fork_lem}
use lab7sp25_shelnutt.Proc.Alloc.Doomed.{kill-allocproc}
use lab7sp25_shelnutt.Proc.Life.{exit, wait_pass, bury, drop_files}
use lab7sp25_shelnutt.Proc.Life.Exits.{Exited, exit_lem}
use lab7sp25_shelnutt.Proc.Life.Waiting.{Reaped, Refused, Waits, wait_pass_lem}
use lab7sp25_shelnutt.Proc.Life.Meeting.{wait-exit}
use lab7sp25_shelnutt.Proc.Schedule.{contains, pass}
use lab7sp25_shelnutt.Proc.Schedule.Turns.{pass-turn}
use lab7sp25_shelnutt.Proc.Steps.{
  Reach-IsValid, booted, later, fork_claims, fork_sets_up, fork_fills, fork_starts,
}
use lab7sp25_shelnutt.Tests.Machine.{machine, booted_up, forked, waiting, one_dead, boots, exits}

booted_up-live : live (the_proc booted_up 0) ≡ true
unfolding userinit blank allocproc
booted_up-live = refl

booted_up-small : booted_up.nextpid < 2 ^ 31
unfolding userinit blank allocproc
booted_up-small = omega arith

booted_up-IsValid : IsValid booted_up
booted_up-IsValid = Reach-IsValid machine (booted 1 boots)

free_slot : find_unused 0 booted_up.procs ≡ some 1
unfolding find_unused userinit blank allocproc
free_slot = refl

abbrev with_child : Kernel ℕ
with_child = claim_at 1 booted_up

with_child-embryo : is_state (the_proc with_child 1).state embryo ≡ true
unfolding userinit blank allocproc
with_child-embryo = refl

abbrev with_stack : Kernel ℕ
with_stack = (finish_alloc machine 1 with_child).1

with_stack-embryo : is_state (the_proc with_stack 1).state embryo ≡ true
unfolding userinit blank allocproc
with_stack-embryo = refl

abbrev with_copies : Kernel ℕ
with_copies = fill_fields machine 0 1 7 with_stack

with_copies-embryo : is_state (the_proc with_copies 1).state embryo ≡ true
unfolding fill_fields userinit blank allocproc
with_copies-embryo = refl

-- A fork in its parts.
Reach-IsValid_example : IsValid (update 1 make_runnable with_copies)
Reach-IsValid_example = Reach-IsValid machine (
    later
      (later
        (later (later (booted 1 boots) (fork_claims 0 1 booted_up-live free_slot booted_up-small))
          (fork_sets_up 1 with_child-embryo))
        (fork_fills 0 1 7 with_stack-embryo))
      (fork_starts 1 with_copies-embryo))

fork_lem_example :
    (((fork machine 0 booted_up).0 ≡ minus_one) × ((j : ℕ) → Untouched booted_up forked j))
    ⊎ (((fork machine 0 booted_up).0 ≡ pos booted_up.nextpid)
        × ((i : ℕ) × Forked 0 i booted_up forked))
fork_lem_example = fork_lem machine 0 booted_up booted_up-IsValid booted_up-small booted_up-live

kill_lem_example :
    ((kill 2 forked ≡ (minus_one, forked))
      × ((j : ℕ) → j < length forked.procs → (the_proc forked j).pid ≢ 2))
    ⊎ ((i : ℕ) × FirstWith 2 forked.procs i
        × (k' : Kernel ℕ) × (kill 2 forked ≡ (pos 0, k'))
        × Killed i forked k')
kill_lem_example = kill_lem 2 forked

forked-long : 1 < length forked.procs
unfolding fork userinit blank allocproc
forked-long = omega arith

falls_asleep : wait_pass machine 0 forked ≡ (none, waiting)
unfolding wait_pass fork userinit blank allocproc sleep wakeup1
falls_asleep = refl

waits : Waits 0 forked (none, waiting)
waits =
    subst (Waits 0 forked) falls_asleep
      (elim (wait_pass_lem machine 0 forked (omega (arith, forked-long))) [
        | inl (i, r) ↦ absurd (ground (arith, r.result, ap (λ o. o.0) falls_asleep))
        | inr (inl r) ↦ absurd (ground (arith, r.result, ap (λ o. o.0) falls_asleep))
        | inr (inr w) ↦ w
      ])

waiting-sized : length waiting.procs ≡ nproc
unfolding wait_pass fork userinit blank allocproc sleep wakeup1
waiting-sized = refl

waiting-parent : (the_proc waiting 1).parent ≡ some 0
unfolding wait_pass fork userinit blank allocproc sleep wakeup1
waiting-parent = refl

exit_lem_example :
    ((points_to waiting.initproc 1 ≡ true) × (exit machine 1 waiting ≡ none))
    ⊎ ((k' : Kernel ℕ) × (exit machine 1 waiting ≡ some k') × Exited 1 waiting k')
exit_lem_example = exit_lem machine 1 waiting waiting-sized (omega arith)

one_dead-sized : 0 < length one_dead.procs
unfolding bury drop_files wait_pass fork userinit blank allocproc sleep wakeup1
one_dead-sized = omega arith

wait_pass_lem_example :
    ((i : ℕ) × Reaped 0 i one_dead (wait_pass machine 0 one_dead))
    ⊎ Refused 0 one_dead (wait_pass machine 0 one_dead)
    ⊎ Waits 0 one_dead (wait_pass machine 0 one_dead)
wait_pass_lem_example = wait_pass_lem machine 0 one_dead one_dead-sized

wait-exit_example :
    (is_state (the_proc one_dead 0).state sleeping ≡ false)
    × ((m : ℕ) × ((wait_pass machine 0 (sleep_return 0 one_dead)).0
          ≡ some (pos (the_proc one_dead m).pid))
        × ((the_proc one_dead m).parent ≡ some 0)
        × (is_state (the_proc one_dead m).state zombie ≡ true))
wait-exit_example =
    wait-exit machine 0 1 forked waiting one_dead waiting-sized (omega arith) (omega arith) waits
      waiting-parent exits

forked-ready : is_state (the_proc forked 1).state runnable ≡ true
unfolding fork userinit blank allocproc
forked-ready = refl

-- Each turn ends at once, with the process RUNNING still.
pass-turn_example : contains (pass (λ _ k. k) forked).1 1 ≡ true
pass-turn_example = pass-turn (λ _ k. k) 1 (λ _ _ _ h. h) forked (omega arith) forked-ready

second-free : FirstFree booted_up.procs 1
unfolding userinit blank allocproc
second-free = (omega arith, refl, elim [ zero ↦ λ _. refl | suc j ↦ λ l. absurd (omega arith) ])

second-pid : (the_proc booted_up 1).pid ≡ 0
unfolding userinit blank allocproc
second-pid = refl

second-taken : (allocproc machine (kill 0 booted_up).1).0 ≡ some 1
unfolding allocproc kill userinit blank
second-taken = refl

kill-allocproc_example :
    ((kill 0 booted_up).0 ≡ pos 0)
    × ((the_proc (allocproc machine (kill 0 booted_up).1).1 1).killed ≡ true)
kill-allocproc_example =
    kill-allocproc machine 1 1 booted_up booted_up-IsValid second-free second-pid second-taken
