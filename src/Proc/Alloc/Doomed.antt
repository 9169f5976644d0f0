-- ===== src/Proc/Alloc/Doomed.antt =====
-- kill with the pid 0, which unused entries of the table have.
use lab7sp25_shelnutt.Base.{ℕ, ◌≡◌, true, some, arith, inl, inr, pos, dec_lt, ap}
use lab7sp25_shelnutt.Proc.Table.{Kernel, the_proc, update}
use lab7sp25_shelnutt.Proc.Services.{Services}
use lab7sp25_shelnutt.Proc.Sleep.{mark_killed, kill}
use lab7sp25_shelnutt.Proc.Sleep.Kills.{kill_cases}
use lab7sp25_shelnutt.Proc.Inv.{IsValid, the_proc-update, the_proc-update_self}
use lab7sp25_shelnutt.Proc.Alloc.{allocproc}
use lab7sp25_shelnutt.Proc.Alloc.Slot.{FirstFree, allocproc-some}

-- There is one first free entry, and marking it does not change which it is.
FirstFree-mark :
    {W : Type 0} (i j : ℕ) (k : Kernel W)
    → FirstFree k.procs i
    → FirstFree (update i mark_killed k).procs j
    → i ≡ j
FirstFree-mark i j k (l, free, before) (m, free', before') = ground (
  arith,
  the_proc-update i i mark_killed k,
  the_proc-update i j mark_killed k,
  before j,
  before' i,
)

-- In a valid table the first entry with pid 0 is the first free one, where that has pid 0.
kill_zero :
    {W : Type 0} (i : ℕ) (k : Kernel W)
    → IsValid k
    → FirstFree k.procs i
    → (the_proc k i).pid ≡ 0
    → kill 0 k ≡ (pos 0, update i mark_killed k)
kill_zero i k v f z = elim (kill_cases 0 k) [
  | inl (_, absent) ↦ absurd (absent i f.0 z)
  | inr (j, (l, q, first), e) ↦
      let same : j ≡ i = elim (dec_lt j i) [
        | yes lt ↦ absurd (omega (arith, (v.named j (f.2 j lt)).0))
        | no n ↦ elim (dec_lt i j) [ yes lt ↦ absurd (first i lt z) | no m ↦ omega arith ]
      ] in
      rw same at e
]

module _ (sys : Services) where
  open sys use {World}

  -- In a valid table whose first free entry has not been used, so that its pid is 0: kill with the
  -- pid 0 returns 0, as if it had found a process; and if the next allocproc succeeds, the process
  -- that it makes is marked as killed from its start.
  pub kill-allocproc :
      (i j : ℕ) (k : Kernel World)
      → IsValid k
      → FirstFree k.procs i
      → (the_proc k i).pid ≡ 0
      → (allocproc sys (kill 0 k).1).0 ≡ some j
      → ((kill 0 k).0 ≡ pos 0) × ((the_proc (allocproc sys (kill 0 k).1).1 j).killed ≡ true)
  kill-allocproc i j k v f z h =
      let e = kill_zero i k v f z in
      let h' : (allocproc sys (update i mark_killed k)).0 ≡ some j = rw e at h in
      let a = allocproc-some sys (update i mark_killed k) h' in
      let ij = FirstFree-mark i j k f a.free in
      let self = the_proc-update_self i mark_killed k f.0 in
      (ap (λ r. r.0) e, rw (e, a.killed_still, ← ij, self) (ground arith))
