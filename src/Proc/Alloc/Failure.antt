-- ===== src/Proc/Alloc/Failure.antt =====
-- What a failure of allocproc or fork leaves behind.
use lab7sp25_shelnutt.Base.{
  ℕ, ◌<◌, ◌≡◌, ◌≢◌, refl, true, false, none, arith, length, length-set, inl, inr, Option-cases,
  ℕ_discrete,
}
use lab7sp25_shelnutt.Proc.Table.{Kernel, the_proc, live, update}
use lab7sp25_shelnutt.Proc.Services.{Services}
use lab7sp25_shelnutt.Proc.Inv.{the_proc-update}
use lab7sp25_shelnutt.Proc.Alloc.{
  find_unused, claim, give_up, claim_at, finish_alloc, alloc_at, allocproc,
}
use lab7sp25_shelnutt.Proc.Alloc.Slot.{FirstFree, find_unused-FirstFree}

-- What is in use at the entry `j` stays as it is, and nothing comes into use there.
abbrev pub Untouched : {W : Type 0} → Kernel W → Kernel W → ℕ → Type 0
Untouched k k' j =
    (live (the_proc k' j) ≡ live (the_proc k j))
    × (live (the_proc k j) ≡ true → the_proc k' j ≡ the_proc k j)

-- An entry that was free and is given up again.
pub give_up-Untouched :
    {W : Type 0} (i : ℕ) (k k' : Kernel W) (w : W)
    → live (the_proc k i) ≡ false
    → ((j : ℕ) → i ≢ j → the_proc k' j ≡ the_proc k j)
    → i < length k'.procs
    → (j : ℕ) → Untouched k (update i give_up (record k' { world = w })) j
give_up-Untouched i k k' w free others l j = elim (ℕ_discrete i j) [
  | yes e ↦
      rw (← e) (ground (arith, the_proc-update i i give_up (record k' { world = w })), λ h. cc)
  | no n ↦
      let q = the_proc-update i j give_up (record k' { world = w }) in
      (ground (arith, others j n), λ h. ground (arith, others j n))
]

module _ (sys : Services) where
  open sys use {World}

  alloc_at-none :
      (i : ℕ) (k : Kernel World)
      → FirstFree k.procs i
      → (alloc_at sys i k).0 ≡ none
      → (j : ℕ) → Untouched k (alloc_at sys i k).1 j
  alloc_at-none i k f h j = elim (Option-cases (sys.kalloc k.world).0) [
    | inr (s, e) ↦ absurd (unfold alloc_at in ground arith)
    | inl e ↦
        unfold alloc_at in
        rw (e, alloc_at, finish_alloc)
          (give_up-Untouched i k (claim_at i k) (sys.kalloc k.world).1 f.1
            (λ l n. ground (arith, the_proc-update i l (claim k.nextpid) k))
            (ground (arith, length-set k.procs i (claim k.nextpid (the_proc k i)), f.0)) j)
  ]

  pub allocproc-none :
      (k : Kernel World) → (allocproc sys k).0 ≡ none → (j : ℕ) → Untouched k (allocproc sys k).1 j
  allocproc-none k h j = elim (Option-cases (find_unused 0 k.procs)) [
    | inl e ↦ unfold allocproc in rw (e, allocproc) (refl, λ l. refl)
    | inr (i, e) ↦
        let r : (alloc_at sys i k).0 ≡ none = unfold allocproc in rw (e, allocproc) at h in
        unfold allocproc in
        rw (e, allocproc) (alloc_at-none i k (find_unused-FirstFree k.procs e) r j)
  ]
