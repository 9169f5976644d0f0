-- ===== src/Proc/Alloc/Child.antt =====
-- fork: what the child is, and what a failure leaves.
use lab7sp25_shelnutt.Base.{
  refl, ℕ, zero, suc, ◌<◌, ◌^◌, ◌≡◌, ◌≢◌, true, List, [], ◌∷◌, Option, none, some, arith, length,
  inl, inr, Option-cases, ◌∙◌, ap, get_or, pos, negsuc, ℤ, ◌≤ℤ◌, dec_lt, subst, sym, minus_one, ◌⊎◌,
}
use lab7sp25_shelnutt.Proc.Table.{Proc, Kernel, the_proc, live, runnable}
use lab7sp25_shelnutt.Proc.Services.{Services}
use lab7sp25_shelnutt.Proc.Info.{gettickets}
use lab7sp25_shelnutt.Proc.Info.Tickets.{gettickets_lem}
use lab7sp25_shelnutt.Proc.Inv.{IsValid, the_proc-update_self, the_proc-update_ne, live_bound}
use lab7sp25_shelnutt.Proc.Alloc.{
  at_least_ten, child_of, allocproc, dup_files, fill_child, fork_in, fork,
}
use lab7sp25_shelnutt.Proc.Alloc.Slot.{FirstFree, Allocated, allocproc-IsValid, allocproc-some}
use lab7sp25_shelnutt.Proc.Alloc.Failure.{Untouched, allocproc-none, give_up-Untouched}

-- The new process at the entry `i`, in terms of the table before the call.
-- `c` is the number `t`, raised to 10 where it is less.
abbrev pub Raised : ℤ → ℤ → Type 0
Raised t c = (pos 10 ≤ℤ t → c ≡ t) × (t ≤ℤ pos 10 → c ≡ pos 10)

at_least_ten-Raised : (t : ℤ) → Raised t (at_least_ten t)
at_least_ten-Raised (pos n) = elim (dec_lt 10 n) [
  | yes l ↦ (λ h. ground arith, λ h. absurd (omega arith))
  | no g ↦ (λ h. let e : n ≡ 10 = omega arith in rw e refl, λ h. ground arith)
]
at_least_ten-Raised (negsuc n) = (λ h. absurd (omega arith), λ h. ground arith)

pub record Forked {W : Type 0} (cur i : ℕ) (k k' : Kernel W) : Type 0 where
  pub free : FirstFree k.procs i
  pub ready : (the_proc k' i).state ≡ runnable
  pub pid : (the_proc k' i).pid ≡ k.nextpid
  pub parent : (the_proc k' i).parent ≡ some cur
  pub returns_zero : (the_proc k' i).tf ≡ record (the_proc k cur).tf { eax = 0 }
  pub size : (the_proc k' i).sz ≡ (the_proc k cur).sz
  pub cwd : (the_proc k' i).cwd ≡ (the_proc k cur).cwd
  pub tickets : Raised (the_proc k cur).tickets (the_proc k' i).tickets
  pub ticks : (the_proc k' i).ticks ≡ pos 0
  pub others : (j : ℕ) → i ≢ j → the_proc k' j ≡ the_proc k j

module _ (sys : Services) where
  open sys use {World}

  -- The child has each open file of the parent, under the same descriptor.
  pub dup_files_lem :
      (mine theirs : List (Option ℕ)) (w : World) (fd : ℕ) {f : ℕ}
      → fd < length theirs
      → get_or mine fd none ≡ some f
      → get_or (dup_files sys mine theirs w).0 fd none ≡ some f
  unfolding dup_files
  dup_files_lem [] theirs w fd l e = cc
  dup_files_lem (m ∷ mine) [] w fd l e = absurd (omega arith)
  dup_files_lem (none ∷ mine) (g ∷ theirs) w zero l e = cc
  dup_files_lem (none ∷ mine) (g ∷ theirs) w (suc fd) l e =
      dup_files_lem mine theirs w fd (omega arith) e
  dup_files_lem (some m ∷ mine) (g ∷ theirs) w zero l e = e
  dup_files_lem (some m ∷ mine) (g ∷ theirs) w (suc fd) l e =
      dup_files_lem mine theirs (sys.filedup m w) fd (omega arith) e

  -- fork from the copied page table on.
  fill_child-Forked :
      (cur i d : ℕ) (k k1 : Kernel World) (w : World)
      → IsValid k1
      → i ≢ cur
      → live (the_proc k cur) ≡ true
      → Allocated sys k k1 i
      → i < length k1.procs
      → let k2 = record k1 { world = w } in
        ((fill_child sys cur i d k2).0 ≡ pos k.nextpid)
        × Forked cur i k (fill_child sys cur i d k2).1
  unfolding fill_child
  fill_child-Forked cur i d k k1 w v ne l a bound =
      let p = the_proc k1 cur in
      let pc : the_proc k1 cur ≡ the_proc k cur = a.others cur ne in
      let files = dup_files sys p.ofile (the_proc k1 i).ofile w in
      let k3 = record k1 { world = sys.idup p.cwd files.1 } in
      let f = child_of p cur d files.0 (gettickets p.pid k1.procs) in
      let self = the_proc-update_self i f k3 bound in
      let lc : live p ≡ true = rw pc l in
      let t : gettickets p.pid k1.procs ≡ p.tickets =
        gettickets_lem k1.procs cur lc (λ j lj e. v.unique j cur lj lc e) in
      (
        ap pos a.pid_now,
        record {
          free = a.free;
          ready = ap (λ q. q.state) self;
          pid = ap (λ q. q.pid) self ∙ a.pid_now;
          parent = ap (λ q. q.parent) self;
          returns_zero = ap (λ q. q.tf) self ∙ ap (λ (q : Proc). record q.tf { eax = 0 }) pc;
          size = ap (λ q. q.sz) self ∙ ap (λ q. q.sz) pc;
          cwd = ap (λ q. q.cwd) self ∙ ap (λ q. q.cwd) pc;
          tickets =
              let e =
                ap (λ q. q.tickets) self
                ∙ ap at_least_ten t
                ∙ ap (λ (q : Proc). at_least_ten q.tickets) pc in
              subst (Raised (the_proc k cur).tickets) (sym e)
                (at_least_ten-Raised (the_proc k cur).tickets);
          ticks = ap (λ q. q.ticks) self;
          others = λ j n. the_proc-update_ne i j f k3 n ∙ a.others j n;
        },
      )

  -- fork by a process in use. Either it returns -1, what was in use is untouched and nothing new is in
  -- use; or it returns the next pid, and the first free entry holds the child: RUNNABLE under that
  -- pid, with the caller for its parent, the registers of the caller but for 0 in eax, its size, its
  -- directory and its tickets, raised to 10 if they are fewer, and no ticks. No other entry changes.
  pub fork_lem :
      (cur : ℕ) (k : Kernel World)
      → IsValid k
      → k.nextpid < 2 ^ 31
      → live (the_proc k cur) ≡ true
      → (((fork sys cur k).0 ≡ minus_one) × ((j : ℕ) → Untouched k (fork sys cur k).1 j))
        ⊎ (((fork sys cur k).0 ≡ pos k.nextpid) × ((i : ℕ) × Forked cur i k (fork sys cur k).1))
  fork_lem cur k v small l =
      let k1 = (allocproc sys k).1 in
      let v1 = allocproc-IsValid sys k v small in
      elim (Option-cases (allocproc sys k).0) [
        | inl e ↦
            inl (unfold fork in rw (e, fork), unfold fork in rw (e, fork) (allocproc-none sys k e))
        | inr (i, e) ↦
            let a = allocproc-some sys k e in
            let ne : i ≢ cur = λ q. ground (arith, a.free.1, q) in
            let bound : i < length k1.procs =
              rw v1.sized (live_bound v1 i (ground (arith, a.embryo_now))) in
            let wf =
              sys.kfree (the_proc k1 i).kstack
                (sys.copyuvm (the_proc k1 cur).pgdir (the_proc k1 cur).sz k1.world).1 in
            elim (Option-cases
              (sys.copyuvm (the_proc k1 cur).pgdir (the_proc k1 cur).sz k1.world).0) [
                | inl c ↦ inl (
                  unfold fork fork_in in rw (e, fork, c, fork_in),
                  unfold fork fork_in in
                      rw (e, fork, c, fork_in)
                        (give_up-Untouched i k k1 wf a.free.1 a.others bound),
                )
                | inr (d, c) ↦
                    let w = (sys.copyuvm (the_proc k1 cur).pgdir (the_proc k1 cur).sz k1.world).1 in
                    let r = fill_child-Forked cur i d k k1 w v1 ne l a bound in
                    inr (
                      unfold fork fork_in in rw (e, fork, c, fork_in) r.0,
                      (i, unfold fork fork_in in rw (e, fork, c, fork_in) r.1),
                    )
              ]
      ]
