-- ===== src/Proc/Alloc.antt =====
-- allocproc, userinit, growproc and fork of proc.c.
pub mod Slot
pub mod Failure
pub mod Child
pub mod Doomed
use lab7sp25_shelnutt.Base.{
  ℕ, zero, suc, ◌+◌, ◌*◌, ◌%◌, ◌^◌, Bool, false, Option, none, some, List, [], ◌∷◌, if◌then◌else◌,
  ℤ, pos, negsuc, minus_one, ltb_ℤ, add32, get_or, pos_part, neg_part, sub32, ◌==◌,
}
use lab7sp25_shelnutt.Strings.{safestrcpy}
use lab7sp25_shelnutt.Proc.Table.{
  unused, embryo, runnable, is_state, Proc, Kernel, the_proc, update, zero_context, zero_tf, nofile,
}
use lab7sp25_shelnutt.Proc.Services.{Services}
use lab7sp25_shelnutt.Proc.Info.{gettickets}
use lab7sp25_shelnutt.Proc.Sleep.{make_runnable}

-- The loop of allocproc: the first UNUSED entry, counted from `i`.
unfoldable pub find_unused : ℕ → List Proc → Option ℕ
find_unused i [] = none
find_unused i (p ∷ t) =
    let rest = find_unused (suc i) t in if is_state p.state unused then some i else rest

abbrev pub claim : ℕ → Proc → Proc
claim pid p = record p { state = embryo; pid = pid }

-- The way back of allocproc and of fork, when memory runs out. The pid stays.
abbrev pub give_up : Proc → Proc
give_up p = record p { kstack = none; state = unused }

-- allocproc under ptable.lock, where its loop has found the entry `i`.
abbrev pub claim_at : {W : Type 0} → ℕ → Kernel W → Kernel W
claim_at i k = record (update i (claim k.nextpid) k) { nextpid = add32 k.nextpid 1 }

-- The rest of allocproc, with the page for the stack.
abbrev pub set_up : ℕ → ℕ → ℕ → Proc → Proc
set_up page trapret forkret p = record p {
  kstack = some page;
  ret = trapret;
  context = record zero_context { eip = forkret };
}

-- `sz + n` for an int n, on uint.
abbrev pub new_size : ℕ → ℤ → ℕ
new_size sz n = sub32 (add32 sz (pos_part n)) (neg_part n)

abbrev pub resize : ℕ → Proc → Proc
resize n p = record p { sz = n }

abbrev pub at_least_ten : ℤ → ℤ
at_least_ten t = if ltb_ℤ (pos 10) t then t else pos 10

-- What fork copies into the entry of the child of `parent`, which stands at `cur`.
abbrev pub child_fields : Proc → ℕ → ℕ → List (Option ℕ) → Proc → Proc
child_fields parent cur pgdir files p = record p {
  pgdir = pgdir;
  sz = parent.sz;
  parent = some cur;
  tf = record parent.tf { eax = 0 };
  ofile = files;
  cwd = parent.cwd;
  name = safestrcpy p.name parent.name 16;
}

-- What fork makes of the answer of gettickets.
abbrev pub child_tickets : ℤ → Proc → Proc
child_tickets tickets p = record p { ticks = pos 0; tickets = at_least_ten tickets }

-- All that fork puts into the entry of the child, to the state that it sets at the end.
abbrev pub child_of : Proc → ℕ → ℕ → List (Option ℕ) → ℤ → Proc → Proc
child_of parent cur pgdir files tickets p =
    make_runnable (child_tickets tickets (child_fields parent cur pgdir files p))

-- The selectors of mmu.h with their privilege level, and FL_IF.
abbrev pub user_cs : ℕ
user_cs = 3 * 8 + 3

abbrev pub user_ds : ℕ
user_ds = 4 * 8 + 3

abbrev pub fl_if : ℕ
fl_if = 0x200

abbrev pub pgsize : ℕ
pgsize = 4096

-- "initcode" with its NUL
abbrev pub initcode_name : List ℕ
initcode_name = b'i' ∷ b'n' ∷ b'i' ∷ b't' ∷ b'c' ∷ b'o' ∷ b'd' ∷ b'e' ∷ 0 ∷ []

-- What userinit puts into the entry of the first process.
abbrev pub first_process : ℕ → Option ℕ → Proc → Proc
first_process d cwd p = record p {
  pgdir = d;
  sz = pgsize;
  tf = record zero_tf {
    cs = user_cs;
    ds = user_ds;
    es = user_ds;
    ss = user_ds;
    eflags = fl_if;
    esp = pgsize;
    eip = 0;
  };
  ticks = pos 0;
  tickets = pos 10;
  name = safestrcpy p.name initcode_name 16;
  cwd = cwd;
  state = runnable;
}

module _ (sys : Services) where
  open sys use {World}

  -- allocproc after its release of ptable.lock.
  abbrev pub finish_alloc : ℕ → Kernel World → Option ℕ × Kernel World
  finish_alloc i k1 =
      let (page, w) = sys.kalloc k1.world in
      let k2 = record k1 { world = w } in
      elim page [
        | none ↦ (none, update i give_up k2)
        | some s ↦ (some i, update i (set_up s sys.trapret sys.forkret) k2)
      ]

  -- allocproc after the loop, from the label `found` on.
  unfoldable pub alloc_at : ℕ → Kernel World → Option ℕ × Kernel World
  alloc_at i k = finish_alloc i (claim_at i k)

  unfoldable pub allocproc : Kernel World → Option ℕ × Kernel World
  unfolding find_unused alloc_at
  allocproc k = elim (find_unused 0 k.procs) [ none ↦ (none, k) | some i ↦ alloc_at i k ]

  -- The loop of fork over the open files of the parent: `np->ofile[i] = filedup(ofile[i])`.
  unfoldable pub dup_files : List (Option ℕ) → List (Option ℕ) → World → List (Option ℕ) × World
  dup_files [] theirs w = (theirs, w)
  dup_files (f ∷ mine) [] w = ([], w)
  dup_files (none ∷ mine) (g ∷ theirs) w = let (fs, w') = dup_files mine theirs w in (g ∷ fs, w')
  dup_files (some f ∷ mine) (g ∷ theirs) w =
      let (fs, w') = dup_files mine theirs (sys.filedup f w) in (some f ∷ fs, w')

  -- fork from the copied page table to its call of gettickets, in the entry `np`.
  unfoldable pub fill_fields : ℕ → ℕ → ℕ → Kernel World → Kernel World
  unfolding dup_files safestrcpy
  fill_fields cur np pgdir k =
      let parent = the_proc k cur in
      let (files, w) = dup_files parent.ofile (the_proc k np).ofile k.world in
      update np (child_fields parent cur pgdir files) (record k { world = sys.idup parent.cwd w })

  -- fork from the copied page table on, in the entry `np`.
  unfoldable pub fill_child : ℕ → ℕ → ℕ → Kernel World → ℤ × Kernel World
  unfolding dup_files safestrcpy gettickets
  fill_child cur np pgdir k =
      let parent = the_proc k cur in
      let child = the_proc k np in
      let (files, w) = dup_files parent.ofile child.ofile k.world in
      let k1 = record k { world = sys.idup parent.cwd w } in
      let tickets = gettickets parent.pid k.procs in
      (pos child.pid, update np (child_of parent cur pgdir files tickets) k1)

  unfoldable pub fork_in : ℕ → ℕ → Kernel World → ℤ × Kernel World
  unfolding fill_child
  fork_in cur np k =
      let parent = the_proc k cur in
      let (copy, w) = sys.copyuvm parent.pgdir parent.sz k.world in
      elim copy [
        | none ↦
            (minus_one, update np give_up (record k { world = sys.kfree (the_proc k np).kstack w }))
        | some pgdir ↦ fill_child cur np pgdir (record k { world = w })
      ]

  unfoldable pub fork : ℕ → Kernel World → ℤ × Kernel World
  unfolding allocproc fork_in
  fork cur k =
      let (np, k1) = allocproc k in elim np [ none ↦ (minus_one, k1) | some i ↦ fork_in cur i k1 ]

  -- userinit; `none` is its panic. (The source does not test the result of allocproc.)
  unfoldable pub userinit : Kernel World → Option (Kernel World)
  userinit k =
      let (slot, k1) = allocproc k in
      let (pgdir, w) = sys.setupkvm k1.world in
      let k2 = record k1 { initproc = slot; world = w } in
      elim slot [
        | none ↦ none
        | some i ↦ elim pgdir [
          | none ↦ none
          | some d ↦
              let (cwd, w2) = sys.namei_root (sys.inituvm d w) in
              some (update i (first_process d cwd) (record k2 { world = w2 }))
        ]
      ]

  -- growproc. `n` is an int.
  unfoldable pub growproc : ℕ → ℤ → Kernel World → ℤ × Kernel World
  growproc cur n k =
      let p = the_proc k cur in
      let new_sz = new_size p.sz n in
      let (up, w_up) = sys.allocuvm p.pgdir p.sz new_sz k.world in
      let (down, w_down) = sys.deallocuvm p.pgdir p.sz new_sz k.world in
      if ltb_ℤ (pos 0) n
      then if up == 0
        then (minus_one, record k { world = w_up })
        else (pos 0, update cur (resize up) (record k { world = w_up }))
      else if ltb_ℤ n (pos 0)
      then if down == 0
        then (minus_one, record k { world = w_down })
        else (pos 0, update cur (resize down) (record k { world = w_down }))
      else (pos 0, k)
