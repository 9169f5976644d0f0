-- ===== src/Proc/Life/Exits.antt =====
-- exit as a whole: closing the files, then the part under ptable.lock.
use lab7sp25_shelnutt.Base.{
  ℕ, zero, suc, ◌≡◌, ◌≢◌, ◌<◌, refl, true, false, List, [], ◌∷◌, none, some, arith, length,
  length-set, Bool-cases, inl, inr, Option-cases, if◌then◌else◌, points_to, ◌∙◌, ◌⊎◌, get_or,
}
use lab7sp25_shelnutt.Proc.Table.{
  Kernel, the_proc, update, is_state, zombie, sleeping, Chan, chan_of, entry, nproc, nofile,
}
use lab7sp25_shelnutt.Proc.Services.{Services}
use lab7sp25_shelnutt.Proc.Sleep.{wakeup1, wakeups}
use lab7sp25_shelnutt.Proc.Inv.{the_proc-update}
use lab7sp25_shelnutt.Proc.Life.{
  close_fd, leave_dir, make_zombie, adopt_from, calling, close_from, drop_files, bury, exit,
}
use lab7sp25_shelnutt.Proc.Life.Orphans.{
  Calm, Calm-refl, Calm-trans, wakeup1-Calm, wakeup1-parent, length-wakeup1, wakeup1-told, child_in,
  Rounds, adopt_from-Rounds,
}

-- A step that may wake processes and does no more to the table.
pub record Quiet {W : Type 0} (k k' : Kernel W) : Type 0 where
  pub size : length k'.procs ≡ length k.procs
  pub init : k'.initproc ≡ k.initproc
  pub next : k'.nextpid ≡ k.nextpid
  pub parent : (j : ℕ) → (the_proc k' j).parent ≡ (the_proc k j).parent
  pub calm : (j : ℕ) → Calm (the_proc k j) (the_proc k' j)

Quiet-world : {W : Type 0} (k : Kernel W) (w : W) → Quiet k (record k { world = w })
Quiet-world k w = record {
  size = refl;
  init = refl;
  next = refl;
  parent = λ j. refl;
  calm = λ j. Calm-refl (the_proc k j);
}

Quiet-trans : {W : Type 0} {k l m : Kernel W} → Quiet k l → Quiet l m → Quiet k m
Quiet-trans a b = record {
  size = b.size ∙ a.size;
  init = b.init ∙ a.init;
  next = b.next ∙ a.next;
  parent = λ j. b.parent j ∙ a.parent j;
  calm = λ j. Calm-trans (a.calm j) (b.calm j);
}

wakeup1-Quiet : {W : Type 0} (c : Chan) (k : Kernel W) → Quiet k (wakeup1 c k)
unfolding wakeup1
wakeup1-Quiet c k = record {
  size = length-wakeup1 c k;
  init = refl;
  next = refl;
  parent = wakeup1-parent c k;
  calm = wakeup1-Calm c k;
}

wakeups-Quiet : {W : Type 0} (cs : List Chan) (k : Kernel W) → Quiet k (wakeups cs k)
unfolding wakeups
wakeups-Quiet [] k = Quiet-world k k.world
wakeups-Quiet (c ∷ cs) k = Quiet-trans (wakeup1-Quiet c k) (wakeups-Quiet cs (wakeup1 c k))

close_fd-Quiet : {W : Type 0} (i fd : ℕ) (k : Kernel W) → Quiet k (update i (close_fd fd) k)
close_fd-Quiet i fd k = record {
  size = length-set k.procs i (close_fd fd (the_proc k i));
  init = refl;
  next = refl;
  parent = λ j. ground (arith, the_proc-update i j (close_fd fd) k);
  calm = λ j. ground (arith, the_proc-update i j (close_fd fd) k);
}

leave_dir-Quiet : {W : Type 0} (i : ℕ) (k : Kernel W) → Quiet k (update i leave_dir k)
leave_dir-Quiet i k = record {
  size = length-set k.procs i (leave_dir (the_proc k i));
  init = refl;
  next = refl;
  parent = λ j. ground (arith, the_proc-update i j leave_dir k);
  calm = λ j. ground (arith, the_proc-update i j leave_dir k);
}

module _ (sys : Services) where
  open sys use {World}

  calling-Quiet : (f : World → World × List Chan) (k : Kernel World) → Quiet k (calling sys f k)
  calling-Quiet f k = Quiet-trans (Quiet-world k (f k.world).0) (wakeups-Quiet (f k.world).1 _)

  close_from-Quiet : (cur fd n : ℕ) (k : Kernel World) → Quiet k (close_from sys cur fd n k)
  unfolding close_from
  close_from-Quiet cur fd zero k = Quiet-world k k.world
  close_from-Quiet cur fd (suc n) k = elim (Option-cases (get_or (the_proc k cur).ofile fd none)) [
    | inl e ↦ rw (e, close_from) (close_from-Quiet cur (suc fd) n k)
    | inr (f, e) ↦
        rw (e, close_from)
          (Quiet-trans (calling-Quiet (sys.fileclose f) k)
            (Quiet-trans (close_fd-Quiet cur fd _) (close_from-Quiet cur (suc fd) n _)))
  ]

  drop_files-Quiet : (cur : ℕ) (k : Kernel World) → Quiet k (drop_files sys cur k)
  unfolding drop_files
  drop_files-Quiet cur k =
      let k1 = close_from sys cur 0 nofile k in
      let k2 = record k1 { world = sys.begin_op k1.world } in
      let f = sys.iput (the_proc k2 cur).cwd in
      let k3 = calling sys f k2 in
      Quiet-trans (close_from-Quiet cur 0 nofile k) (
        Quiet-trans (Quiet-world k1 (sys.begin_op k1.world)) (
          Quiet-trans (calling-Quiet f k2) (
            Quiet-trans (calling-Quiet sys.end_op k3)
              (leave_dir-Quiet cur (calling sys sys.end_op k3)))))

-- What an exit of `cur` does to the table.
pub record Exited {W : Type 0} (cur : ℕ) (k k' : Kernel W) : Type 0 where
  pub size : length k'.procs ≡ length k.procs
  pub next : k'.nextpid ≡ k.nextpid
  pub buried : is_state (the_proc k' cur).state zombie ≡ true
  pub same_pid : (the_proc k' cur).pid ≡ (the_proc k cur).pid
  pub orphans :
      (j : ℕ)
      → (the_proc k' j).parent
        ≡ (if points_to (the_proc k j).parent cur then k.initproc else (the_proc k j).parent)
  pub others : (j : ℕ) → cur ≢ j → Calm (the_proc k j) (the_proc k' j)
  pub parent_told :
      (q : ℕ)
      → (the_proc k cur).parent ≡ some q
      → cur ≢ q
      → (the_proc k q).chan ≡ entry q
      → is_state (the_proc k' q).state sleeping ≡ false
  pub init_told :
      (j q : ℕ)
      → points_to (the_proc k j).parent cur ≡ true
      → is_state (the_proc k j).state zombie ≡ true
      → k.initproc ≡ some q
      → (the_proc k q).chan ≡ entry q
      → is_state (the_proc k' q).state sleeping ≡ false

Quiet-Exited :
    {W : Type 0} {cur : ℕ} {k l m : Kernel W} → Quiet k l → Exited cur l m → Exited cur k m
Quiet-Exited {cur = cur} a e = record {
  size = e.size ∙ a.size;
  next = e.next ∙ a.next;
  buried = e.buried;
  same_pid = e.same_pid ∙ (a.calm cur).pid;
  orphans = λ j. ground (arith, e.orphans j, a.parent j, a.init);
  others = λ j ne. Calm-trans (a.calm j) (e.others j ne);
  parent_told = λ q p ne c. e.parent_told q (a.parent cur ∙ p) ne ((a.calm q).chan ∙ c);
  init_told = λ j q p z i c.
      e.init_told j q (ground (arith, a.parent j)) ((a.calm j).zombie_still ∙ z) (a.init ∙ i)
        ((a.calm q).chan ∙ c);
}

-- After the wakeup of the parent: the children are given away, and the caller is a ZOMBIE.
Rounds-Exited :
    {W : Type 0} (cur : ℕ) (k k2 : Kernel W)
    → length k.procs ≡ nproc
    → cur < nproc
    → ((q : ℕ)
        → (the_proc k cur).parent ≡ some q
        → (the_proc k q).chan ≡ entry q
        → is_state (the_proc k q).state sleeping ≡ false)
    → Rounds cur 0 64 k k2
    → Exited cur k (update cur make_zombie k2)
Rounds-Exited cur k k2 size inside told r = record {
  size = length-set k2.procs cur (make_zombie (the_proc k2 cur)) ∙ r.size;
  next = r.next;
  buried = ground (arith, the_proc-update cur cur make_zombie k2, r.size);
  same_pid = ground (arith, the_proc-update cur cur make_zombie k2, (r.calm cur).pid);
  orphans = λ j. ground (arith, the_proc-update cur j make_zombie k2, r.parent j, child_in cur j k);
  others = λ j ne. ground (arith, the_proc-update cur j make_zombie k2, r.calm j);
  parent_told = λ q p ne c.
      ground (arith, the_proc-update cur q make_zombie k2, told q p c, (r.calm q).woken);
  init_told = λ j q p z i c. ground (
    arith,
    the_proc-update cur q make_zombie k2,
    r.told j (omega arith) (omega (arith, child_in cur j k p)) q p z i c,
  );
}

pub bury-Exited :
    {W : Type 0} (cur : ℕ) (k : Kernel W)
    → length k.procs ≡ nproc
    → cur < nproc
    → Exited cur k (bury cur k)
unfolding bury
bury-Exited cur k size inside =
    let c = chan_of (the_proc k cur).parent in
    let k2 = wakeup1 c k in
    let b = wakeup1-Quiet c k in
    let told : (q : ℕ)
        → (the_proc k2 cur).parent ≡ some q
        → (the_proc k2 q).chan ≡ entry q
        → is_state (the_proc k2 q).state sleeping ≡ false =
      λ q p e. wakeup1-told q c k (ground (arith, (b.calm q).chan, b.parent cur)) in
    Quiet-Exited b (
      Rounds-Exited cur k2 (adopt_from cur 0 64 k2) (b.size ∙ size) inside told
        (adopt_from-Rounds cur 0 64 k2))

module _ (sys : Services) where
  open sys use {World}

  -- exit of the process `cur`. The init process panics. Any other becomes a ZOMBIE; each child of
  -- it gets the init process as its parent, and no other entry a new parent; its parent does not
  -- sleep in wait any more, nor the init process, if it was given a ZOMBIE; and every other entry
  -- keeps its pid, its channel and whether it is in use or a ZOMBIE, and at most goes from SLEEPING
  -- to RUNNABLE.
  pub exit_lem :
      (cur : ℕ) (k : Kernel World)
      → length k.procs ≡ nproc
      → cur < nproc
      → ((points_to k.initproc cur ≡ true) × (exit sys cur k ≡ none))
        ⊎ ((k' : Kernel World) × (exit sys cur k ≡ some k') × Exited cur k k')
  exit_lem cur k size inside = elim (Bool-cases (points_to k.initproc cur)) [
    | inl h ↦ inl (h, unfold exit in rw h)
    | inr h ↦
        let a = drop_files-Quiet sys cur k in
        let k1 = drop_files sys cur k in
        inr (
          bury cur k1,
          unfold exit in rw h,
          Quiet-Exited a (bury-Exited cur k1 (a.size ∙ size) inside),
        )
  ]
