-- ===== src/Tests/Machine.antt =====
-- A small machine: the services of the other files with pages counted from 1, the kernel after its
-- boot, and the tables that follow when the first process forks, waits, and its child exits.
use lab7sp25_shelnutt.Base.{points_to, false, ℕ, suc, Option, none, some, [], ◌≡◌, refl}
use lab7sp25_shelnutt.Proc.Table.{Kernel, blank}
use lab7sp25_shelnutt.Proc.Services.{Services}
use lab7sp25_shelnutt.Proc.Alloc.{userinit, fork, allocproc}
use lab7sp25_shelnutt.Proc.Sleep.{sleep}
use lab7sp25_shelnutt.Proc.Life.{exit, wait_pass, bury, drop_files}
use lab7sp25_shelnutt.Proc.Steps.{boot}

-- The state is the number of pages given out.
abbrev pub machine : Services
machine = record {
  World = ℕ;
  kalloc = λ w. (some w, suc w);
  kfree = λ _ w. w;
  setupkvm = λ w. (some w, suc w);
  inituvm = λ _ w. w;
  copyuvm = λ _ _ w. (some w, suc w);
  freevm = λ _ w. w;
  allocuvm = λ _ _ n w. (n, w);
  deallocuvm = λ _ _ n w. (n, w);
  namei_root = λ w. (some 1, w);
  filedup = λ _ w. w;
  idup = λ _ w. w;
  fileclose = λ _ w. (w, []);
  begin_op = λ w. w;
  iput = λ _ w. (w, []);
  end_op = λ w. (w, []);
  forkret = 100;
  trapret = 200;
}

abbrev pub or_else : Option (Kernel ℕ) → Kernel ℕ → Kernel ℕ
or_else none k = k
or_else (some k') k = k'

abbrev pub booted_up : Kernel ℕ
booted_up = or_else (userinit machine (boot machine 1)) (boot machine 1)

abbrev pub forked : Kernel ℕ
forked = (fork machine 0 booted_up).1

abbrev pub waiting : Kernel ℕ
waiting = (wait_pass machine 0 forked).1

abbrev pub one_dead : Kernel ℕ
one_dead = bury 1 (drop_files machine 1 waiting)

pub boots : userinit machine (boot machine 1) ≡ some booted_up
unfolding userinit blank allocproc
boots = refl

not_init : points_to waiting.initproc 1 ≡ false
unfolding wait_pass fork userinit blank allocproc sleep
not_init = refl

pub exits : exit machine 1 waiting ≡ some one_dead
unfolding exit
exits = rw not_init
