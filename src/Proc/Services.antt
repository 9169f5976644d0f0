-- ===== src/Proc/Services.antt =====
-- What proc.c calls of the other parts of the kernel (kalloc.c, vm.c, file.c, fs.c, log.c), as an
-- interface over a state `World` of theirs. A call that may wake processes also says on which
-- channels; the caller then wakes them in the process table.
use lab7sp25_shelnutt.Base.{ℕ, Option, List}
use lab7sp25_shelnutt.Proc.Table.{Chan}

pub record Services : Type 1 where
  pub World : Type 0
  pub kalloc : World → Option ℕ × World
  pub kfree : Option ℕ → World → World
  pub setupkvm : World → Option ℕ × World
  pub inituvm : ℕ → World → World
  pub copyuvm : ℕ → ℕ → World → Option ℕ × World
  pub freevm : ℕ → World → World
  pub allocuvm : ℕ → ℕ → ℕ → World → ℕ × World
  pub deallocuvm : ℕ → ℕ → ℕ → World → ℕ × World
  pub namei_root : World → Option ℕ × World
  pub filedup : ℕ → World → World
  pub idup : Option ℕ → World → World
  pub fileclose : ℕ → World → World × List Chan
  pub begin_op : World → World
  pub iput : Option ℕ → World → World × List Chan
  pub end_op : World → World × List Chan
  pub forkret : ℕ
  pub trapret : ℕ
