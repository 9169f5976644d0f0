-- ===== src/Proc/Table.antt =====
-- The data of proc.h and of the head of proc.c: struct proc, the table and the counters.
-- A pointer to an entry of the table is its index; a null pointer is `none`. The trap frame and the
-- context lie on the kernel stack in the source and are fields of the entry here.
use lab7sp25_shelnutt.Base.{
  ℕ, Bool, true, false, Option, none, some, List, ◌==◌, not, ℤ, pos, get_or, set, replicate,
}

abbrev pub nproc : ℕ
nproc = 64

abbrev pub nofile : ℕ
nofile = 16

pub data ProcState : Type 0 where
  unused embryo sleeping runnable running zombie : ProcState

-- The numbers that C gives to the enumerators.
abbrev pub ordinal : ProcState → ℕ
ordinal unused = 0
ordinal embryo = 1
ordinal sleeping = 2
ordinal runnable = 3
ordinal running = 4
ordinal zombie = 5

abbrev pub is_state : ProcState → ProcState → Bool
is_state a b = ordinal a == ordinal b

-- What a process sleeps on: the address of a table entry, or of another kernel object.
pub data Chan : Type 0 where
  null : Chan
  entry : ℕ → Chan
  object : ℕ → Chan

abbrev pub same_chan : Chan → Chan → Bool
same_chan null null = true
same_chan (entry i) (entry j) = i == j
same_chan (object a) (object b) = a == b
same_chan _ _ = false

-- A pointer to a process, used as a channel.
abbrev pub chan_of : Option ℕ → Chan
chan_of none = null
chan_of (some i) = entry i

-- `rest` are the registers that proc.c only copies.
pub record Trapframe : Type 0 where
  pub eax : ℕ
  pub es : ℕ
  pub ds : ℕ
  pub eip : ℕ
  pub cs : ℕ
  pub eflags : ℕ
  pub esp : ℕ
  pub ss : ℕ
  pub rest : List ℕ

pub record Context : Type 0 where
  pub edi : ℕ
  pub esi : ℕ
  pub ebx : ℕ
  pub ebp : ℕ
  pub eip : ℕ

-- `ret` is the word that allocproc puts between the trap frame and the context.
pub record Proc : Type 0 where
  pub sz : ℕ
  pub pgdir : ℕ
  pub kstack : Option ℕ
  pub state : ProcState
  pub pid : ℕ
  pub parent : Option ℕ
  pub tf : Trapframe
  pub ret : ℕ
  pub context : Context
  pub chan : Chan
  pub killed : Bool
  pub ofile : List (Option ℕ)
  pub cwd : Option ℕ
  pub name : List ℕ
  pub tickets : ℤ
  pub ticks : ℤ

abbrev pub zero_tf : Trapframe
zero_tf = record {
  eax = 0;
  es = 0;
  ds = 0;
  eip = 0;
  cs = 0;
  eflags = 0;
  esp = 0;
  ss = 0;
  rest = replicate 11 0;
}

abbrev pub zero_context : Context
zero_context = record { edi = 0; esi = 0; ebx = 0; ebp = 0; eip = 0 }

-- An entry of the table before its first use: static storage is zero.
unfoldable pub blank : Proc
blank = record {
  sz = 0;
  pgdir = 0;
  kstack = none;
  state = unused;
  pid = 0;
  parent = none;
  tf = zero_tf;
  ret = 0;
  context = zero_context;
  chan = null;
  killed = false;
  ofile = replicate nofile none;
  cwd = none;
  name = replicate 16 0;
  tickets = pos 0;
  ticks = pos 0;
}

abbrev pub live : Proc → Bool
live p = not (is_state p.state unused)

abbrev pub proc_at : List Proc → ℕ → Proc
proc_at t i = get_or t i blank

-- The statics of proc.c, and the state `world` of the rest of the kernel.
pub record Kernel (W : Type 0) : Type 0 where
  pub procs : List Proc
  pub nextpid : ℕ
  pub initproc : Option ℕ
  pub world : W

abbrev pub the_proc : {W : Type 0} → Kernel W → ℕ → Proc
the_proc k i = proc_at k.procs i

-- An assignment to fields of the entry `i`.
abbrev pub update : {W : Type 0} → ℕ → (Proc → Proc) → Kernel W → Kernel W
update i f k = record k { procs = set k.procs i (f (proc_at k.procs i)) }
