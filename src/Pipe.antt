-- ===== src/Pipe.antt =====
-- pipe.c: a pipe as a ring of 512 bytes. Each function runs under the lock of the pipe, up to its
-- return or to a call of sleep, where the other end may run; a writer that sleeps keeps the bytes
-- that it still has to write. Each also says which channels it wakes.
pub mod Window
pub mod Queue
pub mod Fifo
pub mod Silence
use lab7sp25_shelnutt.Base.{
  ℕ, zero, suc, ◌%◌, Bool, true, false, ◌&&◌, ◌||◌, not, List, [], ◌∷◌, ◌==◌, if◌then◌else◌, set,
  get_or, add32, replicate, Option, none, some, length,
}

abbrev pub pipesize : ℕ
pipesize = 512

pub record Pipe : Type 0 where
  pub bytes : List ℕ
  pub nread : ℕ
  pub nwrite : ℕ
  pub readopen : Bool
  pub writeopen : Bool

-- The channels &p->nread and &p->nwrite.
pub data PipeChan : Type 0 where
  at_nread at_nwrite : PipeChan

-- The assignments of pipealloc to a new page, whose bytes are what they were.
abbrev pub fresh : List ℕ → Pipe
fresh page = record { bytes = page; nread = 0; nwrite = 0; readopen = true; writeopen = true }

-- p->data[p->nwrite++ % PIPESIZE] = x
unfoldable pub put : Pipe → ℕ → Pipe
put p x = record p { bytes = set p.bytes (p.nwrite % pipesize) x; nwrite = add32 p.nwrite 1 }

-- p->nread++, for the read of p->data[p->nread % PIPESIZE].
unfoldable pub skip : Pipe → Pipe
skip p = record p { nread = add32 p.nread 1 }

abbrev pub is_full : Pipe → Bool
is_full p = p.nwrite == add32 p.nread pipesize

abbrev pub is_empty : Pipe → Bool
is_empty p = p.nread == p.nwrite

-- How a stretch of pipewrite ends: with all bytes written, with -1, or asleep with bytes left.
pub data WriteEnd : Type 0 where
  wrote : WriteEnd
  refused : WriteEnd
  blocked : List ℕ → WriteEnd

-- pipewrite from the loop over the bytes that are left. `killed` is myproc()->killed.
unfoldable pub write_on : Bool → Pipe → List ℕ → WriteEnd × Pipe × List PipeChan
unfolding put
write_on killed p [] = (wrote, p, at_nread ∷ [])
write_on killed p (x ∷ xs) = elim (is_full p) [
  | false ↦ write_on killed (put p x) xs
  | true ↦
      if not p.readopen || killed then (refused, p, []) else (blocked (x ∷ xs), p, at_nread ∷ [])
]

-- The copy loop of piperead, for at most `n` bytes.
unfoldable pub copy_out : Pipe → ℕ → List ℕ × Pipe
unfolding skip
copy_out p zero = ([], p)
copy_out p (suc n) = elim (is_empty p) [
  | true ↦ ([], p)
  | false ↦ let (xs, p') = copy_out (skip p) n in (get_or p.bytes (p.nread % pipesize) 0 ∷ xs, p')
]

-- How a stretch of piperead ends.
pub data ReadEnd : Type 0 where
  took : List ℕ → ReadEnd
  gave_up : ReadEnd
  hungry : ReadEnd

-- piperead from the test of its loop on. The result of the call is the number of bytes taken, or -1
-- for `gave_up`; `hungry` is asleep on &p->nread.
unfoldable pub read_on : Bool → Pipe → ℕ → ReadEnd × Pipe × List PipeChan
unfolding copy_out
read_on killed p n =
    if is_empty p && p.writeopen
    then if killed then (gave_up, p, []) else (hungry, p, [])
    else let (xs, p') = copy_out p n in (took xs, p', at_nwrite ∷ [])

-- pipeclose; the second part of the result says whether the page is freed.
unfoldable pub pipeclose : Pipe → Bool → Pipe × Bool × List PipeChan
pipeclose p writable =
    let p' = if writable then record p { writeopen = false } else record p { readopen = false } in
    (p', not p'.readopen && not p'.writeopen, (if writable then at_nread else at_nwrite) ∷ [])
