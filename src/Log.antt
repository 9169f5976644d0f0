-- ===== src/Log.antt =====
-- log.c: the redo log of the file system. A block is the list of its 32-bit words. `cache` is what
-- bread returns, `disk` what the disk holds, and `power` is how many more writes reach the disk
-- before it stops: bwrite is synchronous, so a crash is a stop between two of them. The numbers of
-- the logged blocks are the first `lh.n` entries of `lh.block`.
pub mod Header
pub mod Install
pub mod Copy
pub mod Crash
pub mod Atomic
pub mod Recovery
pub mod Durable
pub mod Quota
pub mod Lengths
pub mod Space
use lab7sp25_shelnutt.Base.{
  ℕ, zero, suc, ◌+◌, ◌-◌, ◌*◌, ◌<◌, Bool, true, false, ◌||◌, not, List, [], ◌∷◌, ◌==◌, ltb, leb,
  if◌then◌else◌, take, length, Option, none, some,
}

abbrev pub logsize : ℕ
logsize = 30

abbrev pub maxopblocks : ℕ
maxopblocks = 10

abbrev pub Block : Type 0
Block = List ℕ

pub record Log : Type 0 where
  pub start : ℕ
  pub size : ℕ
  pub outstanding : ℕ
  pub committing : Bool
  pub logged : List ℕ
  pub cache : ℕ → Block
  pub disk : ℕ → Block
  pub power : ℕ

abbrev pub store : (ℕ → Block) → ℕ → Block → ℕ → Block
store m b v x = if b == x then v else m x

-- bwrite of a buffer for the block `b` whose bytes are now `v`.
unfoldable pub bwrite : ℕ → Block → Log → Log
bwrite b v s = record s {
  cache = store s.cache b v;
  disk = if s.power == 0 then s.disk else store s.disk b v;
  power = s.power - 1;
}

-- The loops over the logged blocks from the one with number `tail` on.
unfoldable pub write_log_from : ℕ → List ℕ → Log → Log
unfolding bwrite
write_log_from tail [] s = s
write_log_from tail (b ∷ bs) s =
    write_log_from (suc tail) bs (bwrite (s.start + tail + 1) (s.cache b) s)

unfoldable pub install_from : ℕ → List ℕ → Log → Log
unfolding bwrite
install_from tail [] s = s
install_from tail (b ∷ bs) s =
    install_from (suc tail) bs (bwrite b (s.cache (s.start + tail + 1)) s)

unfoldable pub write_log : Log → Log
unfolding write_log_from
write_log s = write_log_from 0 s.logged s

unfoldable pub install_trans : Log → Log
unfolding install_from
install_trans s = install_from 0 s.logged s

-- hb->block[i] = log.lh.block[i] for each i, from the first word on.
abbrev pub overwrite : List ℕ → List ℕ → List ℕ
overwrite [] bs = []
overwrite (w ∷ ws) [] = w ∷ ws
overwrite (w ∷ ws) (b ∷ bs) = b ∷ overwrite ws bs

abbrev pub header : Block → List ℕ → Block
header [] bs = []
header (w ∷ ws) bs = length bs ∷ overwrite ws bs

-- The first words of a header block: its count, and that many block numbers.
abbrev pub header_blocks : Block → List ℕ
header_blocks [] = []
header_blocks (w ∷ ws) = take w ws

unfoldable pub write_head : Log → Log
unfolding bwrite
write_head s = bwrite s.start (header (s.cache s.start) s.logged) s

unfoldable pub read_head : Log → Log
read_head s = record s { logged = header_blocks (s.cache s.start) }

abbrev pub clear : Log → Log
clear s = record s { logged = [] }

unfoldable pub recover_from_log : Log → Log
unfolding read_head install_trans write_head
recover_from_log s = write_head (clear (install_trans (read_head s)))

unfoldable pub commit : Log → Log
unfolding write_log write_head install_trans
commit s =
    if ltb 0 (length s.logged)
    then write_head (clear (install_trans (write_head (write_log s))))
    else s

-- The start of the machine after a stop: the cache is empty, so bread returns what the disk holds.
-- `power` says how many writes the next run gets.
unfoldable pub reboot : ℕ → Log → Log
reboot power s = record s {
  outstanding = 0;
  committing = false;
  logged = [];
  cache = s.disk;
  power = power;
}

-- Starts of the machine, each of which runs recovery with the power given for it.
unfoldable pub restarts : List ℕ → Log → Log
unfolding recover_from_log reboot
restarts [] s = s
restarts (power ∷ powers) s = restarts powers (recover_from_log (reboot power s))

-- One pass of the loop of begin_op: `some` returns, `none` sleeps on the log.
unfoldable pub begin_op : Log → Option Log
begin_op s =
    if s.committing
    then none
    else if ltb logsize (length s.logged + (s.outstanding + 1) * maxopblocks)
    then none
    else some (record s { outstanding = s.outstanding + 1 })

-- end_op up to its release of the lock, with do_commit; `none` is its panic. The wakeup of the log's
-- channel follows in both cases, at once or after the commit. The call belongs to an operation, so
-- `outstanding` is not 0 (the int would become -1, where the number here stays 0).
unfoldable pub end_op : Log → Option (Log × Bool)
end_op s =
    if s.committing
    then none
    else if s.outstanding == 1
    then some (record s { outstanding = 0; committing = true }, true)
    else some (record s { outstanding = s.outstanding - 1 }, false)

-- end_op from there on, for the process that commits.
unfoldable pub end_commit : Log → Log
unfolding commit
end_commit s = record (commit s) { committing = false }

-- The loop of log_write and what follows it: the block is found, or added at the end.
unfoldable pub absorb : List ℕ → ℕ → List ℕ
absorb [] b = b ∷ []
absorb (x ∷ xs) b = let rest = absorb xs b in if x == b then x ∷ xs else x ∷ rest

-- log_write of a buffer for `b` whose bytes are `v`; `none` is a panic.
unfoldable pub log_write : ℕ → Block → Log → Option Log
unfolding absorb
log_write b v s =
    if leb logsize (length s.logged) || leb (s.size - 1) (length s.logged)
    then none
    else if ltb s.outstanding 1
    then none
    else some (record s { logged = absorb s.logged b; cache = store s.cache b v })
