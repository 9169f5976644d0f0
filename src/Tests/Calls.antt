-- ===== src/Tests/Calls.antt =====
-- The log's space, the file table, the fetch of arguments and the matcher of grep.
use lab7sp25_shelnutt.Base.{
  ℕ, ◌==◌, if◌then◌else◌, ◌+◌, ◌-◌, ◌<◌, ◌≤◌, ◌≡◌, refl, arith, Bool, true, false, none, some, List,
  [], ◌∷◌, length, replicate, set, pos, ◌↔◌, ◌⊎◌,
}
use lab7sp25_shelnutt.Log.{Log, begin_op, end_op, log_write, logsize, maxopblocks}
use lab7sp25_shelnutt.Log.Space.{HeaderCounts, idle, later, begins, log_write_lem}
use lab7sp25_shelnutt.File.{File, nfile, no_file, with_ref}
use lab7sp25_shelnutt.File.Counts
use lab7sp25_shelnutt.Syscall.{UserSpace, fetchstr, argptr, word_at}
use lab7sp25_shelnutt.Syscall.Bounds.{NoNul, arg_addr, fetchstr_lem, argptr_lem}
use lab7sp25_shelnutt.Grep.{match}
use lab7sp25_shelnutt.Grep.Language.{Finds, match_lem}

abbrev empty_log : Log
empty_log = record {
  start = 2;
  size = 30;
  outstanding = 0;
  committing = false;
  logged = [];
  cache = λ _. [];
  disk = λ _. [];
  power = 100;
}

abbrev one_op : Log
one_op = record empty_log { outstanding = 1 }

begins_one : begin_op empty_log ≡ some one_op
unfolding begin_op
begins_one = refl

log_write_lem_example :
    (((s' : Log) × (log_write 40 (7 ∷ []) one_op ≡ some s')
        × (length one_op.logged + 1 < one_op.size)
        × (length s'.logged ≤ logsize))
      ⊎ ((log_write 40 (7 ∷ []) one_op ≡ none) × HeaderCounts one_op (maxopblocks ∷ [])))
    × ((s' : Log) × (last : Bool) × (end_op one_op ≡ some (s', last)))
log_write_lem_example =
    log_write_lem 0 0 40 (7 ∷ [])
      (later (idle empty_log (omega arith) refl refl (omega arith)) (begins begins_one))
      (omega arith) (omega arith)

abbrev no_files : List File
no_files = replicate nfile no_file

abbrev one_file : List File
one_file = set no_files 0 (with_ref 1 no_file)

abbrev two_refs : List File
two_refs = set one_file 0 (with_ref 2 no_file)

-- "hi" at the address 8, which is also the first argument.
abbrev small_bytes : ℕ → ℕ
small_bytes a = if a == 8 then 104 else if a == 9 then 105 else if a == 20 then 8 else 0

abbrev small : UserSpace
small = record { sz = 4096; esp = 16; bytes = small_bytes }

small_bytes-bound : (a : ℕ) → small_bytes a < 256
small_bytes-bound a = ground arith

fetchstr_lem_example :
    ((fetchstr 8 small ≡ none) × NoNul small_bytes 8 (4096 - 8))
    ⊎ ((n : ℕ) × (fetchstr 8 small ≡ some (8, n))
        × (8 + n < 4096)
        × (small_bytes (8 + n) ≡ 0)
        × NoNul small_bytes 8 n)
fetchstr_lem_example = fetchstr_lem 8 small

argptr_lem_example :
    let a = arg_addr 0 small in
    let p = word_at small_bytes a in
    ((argptr 0 (pos 100) small ≡ some p) × (a + 4 ≤ 4096) × (p < 4096) × (p + 100 ≤ 4096))
    ⊎ ((argptr 0 (pos 100) small ≡ none) × ((4096 < a + 4) ⊎ (4096 ≤ p) ⊎ (4096 < p + 100)))
argptr_lem_example = argptr_lem 0 100 small (omega arith) (omega arith) small_bytes-bound

-- b*c in abbcd.
match_lem_example :
    (match (b'b' ∷ b'*' ∷ b'c' ∷ []) (b'a' ∷ b'b' ∷ b'b' ∷ b'c' ∷ b'd' ∷ []) ≡ true)
    ↔ Finds (b'b' ∷ b'*' ∷ b'c' ∷ []) (b'a' ∷ b'b' ∷ b'b' ∷ b'c' ∷ b'd' ∷ [])
match_lem_example = match_lem (b'b' ∷ b'*' ∷ b'c' ∷ []) (b'a' ∷ b'b' ∷ b'b' ∷ b'c' ∷ b'd' ∷ [])
