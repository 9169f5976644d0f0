-- ===== src/File.antt =====
-- file.c and file.h: the table of open files with its reference counts. A pointer to an entry is its
-- index.
pub mod Counts
use lab7sp25_shelnutt.Base.{
  ℕ, zero, suc, ◌+◌, ◌-◌, Bool, true, false, Option, none, some, List, [], ◌∷◌, ◌==◌, ltb,
  if◌then◌else◌, get_or, set, replicate,
}

abbrev pub nfile : ℕ
nfile = 100

pub data FileType : Type 0 where
  fd_none fd_pipe fd_inode : FileType

pub record File : Type 0 where
  pub type : FileType
  pub ref : ℕ
  pub readable : Bool
  pub writable : Bool
  pub pipe : ℕ
  pub ip : ℕ
  pub off : ℕ

-- A file before its first use: static storage is zero.
unfoldable pub no_file : File
no_file = record {
  type = fd_none;
  ref = 0;
  readable = false;
  writable = false;
  pipe = 0;
  ip = 0;
  off = 0;
}

abbrev pub file_at : List File → ℕ → File
file_at t i = get_or t i no_file

abbrev pub with_ref : ℕ → File → File
with_ref n f = record f { ref = n }

-- What fileclose does to the entry when the last reference goes.
abbrev pub release_file : File → File
release_file f = record f { ref = 0; type = fd_none }

-- The loop of filealloc, from the entry `i` on.
unfoldable pub find_free : ℕ → List File → Option ℕ
find_free i [] = none
find_free i (f ∷ t) = let rest = find_free (suc i) t in if f.ref == 0 then some i else rest

unfoldable pub filealloc : List File → Option (ℕ × List File)
unfolding find_free
filealloc t = elim (find_free 0 t) [
  | none ↦ none
  | some i ↦ some (i, set t i (with_ref 1 (file_at t i)))
]

-- filedup; `none` is its panic.
unfoldable pub filedup : ℕ → List File → Option (List File)
filedup i t =
    if ltb (file_at t i).ref 1
    then none
    else some (set t i (with_ref ((file_at t i).ref + 1) (file_at t i)))

-- What fileclose does after it has released the lock of the table.
pub data Closing : Type 0 where
  still_open : Closing
  close_pipe : ℕ → Bool → Closing
  put_inode : ℕ → Closing
  nothing : Closing

abbrev pub closing : File → Closing
closing f = elim f.type [
  | fd_pipe ↦ close_pipe f.pipe f.writable
  | fd_inode ↦ put_inode f.ip
  | fd_none ↦ nothing
]

-- fileclose; `none` is its panic.
unfoldable pub fileclose : ℕ → List File → Option (Closing × List File)
fileclose i t =
    let f = file_at t i in
    if ltb f.ref 1
    then none
    else if ltb 0 (f.ref - 1)
    then some (still_open, set t i (with_ref (f.ref - 1) f))
    else some (closing f, set t i (release_file f))
