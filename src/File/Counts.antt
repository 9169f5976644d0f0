-- ===== src/File/Counts.antt =====
-- The reference counts of the file table against the pointers that are held.
use lab7sp25_shelnutt.Base.{
  ℕ, ◌+◌, ◌<◌, ◌≡◌, some, List, [], ◌∷◌, ◌==◌, if◌then◌else◌, set, replicate, length,
}
use lab7sp25_shelnutt.File.{
  File, fd_none, fd_pipe, fd_inode, close_pipe, put_inode, nothing, nfile, no_file, file_at,
  filealloc, filedup, fileclose, Closing, still_open,
}

-- How many of the pointers are `i`.
abbrev pub holders : List ℕ → ℕ → ℕ
holders [] i = 0
holders (h ∷ hs) i = (if h == i then 1 else 0) + holders hs i

-- The pointers without the first that is `i`.
abbrev pub drop_one : List ℕ → ℕ → List ℕ
drop_one [] i = []
drop_one (h ∷ hs) i = let rest = drop_one hs i in if h == i then hs else h ∷ rest

-- The table with the pointers to its entries that the rest of the kernel holds.
pub data Step (t : List File) (hs : List ℕ) : List File → List ℕ → Type 0 where
  allocs : {i : ℕ} {t' : List File} → filealloc t ≡ some (i, t') → Step t hs t' (i ∷ hs)
  dups : (i : ℕ) {t' : List File} → 0 < holders hs i → filedup i t ≡ some t' → Step t hs t' (i ∷ hs)
  closes :
      (i : ℕ) {c : Closing} {t' : List File}
      → 0 < holders hs i
      → fileclose i t ≡ some (c, t')
      → Step t hs t' (drop_one hs i)
  fills : (i : ℕ) (f : File) → f.ref ≡ (file_at t i).ref → Step t hs (set t i f) hs

pub data Reach : List File → List ℕ → Type 0 where
  started : Reach (replicate nfile no_file) []
  later : {t t' : List File} {hs hs' : List ℕ} → Reach t hs → Step t hs t' hs' → Reach t' hs'

-- The count of each entry is the number of pointers to it.
pub record Counted (t : List File) (hs : List ℕ) : Type 0 where
  pub sized : length t ≡ nfile
  pub counts : (i : ℕ) → (file_at t i).ref ≡ holders hs i

-- What the last close of a file does next: the end of the pipe that the file was for is closed, or
-- its inode is put.
pub record Closes (f : File) (c : Closing) : Type 0 where
  pub of_pipe : f.type ≡ fd_pipe → c ≡ close_pipe f.pipe f.writable
  pub of_inode : f.type ≡ fd_inode → c ≡ put_inode f.ip
  pub of_none : f.type ≡ fd_none → c ≡ nothing

-- What fileclose does to the entry, by how many pointers to it there were.
pub record Closed (t : List File) (hs : List ℕ) (i : ℕ) (c : Closing) (t' : List File)
    : Type 0 where
  pub kept : 1 < holders hs i → c ≡ still_open
  pub last : holders hs i ≡ 1 → Closes (file_at t i) c × ((file_at t' i).type ≡ fd_none)
  pub counted : Counted t' (drop_one hs i)
