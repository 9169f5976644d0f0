-- ===== src/Fs/Links.antt =====
-- dirlink and dirlookup: a directory as a map from names.
use lab7sp25_shelnutt.Base.{ℕ, ◌+◌, ◌*◌, ◌%◌, ◌<◌, ◌≡◌, ◌≢◌, none, some, List, length, ◌⊎◌, ◌≤◌}
use lab7sp25_shelnutt.Fs.{
  maxfile, bsize, sizeof_dirent, Dirent, dirlookup, free_slot, Linked, linked, present, panicked,
}
use lab7sp25_shelnutt.Fs.Names.{key}
use lab7sp25_shelnutt.Fs.Entries.{Distinct}

-- A directory after the entry of `name` came into it.
pub record Entered (free room : ℕ) (de : Dirent) (name : List ℕ) (inum : ℕ) (des des' : List Dirent)
    : Type 0 where
  pub was_missing : dirlookup name des ≡ none
  pub found : dirlookup name des' ≡ some (inum, (free_slot de des).0 * sizeof_dirent)
  pub others : (m : List ℕ) → key m ≢ key name → dirlookup m des' ≡ dirlookup m des
  pub distinct : Distinct des'
  pub not_too_large : (free_slot de des).0 * sizeof_dirent + sizeof_dirent ≤ maxfile * bsize
  pub had_block :
      (free_slot de des).0 ≡ length des → (length des * sizeof_dirent) % bsize ≡ 0 → 0 < free
  pub had_log : 0 < room

-- Why dirlink may panic: the directory is as large as a file can be; no entry is unused, the last block
-- of the directory is full and the disk has no free block, or one where the indirect block is needed
-- too; or the log takes few calls.
pub data Crowded (free room : ℕ) (de : Dirent) (des : List Dirent) : Type 0 where
  too_large :
      maxfile * bsize < length des * sizeof_dirent + sizeof_dirent → Crowded free room de des
  disk_full :
      (free_slot de des).0 ≡ length des
      → (length des * sizeof_dirent) % bsize ≡ 0
      → (free ≡ 0) ⊎ ((free ≡ 1) × (length des * sizeof_dirent ≡ 12 * bsize))
      → Crowded free room de des
  log_full : room < 7 → Crowded free room de des

abbrev pub LinkEnds : ℕ → ℕ → Dirent → List ℕ → ℕ → List Dirent → Linked → Type 0
LinkEnds free room de name inum des (linked des') = Entered free room de name inum des des'
LinkEnds free room de name inum des present = dirlookup name des ≢ none
LinkEnds free room de name inum des panicked =
    (dirlookup name des ≡ none) × Crowded free room de des
