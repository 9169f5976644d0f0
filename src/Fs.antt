-- ===== src/Fs.antt =====
-- fs.c: directories and path names. The content of a directory is the list of its entries, as readi
-- returns them one after the other; a path is the list of its bytes before the NUL.
pub mod Names
pub mod Entries
pub mod Links
pub mod Paths
pub mod Inodes
pub mod Refs
pub mod Numbers
pub mod Bitmap
pub mod Content
use lab7sp25_shelnutt.Base.{
  ℕ, zero, suc, ◌+◌, ◌*◌, ◌%◌, ◌^◌, Bool, true, false, ◌&&◌, ◌||◌, not, Option, none, some, List,
  [], ◌∷◌, ◌++◌, ◌==◌, ltb, leb, if◌then◌else◌, ℤ, pos, negsuc, length, take, drop, set,
}
use lab7sp25_shelnutt.Strings.{strncmp, strncpy}

abbrev pub dirsiz : ℕ
dirsiz = 14

abbrev pub maxfile : ℕ
maxfile = 12 + 128

abbrev pub bsize : ℕ
bsize = 512

-- `name` has DIRSIZ bytes.
pub record Dirent : Type 0 where
  pub inum : ℕ
  pub name : List ℕ

abbrev pub sizeof_dirent : ℕ
sizeof_dirent = 16

abbrev pub is_zero : ℤ → Bool
is_zero (pos n) = n == 0
is_zero (negsuc n) = false

unfoldable pub namecmp : List ℕ → List ℕ → ℤ
unfolding strncmp
namecmp s t = strncmp s t dirsiz

abbrev pub is_named : List ℕ → Dirent → Bool
is_named name de = not (de.inum == 0) && is_zero (namecmp name de.name)

-- The loop of dirlookup from the entry at `off` on: the number of the inode and the offset.
unfoldable pub lookup_from : List ℕ → ℕ → List Dirent → Option (ℕ × ℕ)
lookup_from name off [] = none
lookup_from name off (de ∷ des) =
    let rest = lookup_from name (off + sizeof_dirent) des in
    if is_named name de then some (de.inum, off) else rest

-- dirlookup in a directory, up to its iget.
unfoldable pub dirlookup : List ℕ → List Dirent → Option (ℕ × ℕ)
unfolding lookup_from
dirlookup name des = lookup_from name 0 des

-- The loop of dirlink: the number of the entry where it stops, and `de` then.
unfoldable pub free_slot : Dirent → List Dirent → ℕ × Dirent
free_slot de [] = (0, de)
free_slot de (d ∷ des) =
    let (i, last) = free_slot d des in if d.inum == 0 then (0, d) else (suc i, last)

-- writei of an entry in the directory or right behind it.
unfoldable pub write_entry : ℕ → Dirent → List Dirent → List Dirent
write_entry zero de [] = de ∷ []
write_entry zero de (d ∷ des) = de ∷ des
write_entry (suc i) de [] = []
write_entry (suc i) de (d ∷ des) = d ∷ write_entry i de des

pub data Linked : Type 0 where
  linked : List Dirent → Linked
  present : Linked
  panicked : Linked

-- de.name and de.inum, a ushort.
unfoldable pub named : Dirent → List ℕ → ℕ → Dirent
unfolding strncpy
named de name inum = record { inum = inum % 2 ^ 16; name = strncpy de.name name dirsiz }

-- What writei of the entry i of a directory with n entries takes: the blocks that bmap gets from balloc
-- where the entry is the first one of a block, with the indirect block before the first of its blocks;
-- and its calls of log_write, where balloc makes two, bmap one for a cell of the indirect block, writei
-- one for the entry, and iupdate one where the size grows.
abbrev pub fresh_blocks : ℕ → ℕ → ℕ
fresh_blocks n i =
    if ltb i n || not (i * sizeof_dirent % bsize == 0)
    then 0
    else if i * sizeof_dirent == 12 * bsize
    then 2
    else 1

abbrev pub cells_set : ℕ → ℕ → ℕ
cells_set n i = if ltb (i * sizeof_dirent) (12 * bsize) || (fresh_blocks n i == 0) then 0 else 1

abbrev pub log_calls : ℕ → ℕ → ℕ
log_calls n i = 2 * fresh_blocks n i + cells_set n i + (if ltb i n then 1 else 2)

-- dirlink, with the variable `de` as it is before the loop, on a disk with `free` blocks free, when the
-- log takes `room` calls of log_write more before it panics. writei refuses what does not fit into
-- MAXFILE blocks, which is a panic here; behind it, balloc and log_write may panic.
unfoldable pub dirlink : ℕ → ℕ → Dirent → List ℕ → ℕ → List Dirent → Linked
unfolding dirlookup free_slot write_entry named
dirlink free room de name inum des =
    let (i, last) = free_slot de des in
    elim (dirlookup name des) [
      | some found ↦ present
      | none ↦
          if ltb (maxfile * bsize) (i * sizeof_dirent + sizeof_dirent)
          then panicked
          else if ltb free (fresh_blocks (length des) i)
          then panicked
          else if ltb room (log_calls (length des) i)
          then panicked
          else linked (write_entry i (named last name inum) des)
    ]

-- while(*path == '/') path++;
unfoldable pub skip_slashes : List ℕ → List ℕ
skip_slashes [] = []
skip_slashes (c ∷ path) = let rest = skip_slashes path in if c == b'/' then rest else c ∷ path

-- The second loop of skipelem: the element and the rest.
unfoldable pub take_elem : List ℕ → List ℕ × List ℕ
take_elem [] = ([], [])
take_elem (c ∷ path) =
    let rest = take_elem path in if c == b'/' then ([], c ∷ path) else (c ∷ rest.0, rest.1)

-- The copy of the element `s` into `name`.
unfoldable pub store_name : List ℕ → List ℕ → List ℕ
store_name name s =
    if leb dirsiz (length s)
    then take dirsiz s ++ drop dirsiz name
    else set (s ++ drop (length s) name) (length s) 0

-- skipelem: the path that it returns, and the name.
unfoldable pub skipelem : List ℕ → List ℕ → Option (List ℕ × List ℕ)
unfolding skip_slashes take_elem store_name
skipelem path name = elim (skip_slashes path) [
  | [] ↦ none
  | c ∷ s ↦ let (elem, rest) = take_elem (c ∷ s) in some (skip_slashes rest, store_name name elem)
]
