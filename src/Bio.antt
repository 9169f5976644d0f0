-- ===== src/Bio.antt =====
-- bio.c: the buffer cache. The linked list is the list of the buffers from the most recently used one
-- on; `slot` says which buffer of bcache.buf one is. The data and the sleep locks are left out: what
-- is here is what the functions do under bcache.lock.
pub mod Unique
use lab7sp25_shelnutt.Base.{
  ℕ, zero, suc, ◌+◌, ◌-◌, Bool, true, false, ◌&&◌, not, Option, none, some, List, [], ◌∷◌, ◌++◌,
  ◌==◌, if◌then◌else◌,
}

abbrev pub nbuf : ℕ
nbuf = 30

pub record Buf : Type 0 where
  pub slot : ℕ
  pub dev : ℕ
  pub blockno : ℕ
  pub refcnt : ℕ
  pub valid : Bool
  pub dirty : Bool

abbrev pub is_for : ℕ → ℕ → Buf → Bool
is_for d b x = (x.dev == d) && (x.blockno == b)

abbrev pub add_ref : Buf → Buf
add_ref x = record x { refcnt = x.refcnt + 1 }

abbrev pub drop_ref : Buf → Buf
drop_ref x = record x { refcnt = x.refcnt - 1 }

-- A buffer that bget may take for another block.
abbrev pub is_idle : Buf → Bool
is_idle x = (x.refcnt == 0) && not x.dirty

abbrev pub take_over : ℕ → ℕ → Buf → Buf
take_over d b x = record x { dev = d; blockno = b; valid = false; dirty = false; refcnt = 1 }

-- binit: each buffer is put in front, and has been zero before.
unfoldable pub binit : ℕ → List Buf
binit zero = []
binit (suc n) =
    record { slot = n; dev = 0; blockno = 0; refcnt = 0; valid = false; dirty = false } ∷ binit n

-- The first loop of bget.
unfoldable pub find_cached : ℕ → ℕ → List Buf → Option (ℕ × List Buf)
find_cached d b [] = none
find_cached d b (x ∷ xs) =
    let rest = find_cached d b xs in
    if is_for d b x
    then some (x.slot, add_ref x ∷ xs)
    else elim rest [ none ↦ none | some (i, ys) ↦ some (i, x ∷ ys) ]

-- The second loop of bget, from the least recently used buffer back.
unfoldable pub recycle : ℕ → ℕ → List Buf → Option (ℕ × List Buf)
recycle d b [] = none
recycle d b (x ∷ xs) = elim (recycle d b xs) [
  | some (i, ys) ↦ some (i, x ∷ ys)
  | none ↦ if is_idle x then some (x.slot, take_over d b x ∷ xs) else none
]

-- bget up to its acquiresleep; `none` is its panic.
unfoldable pub bget : ℕ → ℕ → List Buf → Option (ℕ × List Buf)
unfolding find_cached recycle
bget d b xs = elim (find_cached d b xs) [ some r ↦ some r | none ↦ recycle d b xs ]

-- The buffer `i`, and the list without it.
unfoldable pub unlink : ℕ → List Buf → Option (Buf × List Buf)
unlink i [] = none
unlink i (x ∷ xs) =
    let rest = unlink i xs in
    if x.slot == i
    then some (x, xs)
    else elim rest [ none ↦ none | some (y, ys) ↦ some (y, x ∷ ys) ]

-- The buffer `i` with one reference less, where it stands.
unfoldable pub unref : ℕ → List Buf → List Buf
unref i [] = []
unref i (x ∷ xs) = let rest = unref i xs in if x.slot == i then drop_ref x ∷ xs else x ∷ rest

-- brelse from its lock of the cache on.
unfoldable pub brelse : ℕ → List Buf → List Buf
unfolding unlink unref
brelse i xs = elim (unlink i xs) [
  | none ↦ xs
  | some (x, ys) ↦ if x.refcnt - 1 == 0 then drop_ref x ∷ ys else unref i xs
]

-- What the holder of a buffer and the disk driver do to its flags.
unfoldable pub set_flags : ℕ → Bool → Bool → List Buf → List Buf
set_flags i v d [] = []
set_flags i v d (x ∷ xs) =
    let rest = set_flags i v d xs in
    if x.slot == i then record x { valid = v; dirty = d } ∷ xs else x ∷ rest
