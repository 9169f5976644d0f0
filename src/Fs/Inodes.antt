-- ===== src/Fs/Inodes.antt =====
-- fs.c: the inode cache and the walk of namex along a path. An inode is locked from ilock to iunlock;
-- the sleep locks are left out. `entries` stands for the directory content behind size and addrs.
use lab7sp25_shelnutt.Base.{
  ℕ, zero, suc, ◌+◌, ◌-◌, Bool, true, false, ◌&&◌, not, Option, none, some, List, [], ◌∷◌, ◌==◌,
  ltb, if◌then◌else◌, length,
}
use lab7sp25_shelnutt.Strings.{head0}
use lab7sp25_shelnutt.Fs.{Dirent, dirlookup, skipelem}

abbrev pub rootdev : ℕ
rootdev = 1

abbrev pub rootino : ℕ
rootino = 1

abbrev pub t_dir : ℕ
t_dir = 1

pub record Dinode : Type 0 where
  pub itype : ℕ
  pub major : ℕ
  pub minor : ℕ
  pub nlink : ℕ
  pub entries : List Dirent

pub record Inode : Type 0 where
  pub dev : ℕ
  pub inum : ℕ
  pub ref : ℕ
  pub valid : Bool
  pub meta : Dinode

-- icache.inode, and the inodes on the disks by device and number.
pub record Inodes : Type 0 where
  pub cache : List Inode
  pub disk : ℕ → ℕ → Dinode

abbrev pub no_dinode : Dinode
no_dinode = record { itype = 0; major = 0; minor = 0; nlink = 0; entries = [] }

abbrev pub inode_at : List Inode → ℕ → Inode
inode_at [] i = record { dev = 0; inum = 0; ref = 0; valid = false; meta = no_dinode }
inode_at (x ∷ xs) zero = x
inode_at (x ∷ xs) (suc i) = inode_at xs i

abbrev pub change : ℕ → (Inode → Inode) → List Inode → List Inode
change i f [] = []
change zero f (x ∷ xs) = f x ∷ xs
change (suc i) f (x ∷ xs) = x ∷ change i f xs

abbrev pub is_inode : ℕ → ℕ → Inode → Bool
is_inode d n x = ltb 0 x.ref && ((x.dev == d) && (x.inum == n))

-- What the loop of iget looks for: the inode, and the first unused entry.
unfoldable pub find_inode : ℕ → ℕ → List Inode → Option ℕ
find_inode d n [] = none
find_inode d n (x ∷ xs) =
    let rest = find_inode d n xs in
    if is_inode d n x then some 0 else elim rest [ none ↦ none | some i ↦ some (suc i) ]

unfoldable pub find_empty : List Inode → Option ℕ
find_empty [] = none
find_empty (x ∷ xs) =
    let rest = find_empty xs in
    if x.ref == 0 then some 0 else elim rest [ none ↦ none | some i ↦ some (suc i) ]

abbrev pub take_ref : Inode → Inode
take_ref x = record x { ref = x.ref + 1 }

abbrev pub drop_inode_ref : Inode → Inode
drop_inode_ref x = record x { ref = x.ref - 1 }

abbrev pub become : ℕ → ℕ → Inode → Inode
become d n x = record x { dev = d; inum = n; ref = 1; valid = false }

-- iget; `none` is its panic.
unfoldable pub iget : ℕ → ℕ → Inodes → Option (ℕ × Inodes)
unfolding find_inode find_empty
iget d n s = elim (find_inode d n s.cache) [
  | some i ↦ some (i, record s { cache = change i take_ref s.cache })
  | none ↦ elim (find_empty s.cache) [
    | none ↦ none
    | some i ↦ some (i, record s { cache = change i (become d n) s.cache })
  ]
]

unfoldable pub idup : ℕ → Inodes → Inodes
idup i s = record s { cache = change i take_ref s.cache }

abbrev pub write_dinode : ℕ → ℕ → Dinode → Inodes → Inodes
write_dinode d n x s = record s { disk = λ e m. if (e == d) && (m == n) then x else s.disk e m }

-- The loop of ialloc from the number `inum` on; `left` bounds the rounds. `none` is a panic of ialloc
-- or of iget.
unfoldable pub ialloc_from : ℕ → ℕ → ℕ → ℕ → ℕ → Inodes → Option (ℕ × Inodes)
unfolding iget
ialloc_from d type ninodes zero inum s = none
ialloc_from d type ninodes (suc left) inum s =
    let rest = ialloc_from d type ninodes left (suc inum) s in
    if not (ltb inum ninodes)
    then none
    else if (s.disk d inum).itype == 0
    then iget d inum (write_dinode d inum (record no_dinode { itype = type }) s)
    else rest

unfoldable pub ialloc : ℕ → ℕ → ℕ → Inodes → Option (ℕ × Inodes)
unfolding ialloc_from
ialloc d type ninodes s = ialloc_from d type ninodes ninodes 1 s

abbrev pub load : Dinode → Inode → Inode
load d x = record x { valid = true; meta = d }

-- ilock; `none` is a panic.
unfoldable pub ilock : ℕ → Inodes → Option Inodes
ilock i s =
    let x = inode_at s.cache i in
    let d = s.disk x.dev x.inum in
    if x.ref == 0
    then none
    else if x.valid
    then some s
    else if d.itype == 0
    then none
    else some (record s { cache = change i (load d) s.cache })

unfoldable pub iupdate : ℕ → Inodes → Inodes
iupdate i s =
    let x = inode_at s.cache i in
    record s { disk = λ d n. if (d == x.dev) && (n == x.inum) then x.meta else s.disk d n }

abbrev pub emptied : Inode → Inode
emptied x = record x { meta = record x.meta { entries = [] } }

-- The inode without its content; its blocks are freed.
unfoldable pub itrunc : ℕ → Inodes → Inodes
unfolding iupdate
itrunc i s = iupdate i (record s { cache = change i emptied s.cache })

abbrev pub untyped : Inode → Inode
untyped x = record x { meta = record x.meta { itype = 0 } }

abbrev pub invalid : Inode → Inode
invalid x = record x { valid = false }

-- The end of an inode without links.
unfoldable pub free_inode : ℕ → Inodes → Inodes
unfolding itrunc iupdate
free_inode i s =
    let s1 = itrunc i s in
    let s2 = iupdate i (record s1 { cache = change i untyped s1.cache }) in
    record s2 { cache = change i invalid s2.cache }

unfoldable pub iput : ℕ → Inodes → Inodes
unfolding free_inode
iput i s =
    let x = inode_at s.cache i in
    let s1 = if x.valid && ((x.meta.nlink == 0) && (x.ref == 1)) then free_inode i s else s in
    record s1 { cache = change i drop_inode_ref s1.cache }

abbrev pub is_end : List ℕ → Bool
is_end [] = true
is_end (c ∷ path) = false

-- How namex ends: with an inode and the name, with 0, or in a panic.
pub data Walk : Type 0 where
  arrived : ℕ → List ℕ → Inodes → Walk
  nowhere : Inodes → Walk
  panicked : Walk
  no_fuel : Walk

-- The loop of namex.
unfoldable pub walk_from : Bool → ℕ → ℕ → List ℕ → List ℕ → Inodes → Walk
unfolding iget ilock iput
walk_from parent zero ip name path s = no_fuel
walk_from parent (suc fuel) ip name path s = elim (skipelem path name) [
  | none ↦ if parent then nowhere (iput ip s) else arrived ip name s
  | some (rest, name') ↦ elim (ilock ip s) [
    | none ↦ panicked
    | some s1 ↦
        let x = inode_at s1.cache ip in
        let next = elim (dirlookup name' x.meta.entries) as (λ _. Walk) [
          | none ↦ nowhere (iput ip s1)
          | some (inum, off) ↦ elim (iget x.dev inum s1) [
            | none ↦ panicked
            | some (i, s2) ↦ walk_from parent fuel i name' rest (iput ip s2)
          ]
        ] in
        if not (x.meta.itype == t_dir)
        then nowhere (iput ip s1)
        else if parent && is_end rest
        then arrived ip name' s1
        else next
  ]
]

-- namex, with the index of the process's current directory.
unfoldable pub namex : ℕ → List ℕ → Bool → List ℕ → Inodes → Walk
unfolding walk_from iget idup
namex cwd path parent name s =
    if head0 path == b'/'
    then elim (iget rootdev rootino s) as (λ _. Walk) [
      | none ↦ panicked
      | some (i, s1) ↦ walk_from parent (suc (length path)) i name path s1
    ]
    else walk_from parent (suc (length path)) cwd name path (idup cwd s)
