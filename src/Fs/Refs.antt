-- ===== src/Fs/Refs.antt =====
-- The references of namex: it gives back every inode that it took but the one it returns.
use lab7sp25_shelnutt.Base.{
  ℕ, zero, suc, ◌-◌, ◌<◌, ◌≡◌, refl, ap, ◌∙◌, sym, Bool, true, false, ◌&&◌, Option, none, some,
  some-injective, List, [], ◌∷◌, ◌==◌, length, arith, Bool-cases, Option-cases, inl, inr, subst,
}
use lab7sp25_shelnutt.Strings.{head0}
use lab7sp25_shelnutt.Fs.{dirsiz, dirlookup, skipelem}
use lab7sp25_shelnutt.Fs.Paths.{NoNul, SkipEnds, skipelem_lem}
use lab7sp25_shelnutt.Fs.Inodes.{
  Inode, Inodes, Walk, arrived, nowhere, panicked, no_fuel, inode_at, change, find_inode,
  find_empty, take_ref, drop_inode_ref, become, iget, idup, load, ilock, iupdate, emptied, itrunc,
  untyped, invalid, free_inode, iput, walk_from, namex, t_dir, rootdev, rootino, is_end,
}

abbrev pub refs_of : List Inode → List ℕ
refs_of [] = []
refs_of (x ∷ xs) = x.ref ∷ refs_of xs

abbrev pub refs : Inodes → List ℕ
refs s = refs_of s.cache

-- One more, and one less, at an index.
abbrev pub one_more : ℕ → List ℕ → List ℕ
one_more i [] = []
one_more zero (n ∷ ns) = suc n ∷ ns
one_more (suc i) (n ∷ ns) = n ∷ one_more i ns

abbrev pub one_less : ℕ → List ℕ → List ℕ
one_less i [] = []
one_less zero (n ∷ ns) = (n - 1) ∷ ns
one_less (suc i) (n ∷ ns) = n ∷ one_less i ns

less-more : (i : ℕ) (ns : List ℕ) → one_less i (one_more i ns) ≡ ns
less-more i [] = refl
less-more zero (n ∷ ns) = ap (λ m. m ∷ ns) (omega arith)
less-more (suc i) (n ∷ ns) = ap (λ r. n ∷ r) (less-more i ns)

less-more-more : (i j : ℕ) (ns : List ℕ) → one_less i (one_more j (one_more i ns)) ≡ one_more j ns
less-more-more i j [] = refl
less-more-more zero zero (n ∷ ns) = ap (λ m. m ∷ ns) (omega arith)
less-more-more zero (suc j) (n ∷ ns) = ap (λ m. m ∷ one_more j ns) (omega arith)
less-more-more (suc i) zero (n ∷ ns) = ap (λ r. suc n ∷ r) (less-more i ns)
less-more-more (suc i) (suc j) (n ∷ ns) = ap (λ r. n ∷ r) (less-more-more i j ns)

-- Changes of an inode that leave its count, add to it and take from it.
refs-same :
    (f : Inode → Inode)
    → ((x : Inode) → (f x).ref ≡ x.ref)
    → (i : ℕ) (xs : List Inode) → refs_of (change i f xs) ≡ refs_of xs
refs-same f h i [] = refl
refs-same f h zero (x ∷ xs) = ap (λ m. m ∷ refs_of xs) (h x)
refs-same f h (suc i) (x ∷ xs) = ap (λ r. x.ref ∷ r) (refs-same f h i xs)

refs-take_ref : (i : ℕ) (xs : List Inode) → refs_of (change i take_ref xs) ≡ one_more i (refs_of xs)
refs-take_ref i [] = refl
refs-take_ref zero (x ∷ xs) = ap (λ m. m ∷ refs_of xs) (omega arith)
refs-take_ref (suc i) (x ∷ xs) = ap (λ r. x.ref ∷ r) (refs-take_ref i xs)

refs-drop :
    (i : ℕ) (xs : List Inode) → refs_of (change i drop_inode_ref xs) ≡ one_less i (refs_of xs)
refs-drop i [] = refl
refs-drop zero (x ∷ xs) = refl
refs-drop (suc i) (x ∷ xs) = ap (λ r. x.ref ∷ r) (refs-drop i xs)

none-some : {A : Type 0} {a : A} → none ≡ some a → ⊥
none-some h = ground arith

empty_here : (x : Inode) (xs : List Inode) → (x.ref == 0) ≡ true → find_empty (x ∷ xs) ≡ some 0
unfolding find_empty
empty_here x xs y = rw (y, find_empty) refl

empty_none :
    (x : Inode) (xs : List Inode)
    → (x.ref == 0) ≡ false
    → find_empty xs ≡ none
    → find_empty (x ∷ xs) ≡ none
unfolding find_empty
empty_none x xs z f = rw (z, f, find_empty) refl

empty_later :
    (x : Inode) (xs : List Inode) (j : ℕ)
    → (x.ref == 0) ≡ false
    → find_empty xs ≡ some j
    → find_empty (x ∷ xs) ≡ some (suc j)
unfolding find_empty
empty_later x xs j z f = rw (z, f, find_empty) refl

refs-become :
    (d n i : ℕ) (xs : List Inode)
    → find_empty xs ≡ some i
    → refs_of (change i (become d n) xs) ≡ one_more i (refs_of xs)
unfolding find_empty
refs-become d n i [] h = refl
refs-become d n i (x ∷ xs) h = elim (Bool-cases (x.ref == 0)) [
  | inl y ↦
      let e : 0 ≡ i = some-injective 0 i (sym (empty_here x xs y) ∙ h) in
      let one : 1 ≡ suc x.ref = ground arith in
      subst (λ j. refs_of (change j (become d n) (x ∷ xs)) ≡ one_more j (x.ref ∷ refs_of xs)) e
        (ap (λ m. m ∷ refs_of xs) one)
  | inr z ↦ elim (Option-cases (find_empty xs)) [
    | inl f ↦ absurd (none-some (sym (empty_none x xs z f) ∙ h))
    | inr (j, f) ↦
        let e : suc j ≡ i = some-injective (suc j) i (sym (empty_later x xs j z f) ∙ h) in
        subst (λ k. refs_of (change k (become d n) (x ∷ xs)) ≡ one_more k (x.ref ∷ refs_of xs)) e
          (ap (λ r. x.ref ∷ r) (refs-become d n j xs f))
  ]
]

refs-free_inode : (i : ℕ) (s : Inodes) → refs (free_inode i s) ≡ refs s
unfolding free_inode itrunc iupdate
refs-free_inode i s =
    refs-same invalid (λ x. refl) i (change i untyped (change i emptied s.cache))
    ∙ refs-same untyped (λ x. refl) i (change i emptied s.cache)
    ∙ refs-same emptied (λ x. refl) i s.cache

refs-iput : (i : ℕ) (s : Inodes) → refs (iput i s) ≡ one_less i (refs s)
unfolding iput
refs-iput i s =
    let x = inode_at s.cache i in
    elim (Bool-cases (x.valid && ((x.meta.nlink == 0) && (x.ref == 1)))) [
      | inl y ↦
          rw (y, iput) (refs-drop i (free_inode i s).cache ∙ ap (one_less i) (refs-free_inode i s))
      | inr n ↦ rw (n, iput) (refs-drop i s.cache)
    ]

refs-idup : (i : ℕ) (s : Inodes) → refs (idup i s) ≡ one_more i (refs s)
unfolding idup
refs-idup i s = refs-take_ref i s.cache

-- What iget and ilock do to the counts.
abbrev pub GetEnds : Inodes → Option (ℕ × Inodes) → Type 0
GetEnds s none = Unit {0}
GetEnds s (some (i, s')) = refs s' ≡ one_more i (refs s)

pub iget_lem : (d n : ℕ) (s : Inodes) → GetEnds s (iget d n s)
unfolding iget
iget_lem d n s = elim (Option-cases (find_inode d n s.cache)) [
  | inr (i, e) ↦ rw (e, iget) (refs-take_ref i s.cache)
  | inl e ↦ elim (Option-cases (find_empty s.cache)) [
    | inr (i, f) ↦ rw (e, f, iget) (refs-become d n i s.cache f)
    | inl f ↦ rw (e, f, iget) tt
  ]
]

abbrev LockEnds : Inodes → Option Inodes → Type 0
LockEnds s none = Unit {0}
LockEnds s (some s') = refs s' ≡ refs s

ilock_lem : (i : ℕ) (s : Inodes) → LockEnds s (ilock i s)
unfolding ilock
ilock_lem i s =
    let x = inode_at s.cache i in
    let d = s.disk x.dev x.inum in
    elim (Bool-cases (x.ref == 0)) [
      | inl y ↦ rw (y, ilock) tt
      | inr n ↦ elim (Bool-cases x.valid) [
        | inl v ↦ rw (n, v, ilock) refl
        | inr v ↦ elim (Bool-cases (d.itype == 0)) [
          | inl t ↦ rw (n, v, t, ilock) tt
          | inr t ↦ rw (n, v, t, ilock) (refs-same (load d) (λ z. refl) i s.cache)
        ]
      ]
    ]

-- The counts when namex ends, against those before.
abbrev pub WalkEnds : List ℕ → Walk → Type 0
WalkEnds before (arrived ip name s) = refs s ≡ one_more ip before
WalkEnds before (nowhere s) = refs s ≡ before
WalkEnds before panicked = Unit {0}
WalkEnds before no_fuel = ⊥

walk_from-WalkEnds :
    (parent : Bool) (fuel ip : ℕ) (name path : List ℕ) (s : Inodes) (before : List ℕ)
    → length name ≡ dirsiz
    → NoNul path
    → length path < fuel
    → refs s ≡ one_more ip before
    → WalkEnds before (walk_from parent fuel ip name path s)
unfolding walk_from
walk_from-WalkEnds parent zero ip name path s before l a f h = absurd (omega arith)
walk_from-WalkEnds parent (suc fuel) ip name path s before l a f h =
    elim (Option-cases (skipelem path name)) [
      | inl e ↦ elim (Bool-cases parent) [
        | inl p ↦ rw (e, p, walk_from) (refs-iput ip s ∙ ap (one_less ip) h ∙ less-more ip before)
        | inr p ↦ rw (e, p, walk_from) h
      ]
      | inr ((rest, name'), e) ↦
          let k = subst (SkipEnds path) e (skipelem_lem path name l a) in
          elim (Option-cases (ilock ip s)) [
            | inl g ↦ rw (e, g, walk_from) tt
            | inr (s1, g) ↦
                let same = subst (LockEnds s) g (ilock_lem ip s) ∙ h in
                let put = refs-iput ip s1 ∙ ap (one_less ip) same ∙ less-more ip before in
                let x = inode_at s1.cache ip in
                elim (Bool-cases (x.meta.itype == t_dir)) [
                  | inr t ↦ rw (e, g, t, walk_from) put
                  | inl t ↦ elim (Bool-cases (parent && is_end rest)) [
                    | inl q ↦ rw (e, g, t, q, walk_from) same
                    | inr q ↦ elim (Option-cases (dirlookup name' x.meta.entries)) [
                      | inl d ↦ rw (e, g, t, q, d, walk_from) put
                      | inr ((inum, off), d) ↦ elim (Option-cases (iget x.dev inum s1)) [
                        | inl v ↦ rw (e, g, t, q, d, v, walk_from) tt
                        | inr ((j, s2), v) ↦
                            let got = subst (GetEnds s1) v (iget_lem x.dev inum s1) in
                            let moved =
                              refs-iput ip s2
                              ∙ ap (one_less ip) (got ∙ ap (one_more j) same)
                              ∙ less-more-more ip j before in
                            rw (e, g, t, q, d, v, walk_from)
                              (walk_from-WalkEnds parent fuel j name' rest (iput ip s2) before
                                k.same_size k.no_nul (omega (arith, k.shorter)) moved)
                      ]
                    ]
                  ]
                ]
          ]
    ]

-- namex on a path without NUL bytes, with room for DIRSIZ bytes in the name: it ends, and when it does
-- not panic, the counts of the inode cache are those from before it, but for one reference more to
-- the inode that it returns; none is left when it returns 0, wherever on the path it fails.
pub namex_lem :
    (cwd : ℕ) (path : List ℕ) (parent : Bool) (name : List ℕ) (s : Inodes)
    → length name ≡ dirsiz
    → NoNul path
    → WalkEnds (refs s) (namex cwd path parent name s)
unfolding namex
namex_lem cwd path parent name s l a = elim (Bool-cases (head0 path == b'/')) [
  | inr n ↦
      rw (n, namex)
        (walk_from-WalkEnds parent (suc (length path)) cwd name path (idup cwd s) (refs s) l a
          (omega arith) (refs-idup cwd s))
  | inl y ↦ elim (Option-cases (iget rootdev rootino s)) [
    | inl e ↦ rw (y, e, namex) tt
    | inr ((i, s1), e) ↦
        rw (y, e, namex)
          (walk_from-WalkEnds parent (suc (length path)) i name path s1 (refs s) l a (omega arith)
            (subst (GetEnds s) e (iget_lem rootdev rootino s)))
  ]
]
