-- ===== src/Fs/Numbers.antt =====
-- ialloc takes the first inode number that is free on the disk.
use lab7sp25_shelnutt.Base.{
  ℕ, zero, suc, ◌+◌, ◌≤◌, ◌<◌, ◌≡◌, ◌⊎◌, ◌≢◌, refl, ap, ◌∙◌, sym, false, Option, none, some, ◌==◌,
  ltb, arith, Bool-cases, Option-cases, inl, inr, subst, ℕ_discrete, List, [], ◌∷◌,
}
use lab7sp25_shelnutt.Fs.Inodes.{
  Dinode, no_dinode, Inode, Inodes, inode_at, change, is_inode, take_ref, become, find_inode,
  find_empty, iget, write_dinode, ialloc_from, ialloc,
}
use lab7sp25_shelnutt.Fs.Refs.{refs, one_more, GetEnds, iget_lem}

abbrev pub with_type : ℕ → Dinode
with_type type = record no_dinode { itype = type }

-- The entry stands for the inode of that device and number.
pub record Holds (d inum : ℕ) (x : Inode) : Type 0 where
  pub in_use : 0 < x.ref
  pub device : x.dev ≡ d
  pub number : x.inum ≡ inum

-- ialloc took the number inum, and returned the i-th entry of the cache.
pub record Numbered (d type ninodes inum i : ℕ) (s s' : Inodes) : Type 0 where
  pub in_range : inum < ninodes
  pub was_free : (s.disk d inum).itype ≡ 0
  pub first : (m : ℕ) → 0 < m → m < inum → (s.disk d m).itype ≢ 0
  pub written : s'.disk ≡ (write_dinode d inum (with_type type) s).disk
  pub counted : refs s' ≡ one_more i (refs s)
  pub entry : Holds d inum (inode_at s'.cache i)
  pub others : (j : ℕ) → i ≢ j → inode_at s'.cache j ≡ inode_at s.cache j

abbrev pub NumberEnds : ℕ → ℕ → ℕ → Inodes → Option (ℕ × Inodes) → Type 0
NumberEnds d type ninodes s none =
    ((m : ℕ) → 0 < m → m < ninodes → (s.disk d m).itype ≢ 0) ⊎ (find_empty s.cache ≡ none)
NumberEnds d type ninodes s (some (i, s')) = (inum : ℕ) × Numbered d type ninodes inum i s s'

inode_at-change :
    (f : Inode → Inode) (i j : ℕ) (xs : List Inode)
    → i ≢ j
    → inode_at (change i f xs) j ≡ inode_at xs j
inode_at-change f i j [] n = refl
inode_at-change f zero zero (x ∷ xs) n = absurd (n refl)
inode_at-change f zero (suc j) (x ∷ xs) n = refl
inode_at-change f (suc i) zero (x ∷ xs) n = refl
inode_at-change f (suc i) (suc j) (x ∷ xs) n = inode_at-change f i j xs (λ e. n (ap suc e))

Found : ℕ → ℕ → List Inode → Option ℕ → Type 0
Found d n xs none = Unit {0}
Found d n xs (some i) = Holds d n (inode_at (change i take_ref xs) i)

find_inode-Found : (d n : ℕ) (xs : List Inode) → Found d n xs (find_inode d n xs)
unfolding find_inode Found
find_inode-Found d n [] = tt
find_inode-Found d n (x ∷ xs) =
    let r = find_inode-Found d n xs in
    elim (Bool-cases (is_inode d n x)) [
      | inl y ↦
          rw (y, find_inode, Found)
            (record { in_use = ground arith; device = ground arith; number = ground arith })
      | inr z ↦ elim (Option-cases (find_inode d n xs)) [
        | inl e ↦ rw (z, e, find_inode, Found) tt
        | inr (i, e) ↦ rw (z, e, find_inode, Found) (subst (Found d n xs) e r)
      ]
    ]

Taken : ℕ → ℕ → List Inode → Option ℕ → Type 0
Taken d n xs none = Unit {0}
Taken d n xs (some i) = Holds d n (inode_at (change i (become d n) xs) i)

find_empty-Taken : (d n : ℕ) (xs : List Inode) → Taken d n xs (find_empty xs)
unfolding find_empty Taken
find_empty-Taken d n [] = tt
find_empty-Taken d n (x ∷ xs) =
    let r = find_empty-Taken d n xs in
    elim (Bool-cases (x.ref == 0)) [
      | inl y ↦
          rw (y, find_empty, Taken) (record { in_use = omega arith; device = refl; number = refl })
      | inr z ↦ elim (Option-cases (find_empty xs)) [
        | inl e ↦ rw (z, e, find_empty, Taken) tt
        | inr (i, e) ↦ rw (z, e, find_empty, Taken) (subst (Taken d n xs) e r)
      ]
    ]

-- iget leaves the disk and the other entries, gives an entry for the inode, and panics only if the
-- cache is full.
record Got (d n : ℕ) (s : Inodes) (i : ℕ) (s' : Inodes) : Type 0 where
  disk_same : s'.disk ≡ s.disk
  entry : Holds d n (inode_at s'.cache i)
  others : (j : ℕ) → i ≢ j → inode_at s'.cache j ≡ inode_at s.cache j

abbrev Gets : ℕ → ℕ → Inodes → Option (ℕ × Inodes) → Type 0
Gets d n s none = find_empty s.cache ≡ none
Gets d n s (some (i, s')) = Got d n s i s'

iget-Gets : (d n : ℕ) (s : Inodes) → Gets d n s (iget d n s)
unfolding iget Found Taken
iget-Gets d n s = elim (Option-cases (find_inode d n s.cache)) [
  | inr (i, e) ↦
      rw (e, iget)
        (record {
          disk_same = refl;
          entry = subst (Found d n s.cache) e (find_inode-Found d n s.cache);
          others = λ j h. inode_at-change take_ref i j s.cache h;
        })
  | inl e ↦ elim (Option-cases (find_empty s.cache)) [
    | inr (i, f) ↦
        rw (e, f, iget)
          (record {
            disk_same = refl;
            entry = subst (Taken d n s.cache) f (find_empty-Taken d n s.cache);
            others = λ j h. inode_at-change (become d n) i j s.cache h;
          })
    | inl f ↦ rw (e, f, iget) f
  ]
]

ialloc_from-NumberEnds :
    (d type ninodes left inum : ℕ) (s : Inodes)
    → 0 < inum
    → ninodes ≤ inum + left
    → ((m : ℕ) → 0 < m → m < inum → (s.disk d m).itype ≢ 0)
    → NumberEnds d type ninodes s (ialloc_from d type ninodes left inum s)
unfolding ialloc_from
ialloc_from-NumberEnds d type ninodes zero inum s p l f = inl (λ m a b. f m a (omega arith))
ialloc_from-NumberEnds d type ninodes (suc left) inum s p l f =
    elim (Bool-cases (ltb inum ninodes)) [
      | inr n ↦ rw (n, ialloc_from) (inl (λ m a b. f m a (ground arith)))
      | inl y ↦ elim (Bool-cases ((s.disk d inum).itype == 0)) [
        | inr z ↦
            rw (y, z, ialloc_from)
              (ialloc_from-NumberEnds d type ninodes left (suc inum) s (omega arith) (omega arith)
                (λ m a b. elim (ℕ_discrete m inum) [
                  | yes e ↦ λ h. used (ap (λ k. (s.disk d k).itype) (sym e) ∙ h) z
                  | no e ↦ f m a (omega arith)
                ]))
        | inl z ↦
            let s1 = write_dinode d inum (with_type type) s in
            elim (Option-cases (iget d inum s1)) [
              | inl e ↦
                  rw (y, z, e, ialloc_from) (inr (subst (Gets d inum s1) e (iget-Gets d inum s1)))
              | inr ((i, s'), e) ↦
                  let g = subst (Gets d inum s1) e (iget-Gets d inum s1) in
                  rw (y, z, e, ialloc_from)
                    (
                      inum,
                      record {
                        in_range = ground arith;
                        was_free = ground arith;
                        first = f;
                        written = g.disk_same;
                        counted = subst (GetEnds s1) e (iget_lem d inum s1);
                        entry = g.entry;
                        others = g.others;
                      },
                    )
            ]
      ]
    ]
  where
    used : (s.disk d inum).itype ≡ 0 → ((s.disk d inum).itype == 0) ≡ false → ⊥
    used h z = ground arith

-- ialloc on a disk with the inode numbers below ninodes. If it returns, the inode has the first number
-- from 1 on whose type on the disk was 0; on the disk that one has the new type then and is zero
-- otherwise, and no other changes; and the entry of the cache that it returns stands for that device
-- and number, with one reference more than before, while the other entries are unchanged. It panics
-- only if no number is free, or no entry of the cache.
pub ialloc_lem :
    (d type ninodes : ℕ) (s : Inodes) → NumberEnds d type ninodes s (ialloc d type ninodes s)
unfolding ialloc
ialloc_lem d type ninodes s =
    ialloc_from-NumberEnds d type ninodes ninodes 1 s (omega arith) (omega arith)
      (λ m a b. absurd (omega arith))
