-- ===== src/Bio/Unique.antt =====
-- How many buffers of the cache there are for a block.
use lab7sp25_shelnutt.Base.{
  ℕ, zero, suc, ◌+◌, ◌-◌, ◌≤◌, ◌<◌, ◌≡◌, refl, ap, sym, ◌∙◌, Bool, ◌&&◌, none, some, List, [], ◌∷◌,
  ◌==◌, if◌then◌else◌, arith, Bool-cases, Option-cases, inl, inr, ◌⊎◌, subst, subst₂,
  some-injective,
}
use lab7sp25_shelnutt.Bio.{
  nbuf, Buf, is_for, add_ref, is_idle, take_over, binit, find_cached, recycle, bget, unlink, unref,
  brelse, set_flags,
}

-- How many buffers there are for a block.
abbrev pub buffers : ℕ → ℕ → List Buf → ℕ
buffers d b [] = 0
buffers d b (x ∷ xs) = (if is_for d b x then 1 else 0) + buffers d b xs

-- The buffer `i` is for this block and has a reference.
abbrev pub Holds : ℕ → ℕ → ℕ → List Buf → Type 0
Holds i d b [] = ⊥
Holds i d b (x ∷ xs) =
    ((x.slot ≡ i) × (x.dev ≡ d) × (x.blockno ≡ b) × (0 < x.refcnt)) ⊎ Holds i d b xs

find_cached-none : (d b : ℕ) (xs : List Buf) → find_cached d b xs ≡ none → buffers d b xs ≡ 0
unfolding find_cached
find_cached-none d b [] e = refl
find_cached-none d b (x ∷ xs) e = elim (Bool-cases (is_for d b x)) [
  | inl y ↦ absurd (ground arith)
  | inr n ↦ elim (Option-cases (find_cached d b xs)) [
    | inl o ↦ ground (arith, find_cached-none d b xs o)
    | inr ((i, ys), o) ↦ absurd (ground arith)
  ]
]

find_cached-some :
    (d b : ℕ) (xs : List Buf) {i : ℕ} {ys : List Buf}
    → find_cached d b xs ≡ some (i, ys)
    → Holds i d b ys × ((e c : ℕ) → buffers e c ys ≡ buffers e c xs)
unfolding find_cached
find_cached-some d b [] e = cc
find_cached-some d b (x ∷ xs) {i} {ys} e = elim (Bool-cases (is_for d b x)) [
  | inl y ↦
      let q = some-injective (x.slot, add_ref x ∷ xs) (i, ys) (rw y at e) in
      subst₂ (λ i ys. Holds i d b ys × ((e c : ℕ) → buffers e c ys ≡ buffers e c (x ∷ xs)))
        (ap (λ r. r.0) q) (ap (λ r. r.1) q)
        (inl (refl, ground arith, ground arith, omega arith), λ e c. refl)
  | inr n ↦ elim (Option-cases (find_cached d b xs)) [
    | inl o ↦ absurd (ground arith)
    | inr ((j, zs), o) ↦
        let (h, t) = find_cached-some d b xs {i = j} {ys = zs} o in
        let q = some-injective (j, x ∷ zs) (i, ys) (rw (n, o) at e) in
        subst₂ (λ i ys. Holds i d b ys × ((e c : ℕ) → buffers e c ys ≡ buffers e c (x ∷ xs)))
          (ap (λ r. r.0) q) (ap (λ r. r.1) q)
          (inr h, λ e c. ap (λ m. (if is_for e c x then 1 else 0) + m) (t e c))
  ]
]

recycle-some :
    (d b : ℕ) (xs : List Buf) {i : ℕ} {ys : List Buf}
    → recycle d b xs ≡ some (i, ys)
    → Holds i d b ys
      × ((e c : ℕ) → buffers e c ys ≤ buffers e c xs + (if (d == e) && (b == c) then 1 else 0))
unfolding recycle
recycle-some d b [] e = cc
recycle-some d b (x ∷ xs) {i} {ys} e = elim (Option-cases (recycle d b xs)) [
  | inr ((j, zs), o) ↦
      let (h, t) = recycle-some d b xs {i = j} {ys = zs} o in
      let q = some-injective (j, x ∷ zs) (i, ys) (rw o at e) in
      subst₂
        (λ i ys.
          Holds i d b ys
          × ((e c : ℕ)
              → buffers e c ys ≤ buffers e c (x ∷ xs) + (if (d == e) && (b == c) then 1 else 0)))
        (ap (λ r. r.0) q) (ap (λ r. r.1) q) (inr h, λ e c. omega (arith, t e c))
  | inl o ↦ elim (Bool-cases (is_idle x)) [
    | inr n ↦ absurd (ground arith)
    | inl y ↦
        let q = some-injective (x.slot, take_over d b x ∷ xs) (i, ys) (rw (o, y) at e) in
        subst₂
          (λ i ys.
            Holds i d b ys
            × ((e c : ℕ)
                → buffers e c ys ≤ buffers e c (x ∷ xs) + (if (d == e) && (b == c) then 1 else 0)))
          (ap (λ r. r.0) q) (ap (λ r. r.1) q)
          (inl (refl, refl, refl, omega arith), λ e c. ground arith)
  ]
]

Holds-buffers : (i d b : ℕ) (xs : List Buf) → Holds i d b xs → 0 < buffers d b xs
Holds-buffers i d b [] h = absurd h
Holds-buffers i d b (x ∷ xs) (inl (s, e, c, r)) = ground arith
Holds-buffers i d b (x ∷ xs) (inr h) = omega (arith, Holds-buffers i d b xs h)

unlink-some :
    (i : ℕ) (xs : List Buf) {x : Buf} {ys : List Buf}
    → unlink i xs ≡ some (x, ys)
    → (e c : ℕ) → buffers e c xs ≡ (if is_for e c x then 1 else 0) + buffers e c ys
unfolding unlink
unlink-some i [] p e c = absurd (ground arith)
unlink-some i (y ∷ xs) {x} {ys} p e c = elim (Bool-cases (y.slot == i)) [
  | inl s ↦
      let q = some-injective (y, xs) (x, ys) (rw s at p) in
      subst (λ r. buffers e c (y ∷ xs) ≡ buffers e c (r.0 ∷ r.1)) q refl
  | inr n ↦ elim (Option-cases (unlink i xs)) [
    | inl o ↦ absurd (ground arith)
    | inr ((z, zs), o) ↦
        let q = some-injective (z, y ∷ zs) (x, ys) (rw (n, o) at p) in
        let t = unlink-some i xs {x = z} {ys = zs} o e c in
        subst (λ r. buffers e c (y ∷ xs) ≡ buffers e c (r.0 ∷ r.1)) q (omega (arith, t))
  ]
]

buffers-unref : (i : ℕ) (xs : List Buf) (e c : ℕ) → buffers e c (unref i xs) ≡ buffers e c xs
unfolding unref
buffers-unref i [] e c = refl
buffers-unref i (x ∷ xs) e c = elim (Bool-cases (x.slot == i)) [
  | inl s ↦ rw s refl
  | inr n ↦ rw n (omega (arith, buffers-unref i xs e c))
]

buffers-set_flags :
    (i : ℕ) (v d : Bool) (xs : List Buf) (e c : ℕ)
    → buffers e c (set_flags i v d xs) ≡ buffers e c xs
unfolding set_flags
buffers-set_flags i v d [] e c = refl
buffers-set_flags i v d (x ∷ xs) e c = elim (Bool-cases (x.slot == i)) [
  | inl s ↦ rw s refl
  | inr n ↦ rw n (omega (arith, buffers-set_flags i v d xs e c))
]

buffers-brelse : (i : ℕ) (xs : List Buf) (e c : ℕ) → buffers e c (brelse i xs) ≡ buffers e c xs
unfolding brelse
buffers-brelse i xs e c = elim (Option-cases (unlink i xs)) [
  | inl o ↦ rw (o, brelse) refl
  | inr ((x, ys), o) ↦ elim (Bool-cases (x.refcnt - 1 == 0)) [
    | inl z ↦ rw (o, brelse, z) (sym (unlink-some i xs {x = x} {ys = ys} o e c))
    | inr n ↦ rw (o, brelse, n) (buffers-unref i xs e c)
  ]
]

buffers-binit : (n d b : ℕ) → 0 < d → buffers d b (binit n) ≡ 0
unfolding binit
buffers-binit zero d b h = refl
buffers-binit (suc n) d b h = ground (arith, buffers-binit n d b h)

-- No block of a device other than 0, which the static buffers start with, has two buffers.
abbrev pub Unique : List Buf → Type 0
Unique xs = (d b : ℕ) → 0 < d → buffers d b xs ≤ 1

bget-Unique :
    (d b : ℕ) (xs : List Buf) {i : ℕ} {ys : List Buf}
    → bget d b xs ≡ some (i, ys)
    → Unique xs
    → Holds i d b ys × Unique ys
unfolding bget
bget-Unique d b xs {i} {ys} e u = elim (Option-cases (find_cached d b xs)) [
  | inr ((j, zs), o) ↦
      let q : find_cached d b xs ≡ some (i, ys) = o ∙ (rw (o, bget) at e) in
      let (h, t) = find_cached-some d b xs {i = i} {ys = ys} q in
      (h, λ e c p. omega (arith, t e c, u e c p))
  | inl o ↦
      let q : recycle d b xs ≡ some (i, ys) = rw (o, bget) at e in
      let (h, t) = recycle-some d b xs {i = i} {ys = ys} q in
      (h, λ e c p. ground (arith, t e c, u e c p, find_cached-none d b xs o))
]

-- The calls of bget and brelse, and changes of flags, in any order from binit on.
pub data Step (xs : List Buf) : List Buf → Type 0 where
  gets : (d b i : ℕ) {ys : List Buf} → bget d b xs ≡ some (i, ys) → Step xs ys
  releases : (i : ℕ) → Step xs (brelse i xs)
  flags : (i : ℕ) (v d : Bool) → Step xs (set_flags i v d xs)

pub data Reach : List Buf → Type 0 where
  started : Reach (binit nbuf)
  later : {xs ys : List Buf} → Reach xs → Step xs ys → Reach ys

Reach-Unique : {xs : List Buf} → Reach xs → Unique xs
Reach-Unique started = λ d b p. omega (arith, buffers-binit nbuf d b p)
Reach-Unique (later {xs = xs} r (gets d b i {ys = ys} e)) =
    (bget-Unique d b xs {i = i} {ys = ys} e (Reach-Unique r)).1
Reach-Unique (later {xs = xs} r (releases i)) =
    λ d b p. omega (arith, buffers-brelse i xs d b, Reach-Unique r d b p)
Reach-Unique (later {xs = xs} r (flags i v f)) =
    λ d b p. omega (arith, buffers-set_flags i v f xs d b, Reach-Unique r d b p)

-- From binit on, after any sequence of calls of bget and brelse and changes of flags: a buffer that bget
-- returns for a block of a device other than 0 is for this block and is referenced, and it is the only
-- buffer of the cache for the block.
pub bget_lem :
    {xs ys : List Buf} (d b i : ℕ)
    → Reach xs
    → 0 < d
    → bget d b xs ≡ some (i, ys)
    → Holds i d b ys × (buffers d b ys ≡ 1)
bget_lem {xs} {ys} d b i r p e =
    let (h, u) = bget-Unique d b xs {i = i} {ys = ys} e (Reach-Unique r) in
    (h, omega (arith, u d b p, Holds-buffers i d b ys h))
