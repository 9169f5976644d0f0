-- ===== src/Grep/Language.antt =====
-- The matcher of grep against the texts that an expression stands for.
use lab7sp25_shelnutt.Base.{
  ℕ, ◌≡◌, refl, ap, sym, Bool, true, ◌&&◌, List, [], ◌∷◌, ◌++◌, ◌==◌, if◌then◌else◌, Bool-cases,
  inl, inr, arith, ◌↔◌, subst, ◌⊎◌, ℕ_discrete,
}
use lab7sp25_shelnutt.Grep.{accepts, matchstar, match_byte, at_end, matchhere, search_from, match}

-- A dot stands for any byte, and another byte for itself.
abbrev pub Passes : ℕ → ℕ → Type 0
Passes c t = (c ≡ b'.') ⊎ (c ≡ t)

accepts-Passes : (c t : ℕ) → (accepts c t ≡ true) ↔ Passes c t
accepts-Passes c t = (
  λ h. elim (ℕ_discrete c b'.') [ yes e ↦ inl e | no n ↦ inr (ground (arith, n)) ],
  λ p. elim p [ inl e ↦ ground (arith, e) | inr e ↦ ground (arith, e) ],
)

-- Each byte passes the test for `c`.
abbrev pub Repeats : ℕ → List ℕ → Type 0
Repeats c [] = Unit {0}
Repeats c (t ∷ ts) = Passes c t × Repeats c ts

-- The text begins with some bytes that pass the test for `c`, and `P` holds of what follows them.
abbrev pub Starred : ℕ → (List ℕ → Type 0) → List ℕ → Type 0
Starred c P text = (ts rest : List ℕ) × (text ≡ ts ++ rest) × Repeats c ts × P rest

-- The text begins with a byte that passes the test for `c`, and `P` holds of the rest.
abbrev pub Begins : ℕ → (List ℕ → Type 0) → List ℕ → Type 0
Begins c P text = (t : ℕ) × (rest : List ℕ) × (text ≡ t ∷ rest) × Passes c t × P rest

-- A beginning of the text is one that the expression stands for.
pub Here : List ℕ → List ℕ → Type 0
Here [] text = Unit {0}
Here (c ∷ []) text = if c == b'$' then text ≡ [] else Begins c (λ _. Unit {0}) text
Here (c ∷ d ∷ re) text =
    if d == b'*' then Starred c (Here re) text else Begins c (Here (d ∷ re)) text

-- Some end of the text begins so.
abbrev pub Within : List ℕ → List ℕ → Type 0
Within re text = (skipped rest : List ℕ) × (text ≡ skipped ++ rest) × Here re rest

-- A conjunction of tests that is true.
both : (a b : Bool) → (a && b) ≡ true → (a ≡ true) × (b ≡ true)
both a b h = ground arith

matchstar_sound :
    (c : ℕ) (here : List ℕ → Bool) (text : List ℕ)
    → matchstar c here text ≡ true
    → Starred c (λ x. here x ≡ true) text
unfolding matchstar
matchstar_sound c here [] h = ([], [], refl, tt, h)
matchstar_sound c here (t ∷ text) h = elim (Bool-cases (here (t ∷ text))) [
  | inl y ↦ ([], t ∷ text, refl, tt, y)
  | inr n ↦
      let (a, b) = both (accepts c t) (matchstar c here text) (rw n at h) in
      let (ts, rest, e, r, w) = matchstar_sound c here text b in
      (t ∷ ts, rest, ap (λ x. t ∷ x) e, ((accepts-Passes c t).0 a, r), w)
]

matchstar_complete :
    (c : ℕ) (here : List ℕ → Bool) (ts rest : List ℕ)
    → Repeats c ts
    → here rest ≡ true
    → matchstar c here (ts ++ rest) ≡ true
unfolding matchstar
matchstar_complete c here [] [] r h = h
matchstar_complete c here [] (t ∷ rest) r h = rw h
matchstar_complete c here (t ∷ ts) rest (a, r) h = elim (Bool-cases (here (t ∷ (ts ++ rest)))) [
  | inl y ↦ rw y
  | inr n ↦ rw (n, (accepts-Passes c t).1 a, matchstar_complete c here ts rest r h)
]

match_byte_sound :
    (c : ℕ) (next : List ℕ → Bool) (text : List ℕ)
    → match_byte c next text ≡ true
    → Begins c (λ x. next x ≡ true) text
unfolding match_byte
match_byte_sound c next [] h = cc
match_byte_sound c next (t ∷ text) h =
    let (a, b) = both (accepts c t) (next text) h in (t, text, refl, (accepts-Passes c t).0 a, b)

match_byte_complete :
    (c : ℕ) (next : List ℕ → Bool) (t : ℕ) (rest : List ℕ)
    → Passes c t
    → next rest ≡ true
    → match_byte c next (t ∷ rest) ≡ true
unfolding match_byte
match_byte_complete c next t rest a h = rw ((accepts-Passes c t).1 a, h)

at_end_iff : (text : List ℕ) → (at_end text ≡ true) ↔ (text ≡ [])
at_end_iff [] = (λ _. refl, λ _. refl)
at_end_iff (t ∷ text) = (λ h. cc, λ h. cc)

-- The recursive calls, from a reading of the rest of the expression.
match_byte-Begins :
    (c : ℕ) (next : List ℕ → Bool) (P : List ℕ → Type 0) (text : List ℕ)
    → ((x : List ℕ) → (next x ≡ true) ↔ P x)
    → (match_byte c next text ≡ true) ↔ Begins c P text
match_byte-Begins c next P text h = (
  λ m. let (t, rest, e, a, w) = match_byte_sound c next text m in (t, rest, e, a, (h rest).0 w),
  λ (t, rest, e, a, w).
      subst (λ x. match_byte c next x ≡ true) (sym e)
        (match_byte_complete c next t rest a ((h rest).1 w)),
)

matchstar-Starred :
    (c : ℕ) (here : List ℕ → Bool) (P : List ℕ → Type 0) (text : List ℕ)
    → ((x : List ℕ) → (here x ≡ true) ↔ P x)
    → (matchstar c here text ≡ true) ↔ Starred c P text
matchstar-Starred c here P text h = (
  λ m. let (ts, rest, e, r, w) = matchstar_sound c here text m in (ts, rest, e, r, (h rest).0 w),
  λ (ts, rest, e, r, w).
      subst (λ x. matchstar c here x ≡ true) (sym e)
        (matchstar_complete c here ts rest r ((h rest).1 w)),
)

matchhere_lem : (re text : List ℕ) → (matchhere re text ≡ true) ↔ Here re text
unfolding matchhere Here
matchhere_lem [] text = (λ _. tt, λ _. refl)
matchhere_lem (c ∷ []) text = elim (Bool-cases (c == b'$')) [
  | inl y ↦ rw (y, matchhere, Here) (at_end_iff text)
  | inr n ↦
      rw (n, matchhere, Here)
        (match_byte-Begins c (λ _. true) (λ _. Unit {0}) text (λ x. (λ _. tt, λ _. refl)))
]
matchhere_lem (c ∷ d ∷ re) text = elim (Bool-cases (d == b'*')) [
  | inl y ↦
      rw (y, matchhere, Here) (matchstar-Starred c (matchhere re) (Here re) text (matchhere_lem re))
  | inr n ↦
      rw (n, matchhere, Here)
        (match_byte-Begins c (matchhere (d ∷ re)) (Here (d ∷ re)) text (matchhere_lem (d ∷ re)))
]

search_from_sound : (re text : List ℕ) → search_from re text ≡ true → Within re text
unfolding search_from
search_from_sound re [] h = ([], [], refl, (matchhere_lem re []).0 h)
search_from_sound re (t ∷ text) h = elim (Bool-cases (matchhere re (t ∷ text))) [
  | inl y ↦ ([], t ∷ text, refl, (matchhere_lem re (t ∷ text)).0 y)
  | inr n ↦
      let (skipped, rest, e, w) = search_from_sound re text (rw n at h) in
      (t ∷ skipped, rest, ap (λ x. t ∷ x) e, w)
]

search_from_complete :
    (re skipped rest : List ℕ) → Here re rest → search_from re (skipped ++ rest) ≡ true
unfolding search_from
search_from_complete re [] [] w = (matchhere_lem re []).1 w
search_from_complete re [] (t ∷ rest) w = rw ((matchhere_lem re (t ∷ rest)).1 w)
search_from_complete re (t ∷ skipped) rest w =
    elim (Bool-cases (matchhere re (t ∷ (skipped ++ rest)))) [
      | inl y ↦ rw y
      | inr n ↦ rw n (search_from_complete re skipped rest w)
    ]

search_from_lem : (re text : List ℕ) → (search_from re text ≡ true) ↔ Within re text
search_from_lem re text = (
  search_from_sound re text,
  λ (skipped, rest, e, w).
      subst (λ x. search_from re x ≡ true) (sym e) (search_from_complete re skipped rest w),
)

-- What an expression stands for: with ^ first, a beginning of the text, and else some part of it.
abbrev pub Finds : List ℕ → List ℕ → Type 0
Finds [] text = Within [] text
Finds (c ∷ re) text = if c == b'^' then Here re text else Within (c ∷ re) text

-- match accepts a text exactly if the expression stands for a part of it, which is at its beginning
-- where the expression starts with ^. An expression stands for: a byte, a dot for any byte, a byte
-- or a dot with * for any number of such bytes, one after the other, with $ at its end for the end of
-- the text. The search of matchstar for the shortest repetition misses none.
pub match_lem : (re text : List ℕ) → (match re text ≡ true) ↔ Finds re text
unfolding match
match_lem [] text = search_from_lem [] text
match_lem (c ∷ re) text = elim (Bool-cases (c == b'^')) [
  | inl y ↦ rw (y, match) (matchhere_lem re text)
  | inr n ↦ rw (n, match) (search_from_lem (c ∷ re) text)
]
