-- ===== src/Fs/Paths.antt =====
-- skipelem takes a path apart as a split at the slashes does.
use lab7sp25_shelnutt.Base.{
  ℕ, zero, suc, ◌-◌, ◌≤◌, ◌<◌, ◌≡◌, refl, ap, ◌∙◌, sym, true, false, Option, none, some, List, [],
  ◌∷◌, ◌++◌, append-nil, append_assoc, ◌==◌, leb, if◌then◌else◌, length, length-append, length-take,
  take, drop, set, length-set, arith, Bool-cases, inl, inr, subst,
}
use lab7sp25_shelnutt.Strings.{head0}
use lab7sp25_shelnutt.Strings.Copies.{cstr, cstr_next}
use lab7sp25_shelnutt.Fs.{dirsiz, skip_slashes, take_elem, store_name, skipelem}
use lab7sp25_shelnutt.Fs.Names.{key}

-- The elements of a path: the stretches between slashes that are not empty; `w` is what is read of
-- one so far.
abbrev ended : List ℕ → List (List ℕ) → List (List ℕ)
ended [] es = es
ended (c ∷ w) es = (c ∷ w) ∷ es

pub elements_from : List ℕ → List ℕ → List (List ℕ)
elements_from w [] = ended w []
elements_from w (c ∷ path) =
    let next = elements_from [] path in
    let longer = elements_from (w ++ c ∷ []) path in if c == b'/' then ended w next else longer

abbrev pub elements : List ℕ → List (List ℕ)
elements path = elements_from [] path

abbrev pub NoNul : List ℕ → Type 0
NoNul [] = Unit {0}
NoNul (c ∷ s) = ((c == 0) ≡ false) × NoNul s

slash : (c : ℕ) (s : List ℕ) → (c == b'/') ≡ true → skip_slashes (c ∷ s) ≡ skip_slashes s
unfolding skip_slashes
slash c s y = rw (y, skip_slashes) refl

no_slash : (c : ℕ) (s : List ℕ) → (c == b'/') ≡ false → skip_slashes (c ∷ s) ≡ c ∷ s
unfolding skip_slashes
no_slash c s n = rw (n, skip_slashes) refl

elements_from-slash :
    (w : List ℕ) (c : ℕ) (s : List ℕ)
    → (c == b'/') ≡ true
    → elements_from w (c ∷ s) ≡ ended w (elements s)
unfolding elements_from
elements_from-slash w c s y = rw (y, elements_from) refl

elements_from-byte :
    (w : List ℕ) (c : ℕ) (s : List ℕ)
    → (c == b'/') ≡ false
    → elements_from w (c ∷ s) ≡ elements_from (w ++ c ∷ []) s
unfolding elements_from
elements_from-byte w c s n = rw (n, elements_from) refl

elements-skip_slashes : (s : List ℕ) → elements (skip_slashes s) ≡ elements s
unfolding skip_slashes
elements-skip_slashes [] = refl
elements-skip_slashes (c ∷ s) = elim (Bool-cases (c == b'/')) [
  | inl y ↦ ap elements (slash c s y) ∙ elements-skip_slashes s ∙ sym (elements_from-slash [] c s y)
  | inr n ↦ ap elements (no_slash c s n)
]

take_elem-elements_from :
    (w s : List ℕ) → elements_from w s ≡ ended (w ++ (take_elem s).0) (elements (take_elem s).1)
unfolding take_elem elements_from
take_elem-elements_from w [] = ap (λ v. ended v []) (sym (append-nil w))
take_elem-elements_from w (c ∷ s) = elim (Bool-cases (c == b'/')) [
  | inl y ↦
      let e : take_elem (c ∷ s) ≡ ([], c ∷ s) = rw (y, take_elem) refl in
      elements_from-slash w c s y
      ∙ ap (ended w) (sym (elements_from-slash [] c s y))
      ∙ ap (λ v. ended v (elements (c ∷ s))) (sym (append-nil w))
      ∙ ap (λ q. ended (w ++ q.0) (elements q.1)) (sym e)
  | inr n ↦
      let e : take_elem (c ∷ s) ≡ (c ∷ (take_elem s).0, (take_elem s).1) = rw (n, take_elem) refl in
      elements_from-byte w c s n
      ∙ take_elem-elements_from (w ++ c ∷ []) s
      ∙ ap (λ v. ended v (elements (take_elem s).1)) (append_assoc w (c ∷ []) (take_elem s).0)
      ∙ ap (λ q. ended (w ++ q.0) (elements q.1)) (sym e)
]

cstr-append : (w x : List ℕ) → NoNul w → cstr (w ++ x) ≡ w ++ cstr x
cstr-append [] x a = refl
cstr-append (c ∷ w) x (z, a) = cstr_next (c ∷ (w ++ x)) ∙ rw z (ap (λ r. c ∷ r) (cstr-append w x a))

NoNul-take : (n : ℕ) (s : List ℕ) → NoNul s → NoNul (take n s)
NoNul-take zero s a = tt
NoNul-take (suc n) [] a = tt
NoNul-take (suc n) (c ∷ s) (z, a) = (z, NoNul-take n s a)

NoNul-take_elem : (s : List ℕ) → NoNul s → NoNul (take_elem s).0 × NoNul (take_elem s).1
unfolding take_elem
NoNul-take_elem [] a = (tt, tt)
NoNul-take_elem (c ∷ s) (z, a) =
    let ih = NoNul-take_elem s a in
    elim (Bool-cases (c == b'/')) [
      | inl y ↦ rw (y, take_elem) (tt, (z, a))
      | inr n ↦ rw (n, take_elem) ((z, ih.0), ih.1)
    ]

NoNul-skip_slashes : (s : List ℕ) → NoNul s → NoNul (skip_slashes s)
unfolding skip_slashes
NoNul-skip_slashes [] a = tt
NoNul-skip_slashes (c ∷ s) (z, a) = elim (Bool-cases (c == b'/')) [
  | inl y ↦ subst NoNul (sym (slash c s y)) (NoNul-skip_slashes s a)
  | inr n ↦ subst NoNul (sym (no_slash c s n)) (z, a)
]

take-front : (n : ℕ) (s x : List ℕ) → n ≤ length s → take n (take n s ++ x) ≡ take n s
take-front zero s x l = refl
take-front (suc n) [] x l = absurd (omega arith)
take-front (suc n) (c ∷ s) x l = ap (λ r. c ∷ r) (take-front n s x (omega arith))

-- name[len] = 0 behind the element.
nul_behind :
    (w name : List ℕ)
    → length w < length name
    → set (w ++ drop (length w) name) (length w) 0 ≡ w ++ 0 ∷ drop (suc (length w)) name
nul_behind w [] l = absurd (omega arith)
nul_behind [] (x ∷ name) l = refl
nul_behind (c ∷ w) (x ∷ name) l = ap (λ r. c ∷ r) (nul_behind w name (omega arith))

length-drop : (n : ℕ) (s : List ℕ) → length (drop n s) ≡ length s - n
length-drop zero s = omega arith
length-drop (suc n) [] = omega arith
length-drop (suc n) (c ∷ s) = omega (arith, length-drop n s)

-- The name holds the element, cut to DIRSIZ bytes.
key-store_name :
    (name s : List ℕ) → length name ≡ dirsiz → NoNul s → key (store_name name s) ≡ take dirsiz s
unfolding store_name
key-store_name name s l a = elim (Bool-cases (leb dirsiz (length s))) [
  | inl y ↦
      rw (y, store_name)
        (ap (take dirsiz) (cstr-append (take dirsiz s) (drop dirsiz name) (NoNul-take dirsiz s a))
          ∙ take-front dirsiz s (cstr (drop dirsiz name)) (ground arith))
  | inr n ↦
      let short : length s < dirsiz = ground arith in
      rw (n, store_name)
        (ap key (nul_behind s name (omega arith))
          ∙ ap (take dirsiz) (
              cstr-append s (0 ∷ drop (suc (length s)) name) a
              ∙ ap (λ r. s ++ r) (cstr_next (0 ∷ drop (suc (length s)) name))
              ∙ append-nil s))
]

length-store_name : (name s : List ℕ) → length name ≡ dirsiz → length (store_name name s) ≡ dirsiz
unfolding store_name
length-store_name name s l = elim (Bool-cases (leb dirsiz (length s))) [
  | inl y ↦
      let long : dirsiz ≤ length s = ground arith in
      rw (y, store_name)
        (omega (
          arith,
          length-append (take dirsiz s) (drop dirsiz name),
          length-take dirsiz s,
          length-drop dirsiz name,
        ))
  | inr n ↦
      let short : length s < dirsiz = ground arith in
      rw (n, store_name)
        (omega (
          arith,
          length-set (s ++ drop (length s) name) (length s) 0,
          length-append s (drop (length s) name),
          length-drop (length s) name,
        ))
]

shorter-skip_slashes : (s : List ℕ) → length (skip_slashes s) ≤ length s
unfolding skip_slashes
shorter-skip_slashes [] = omega arith
shorter-skip_slashes (c ∷ s) = elim (Bool-cases (c == b'/')) [
  | inl y ↦ let ih = shorter-skip_slashes s in let e = ap length (slash c s y) in omega arith
  | inr n ↦ let e = ap length (no_slash c s n) in omega arith
]

shorter-take_elem : (s : List ℕ) → length (take_elem s).1 ≤ length s
unfolding take_elem
shorter-take_elem [] = omega arith
shorter-take_elem (c ∷ s) =
    let ih = shorter-take_elem s in
    elim (Bool-cases (c == b'/')) [
      | inl y ↦ rw (y, take_elem) (omega arith)
      | inr n ↦ rw (n, take_elem) (omega arith)
    ]

-- No slash is left in front.
trimmed-skip_slashes : (s : List ℕ) → (head0 (skip_slashes s) == b'/') ≡ false
unfolding skip_slashes
trimmed-skip_slashes [] = refl
trimmed-skip_slashes (c ∷ s) = elim (Bool-cases (c == b'/')) [
  | inl y ↦ subst (λ p. (head0 p == b'/') ≡ false) (sym (slash c s y)) (trimmed-skip_slashes s)
  | inr n ↦ subst (λ p. (head0 p == b'/') ≡ false) (sym (no_slash c s n)) n
]

-- What skipelem returns for a path of which `rest` is left, and `name'` is the name.
pub record Skips (path rest name' : List ℕ) : Type 0 where
  pub elem : List ℕ
  pub split : elements path ≡ elem ∷ elements rest
  pub name : key name' ≡ take dirsiz elem
  pub same_size : length name' ≡ dirsiz
  pub trimmed : (head0 rest == b'/') ≡ false
  pub shorter : length rest < length path
  pub no_nul : NoNul rest

abbrev pub SkipEnds : List ℕ → Option (List ℕ × List ℕ) → Type 0
SkipEnds path none = elements path ≡ []
SkipEnds path (some (rest, name')) = Skips path rest name'

first_byte :
    (c : ℕ) (t : List ℕ)
    → (c == b'/') ≡ false
    → take_elem (c ∷ t) ≡ (c ∷ (take_elem t).0, (take_elem t).1)
unfolding take_elem
first_byte c t n = rw (n, take_elem) refl

-- The path behind its first slashes.
skip-first :
    (path name s : List ℕ)
    → skip_slashes path ≡ s
    → length name ≡ dirsiz
    → NoNul path
    → SkipEnds path (elim s as (λ _. Option (List ℕ × List ℕ)) [
      | [] ↦ none
      | c ∷ t ↦
          let (elem, rest) = take_elem (c ∷ t) in some (skip_slashes rest, store_name name elem)
    ])
unfolding elements_from
skip-first path name [] e l a = sym (elements-skip_slashes path) ∙ ap elements e
skip-first path name (c ∷ t) e l a =
    let b = subst NoNul e (NoNul-skip_slashes path a) in
    let n : (c == b'/') ≡ false =
      subst (λ p. (head0 p == b'/') ≡ false) e (trimmed-skip_slashes path) in
    let q = take_elem (c ∷ t) in
    let nul = NoNul-take_elem (c ∷ t) b in
    let eq = first_byte c t n in
    let m = shorter-skip_slashes q.1 in
    let m' = shorter-take_elem t in
    let k = shorter-skip_slashes path in
    let k' = ap length e in
    let k'' = ap (λ p. length p.1) eq in
    record {
      elem = q.0;
      split =
          sym (elements-skip_slashes path)
          ∙ ap elements e
          ∙ take_elem-elements_from [] (c ∷ t)
          ∙ subst (λ p. ended p.0 (elements p.1) ≡ p.0 ∷ elements p.1) (sym eq) refl
          ∙ ap (λ r. q.0 ∷ r) (sym (elements-skip_slashes q.1));
      name = key-store_name name q.0 l nul.0;
      same_size = length-store_name name q.0 l;
      trimmed = trimmed-skip_slashes q.1;
      shorter = omega arith;
      no_nul = NoNul-skip_slashes q.1 nul.1;
    }

-- skipelem of a path without NUL bytes, into a name of DIRSIZ bytes, as against the list of the
-- path's elements: it returns 0 exactly if there is none. Otherwise the name is the first element, cut
-- to DIRSIZ bytes, and the rest of the path has the other elements, is shorter and begins with no
-- slash.
pub skipelem_lem :
    (path name : List ℕ) → length name ≡ dirsiz → NoNul path → SkipEnds path (skipelem path name)
unfolding skipelem
skipelem_lem path name l a = skip-first path name (skip_slashes path) refl l a
