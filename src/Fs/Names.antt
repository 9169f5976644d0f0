-- ===== src/Fs/Names.antt =====
-- namecmp compares the first DIRSIZ bytes of two strings.
use lab7sp25_shelnutt.Base.{
  ℕ, zero, suc, ◌≡◌, refl, ap, ◌∙◌, sym, true, false, List, [], ◌∷◌, ◌==◌, take, arith, Bool-cases,
  inl, inr, subst, ==_iff,
}
use lab7sp25_shelnutt.Strings.{head0, tail, byte_diff, strncmp}
use lab7sp25_shelnutt.Strings.Copies.{cstr, cstr_next}
use lab7sp25_shelnutt.Fs.{is_zero, dirsiz}

-- The name of an entry or a path element, as far as it counts.
abbrev pub key : List ℕ → List ℕ
key s = take dirsiz (cstr s)

is_zero-byte_diff : (a b : ℕ) → is_zero (byte_diff a b) ≡ (a == b)
is_zero-byte_diff a b = ground arith

-- The first bytes of a string that ends, and of one that goes on.
pub str_end : (n : ℕ) (p : List ℕ) → (head0 p == 0) ≡ true → take (suc n) (cstr p) ≡ []
str_end n p y = ap (take (suc n)) (cstr_next p) ∙ rw y refl

pub str_byte :
    (n : ℕ) (p : List ℕ)
    → (head0 p == 0) ≡ false
    → take (suc n) (cstr p) ≡ head0 p ∷ take n (cstr (tail p))
str_byte n p z = ap (take (suc n)) (cstr_next p) ∙ rw z refl

-- A step of strncmp.
cmp_end :
    (n : ℕ) (p q : List ℕ)
    → (head0 p == 0) ≡ true
    → is_zero (strncmp p q (suc n)) ≡ (head0 p == head0 q)
unfolding strncmp
cmp_end n p q y = rw (y, strncmp) (is_zero-byte_diff (head0 p) (head0 q))

cmp_same :
    (n : ℕ) (p q : List ℕ)
    → (head0 p == 0) ≡ false
    → (head0 p == head0 q) ≡ true
    → is_zero (strncmp p q (suc n)) ≡ is_zero (strncmp (tail p) (tail q) n)
unfolding strncmp
cmp_same n p q z y = rw (z, y, strncmp) refl

cmp_differ :
    (n : ℕ) (p q : List ℕ) → (head0 p == head0 q) ≡ false → is_zero (strncmp p q (suc n)) ≡ false
unfolding strncmp
cmp_differ n p q w = elim (Bool-cases (head0 p == 0)) [
  | inl y ↦ cmp_end n p q y ∙ w
  | inr z ↦ rw (z, w, strncmp) (is_zero-byte_diff (head0 p) (head0 q) ∙ w)
]

pub strncmp-take :
    (n : ℕ) (p q : List ℕ) → is_zero (strncmp p q n) ≡ true → take n (cstr p) ≡ take n (cstr q)
strncmp-take zero p q h = refl
strncmp-take (suc n) p q h = elim (Bool-cases (head0 p == head0 q)) [
  | inl e ↦
      let same = (==_iff (head0 p) (head0 q)).0 e in
      elim (Bool-cases (head0 p == 0)) [
        | inl y ↦ str_end n p y ∙ sym (str_end n q (subst (λ x. (x == 0) ≡ true) same y))
        | inr z ↦
            let ih = strncmp-take n (tail p) (tail q) (sym (cmp_same n p q z e) ∙ h) in
            str_byte n p z
            ∙ ap (λ t. head0 p ∷ t) ih
            ∙ ap (λ x. x ∷ take n (cstr (tail q))) same
            ∙ sym (str_byte n q (subst (λ x. (x == 0) ≡ false) same z))
      ]
  | inr w ↦ let f = sym (cmp_differ n p q w) ∙ h in ground arith
]

pub take-strncmp :
    (n : ℕ) (p q : List ℕ) → take n (cstr p) ≡ take n (cstr q) → is_zero (strncmp p q n) ≡ true
unfolding strncmp
take-strncmp zero p q h = refl
take-strncmp (suc n) p q h = elim (Bool-cases (head0 p == 0)) [
  | inl y ↦ elim (Bool-cases (head0 q == 0)) [
    | inl k ↦ cmp_end n p q y ∙ ground arith
    | inr k ↦
        let f : [] ≡ head0 q ∷ take n (cstr (tail q)) = sym (str_end n p y) ∙ h ∙ str_byte n q k in
        ground arith
  ]
  | inr z ↦ elim (Bool-cases (head0 q == 0)) [
    | inl k ↦
        let f : head0 p ∷ take n (cstr (tail p)) ≡ [] = sym (str_byte n p z) ∙ h ∙ str_end n q k in
        ground arith
    | inr k ↦
        let f : head0 p ∷ take n (cstr (tail p)) ≡ head0 q ∷ take n (cstr (tail q)) =
          sym (str_byte n p z) ∙ h ∙ str_byte n q k in
        let e = (==_iff (head0 p) (head0 q)).1 (ap head0 f) in
        cmp_same n p q z e ∙ take-strncmp n (tail p) (tail q) (ap tail f)
  ]
]
