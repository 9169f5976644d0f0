-- ===== src/Strings/Copies.antt =====
-- What the copying functions of string.c leave in the array.
use lab7sp25_shelnutt.Base.{
  ℕ, zero, suc, ◌-◌, ◌≤◌, ◌<◌, ◌≡◌, refl, ap, List, [], ◌∷◌, ◌++◌, ◌==◌, if◌then◌else◌, length,
  take, drop, replicate, arith, Bool-cases, inl, inr,
}
use lab7sp25_shelnutt.Strings.{head0, tail, put_nul, zero_fill, strncpy, safe_copy, safestrcpy}

-- The string that begins at the start of an array.
pub cstr : List ℕ → List ℕ
cstr [] = []
cstr (x ∷ xs) = let rest = cstr xs in if x == 0 then [] else x ∷ rest

-- A string, from its first byte on.
pub cstr_next : (p : List ℕ) → cstr p ≡ (if head0 p == 0 then [] else head0 p ∷ cstr (tail p))
unfolding cstr
cstr_next [] = refl
cstr_next (x ∷ p) = refl

cstr-put_nul : (s : List ℕ) → cstr (put_nul s) ≡ []
unfolding cstr
cstr-put_nul [] = refl
cstr-put_nul (x ∷ xs) = refl

length-put_nul : (s : List ℕ) → length (put_nul s) ≡ length s
length-put_nul [] = refl
length-put_nul (x ∷ xs) = refl

drop-put_nul : (n : ℕ) (s : List ℕ) → drop (suc n) (put_nul s) ≡ drop (suc n) s
drop-put_nul n [] = refl
drop-put_nul n (x ∷ xs) = refl

-- A copy into the first `n + 1` bytes of an array.
pub record Copied (s t : List ℕ) (n : ℕ) (s' : List ℕ) : Type 0 where
  pub text : cstr s' ≡ take n (cstr t)
  pub same_length : length s' ≡ length s
  pub beyond : drop (suc n) s' ≡ drop (suc n) s

safe_copy-Copied : (s t : List ℕ) (n : ℕ) → n < length s → Copied s t n (safe_copy s t n)
unfolding safe_copy cstr
safe_copy-Copied s t zero l = record {
  text = cstr-put_nul s;
  same_length = length-put_nul s;
  beyond = drop-put_nul 0 s;
}
safe_copy-Copied [] t (suc n) l = absurd (omega arith)
safe_copy-Copied (x ∷ s) [] (suc n) l = record {
  text = refl;
  same_length = ap suc (length-put_nul s);
  beyond = drop-put_nul n s;
}
safe_copy-Copied (x ∷ s) (y ∷ t) (suc n) l = elim (Bool-cases (y == 0)) [
  | inl h ↦ record {
    text = rw h refl;
    same_length = rw h (ap suc (length-put_nul s));
    beyond = rw h (drop-put_nul n s);
  }
  | inr h ↦
      let ih = safe_copy-Copied s t n (omega arith) in
      record {
        text = rw h (ap (λ r. y ∷ r) ih.text);
        same_length = rw h (ap suc ih.same_length);
        beyond = rw h ih.beyond;
      }
]

-- safestrcpy of at most n bytes into an array that has them: the array then holds a string, which is
-- the source string cut to n - 1 bytes; it keeps its length, and its bytes from the n-th on.
pub safestrcpy_lem :
    (s t : List ℕ) (n : ℕ) → 0 < n → n ≤ length s → Copied s t (n - 1) (safestrcpy s t n)
unfolding safestrcpy
safestrcpy_lem s t zero some_room l = absurd (omega arith)
safestrcpy_lem s t (suc n) some_room l =
    let e : suc n - 1 ≡ n = omega arith in rw e (safe_copy-Copied s t n (omega arith))

drop-zero_fill : (s : List ℕ) (n : ℕ) → n ≤ length s → zero_fill s n ≡ replicate n 0 ++ drop n s
unfolding zero_fill
drop-zero_fill s zero l = refl
drop-zero_fill [] (suc n) l = absurd (omega arith)
drop-zero_fill (x ∷ s) (suc n) l = ap (λ r. 0 ∷ r) (drop-zero_fill s n (omega arith))

-- strncpy into an array that has n bytes: its first n bytes become the source string cut to n bytes,
-- filled up with NUL bytes, and the others stay. If the source has n bytes or more, there is no NUL.
pub strncpy_lem :
    (s t : List ℕ) (n : ℕ)
    → n ≤ length s
    → let copied = take n (cstr t) in
      strncpy s t n ≡ copied ++ (replicate (n - length copied) 0 ++ drop n s)
unfolding strncpy cstr
strncpy_lem s t zero l = refl
strncpy_lem [] t (suc n) l = absurd (omega arith)
strncpy_lem (x ∷ s) [] (suc n) l =
    let e : suc n - 0 ≡ suc n = omega arith in
    rw e (ap (λ r. 0 ∷ r) (drop-zero_fill s n (omega arith)))
strncpy_lem (x ∷ s) (y ∷ t) (suc n) l = elim (Bool-cases (y == 0)) [
  | inl h ↦ rw h (ground (arith, drop-zero_fill s n (omega arith)))
  | inr h ↦
      let e : suc n - suc (length (take n (cstr t))) ≡ n - length (take n (cstr t)) = omega arith in
      rw (h, e) (ap (λ r. y ∷ r) (strncpy_lem s t n (omega arith)))
]
