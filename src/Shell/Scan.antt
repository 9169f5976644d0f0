-- ===== src/Shell/Scan.antt =====
-- How far the scanner of sh.c moves through the text.
use lab7sp25_shelnutt.Base.{
  ℕ, ◌≤◌, ◌<◌, ◌≡◌, true, false, ◌&&◌, not, List, [], ◌∷◌, ◌==◌, length, arith, Bool-cases, inl,
  inr,
}
use lab7sp25_shelnutt.Strings.{head0, tail}
use lab7sp25_shelnutt.Shell.{
  contains, is_space, in_word, skip_space, take_word, token_at, gettoken, peek,
}

length-skip_space : (s : List ℕ) → length (skip_space s) ≤ length s
unfolding skip_space
length-skip_space [] = omega arith
length-skip_space (c ∷ s) =
    let ih = length-skip_space s in
    elim (Bool-cases (is_space c)) [ inl h ↦ rw h (omega arith) | inr h ↦ rw h (omega arith) ]

length-take_word : (s : List ℕ) → length (take_word s).1 ≤ length s
unfolding take_word
length-take_word [] = omega arith
length-take_word (c ∷ s) =
    let ih = length-take_word s in
    elim (Bool-cases (in_word c)) [ inl h ↦ rw h (omega arith) | inr h ↦ rw h (omega arith) ]

length-tail : (s : List ℕ) → length (tail s) ≤ length s
length-tail [] = omega arith
length-tail (c ∷ s) = omega arith

-- The bytes that end a token stand in symbols.
in_word_lem :
    (c : ℕ)
    → is_space c ≡ false
    → contains (b'|' ∷ b'(' ∷ b')' ∷ b';' ∷ b'&' ∷ b'<' ∷ []) c ≡ false
    → (c == b'>') ≡ false
    → in_word c ≡ true
in_word_lem c sp h g = ground arith

length-token_at :
    (c : ℕ) (s : List ℕ) → is_space c ≡ false → length (token_at (c ∷ s)).rest ≤ length s
unfolding token_at take_word
length-token_at c s sp =
    let l = length-tail s in
    let w = length-take_word s in
    elim (Bool-cases (contains (b'|' ∷ b'(' ∷ b')' ∷ b';' ∷ b'&' ∷ b'<' ∷ []) c)) [
      | inl h ↦ rw h (omega arith)
      | inr h ↦ elim (Bool-cases (c == b'>')) [
        | inl g ↦ elim (Bool-cases (head0 s == b'>')) [
          | inl k ↦ rw (h, g, k) l
          | inr k ↦ rw (h, g, k) (omega arith)
        ]
        | inr g ↦ rw (h, g, in_word_lem c sp h g) w
      ]
    ]

-- The token behind white space leaves no more of the text.
length-token_at-skip_space : (s : List ℕ) → length (token_at (skip_space s)).rest ≤ length s
unfolding skip_space token_at
length-token_at-skip_space [] = omega arith
length-token_at-skip_space (c ∷ s) =
    let ih = length-token_at-skip_space s in
    elim (Bool-cases (is_space c)) [
      | inl h ↦ rw (h, skip_space) (omega arith)
      | inr h ↦ let l = length-token_at c s h in rw (h, skip_space) (omega arith)
    ]

-- A token takes a byte of the text at least.
pub gettoken-shrinks : (c : ℕ) (s : List ℕ) → length (gettoken (c ∷ s)).rest ≤ length s
unfolding gettoken skip_space
gettoken-shrinks c s = elim (Bool-cases (is_space c)) [
  | inl h ↦
      let t = length-token_at-skip_space s in
      let r = length-skip_space (token_at (skip_space s)).rest in rw h (omega arith)
  | inr h ↦
      let t = length-token_at c s h in
      let r = length-skip_space (token_at (c ∷ s)).rest in rw h (omega arith)
]

pub length-gettoken : (s : List ℕ) → length (gettoken s).rest ≤ length s
unfolding gettoken skip_space
length-gettoken [] = length-skip_space []
length-gettoken (c ∷ s) = let l = gettoken-shrinks c s in omega arith

pub length-peek : (s toks : List ℕ) → length (peek s toks).1 ≤ length s
unfolding peek
length-peek s toks = length-skip_space s

more-gettoken :
    (s toks : List ℕ)
    → (not (head0 s == 0) && contains toks (head0 s)) ≡ true
    → length (gettoken s).rest < length s
more-gettoken [] toks h = ground arith
more-gettoken (c ∷ s) toks h = let l = gettoken-shrinks c s in omega arith

-- A byte that peek finds is taken by the next gettoken.
pub peek-gettoken :
    (s toks : List ℕ)
    → (peek s toks).0 ≡ true
    → length (gettoken (peek s toks).1).rest < length (peek s toks).1
unfolding peek
peek-gettoken s toks h = more-gettoken (skip_space s) toks h

-- So is every token but the end of the text.
pub ret-gettoken :
    (s : List ℕ) → ((gettoken s).ret == 0) ≡ false → length (gettoken s).rest < length s
unfolding gettoken
ret-gettoken [] h = ground arith
ret-gettoken (c ∷ s) h = let l = gettoken-shrinks c s in omega arith
