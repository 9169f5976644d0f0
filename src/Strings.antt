-- ===== src/Strings.antt =====
-- string.c. A string is the list of the bytes from a pointer to the end of its array; a read past
-- the end gives 0 and a write past it is lost, which the hypotheses of the laws rule out.
pub mod Copies
use lab7sp25_shelnutt.Base.{
  ℕ, zero, suc, ◌-◌, ◌&&◌, not, List, [], ◌∷◌, ◌==◌, if◌then◌else◌, ℤ, pos, negsuc, leb,
}

-- *p and p + 1.
abbrev pub head0 : List ℕ → ℕ
head0 [] = 0
head0 (x ∷ xs) = x

abbrev pub tail : List ℕ → List ℕ
tail [] = []
tail (x ∷ xs) = xs

-- *s = 0
abbrev pub put_nul : List ℕ → List ℕ
put_nul [] = []
put_nul (x ∷ xs) = 0 ∷ xs

-- The difference of two uchars, as an int.
abbrev pub byte_diff : ℕ → ℕ → ℤ
byte_diff a b = if leb b a then pos (a - b) else negsuc (b - a - 1)

unfoldable pub memcmp : List ℕ → List ℕ → ℕ → ℤ
memcmp s t zero = pos 0
memcmp s t (suc n) =
    if not (head0 s == head0 t) then byte_diff (head0 s) (head0 t) else memcmp (tail s) (tail t) n

unfoldable pub strncmp : List ℕ → List ℕ → ℕ → ℤ
strncmp p q zero = pos 0
strncmp p q (suc n) =
    if not (head0 p == 0) && (head0 p == head0 q)
    then strncmp (tail p) (tail q) n
    else byte_diff (head0 p) (head0 q)

-- The second loop of strncpy.
unfoldable pub zero_fill : List ℕ → ℕ → List ℕ
zero_fill s zero = s
zero_fill [] (suc n) = []
zero_fill (x ∷ xs) (suc n) = 0 ∷ zero_fill xs n

unfoldable pub strncpy : List ℕ → List ℕ → ℕ → List ℕ
unfolding zero_fill
strncpy s t zero = s
strncpy [] t (suc n) = []
strncpy (x ∷ xs) t (suc n) =
    head0 t ∷ (if head0 t == 0 then zero_fill xs n else strncpy xs (tail t) n)

-- The loop of safestrcpy, with `--n` bytes left.
unfoldable pub safe_copy : List ℕ → List ℕ → ℕ → List ℕ
safe_copy s t zero = put_nul s
safe_copy [] t (suc n) = []
safe_copy (x ∷ xs) t (suc n) =
    head0 t ∷ (if head0 t == 0 then put_nul xs else safe_copy xs (tail t) n)

unfoldable pub safestrcpy : List ℕ → List ℕ → ℕ → List ℕ
unfolding safe_copy
safestrcpy s t zero = s
safestrcpy s t (suc n) = safe_copy s t n

unfoldable pub strlen : List ℕ → ℕ
strlen [] = 0
strlen (x ∷ xs) = if x == 0 then 0 else suc (strlen xs)
