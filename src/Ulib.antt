-- ===== src/Ulib.antt =====
-- ulib.c: the string functions of the user library. A string is the list of the bytes from a pointer
-- on; past its end a read gives 0.
use lab7sp25_shelnutt.Base.{
  ℕ, ◌+◌, ◌-◌, ◌*◌, ◌%◌, ◌^◌, Bool, ◌&&◌, not, List, [], ◌∷◌, ◌==◌, leb, if◌then◌else◌, ℤ, signed32,
  Option, none, some,
}
use lab7sp25_shelnutt.Strings.{head0, tail, byte_diff}

unfoldable pub strcmp : List ℕ → List ℕ → ℤ
strcmp [] q = byte_diff 0 (head0 q)
strcmp (x ∷ p) q =
    let rest = strcmp p (tail q) in
    if not (x == 0) && (x == head0 q) then rest else byte_diff x (head0 q)

-- strchr; the pointer that it returns is the rest of the string.
unfoldable pub strchr : List ℕ → ℕ → Option (List ℕ)
strchr [] c = none
strchr (x ∷ s) c =
    let rest = strchr s c in if x == 0 then none else if x == c then some (x ∷ s) else rest

abbrev pub is_digit : ℕ → Bool
is_digit c = leb b'0' c && leb c b'9'

-- The loop of atoi on an int; it wraps as a word.
unfoldable pub atoi_from : ℕ → List ℕ → ℕ
atoi_from n [] = n
atoi_from n (c ∷ s) =
    let rest = atoi_from ((n * 10 + c - b'0') % 2 ^ 32) s in if is_digit c then rest else n

unfoldable pub atoi : List ℕ → ℤ
unfolding atoi_from
atoi s = signed32 (atoi_from 0 s)
