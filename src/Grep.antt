-- ===== src/Grep.antt =====
-- grep.c: the matcher of regular expressions. A C string is the list of its bytes before the NUL, so
-- that reading the NUL is the case of the empty list.
pub mod Language
use lab7sp25_shelnutt.Base.{ℕ, Bool, true, false, ◌&&◌, ◌||◌, List, [], ◌∷◌, ◌==◌, if◌then◌else◌}

-- The test of matchhere and of matchstar on a byte of the text.
abbrev pub accepts : ℕ → ℕ → Bool
accepts c t = (c == b'.') || (c == t)

-- matchstar, with matchhere for the rest of the expression as `here`.
unfoldable pub matchstar : ℕ → (List ℕ → Bool) → List ℕ → Bool
matchstar c here [] = here []
matchstar c here (t ∷ text) =
    let rest = matchstar c here text in if here (t ∷ text) then true else accepts c t && rest

-- The last test of matchhere, with the recursive call as `next`.
unfoldable pub match_byte : ℕ → (List ℕ → Bool) → List ℕ → Bool
match_byte c next [] = false
match_byte c next (t ∷ text) = accepts c t && next text

abbrev pub at_end : List ℕ → Bool
at_end [] = true
at_end (t ∷ text) = false

unfoldable pub matchhere : List ℕ → List ℕ → Bool
unfolding matchstar match_byte
matchhere [] text = true
matchhere (c ∷ []) text = if c == b'$' then at_end text else match_byte c (λ _. true) text
matchhere (c ∷ d ∷ re) text =
    if d == b'*' then matchstar c (matchhere re) text else match_byte c (matchhere (d ∷ re)) text

-- The loop of match.
unfoldable pub search_from : List ℕ → List ℕ → Bool
unfolding matchhere
search_from re [] = matchhere re []
search_from re (t ∷ text) =
    let rest = search_from re text in if matchhere re (t ∷ text) then true else rest

unfoldable pub match : List ℕ → List ℕ → Bool
unfolding matchhere search_from
match [] text = search_from [] text
match (c ∷ re) text = if c == b'^' then matchhere re text else search_from (c ∷ re) text
