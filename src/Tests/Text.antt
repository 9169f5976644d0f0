-- ===== src/Tests/Text.antt =====
-- Numbers and formats.
use lab7sp25_shelnutt.Base.{ℕ, ◌+◌, ◌≡◌, refl, arith, true, List, [], ◌∷◌, ◌++◌, pos}
use lab7sp25_shelnutt.Printf.{printint, printf}
use lab7sp25_shelnutt.Printf.Digits.{atoi-printint}
use lab7sp25_shelnutt.Ulib.{atoi}
use lab7sp25_shelnutt.Console.{cprintf}
use lab7sp25_shelnutt.Console.Format.{cprintf-printf}

atoi-printint_example : atoi (printint 2025 10 true ++ b' ' ∷ []) ≡ pos 2025
atoi-printint_example = atoi-printint 2025 (b' ' ∷ []) (omega arith) refl

-- pid %d: %s
abbrev format : List ℕ
format = b'p' ∷ b'i' ∷ b'd' ∷ b' ' ∷ b'%' ∷ b'd' ∷ b':' ∷ b' ' ∷ b'%' ∷ b's' ∷ []

abbrev arg : ℕ → ℕ
arg n = n + 7

abbrev text : ℕ → List ℕ
text p = b's' ∷ b'h' ∷ []

cprintf-printf_example : cprintf arg text format ≡ printf arg text format
cprintf-printf_example = cprintf-printf arg text format (refl, refl, refl, (refl, refl, refl, tt))
