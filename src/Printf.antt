-- ===== src/Printf.antt =====
-- printf.c: the formatted output of the user library. A string is the list of its bytes before the
-- NUL; what putc writes to the file descriptor, in order, is a list too.
pub mod Digits
use mathlib.Core.List.{reverse}
use lab7sp25_shelnutt.Base.{
  ℕ, zero, suc, ◌+◌, ◌*◌, ◌/◌, ◌%◌, ◌^◌, Bool, true, false, ◌&&◌, ◌||◌, List, [], ◌∷◌, ◌++◌, ◌==◌,
  ltb, if◌then◌else◌, get_or, signed32, ℤ, pos, neg_part,
}

-- static char digits[]
abbrev pub digit_chars : List ℕ
digit_chars =
    b'0' ∷ b'1' ∷ b'2' ∷ b'3' ∷ b'4' ∷ b'5' ∷ b'6' ∷ b'7' ∷ b'8' ∷ b'9' ∷ b'A' ∷ b'B' ∷ b'C' ∷ b'D'
    ∷ b'E' ∷ b'F' ∷ []

-- The do-while loop of printint, which fills buf from the last digit on; `fuel` bounds its rounds.
unfoldable pub digits_from : List ℕ → ℕ → ℕ → ℕ → List ℕ
digits_from table base zero x = []
digits_from table base (suc fuel) x =
    let rest = digits_from table base fuel (x / base) in
    get_or table (x % base) 0 ∷ (if x / base == 0 then [] else rest)

-- What buf holds for the word `w` when the output begins, with the `table` of the digits.
unfoldable pub fill_buf : List ℕ → ℕ → ℕ → Bool → List ℕ
unfolding digits_from
fill_buf table w base sgn =
    let magnitude = neg_part (signed32 w) in
    if sgn && ltb 0 magnitude
    then digits_from table base (suc magnitude) magnitude ++ b'-' ∷ []
    else digits_from table base (suc w) w

unfoldable pub printint : ℕ → ℕ → Bool → List ℕ
unfolding fill_buf
printint w base sgn = reverse (fill_buf digit_chars w base sgn)

abbrev pub null_text : List ℕ
null_text = b'(' ∷ b'n' ∷ b'u' ∷ b'l' ∷ b'l' ∷ b')' ∷ []

-- `arg n` is the n-th word behind the format on the stack, and `text p` the string at a pointer.
module _ (arg : ℕ → ℕ) (text : ℕ → List ℕ) where
  abbrev pub text_or_null : ℕ → List ℕ
  text_or_null p = if p == 0 then null_text else text p

  -- The body of the loop of printf in the state '%', with the number of the next argument.
  unfoldable pub convert : ℕ → ℕ → List ℕ × ℕ
  unfolding printint
  convert c n =
      if c == b'd'
      then (printint (arg n) 10 true, n + 1)
      else if (c == b'x') || (c == b'p')
      then (printint (arg n) 16 false, n + 1)
      else if c == b's'
      then (text_or_null (arg n), n + 1)
      else if c == b'c'
      then ((arg n % 256) ∷ [], n + 1)
      else if c == b'%'
      then (c ∷ [], n)
      else (b'%' ∷ c ∷ [], n)

  -- The loop of printf: `state` says whether the last byte was a '%' that is still open.
  unfoldable pub printf_from : Bool → ℕ → List ℕ → List ℕ
  unfolding convert
  printf_from state n [] = []
  printf_from false n (c ∷ fmt) =
      let rest = printf_from (c == b'%') n fmt in if c == b'%' then rest else c ∷ rest
  printf_from true n (c ∷ fmt) = let (out, m) = convert c n in out ++ printf_from false m fmt

  unfoldable pub printf : List ℕ → List ℕ
  unfolding printf_from
  printf fmt = printf_from false 0 fmt
