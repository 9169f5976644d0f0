-- ===== src/Console/Format.antt =====
-- cprintf of the kernel beside printf of the user library.
use mathlib.Core.List.{reverse}
use lab7sp25_shelnutt.Base.{
  ℕ, zero, suc, ◌/◌, ◌%◌, ◌<◌, ◌≡◌, refl, ap, ◌∙◌, sym, Bool, true, false, ◌&&◌, List, [], ◌∷◌,
  ◌++◌, ◌==◌, ltb, get_or, take, drop, length, subst, signed32, neg_part, arith, Bool-cases, inl,
  inr, ==_iff,
}
use lab7sp25_shelnutt.Printf
use lab7sp25_shelnutt.Printf.{digits_from, fill_buf, printf_from, printf, text_or_null}
use lab7sp25_shelnutt.Console.{digit_chars, printint, convert, cprintf_from, cprintf}

get_or-front : (xs ys : List ℕ) (i : ℕ) → i < length xs → get_or (xs ++ ys) i 0 ≡ get_or xs i 0
get_or-front [] ys i h = absurd (omega arith)
get_or-front (x ∷ xs) ys zero h = refl
get_or-front (x ∷ xs) ys (suc i) h = get_or-front xs ys i (omega arith)

same_digit : (d : ℕ) → d < 10 → get_or digit_chars d 0 ≡ get_or Printf.digit_chars d 0
same_digit d h =
    get_or-front (take 10 digit_chars) (drop 10 digit_chars) d h
    ∙ sym (get_or-front (take 10 digit_chars) (drop 10 Printf.digit_chars) d h)

same_digits :
    (fuel x : ℕ) → digits_from digit_chars 10 fuel x ≡ digits_from Printf.digit_chars 10 fuel x
unfolding digits_from
same_digits zero x = refl
same_digits (suc fuel) x = rw (same_digit (x % 10) (omega arith), same_digits fuel (x / 10)) refl

same_fill :
    (w : ℕ) (sgn : Bool) → fill_buf digit_chars w 10 sgn ≡ fill_buf Printf.digit_chars w 10 sgn
unfolding fill_buf
same_fill w sgn =
    let m = neg_part (signed32 w) in
    elim (Bool-cases (sgn && ltb 0 m)) [
      | inl y ↦ rw (y, fill_buf) (ap (λ ds. ds ++ b'-' ∷ []) (same_digits (suc m) m))
      | inr n ↦ rw (n, fill_buf) (same_digits (suc w) w)
    ]

same_printint : (w : ℕ) (sgn : Bool) → printint w 10 sgn ≡ Printf.printint w 10 sgn
unfolding printint Printf.printint
same_printint w sgn = ap reverse (same_fill w sgn)

-- The format has no conversion that is not the same in both: after an open '%' stands no 'x', 'p' or
-- 'c'. The first argument says whether a '%' is open.
abbrev pub Common : Bool → List ℕ → Type 0
Common state [] = Unit {0}
Common false (c ∷ fmt) = Common (c == b'%') fmt
Common true (c ∷ fmt) =
    ((c == b'x') ≡ false) × ((c == b'p') ≡ false) × ((c == b'c') ≡ false) × Common false fmt

module _ (arg : ℕ → ℕ) (text : ℕ → List ℕ) where
  same_convert :
      (c n : ℕ)
      → (c == b'x') ≡ false
      → (c == b'p') ≡ false
      → (c == b'c') ≡ false
      → convert arg text c n ≡ Printf.convert arg text c n
  unfolding convert Printf.convert
  same_convert c n x p h =
      rw (x, p, h, same_printint (arg n) true)
        (elim (Bool-cases (c == b'%')) [
          | inl y ↦ let e = (==_iff c b'%').0 y in rw e refl
          | inr z ↦ rw z refl
        ])

  same_from :
      (n : ℕ) (fmt : List ℕ)
      → Common false fmt
      → cprintf_from arg text n fmt ≡ printf_from arg text false n fmt
  unfolding cprintf_from printf_from
  same_from n [] h = refl
  same_from n (c ∷ []) h = refl
  same_from n (c ∷ d ∷ fmt) h = elim (Bool-cases (c == b'%')) [
    | inl y ↦
        let (x, p, k, rest) : Common true (d ∷ fmt) = subst (λ b. Common b (d ∷ fmt)) y h in
        let r = convert arg text d n in
        rw (y, cprintf_from)
          (ap (λ m. r.0 ++ m) (same_from r.1 fmt rest)
            ∙ ap (λ q. q.0 ++ printf_from arg text false q.1 fmt) (same_convert d n x p k))
    | inr z ↦
        rw (z, cprintf_from)
          (ap (λ m. c ∷ m) (same_from n (d ∷ fmt) (subst (λ b. Common b (d ∷ fmt)) z h)))
  ]

  -- On a format whose conversions are %d, %s, %% and those that neither knows, cprintf of the kernel
  -- puts out what printf of the user library does, also where the format ends in an open '%'.
  pub cprintf-printf :
      (fmt : List ℕ) → Common false fmt → cprintf arg text fmt ≡ printf arg text fmt
  unfolding cprintf printf
  cprintf-printf fmt h = same_from 0 fmt h
