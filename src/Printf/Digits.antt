-- ===== src/Printf/Digits.antt =====
-- The digits of printint: how many there are, and reading them back with atoi.
use mathlib.Core.List.{reverse, reverse-cons}
use lab7sp25_shelnutt.Base.{
  ℕ, zero, suc, ◌+◌, ◌-◌, ◌*◌, ◌/◌, ◌%◌, ◌^◌, ◌≤◌, ◌<◌, ◌≡◌, refl, ap, ◌∙◌, Bool, true, false, ◌&&◌,
  List, [], ◌∷◌, ◌++◌, append_assoc, ◌==◌, ltb, get_or, signed32, pos, neg_part, arith, length,
  length-append, Bool-cases, inl, inr,
}
use lab7sp25_shelnutt.Strings.{head0}
use lab7sp25_shelnutt.Printf.{digit_chars, digits_from, fill_buf, printint}
use lab7sp25_shelnutt.Ulib.{is_digit, atoi_from, atoi}

-- The character of a decimal digit.
decimal : (d : ℕ) → d < 10 → get_or digit_chars d 0 ≡ d + b'0'
decimal zero h = refl
decimal (suc zero) h = refl
decimal (suc (suc zero)) h = refl
decimal (suc (suc (suc zero))) h = refl
decimal (suc (suc (suc (suc zero)))) h = refl
decimal (suc (suc (suc (suc (suc zero))))) h = refl
decimal (suc (suc (suc (suc (suc (suc zero)))))) h = refl
decimal (suc (suc (suc (suc (suc (suc (suc zero))))))) h = refl
decimal (suc (suc (suc (suc (suc (suc (suc (suc zero)))))))) h = refl
decimal (suc (suc (suc (suc (suc (suc (suc (suc (suc zero))))))))) h = refl
decimal (suc (suc (suc (suc (suc (suc (suc (suc (suc (suc d)))))))))) h = absurd (omega arith)

-- One step of atoi on a decimal digit.
atoi_digit :
    (x d : ℕ) (rest : List ℕ)
    → d < 10
    → x * 10 + d < 2 ^ 32
    → atoi_from x (get_or digit_chars d 0 ∷ rest) ≡ atoi_from (x * 10 + d) rest
unfolding atoi_from
atoi_digit x d rest h b =
    let e = decimal d h in
    let v : (x * 10 + (d + b'0') - b'0') % 2 ^ 32 ≡ x * 10 + d = omega arith in
    let t : is_digit (d + b'0') ≡ true = ground arith in rw (e, t, v, atoi_from) refl

-- atoi reads the digits of `x` in front of any text.
atoi-digits :
    (fuel x : ℕ) (rest : List ℕ)
    → x < fuel
    → x < 2 ^ 32
    → atoi_from 0 (reverse (digits_from digit_chars 10 fuel x) ++ rest) ≡ atoi_from x rest
unfolding digits_from
atoi-digits zero x rest f b = absurd (omega arith)
atoi-digits (suc fuel) x rest f b =
    let d = get_or digit_chars (x % 10) 0 in
    elim (Bool-cases (x / 10 == 0)) [
      | inl y ↦
          let e : 0 * 10 + x % 10 ≡ x = ground arith in
          rw y
            (atoi_digit 0 (x % 10) rest (omega arith) (omega arith) ∙ ap (λ n. atoi_from n rest) e)
      | inr n ↦
          let e : x / 10 * 10 + x % 10 ≡ x = omega arith in
          let ds = digits_from digit_chars 10 fuel (x / 10) in
          let moved : reverse (d ∷ ds) ++ rest ≡ reverse ds ++ (d ∷ rest) =
            rw (reverse-cons d ds, append_assoc) refl in
          let ih = atoi-digits fuel (x / 10) (d ∷ rest) (ground arith) (omega arith) in
          rw n (
            ap (atoi_from 0) moved
            ∙ ih
            ∙ atoi_digit (x / 10) (x % 10) rest (omega arith) (omega arith)
            ∙ ap (λ m. atoi_from m rest) e)
    ]

-- What follows the number does not continue it.
atoi_stop : (x : ℕ) (rest : List ℕ) → is_digit (head0 rest) ≡ false → atoi_from x rest ≡ x
unfolding atoi_from
atoi_stop x [] h = refl
atoi_stop x (c ∷ rest) h = rw h

-- atoi reads back what printint prints in base 10 of an int that is not negative, whatever text
-- follows, as long as that does not begin with a digit.
pub atoi-printint :
    (x : ℕ) (rest : List ℕ)
    → x < 2 ^ 31
    → is_digit (head0 rest) ≡ false
    → atoi (printint x 10 true ++ rest) ≡ pos x
unfolding atoi printint fill_buf
atoi-printint x rest b h =
    let s : signed32 x ≡ pos x = ground arith in
    let e : fill_buf digit_chars x 10 true ≡ digits_from digit_chars 10 (suc x) x = rw s refl in
    rw (e) (
      ap signed32 (atoi-digits (suc x) x rest (omega arith) (omega arith) ∙ atoi_stop x rest h) ∙ s)

-- A number below the k-th power of the base has at most k digits; `m` is that power.
power : ℕ → ℕ → ℕ
power b zero = 1
power b (suc k) = b * power b k

div_ten : (b x : ℕ) → 10 ≤ b → 10 * (x / b) ≤ x
div_ten b x h = grind arith

length-digits_from :
    (table : List ℕ) (b fuel k x : ℕ)
    → 10 ≤ b
    → x < power 10 (suc k)
    → length (digits_from table b fuel x) ≤ suc k
unfolding digits_from power
length-digits_from table b zero k x t h = omega arith
length-digits_from table b (suc fuel) zero x t h =
    let z : x / b ≡ 0 = omega (arith, div_ten b x t) in ground (arith, z)
length-digits_from table b (suc fuel) (suc k) x t h =
    let ih = length-digits_from table b fuel k (x / b) t (omega (arith, div_ten b x t)) in
    elim (Bool-cases (x / b == 0)) [ inl y ↦ rw y (omega arith) | inr n ↦ rw n (omega (arith, ih)) ]

ten_digits : 2 ^ 32 ≤ power 10 10
unfolding power
ten_digits = omega arith

-- buf of printint has 16 bytes. For each word, in base 10 or a larger one, with a sign or without, the
-- loops store at most 11 bytes, so no store is past its end.
pub length-fill_buf :
    (table : List ℕ) (w base : ℕ) (sgn : Bool)
    → w < 2 ^ 32
    → 10 ≤ base
    → length (fill_buf table w base sgn) ≤ 11
unfolding fill_buf
length-fill_buf table w base sgn b t =
    let magnitude = neg_part (signed32 w) in
    let small : magnitude < 2 ^ 32 = ground arith in
    let p = ten_digits in
    elim (Bool-cases (sgn && ltb 0 magnitude)) [
      | inr n ↦
          rw (n, fill_buf)
            (omega (arith, length-digits_from table base (suc w) 9 w t (omega arith)))
      | inl y ↦
          rw (y, fill_buf)
            (omega (
              arith,
              length-append (digits_from table base (suc magnitude) magnitude) (b'-' ∷ []),
              length-digits_from table base (suc magnitude) 9 magnitude t (omega arith),
            ))
    ]
