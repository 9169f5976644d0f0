-- ===== src/Fs/Content/Ranges.antt =====
-- The offsets that a round of writei and the rounds after it reach.
use lab7sp25_shelnutt.Base.{
  ℕ, zero, suc, ◌+◌, ◌-◌, ◌/◌, ◌%◌, ◌≤◌, ◌<◌, ◌≡◌, refl, ap, ◌∙◌, sym, true, false, ◌&&◌, ◌||◌,
  List, [], ◌∷◌, ◌++◌, ◌==◌, ltb, leb, min, get_or, length, drop, arith, Bool-cases, inl, inr,
}
use lab7sp25_shelnutt.Fs.{bsize}
use lab7sp25_shelnutt.Fs.Content.Given.{among}
use lab7sp25_shelnutt.Fs.Content.Round.{block_with, bytes_with, if_true, if_false}

pub length-drop : (n : ℕ) (xs : List ℕ) → length (drop n xs) ≡ length xs - n
length-drop zero xs = omega arith
length-drop (suc n) [] = omega arith
length-drop (suc n) (x ∷ xs) = omega (arith, length-drop n xs)

pub get_or-drop : (n i : ℕ) (xs : List ℕ) → get_or (drop n xs) i 0 ≡ get_or xs (n + i) 0
get_or-drop zero i xs = let e : i ≡ 0 + i = omega arith in ap (λ j. get_or xs j 0) e
get_or-drop (suc n) i [] = refl
get_or-drop (suc n) i (x ∷ xs) =
    let e : suc (n + i) ≡ suc n + i = omega arith in
    get_or-drop n i xs ∙ ap (λ j. get_or (x ∷ xs) j 0) e

pub inside : (a x n : ℕ) → a ≤ x → x < a + n → (leb a x && ltb x (a + n)) ≡ true
inside a x n h k = ground arith

pub among-append : (xs ys : List ℕ) (j : ℕ) → among (xs ++ ys) j ≡ among xs j || among ys j
among-append [] ys j = refl
among-append (x ∷ xs) ys j = ground (arith, among-append xs ys j)

-- How many bytes of xs go to the block of the offset.
abbrev pub part : ℕ → List ℕ → ℕ
part off xs = min (length xs) (bsize - off % bsize)

-- An offset neither in the block's part nor behind it is not among the bytes.
elsewhere_too :
    (off x n r : ℕ)
    → r ≡ n - min n (bsize - off % bsize)
    → (leb (off + min n (bsize - off % bsize)) x && ltb x (off + min n (bsize - off % bsize) + r))
      ≡ false
    → ((x / bsize == off / bsize)
        && (leb (off % bsize) (x % bsize)
            && ltb (x % bsize) (off % bsize + min n (bsize - off % bsize))))
      ≡ false
    → (leb off x && ltb x (off + n)) ≡ false
elsewhere_too off x n r e a b = elim (Bool-cases (leb off x && ltb x (off + n))) [
  | inr z ↦ z
  | inl y ↦
      let lo : off ≤ x = ground arith in
      let hi : x < off + n = ground arith in
      elim (Bool-cases (leb (off + min n (bsize - off % bsize)) x)) [
        | inl c ↦
            let c' : off + min n (bsize - off % bsize) ≤ x = ground arith in
            let t = inside (off + min n (bsize - off % bsize)) x r c' (omega arith) in
            let f = sym a ∙ t in ground arith
        | inr c ↦
            let c' : x < off + min n (bsize - off % bsize) = ground arith in
            let p : x / bsize ≡ off / bsize = omega arith in
            let lo' : off % bsize ≤ x % bsize = omega arith in
            let hi' : x % bsize < off % bsize + min n (bsize - off % bsize) = omega arith in
            ground (arith, p, lo', hi')
      ]
]

-- The bytes of one block, then those of the blocks after it.
pub join :
    (off : ℕ) (xs : List ℕ) (x old one two : ℕ)
    → two ≡ bytes_with (off + part off xs) (drop (part off xs) xs) one x
    → one ≡ block_with (off / bsize) (off % bsize) (part off xs) xs old x
    → two ≡ bytes_with off xs old x
join off xs x old one two rest here =
    let k = part off xs in
    let len = length-drop k xs in
    elim (Bool-cases (leb (off + k) x && ltb x (off + k + length (drop k xs)))) [
      | inl y ↦
          let lo : off + k ≤ x = ground arith in
          let hi : x < off + k + length (drop k xs) = ground arith in
          let i : k + (x - (off + k)) ≡ x - off = omega (arith, lo) in
          let c = inside off x (length xs) (omega (arith, lo)) (omega (arith, len, lo, hi)) in
          rest
          ∙ if_true _ _ y
          ∙ get_or-drop k (x - (off + k)) xs
          ∙ ap (λ j. get_or xs j 0) i
          ∙ sym (if_true _ _ c)
      | inr z ↦
          let one' = rest ∙ if_false _ _ z ∙ here in
          elim (Bool-cases (
            (x / bsize == off / bsize)
            && (leb (off % bsize) (x % bsize) && ltb (x % bsize) (off % bsize + k)))) [
              | inl y ↦
                  let e : x / bsize ≡ off / bsize = ground arith in
                  let lo : off % bsize ≤ x % bsize = ground arith in
                  let hi : x % bsize < off % bsize + k = ground arith in
                  let i : x % bsize - off % bsize ≡ x - off = omega (arith, e, lo) in
                  let c =
                    inside off x (length xs) (omega (arith, e, lo)) (omega (arith, e, lo, hi)) in
                  one' ∙ if_true _ _ y ∙ ap (λ j. get_or xs j 0) i ∙ sym (if_true _ _ c)
              | inr w ↦
                  one'
                  ∙ if_false _ _ w
                  ∙ sym
                      (if_false _ _ (elsewhere_too off x (length xs) (length (drop k xs)) len z w))
            ]
    ]
