-- ===== src/Vm/Bytes.antt =====
-- The bytes at the addresses of the user.
use lab7sp25_shelnutt.Base.{
  ℕ, zero, suc, ◌+◌, ◌-◌, ◌*◌, ◌/◌, ◌%◌, ◌≤◌, ◌<◌, ◌≡◌, ◌≢◌, refl, ap, ◌∙◌, sym, Bool, true, false,
  ◌&&◌, List, [], ◌∷◌, ◌==◌, ltb, leb, if◌then◌else◌, arith, Bool-cases, inl, inr, length, drop,
  get_or, min,
}
use lab7sp25_shelnutt.Kalloc.{pgsize, kernbase}
use lab7sp25_shelnutt.Vm.{Mem, Vm, is_present, is_user}
use lab7sp25_shelnutt.Vm.Space.{page_of, entry}
use lab7sp25_shelnutt.Vm.Entries.{not_true}
use lab7sp25_shelnutt.Vm.User.{copy_in}

-- The byte at a user address.
abbrev pub user_byte : Vm → ℕ → ℕ → ℕ
user_byte vm d x = vm.mem (page_of (entry vm d (x / pgsize))) (x % pgsize)

-- The bytes `buf` from the address va on, and the memory elsewhere.
abbrev pub byte_with : ℕ → List ℕ → Vm → ℕ → ℕ → ℕ
byte_with va buf vm d x =
    if leb va x && ltb x (va + length buf) then get_or buf (x - va) 0 else user_byte vm d x

-- The pages of the bytes are the user's.
abbrev pub AreUser : ℕ → ℕ → List ℕ → Vm → Type 0
AreUser d va buf vm =
    (n : ℕ)
    → va / pgsize ≤ n
    → n * pgsize < va + length buf
    → (is_present (entry vm d n) ≡ true) × (is_user (entry vm d n) ≡ true)

pub copy_in-other :
    (p from n : ℕ) (xs : List ℕ) (m : Mem) (q j : ℕ) → q ≢ p → copy_in p from n xs m q j ≡ m q j
copy_in-other p from n xs m q j h = ground arith

pub length-drop : (n : ℕ) (xs : List ℕ) → length (drop n xs) ≡ length xs - n
length-drop zero xs = omega arith
length-drop (suc n) [] = omega arith
length-drop (suc n) (x ∷ xs) = omega (arith, length-drop n xs)

get_or-drop : (n i : ℕ) (xs : List ℕ) → get_or (drop n xs) i 0 ≡ get_or xs (n + i) 0
get_or-drop zero i xs = let e : i ≡ 0 + i = omega arith in ap (λ j. get_or xs j 0) e
get_or-drop (suc n) i [] = refl
get_or-drop (suc n) i (x ∷ xs) =
    let e : suc (n + i) ≡ suc n + i = omega arith in
    get_or-drop n i xs ∙ ap (λ j. get_or (x ∷ xs) j 0) e

if_true : {t : Bool} (a b : ℕ) → t ≡ true → (if t then a else b) ≡ a
if_true a b h = rw h refl

pub if_false : {t : Bool} (a b : ℕ) → t ≡ false → (if t then a else b) ≡ b
if_false a b h = rw h refl

inside : (va x n : ℕ) → va ≤ x → x < va + n → (leb va x && ltb x (va + n)) ≡ true
inside va x n a b = ground arith

pub no_bytes : (va x : ℕ) → (leb va x && ltb x (va + 0)) ≡ false
no_bytes va x = ground arith

-- An address neither in the page's part nor in the rest is not among the bytes.
elsewhere :
    (va x n r : ℕ)
    → r ≡ n - min (pgsize - va % pgsize) n
    → (leb ((va / pgsize + 1) * pgsize) x && ltb x ((va / pgsize + 1) * pgsize + r)) ≡ false
    → ((x / pgsize == va / pgsize)
        && (leb (va % pgsize) (x % pgsize)
            && ltb (x % pgsize) (va % pgsize + min (pgsize - va % pgsize) n)))
      ≡ false
    → (leb va x && ltb x (va + n)) ≡ false
elsewhere va x n r e a b = elim (Bool-cases (leb va x && ltb x (va + n))) [
  | inr z ↦ z
  | inl y ↦
      let lo : va ≤ x = ground arith in
      let hi : x < va + n = ground arith in
      elim (Bool-cases (leb ((va / pgsize + 1) * pgsize) x)) [
        | inl c ↦
            let c' : (va / pgsize + 1) * pgsize ≤ x = ground arith in
            let t = inside ((va / pgsize + 1) * pgsize) x r c' (omega arith) in
            absurd (not_true (sym a ∙ t))
        | inr c ↦
            let c' : x < (va / pgsize + 1) * pgsize = ground arith in
            let p : x / pgsize ≡ va / pgsize = omega arith in
            let lo' : va % pgsize ≤ x % pgsize = omega arith in
            let hi' : x % pgsize < va % pgsize + min (pgsize - va % pgsize) n = omega arith in
            ground (arith, p, lo', hi')
      ]
]

module _ (d : ℕ) where
  -- How many bytes of `buf` go to the page of va.
  abbrev pub size_of : ℕ → List ℕ → ℕ
  size_of va buf = min (pgsize - va % pgsize) (length buf)

  -- The bytes of one page, then the bytes of the pages after it.
  pub after_page :
      (va : ℕ) (buf : List ℕ) (vm vm1 vm2 : Vm) (x : ℕ)
      → va + length buf ≤ kernbase
      → user_byte vm2 d x
        ≡ byte_with ((va / pgsize + 1) * pgsize) (drop (size_of va buf) buf) vm1 d x
      → user_byte vm1 d x ≡ (
          if (x / pgsize == va / pgsize)
            && (leb (va % pgsize) (x % pgsize) && ltb (x % pgsize) (va % pgsize + size_of va buf))
          then get_or buf (x % pgsize - va % pgsize) 0
          else user_byte vm d x)
      → user_byte vm2 d x ≡ byte_with va buf vm d x
  after_page va buf vm vm1 vm2 x top rest one =
      let k = size_of va buf in
      let len = length-drop k buf in
      elim (Bool-cases (
        leb ((va / pgsize + 1) * pgsize) x
        && ltb x ((va / pgsize + 1) * pgsize + length (drop k buf)))) [
          | inl y ↦
              let lo : (va / pgsize + 1) * pgsize ≤ x = ground arith in
              let hi : x < (va / pgsize + 1) * pgsize + length (drop k buf) = ground arith in
              let i : k + (x - (va / pgsize + 1) * pgsize) ≡ x - va = omega (arith, len, lo, hi) in
              let c : (leb va x && ltb x (va + length buf)) ≡ true =
                inside va x (length buf) (omega (arith, len, lo, hi))
                  (omega (arith, len, lo, hi)) in
              rest
              ∙ if_true _ _ y
              ∙ get_or-drop k (x - (va / pgsize + 1) * pgsize) buf
              ∙ ap (λ j. get_or buf j 0) i
              ∙ sym (if_true _ _ c)
          | inr z ↦
              let one' = rest ∙ if_false _ _ z ∙ one in
              elim (Bool-cases (
                (x / pgsize == va / pgsize)
                && (leb (va % pgsize) (x % pgsize) && ltb (x % pgsize) (va % pgsize + k)))) [
                  | inl y ↦
                      let e : x / pgsize ≡ va / pgsize = ground arith in
                      let lo : va % pgsize ≤ x % pgsize = ground arith in
                      let hi : x % pgsize < va % pgsize + k = ground arith in
                      let i : x % pgsize - va % pgsize ≡ x - va = omega (arith, e, lo) in
                      let c : (leb va x && ltb x (va + length buf)) ≡ true =
                        inside va x (length buf) (omega (arith, e, lo))
                          (omega (arith, e, lo, hi)) in
                      one' ∙ if_true _ _ y ∙ ap (λ j. get_or buf j 0) i ∙ sym (if_true _ _ c)
                  | inr w ↦
                      one'
                      ∙ if_false _ _ w
                      ∙ sym
                          (if_false _ _ (elsewhere va x (length buf) (length (drop k buf)) len z w))
                ]
        ]
