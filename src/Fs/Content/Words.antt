-- ===== src/Fs/Content/Words.antt =====
-- Block numbers in the data of an indirect block.
use lab7sp25_shelnutt.Base.{
  ℕ, ◌+◌, ◌*◌, ◌/◌, ◌%◌, ◌^◌, ◌<◌, ◌≡◌, ◌≢◌, ◌∙◌, List, get_or, set, length, length-set, get_or-set,
  get_or-replicate, replicate, arith,
}
use lab7sp25_shelnutt.Fs.{bsize}
use lab7sp25_shelnutt.Fs.Content.{word, set_word}

pub set-same : (xs : List ℕ) (i v : ℕ) → i < length xs → get_or (set xs i v) i 0 ≡ v
set-same xs i v h = get_or-set xs i i v 0 ∙ ground arith

pub set-other : (xs : List ℕ) (i v j : ℕ) → j ≢ i → get_or (set xs i v) j 0 ≡ get_or xs j 0
set-other xs i v j h = get_or-set xs i j v 0 ∙ ground arith

module _ (d : List ℕ) (i v : ℕ) where
  abbrev d1 : List ℕ
  d1 = set d (4 * i) (v % 2 ^ 8)

  abbrev d2 : List ℕ
  d2 = set d1 (4 * i + 1) (v / 2 ^ 8 % 2 ^ 8)

  abbrev d3 : List ℕ
  d3 = set d2 (4 * i + 2) (v / 2 ^ 16 % 2 ^ 8)

  length_1 : length d1 ≡ length d
  length_1 = length-set d (4 * i) (v % 2 ^ 8)

  length_2 : length d2 ≡ length d
  length_2 = length-set d1 (4 * i + 1) (v / 2 ^ 8 % 2 ^ 8) ∙ length_1

  length_3 : length d3 ≡ length d
  length_3 = length-set d2 (4 * i + 2) (v / 2 ^ 16 % 2 ^ 8) ∙ length_2

  pub length-set_word : length (set_word d i v) ≡ length d
  unfolding set_word
  length-set_word = length-set d3 (4 * i + 3) (v / 2 ^ 24 % 2 ^ 8) ∙ length_3

  -- A byte outside the word.
  byte-other :
      (j : ℕ)
      → j ≢ 4 * i
      → j ≢ 4 * i + 1
      → j ≢ 4 * i + 2
      → j ≢ 4 * i + 3
      → get_or (set_word d i v) j 0 ≡ get_or d j 0
  unfolding set_word
  byte-other j a b c e =
      set-other d3 (4 * i + 3) (v / 2 ^ 24 % 2 ^ 8) j e
      ∙ set-other d2 (4 * i + 2) (v / 2 ^ 16 % 2 ^ 8) j c
      ∙ set-other d1 (4 * i + 1) (v / 2 ^ 8 % 2 ^ 8) j b
      ∙ set-other d (4 * i) (v % 2 ^ 8) j a

  pub word-other : (j : ℕ) → j ≢ i → word (set_word d i v) j ≡ word d j
  unfolding word
  word-other j h =
      let a = byte-other (4 * j) (omega arith) (omega arith) (omega arith) (omega arith) in
      let b = byte-other (4 * j + 1) (omega arith) (omega arith) (omega arith) (omega arith) in
      let c = byte-other (4 * j + 2) (omega arith) (omega arith) (omega arith) (omega arith) in
      let e = byte-other (4 * j + 3) (omega arith) (omega arith) (omega arith) (omega arith) in
      omega (arith, a, b, c, e)

  pub word-same : 4 * i + 3 < length d → v < 2 ^ 32 → word (set_word d i v) i ≡ v
  unfolding set_word word
  word-same h l =
      let a =
        set-other d3 (4 * i + 3) (v / 2 ^ 24 % 2 ^ 8) (4 * i) (omega arith)
        ∙ set-other d2 (4 * i + 2) (v / 2 ^ 16 % 2 ^ 8) (4 * i) (omega arith)
        ∙ set-other d1 (4 * i + 1) (v / 2 ^ 8 % 2 ^ 8) (4 * i) (omega arith)
        ∙ set-same d (4 * i) (v % 2 ^ 8) (omega arith) in
      let b =
        set-other d3 (4 * i + 3) (v / 2 ^ 24 % 2 ^ 8) (4 * i + 1) (omega arith)
        ∙ set-other d2 (4 * i + 2) (v / 2 ^ 16 % 2 ^ 8) (4 * i + 1) (omega arith)
        ∙ set-same d1 (4 * i + 1) (v / 2 ^ 8 % 2 ^ 8) (omega (arith, length_1)) in
      let c =
        set-other d3 (4 * i + 3) (v / 2 ^ 24 % 2 ^ 8) (4 * i + 2) (omega arith)
        ∙ set-same d2 (4 * i + 2) (v / 2 ^ 16 % 2 ^ 8) (omega (arith, length_2)) in
      let e = set-same d3 (4 * i + 3) (v / 2 ^ 24 % 2 ^ 8) (omega (arith, length_3)) in
      omega (arith, a, b, c, e)

pub word-zero : (i : ℕ) → word (replicate bsize 0) i ≡ 0
unfolding word
word-zero i =
    let a = get_or-replicate {A = ℕ} bsize (4 * i) 0 in
    let b = get_or-replicate {A = ℕ} bsize (4 * i + 1) 0 in
    let c = get_or-replicate {A = ℕ} bsize (4 * i + 2) 0 in
    let e = get_or-replicate {A = ℕ} bsize (4 * i + 3) 0 in omega (arith, a, b, c, e)
