-- ===== src/Fs/Bitmap/Bytes.antt =====
-- The inner loop of balloc, and the bits of a block of the map.
use lab7sp25_shelnutt.Base.{
  ℕ, zero, suc, ◌+◌, ◌-◌, ◌/◌, ◌%◌, ◌^◌, ◌≤◌, ◌<◌, ◌≡◌, ◌≢◌, ap, ◌∙◌, sym, true, false, Option,
  none, some, List, ◌==◌, ltb, ℕ_discrete, get_or, get_or-set, set, length, arith, Bool-cases, inl,
  inr, subst,
}
use lab7sp25_shelnutt.Fs.Bitmap.{bit_at, is_clear, set_bit, clear_bit, find_clear}
use lab7sp25_shelnutt.Fs.Bitmap.Bits.{bit_at-same, bit_at-other, bit_at-cleared}

-- What the inner loop finds.
abbrev pub Found : ℕ → ℕ → List ℕ → ℕ → ℕ → Option ℕ → Type 0
Found size b d left bi none = (j : ℕ) → bi ≤ j → j < bi + left → b + j < size → is_clear d j ≡ false
Found size b d left bi (some i) =
    (bi ≤ i)
    × (i < bi + left)
    × (b + i < size)
    × (is_clear d i ≡ true)
    × ((j : ℕ) → bi ≤ j → j < i → is_clear d j ≡ false)

pub find_clear-Found :
    (size b : ℕ) (d : List ℕ) (left bi : ℕ) → Found size b d left bi (find_clear size b d left bi)
unfolding find_clear
find_clear-Found size b d zero bi = λ j l m n. absurd (omega arith)
find_clear-Found size b d (suc left) bi = elim (Bool-cases (ltb (b + bi) size)) [
  | inr n ↦ rw (n, find_clear) (λ j l m k. absurd (ground arith))
  | inl y ↦ elim (Bool-cases (is_clear d bi)) [
    | inl c ↦
        rw (y, c, find_clear)
          (omega arith, omega arith, ground arith, c, λ j l m. absurd (omega arith))
    | inr c ↦
        rw (y, c, find_clear)
          (later (find_clear size b d left (suc bi)) c (find_clear-Found size b d left (suc bi)))
  ]
]
  where
    same :
        (j : ℕ)
        → bi ≤ j
        → is_clear d bi ≡ false
        → (suc bi ≤ j → is_clear d j ≡ false)
        → is_clear d j ≡ false
    same j l c f = elim (ℕ_discrete bi j) [
      | yes e ↦ subst (λ x. is_clear d x ≡ false) e c
      | no n ↦ f (omega arith)
    ]

    later :
        (o : Option ℕ)
        → is_clear d bi ≡ false
        → Found size b d left (suc bi) o
        → Found size b d (suc left) bi o
    later none c f = λ j l m n. same j l c (λ k. f j k (omega arith) n)
    later (some i) c (l, m, n, h, f) =
        (omega arith, omega arith, n, h, λ j a q. same j a c (λ k. f j k q))

-- The bytes of an array after a write.
pub read-set : (d : List ℕ) (i v : ℕ) → i < length d → get_or (set d i v) i 0 ≡ v
read-set d i v l = get_or-set d i i v 0 ∙ ground arith

read-set_other : (d : List ℕ) (i j v : ℕ) → i ≢ j → get_or (set d i v) j 0 ≡ get_or d j 0
read-set_other d i j v n = get_or-set d i j v 0 ∙ ground arith

-- The bits of a block of the map.
pub set_bit-same :
    (d : List ℕ) (bi : ℕ)
    → bi / 8 < length d
    → is_clear d bi ≡ true
    → is_clear (set_bit d bi) bi ≡ false
set_bit-same d bi l h =
    let x = get_or d (bi / 8) 0 in
    ap (λ y. bit_at (bi % 8) y == 0) (read-set d (bi / 8) (x + 2 ^ (bi % 8)) l)
    ∙ ap (λ n. n == 0) (bit_at-same (bi % 8) x (ground arith))

-- A change of one bit of a byte leaves the other bits of the block.
other_bits :
    (d : List ℕ) (bi j v : ℕ)
    → bi / 8 < length d
    → j ≢ bi
    → ((k : ℕ) → k ≢ bi % 8 → bit_at k v ≡ bit_at k (get_or d (bi / 8) 0))
    → is_clear (set d (bi / 8) v) j ≡ is_clear d j
other_bits d bi j v l n f = elim (ℕ_discrete (bi / 8) (j / 8)) [
  | yes e ↦
      let k : j % 8 ≢ bi % 8 = omega arith in
      ap (λ i. bit_at (j % 8) (get_or (set d (bi / 8) v) i 0) == 0) (sym e)
      ∙ ap (λ y. bit_at (j % 8) y == 0) (read-set d (bi / 8) v l)
      ∙ ap (λ y. y == 0) (f (j % 8) k)
      ∙ ap (λ i. bit_at (j % 8) (get_or d i 0) == 0) e
  | no m ↦ ap (λ y. bit_at (j % 8) y == 0) (read-set_other d (bi / 8) (j / 8) v m)
]

pub set_bit-other :
    (d : List ℕ) (bi j : ℕ)
    → bi / 8 < length d
    → j ≢ bi
    → is_clear d bi ≡ true
    → is_clear (set_bit d bi) j ≡ is_clear d j
set_bit-other d bi j l n h =
    let x = get_or d (bi / 8) 0 in
    other_bits d bi j (x + 2 ^ (bi % 8)) l n (λ k m. bit_at-other k (bi % 8) x m (ground arith))

pub clear_bit-same :
    (d : List ℕ) (bi : ℕ)
    → bi / 8 < length d
    → is_clear d bi ≡ false
    → is_clear (clear_bit d bi) bi ≡ true
clear_bit-same d bi l h =
    let x = get_or d (bi / 8) 0 in
    ap (λ y. bit_at (bi % 8) y == 0) (read-set d (bi / 8) (x - 2 ^ (bi % 8)) l)
    ∙ ap (λ n. n == 0) ((bit_at-cleared (bi % 8) x (ground arith)).1)

pub clear_bit-other :
    (d : List ℕ) (bi j : ℕ)
    → bi / 8 < length d
    → j ≢ bi
    → is_clear d bi ≡ false
    → is_clear (clear_bit d bi) j ≡ is_clear d j
clear_bit-other d bi j l n h =
    let x = get_or d (bi / 8) 0 in
    let (m, e) = bit_at-cleared (bi % 8) x (ground arith) in
    let back : x - 2 ^ (bi % 8) + 2 ^ (bi % 8) ≡ x = omega arith in
    other_bits d bi j (x - 2 ^ (bi % 8)) l n
      (λ k q. sym (bit_at-other k (bi % 8) (x - 2 ^ (bi % 8)) q e) ∙ ap (bit_at k) back)
