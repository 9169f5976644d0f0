-- ===== src/Fs/Content/Bytes.antt =====
-- The bytes of a block after a copy into it.
use lab7sp25_shelnutt.Base.{
  ℕ, zero, suc, ◌+◌, ◌≤◌, ◌<◌, ◌≡◌, refl, ap, ◌∙◌, List, [], ◌∷◌, get_or, set, length, length-set,
  arith,
}
use lab7sp25_shelnutt.Fs.Content.{put_bytes}
use lab7sp25_shelnutt.Fs.Content.Words.{set-same, set-other}

pub length-put_bytes :
    (d : List ℕ) (from m : ℕ) (xs : List ℕ) → length (put_bytes d from m xs) ≡ length d
unfolding put_bytes
length-put_bytes d from zero xs = refl
length-put_bytes d from (suc m) [] = refl
length-put_bytes d from (suc m) (x ∷ xs) =
    length-put_bytes (set d from x) (suc from) m xs ∙ length-set d from x

-- A byte before the copy, in it, and behind it.
pub put_bytes-before :
    (d : List ℕ) (from m : ℕ) (xs : List ℕ) (j : ℕ)
    → j < from
    → get_or (put_bytes d from m xs) j 0 ≡ get_or d j 0
unfolding put_bytes
put_bytes-before d from zero xs j l = refl
put_bytes-before d from (suc m) [] j l = refl
put_bytes-before d from (suc m) (x ∷ xs) j l =
    put_bytes-before (set d from x) (suc from) m xs j (omega arith)
    ∙ set-other d from x j (omega arith)

pub put_bytes-behind :
    (d : List ℕ) (from m : ℕ) (xs : List ℕ) (j : ℕ)
    → from + m ≤ j
    → get_or (put_bytes d from m xs) j 0 ≡ get_or d j 0
unfolding put_bytes
put_bytes-behind d from zero xs j l = refl
put_bytes-behind d from (suc m) [] j l = refl
put_bytes-behind d from (suc m) (x ∷ xs) j l =
    put_bytes-behind (set d from x) (suc from) m xs j (omega arith)
    ∙ set-other d from x j (omega arith)

pub put_bytes-in :
    (d : List ℕ) (from m : ℕ) (xs : List ℕ) (i : ℕ)
    → i < m
    → m ≤ length xs
    → from + m ≤ length d
    → get_or (put_bytes d from m xs) (from + i) 0 ≡ get_or xs i 0
unfolding put_bytes
put_bytes-in d from zero xs i l a b = absurd (omega arith)
put_bytes-in d from (suc m) [] i l a b = absurd (omega arith)
put_bytes-in d from (suc m) (x ∷ xs) zero l a b =
    let e : from + 0 ≡ from = omega arith in
    ap (λ j. get_or (put_bytes (set d from x) (suc from) m xs) j 0) e
    ∙ put_bytes-before (set d from x) (suc from) m xs from (omega arith)
    ∙ set-same d from x (omega arith)
put_bytes-in d from (suc m) (x ∷ xs) (suc i) l a b =
    let e : from + suc i ≡ suc from + i = omega arith in
    let n = length-set d from x in
    ap (λ j. get_or (put_bytes (set d from x) (suc from) m xs) j 0) e
    ∙ put_bytes-in (set d from x) (suc from) m xs i (omega arith) (omega arith) (omega (arith, n))
