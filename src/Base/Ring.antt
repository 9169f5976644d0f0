-- ===== src/Base/Ring.antt =====
-- A C array as a ring that is indexed by counters, modulo its size.
use Prim.Native.Nat.{ℕ, zero, suc, ◌+◌, ◌%◌, ◌≤◌, ◌<◌}
use mathlib.Core.Path.{◌≡◌, refl, ap, ◌∙◌}
use mathlib.Core.Logic.{◌≢◌}
use mathlib.Core.List.{List, [], ◌∷◌, ◌++◌}
use native.Mathlib.Omega.{arith}
use lab7sp25_shelnutt.Base.Lists.{length, get_or, set, get_or-set}

-- The `n` entries from the count `h` on.
abbrev pub window : ℕ → List ℕ → ℕ → ℕ → List ℕ
window size bs h zero = []
window size bs h (suc n) = get_or bs (h % size) 0 ∷ window size bs (h + 1) n

pub length-window : (size : ℕ) (bs : List ℕ) (h n : ℕ) → length (window size bs h n) ≡ n
length-window size bs h zero = refl
length-window size bs h (suc n) = ap suc (length-window size bs (h + 1) n)

pub window-append :
    (size : ℕ) (bs : List ℕ) (h m n : ℕ)
    → window size bs h (m + n) ≡ window size bs h m ++ window size bs (h + m) n
window-append size bs h zero n =
    let a : 0 + n ≡ n = omega arith in let b : h + 0 ≡ h = omega arith in rw (a, b) refl
window-append size bs h (suc m) n =
    let a : suc m + n ≡ suc (m + n) = omega arith in
    let b : h + suc m ≡ h + 1 + m = omega arith in
    rw (a, b) (ap (λ r. get_or bs (h % size) 0 ∷ r) (window-append size bs (h + 1) m n))

-- What is used of the size: counts that agree modulo it still do so one further on, and counts that
-- are less than it apart fall on different places.
module _ (size : ℕ) (next : (g h : ℕ) → g % size ≡ h % size → (g + 1) % size ≡ (h + 1) % size)
    (apart : (h d : ℕ) → 0 < d → d < size → (h + d) % size ≢ h % size)
    (inside : (h : ℕ) → h % size < size) where
  -- Only the remainder of the count matters, so its wrap at 2 ^ 32 does not.
  pub window-mod :
      (bs : List ℕ) (g h n : ℕ) → g % size ≡ h % size → window size bs g n ≡ window size bs h n
  window-mod bs g h zero e = refl
  window-mod bs g h (suc n) e = rw (e, window-mod bs (g + 1) (h + 1) n (next g h e))

  -- A write behind the entries.
  pub window-set_beyond :
      (bs : List ℕ) (h n d i x : ℕ)
      → n ≤ d
      → d < size
      → i ≡ (h + d) % size
      → window size (set bs i x) h n ≡ window size bs h n
  window-set_beyond bs h zero d i x a b e = refl
  window-set_beyond bs h (suc n) zero i x a b e = absurd (omega arith)
  window-set_beyond bs h (suc n) (suc d) i x a b e =
      let ne = apart h (suc d) (omega arith) b in
      let q : h + 1 + d ≡ h + suc d = omega arith in
      let r = window-set_beyond bs (h + 1) n d i x (omega arith) (omega arith) (rw q e) in
      ground (arith, get_or-set bs i (h % size) x 0, r, ne)

  -- A write just behind the entries.
  pub window-set :
      (bs : List ℕ) (h n i x : ℕ)
      → length bs ≡ size
      → n < size
      → i ≡ (h + n) % size
      → window size (set bs i x) h (suc n) ≡ window size bs h n ++ (x ∷ [])
  window-set bs h n i x l b e =
      let a : suc n ≡ n + 1 = omega arith in
      let lt = inside (h + n) in
      let last : get_or (set bs i x) ((h + n) % size) 0 ≡ x =
        ground (arith, get_or-set bs i ((h + n) % size) x 0) in
      let bs' = set bs i x in
      ap (window size bs' h) a
      ∙ window-append size bs' h n 1
      ∙ ap (λ ys. ys ++ window size bs' (h + n) 1)
          (window-set_beyond bs h n n i x (omega arith) b e)
      ∙ ap (λ v. window size bs h n ++ (v ∷ [])) last
