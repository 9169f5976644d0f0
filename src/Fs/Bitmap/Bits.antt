-- ===== src/Fs/Bitmap/Bits.antt =====
-- Setting and clearing a bit of a byte.
use lab7sp25_shelnutt.Base.{ℕ, zero, suc, ◌+◌, ◌-◌, ◌/◌, ◌^◌, ◌≤◌, ◌≡◌, ◌≢◌, refl, ap, ◌∙◌, arith}
use lab7sp25_shelnutt.Fs.Bitmap.{bit_at}

half_add : (k x : ℕ) → (x + 2 ^ suc k) / 2 ≡ x / 2 + 2 ^ k
half_add k x = omega arith

half_sub : (k x : ℕ) → (x - 2 ^ suc k) / 2 ≡ x / 2 - 2 ^ k
half_sub k x = omega arith

-- A bit that was clear.
pub bit_at-same : (k x : ℕ) → bit_at k x ≡ 0 → bit_at k (x + 2 ^ k) ≡ 1
unfolding bit_at
bit_at-same zero x h = omega arith
bit_at-same (suc k) x h = ap (bit_at k) (half_add k x) ∙ bit_at-same k (x / 2) h

pub bit_at-other : (j k x : ℕ) → j ≢ k → bit_at k x ≡ 0 → bit_at j (x + 2 ^ k) ≡ bit_at j x
unfolding bit_at
bit_at-other zero zero x h c = absurd (h refl)
bit_at-other zero (suc k) x h c = omega arith
bit_at-other (suc j) zero x h c = ap (bit_at j) (omega arith)
bit_at-other (suc j) (suc k) x h c =
    ap (bit_at j) (half_add k x) ∙ bit_at-other j k (x / 2) (λ e. h (ap suc e)) c

-- A bit that was set.
pub bit_at-cleared : (k x : ℕ) → bit_at k x ≢ 0 → (2 ^ k ≤ x) × (bit_at k (x - 2 ^ k) ≡ 0)
unfolding bit_at
bit_at-cleared zero x h = (omega arith, omega arith)
bit_at-cleared (suc k) x h =
    let (l, e) = bit_at-cleared k (x / 2) h in (omega arith, ap (bit_at k) (half_sub k x) ∙ e)
