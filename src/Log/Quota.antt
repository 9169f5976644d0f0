-- ===== src/Log/Quota.antt =====
-- Quotas of the running operations, as a list.
use lab7sp25_shelnutt.Base.{
  ℕ, zero, suc, ◌+◌, ◌-◌, ◌*◌, ◌≤◌, ◌<◌, ◌≡◌, refl, ap, List, [], ◌∷◌, arith, length, get_or,
}
use lab7sp25_shelnutt.Log.{maxopblocks}

-- What is left to the running operations: for each the number of calls of log_write it may still make.
abbrev pub total : List ℕ → ℕ
total [] = 0
total (q ∷ qs) = q + total qs

-- One call less for the operation `i`.
abbrev pub use_one : List ℕ → ℕ → List ℕ
use_one [] i = []
use_one (q ∷ qs) zero = (q - 1) ∷ qs
use_one (q ∷ qs) (suc i) = q ∷ use_one qs i

-- The operation `i` is over.
abbrev pub finish : List ℕ → ℕ → List ℕ
finish [] i = []
finish (q ∷ qs) zero = qs
finish (q ∷ qs) (suc i) = q ∷ finish qs i

pub total-use_one : (qs : List ℕ) (i : ℕ) → 0 < get_or qs i 0 → total (use_one qs i) + 1 ≡ total qs
total-use_one [] i h = absurd (omega arith)
total-use_one (q ∷ qs) zero h = omega arith
total-use_one (q ∷ qs) (suc i) h = omega (arith, total-use_one qs i h)

pub length-use_one : (qs : List ℕ) (i : ℕ) → length (use_one qs i) ≡ length qs
length-use_one [] i = refl
length-use_one (q ∷ qs) zero = refl
length-use_one (q ∷ qs) (suc i) = ap suc (length-use_one qs i)

pub total-finish : (qs : List ℕ) (i : ℕ) → total (finish qs i) ≤ total qs
total-finish [] i = omega arith
total-finish (q ∷ qs) zero = omega arith
total-finish (q ∷ qs) (suc i) = omega (arith, total-finish qs i)

pub length-finish : (qs : List ℕ) (i : ℕ) → i < length qs → length (finish qs i) + 1 ≡ length qs
length-finish [] i l = absurd (omega arith)
length-finish (q ∷ qs) zero l = omega arith
length-finish (q ∷ qs) (suc i) l = omega (arith, length-finish qs i (omega arith))

-- No operation may make more than maxopblocks calls.
abbrev pub Small : List ℕ → Type 0
Small [] = Unit {0}
Small (q ∷ qs) = (q ≤ maxopblocks) × Small qs

pub Small-total : (qs : List ℕ) → Small qs → total qs ≤ length qs * maxopblocks
Small-total [] s = omega arith
Small-total (q ∷ qs) (a, s) = omega (arith, Small-total qs s)

pub use_one-Small : (qs : List ℕ) (i : ℕ) → Small qs → Small (use_one qs i)
use_one-Small [] i s = tt
use_one-Small (q ∷ qs) zero (a, s) = (omega arith, s)
use_one-Small (q ∷ qs) (suc i) (a, s) = (a, use_one-Small qs i s)

pub finish-Small : (qs : List ℕ) (i : ℕ) → Small qs → Small (finish qs i)
finish-Small [] i s = tt
finish-Small (q ∷ qs) zero (a, s) = s
finish-Small (q ∷ qs) (suc i) (a, s) = (a, finish-Small qs i s)

pub get_or-length : (qs : List ℕ) (i : ℕ) → 0 < get_or qs i 0 → (i < length qs) × (0 < total qs)
get_or-length [] i h = absurd (omega arith)
get_or-length (q ∷ qs) zero h = (omega arith, omega arith)
get_or-length (q ∷ qs) (suc i) h = let (a, b) = get_or-length qs i h in (omega arith, omega arith)
