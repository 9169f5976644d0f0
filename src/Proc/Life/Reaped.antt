-- ===== src/Proc/Life/Reaped.antt =====
-- wait: what one pass of its loop finds.
use lab7sp25_shelnutt.Base.{
  ℕ, zero, suc, ◌+◌, ◌<◌, ◌≡◌, refl, Bool, true, false, List, [], ◌∷◌, none, some, arith, length,
  Bool-cases, inl, inr, ◌⊎◌, points_to,
}
use lab7sp25_shelnutt.Proc.Table.{Proc, proc_at, is_state, zombie}
use lab7sp25_shelnutt.Proc.Life.{scan}

abbrev pub IsChild : List Proc → ℕ → ℕ → Type 0
IsChild t cur i = (i < length t) × (points_to (proc_at t i).parent cur ≡ true)

abbrev pub NoZombieChild : List Proc → ℕ → Type 0
NoZombieChild t cur = (j : ℕ) → IsChild t cur j → is_state (proc_at t j).state zombie ≡ false

-- The scan of the tail, from the first entry of the list on.
pub scan-some :
    (cur n : ℕ) (b : Bool) (t : List Proc) {i : ℕ}
    → (scan cur n b t).0 ≡ some i
    → (m : ℕ) × (i ≡ n + m) × IsChild t cur m × (is_state (proc_at t m).state zombie ≡ true)
unfolding scan
scan-some cur n b [] e = cc
scan-some cur n b (p ∷ t) {i} e = elim (Bool-cases (points_to p.parent cur)) [
  | inr h ↦
      let (m, q, (l, c), z) = scan-some cur (suc n) b t {i = i} (ground arith) in
      (suc m, omega arith, (omega arith, c), z)
  | inl h ↦ elim (Bool-cases (is_state p.state zombie)) [
    | inl z ↦ (0, ground arith, (omega arith, h), z)
    | inr z ↦
        let (m, q, (l, c), y) = scan-some cur (suc n) true t {i = i} (ground arith) in
        (suc m, omega arith, (omega arith, c), y)
  ]
]

pub scan-none :
    (cur n : ℕ) (b : Bool) (t : List Proc) → (scan cur n b t).0 ≡ none → NoZombieChild t cur
unfolding scan
scan-none cur n b [] e j c = absurd (omega arith)
scan-none cur n b (p ∷ t) e zero c = ground arith
scan-none cur n b (p ∷ t) e (suc j) c = elim (Bool-cases (points_to p.parent cur)) [
  | inr h ↦ scan-none cur (suc n) b t (ground arith) j (omega arith, c.1)
  | inl h ↦ scan-none cur (suc n) true t (ground arith) j (omega arith, c.1)
]

-- Without a ZOMBIE child the flag tells whether there are children.
pub scan-havekids :
    (cur n : ℕ) (b : Bool) (t : List Proc)
    → (scan cur n b t).1 ≡ true
    → (scan cur n b t).0 ≡ none
    → (b ≡ true) ⊎ ((j : ℕ) × IsChild t cur j)
unfolding scan
scan-havekids cur n b [] e f = inl e
scan-havekids cur n b (p ∷ t) e f = elim (Bool-cases (points_to p.parent cur)) [
  | inl h ↦ inr (0, (omega arith, h))
  | inr h ↦ elim (scan-havekids cur (suc n) b t (ground arith) (ground arith)) [
    | inl c ↦ inl c
    | inr (j, c) ↦ inr (suc j, (omega arith, c.1))
  ]
]

scan_kept : (cur n : ℕ) (t : List Proc) → (scan cur n true t).1 ≡ true
unfolding scan
scan_kept cur n [] = refl
scan_kept cur n (p ∷ t) = ground (arith, scan_kept cur (suc n) t)

pub scan-childless :
    (cur n : ℕ) (t : List Proc)
    → (scan cur n false t).1 ≡ false
    → (j : ℕ) → j < length t
    → points_to (proc_at t j).parent cur ≡ false
unfolding scan
scan-childless cur n [] e j l = absurd (omega arith)
scan-childless cur n (p ∷ t) e zero l = ground (arith, scan_kept cur (suc n) t)
scan-childless cur n (p ∷ t) e (suc j) l =
    scan-childless cur (suc n) t (ground (arith, scan_kept cur (suc n) t)) j (omega arith)
