-- ===== src/Log/Lengths.antt =====
-- How long the list of logged blocks is, and what a commit leaves of the counters.
use lab7sp25_shelnutt.Base.{
  ℕ, suc, ◌+◌, ◌≤◌, ◌≡◌, refl, ◌∙◌, List, [], ◌∷◌, arith, length, ◌==◌, ltb, Bool-cases, inl, inr,
}
use lab7sp25_shelnutt.Log.{
  Log, commit, bwrite, install_from, write_log_from, write_log, absorb, write_head,
}

pub length-absorb :
    (bs : List ℕ) (b : ℕ)
    → (length bs ≤ length (absorb bs b)) × (length (absorb bs b) ≤ length bs + 1)
unfolding absorb
length-absorb [] b = (omega arith, omega arith)
length-absorb (x ∷ xs) b = elim (Bool-cases (x == b)) [
  | inl y ↦ rw y (omega arith, omega arith)
  | inr n ↦ let (a, c) = length-absorb xs b in rw n (omega arith, omega arith)
]

-- What a commit does not touch.
pub record Kept (s s' : Log) : Type 0 where
  pub size : s'.size ≡ s.size
  pub outstanding : s'.outstanding ≡ s.outstanding

install_from-Kept : (tail : ℕ) (bs : List ℕ) (s : Log) → Kept s (install_from tail bs s)
unfolding install_from bwrite
install_from-Kept tail [] s = record { size = refl; outstanding = refl }
install_from-Kept tail (b ∷ bs) s =
    let k = install_from-Kept (suc tail) bs (bwrite b (s.cache (s.start + tail + 1)) s) in
    record { size = k.size; outstanding = k.outstanding }

write_log_from-Kept : (tail : ℕ) (bs : List ℕ) (s : Log) → Kept s (write_log_from tail bs s)
unfolding write_log_from bwrite
write_log_from-Kept tail [] s = record { size = refl; outstanding = refl }
write_log_from-Kept tail (b ∷ bs) s =
    let k = write_log_from-Kept (suc tail) bs (bwrite (s.start + tail + 1) (s.cache b) s) in
    record { size = k.size; outstanding = k.outstanding }

pub commit-Kept : (s : Log) → Kept s (commit s)
unfolding commit write_head bwrite
commit-Kept s = elim (Bool-cases (ltb 0 (length s.logged))) [
  | inr h ↦ rw (h, commit) (record { size = refl; outstanding = refl })
  | inl h ↦
      let t = write_head (write_log s) in
      let a = write_log_from-Kept 0 s.logged s in
      let b = install_from-Kept 0 t.logged t in
      rw (h, commit)
        (record { size = b.size ∙ a.size; outstanding = b.outstanding ∙ a.outstanding })
]

pub length-commit : (s : Log) → length (commit s).logged ≡ 0
unfolding commit
length-commit s = elim (Bool-cases (ltb 0 (length s.logged))) [
  | inr h ↦ rw (h, commit) (ground arith)
  | inl h ↦ rw (h, commit) refl
]
