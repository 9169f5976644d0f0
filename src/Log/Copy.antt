-- ===== src/Log/Copy.antt =====
-- The loop of write_log on a disk that may stop.
use lab7sp25_shelnutt.Base.{
  ℕ, suc, ◌+◌, ◌-◌, ◌≤◌, ◌<◌, ◌≡◌, refl, List, [], ◌∷◌, arith, length, ◌⊎◌, inl, inr,
}
use lab7sp25_shelnutt.Log.{Block, Log, bwrite, write_log_from}
use lab7sp25_shelnutt.Log.Install.{Outside, Slots, cache-bwrite, disk-bwrite, power-bwrite}

-- The slots from `tail` on get the cached contents of the blocks, on the disk too if the power lasts;
-- no other block changes.
pub record Copied (v : ℕ → Block) (n tail : ℕ) (bs : List ℕ) (s s' : Log) : Type 0 where
  pub start : s'.start ≡ s.start
  pub logged : s'.logged ≡ s.logged
  pub power : s'.power ≡ s.power - length bs
  pub others :
      (x : ℕ)
      → (x ≤ s.start + tail) ⊎ (s.start + n < x)
      → (s'.disk x ≡ s.disk x) × (s'.cache x ≡ s.cache x)
  pub cached : Slots v s'.cache s.start tail bs
  pub whole : length bs ≤ s.power → Slots v s'.disk s.start tail bs

widen :
    (x start tail n : ℕ)
    → (x ≤ start + tail) ⊎ (start + n < x)
    → (x ≤ start + suc tail) ⊎ (start + n < x)
widen x start tail n (inl h) = inl (omega arith)
widen x start tail n (inr h) = inr h

Copied-cons :
    (v : ℕ → Block) (n tail b : ℕ) (bs : List ℕ) (s s' : Log)
    → tail + suc (length bs) ≤ n
    → Copied v n (suc tail) bs (bwrite (s.start + tail + 1) (v b) s) s'
    → Copied v n tail (b ∷ bs) s s'
Copied-cons v n tail b bs s s' l r =
    let slot = s.start + tail + 1 in
    let q = r.others slot (inl (unfold bwrite in omega arith)) in
    record {
      start = unfold bwrite in r.start;
      logged = unfold bwrite in r.logged;
      power = omega (arith, r.power, power-bwrite slot (v b) s);
      others = λ x o.
          let a = r.others x (unfold bwrite in widen x s.start tail n o) in
          ground (arith, a, disk-bwrite slot x (v b) s, cache-bwrite slot x (v b) s);
      cached = (ground (arith, q, cache-bwrite slot slot (v b) s), unfold bwrite in r.cached);
      whole = λ e. (
        ground (arith, q, disk-bwrite slot slot (v b) s),
        unfold bwrite in r.whole (omega (arith, power-bwrite slot (v b) s)),
      );
    }

-- Of a home block the cache has the value `v` all along.
Outside-cache :
    (v : ℕ → Block) (n slot x : ℕ) (w : Block) (s : Log)
    → (x < s.start) ⊎ (s.start + n < x)
    → s.start < slot
    → slot ≤ s.start + n
    → s.cache x ≡ v x
    → (bwrite slot w s).cache x ≡ v x
Outside-cache v n slot x w s o lo hi e = ground (arith, cache-bwrite slot x w s)

pub write_log_from-Copied :
    (v : ℕ → Block) (n tail : ℕ) (bs : List ℕ) (s : Log)
    → Outside s.start n bs
    → tail + length bs ≤ n
    → ((x : ℕ) → (x < s.start) ⊎ (s.start + n < x) → s.cache x ≡ v x)
    → Copied v n tail bs s (write_log_from tail bs s)
unfolding write_log_from
write_log_from-Copied v n tail [] s o l h = record {
  start = refl;
  logged = refl;
  power = omega arith;
  others = λ x e. (refl, refl);
  cached = tt;
  whole = λ e. tt;
}
write_log_from-Copied v n tail (b ∷ bs) s o l h = rw (h b o.0) (
    Copied-cons v n tail b bs s _ l (
      write_log_from-Copied v n (suc tail) bs (bwrite (s.start + tail + 1) (v b) s) o.1
        (omega arith)
        (λ x e.
          Outside-cache v n (s.start + tail + 1) x (v b) s e (omega arith) (omega arith) (h x e))))
