-- ===== src/Log/Install.antt =====
-- The two copying loops of log.c on a disk that may stop: what they leave in each block.
use lab7sp25_shelnutt.Base.{
  ℕ, suc, ◌+◌, ◌-◌, ◌≤◌, ◌<◌, ◌≡◌, refl, ◌∙◌, Bool, true, false, ◌||◌, List, [], ◌∷◌, arith, length,
  ◌==◌, ◌⊎◌, inl, inr, Bool-cases, if◌then◌else◌,
}
use lab7sp25_shelnutt.Log.{Block, Log, store, bwrite, install_from}

abbrev pub logs : List ℕ → ℕ → Bool
logs [] x = false
logs (b ∷ bs) x = (b == x) || logs bs x

-- The blocks of the log region: the header and `n` slots behind it.
abbrev pub InRegion : ℕ → ℕ → ℕ → Type 0
InRegion start n x = (start ≤ x) × (x ≤ start + n)

-- No logged block lies in the region.
abbrev pub Outside : ℕ → ℕ → List ℕ → Type 0
Outside start n [] = Unit {0}
Outside start n (b ∷ bs) = ((b < start) ⊎ (start + n < b)) × Outside start n bs

-- The slots from the one with number `tail` on hold the values `v` of the blocks, in the map `m`.
abbrev pub Slots : (ℕ → Block) → (ℕ → Block) → ℕ → ℕ → List ℕ → Type 0
Slots v m start tail [] = Unit {0}
Slots v m start tail (b ∷ bs) = (m (start + tail + 1) ≡ v b) × Slots v m start (suc tail) bs

-- What a loop does not touch.
pub record Same (s s' : Log) : Type 0 where
  pub start : s'.start ≡ s.start
  pub logged : s'.logged ≡ s.logged

bwrite-Same : (b : ℕ) (v : Block) (s : Log) → Same s (bwrite b v s)
unfolding bwrite
bwrite-Same b v s = record { start = refl; logged = refl }

pub cache-bwrite :
    (b x : ℕ) (v : Block) (s : Log) → (bwrite b v s).cache x ≡ (if b == x then v else s.cache x)
unfolding bwrite
cache-bwrite b x v s = refl

pub disk-bwrite :
    (b x : ℕ) (v : Block) (s : Log)
    → (bwrite b v s).disk x ≡ (if s.power == 0 then s.disk x else if b == x then v else s.disk x)
unfolding bwrite
disk-bwrite b x v s = ground arith

pub power-bwrite : (b : ℕ) (v : Block) (s : Log) → (bwrite b v s).power ≡ s.power - 1
unfolding bwrite
power-bwrite b v s = refl

-- After the write of a block outside of the slots they are as before.
pub Slots-store :
    (v m : ℕ → Block) (start n tail b : ℕ) (w : Block) (bs : List ℕ)
    → (b < start) ⊎ (start + n < b)
    → tail + length bs ≤ n
    → Slots v m start tail bs
    → Slots v (store m b w) start tail bs
Slots-store v m start n tail b w [] o l s = tt
Slots-store v m start n tail b w (c ∷ bs) o l s =
    (ground arith, Slots-store v m start n (suc tail) b w bs o (omega arith) s.1)

-- The loop of install_trans. The log region keeps its contents on the disk and in the cache; a block
-- that is not logged too; a logged block has its old contents or the new ones, and the new ones if
-- the power lasts.
pub record Installed (v : ℕ → Block) (n : ℕ) (bs : List ℕ) (s s' : Log) : Type 0 where
  pub same : Same s s'
  pub power : s'.power ≡ s.power - length bs
  pub others : (x : ℕ) → logs bs x ≡ false → (s'.disk x ≡ s.disk x) × (s'.cache x ≡ s.cache x)
  pub either : (x : ℕ) → logs bs x ≡ true → (s'.disk x ≡ s.disk x) ⊎ (s'.disk x ≡ v x)
  pub whole : (x : ℕ) → logs bs x ≡ true → length bs ≤ s.power → s'.disk x ≡ v x
  pub cached : (x : ℕ) → logs bs x ≡ true → s'.cache x ≡ v x
  pub stopped : s.power ≡ 0 → (x : ℕ) → s'.disk x ≡ s.disk x

Slots-bwrite :
    (v : ℕ → Block) (n tail b : ℕ) (bs : List ℕ) (s : Log)
    → (b < s.start) ⊎ (s.start + n < b)
    → suc tail + length bs ≤ n
    → Slots v s.cache s.start (suc tail) bs
    → Slots v (bwrite b (v b) s).cache (bwrite b (v b) s).start (suc tail) bs
unfolding bwrite
Slots-bwrite v n tail b bs s o l h = Slots-store v s.cache s.start n (suc tail) b (v b) bs o l h

Installed-cons :
    (v : ℕ → Block) (n b : ℕ) (bs : List ℕ) (s s' : Log)
    → Installed v n bs (bwrite b (v b) s) s'
    → Installed v n (b ∷ bs) s s'
Installed-cons v n b bs s s' r = record {
  same = record {
    start = r.same.start ∙ (bwrite-Same b (v b) s).start;
    logged = r.same.logged ∙ (bwrite-Same b (v b) s).logged;
  };
  power = omega (arith, r.power, power-bwrite b (v b) s);
  others = λ x e. ground (arith, r.others x, cache-bwrite b x (v b) s, disk-bwrite b x (v b) s);
  either = λ x e. elim (Bool-cases (logs bs x)) [
    | inl h ↦ ground (arith, r.either x h, disk-bwrite b x (v b) s)
    | inr h ↦ ground (arith, r.others x h, disk-bwrite b x (v b) s)
  ];
  whole = λ x e l. elim (Bool-cases (logs bs x)) [
    | inl h ↦ r.whole x h (omega (arith, power-bwrite b (v b) s))
    | inr h ↦ ground (arith, r.others x h, disk-bwrite b x (v b) s)
  ];
  cached = λ x e. elim (Bool-cases (logs bs x)) [
    | inl h ↦ r.cached x h
    | inr h ↦ ground (arith, r.others x h, cache-bwrite b x (v b) s)
  ];
  stopped = λ e x.
      ground (arith, r.stopped (omega (arith, power-bwrite b (v b) s)) x, disk-bwrite b x (v b) s);
}

pub install_from-Installed :
    (v : ℕ → Block) (n tail : ℕ) (bs : List ℕ) (s : Log)
    → Outside s.start n bs
    → tail + length bs ≤ n
    → Slots v s.cache s.start tail bs
    → Installed v n bs s (install_from tail bs s)
unfolding install_from
install_from-Installed v n tail [] s o l h = record {
  same = record { start = refl; logged = refl };
  power = omega arith;
  others = λ x e. (refl, refl);
  either = λ x e. cc;
  whole = λ x e. cc;
  cached = λ x e. cc;
  stopped = λ e x. refl;
}
install_from-Installed v n tail (b ∷ bs) s o l h = rw (h.0) (
    Installed-cons v n b bs s _ (
      install_from-Installed v n (suc tail) bs (bwrite b (v b) s) o.1 (omega arith)
        (Slots-bwrite v n tail b bs s o.0 (omega arith) h.1)))

-- Without power nothing reaches the disk.
pub install_from-stop :
    (tail : ℕ) (bs : List ℕ) (s : Log)
    → s.power ≡ 0
    → ((install_from tail bs s).power ≡ 0) × ((x : ℕ) → (install_from tail bs s).disk x ≡ s.disk x)
unfolding install_from
install_from-stop tail [] s e = (e, λ x. refl)
install_from-stop tail (b ∷ bs) s e =
    let w = s.cache (s.start + tail + 1) in
    let (p, d) =
      install_from-stop (suc tail) bs (bwrite b w s) (omega (arith, power-bwrite b w s)) in
    (p, λ x. ground (arith, d x, disk-bwrite b x w s))
