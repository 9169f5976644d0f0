-- ===== src/Sleeplock/Exclusion.antt =====
-- The sleep lock has one holder at most, and no process sleeps on a free one.
use lab7sp25_shelnutt.Base.{
  ℕ, ◌≡◌, ◌≢◌, refl, ap, ◌∙◌, sym, Bool, true, false, ◌&&◌, ◌==◌, ◌↔◌, arith, Bool-cases, inl, inr,
  subst, ==_iff,
}
use lab7sp25_shelnutt.Sleeplock.{
  Place, outside, asleep, woken, inside, System, move, rouse_place, acquiresleep, releasesleep,
  holdingsleep, start, enters, retries, leaves, Reach, initially, later,
}

move-same : (p q : ℕ) (x : Place) (at : ℕ → Place) → (q == p) ≡ true → move p x at q ≡ x
move-same p q x at h = rw h refl

move-other : (p q : ℕ) (x : Place) (at : ℕ → Place) → (q == p) ≡ false → move p x at q ≡ at q
move-other p q x at h = rw h refl

rouse-inside : (x : Place) → rouse_place x ≡ inside → x ≡ inside
rouse-inside outside h = h
rouse-inside asleep h = ground arith
rouse-inside woken h = h
rouse-inside inside h = h

rouse-asleep : (x : Place) → rouse_place x ≢ asleep
rouse-asleep outside h = ground arith
rouse-asleep asleep h = ground arith
rouse-asleep woken h = ground arith
rouse-asleep inside h = ground arith

-- What holds of the lock and the processes.
pub record IsExclusive (s : System) : Type 0 where
  pub holder : (p : ℕ) → (s.at p ≡ inside) ↔ (holdingsleep p s ≡ true)
  pub none_sleeps : s.lock.locked ≡ false → (p : ℕ) → s.at p ≢ asleep

start-IsExclusive : IsExclusive start
unfolding holdingsleep
start-IsExclusive = record {
  holder = λ p. (λ h. ground arith, λ h. ground arith);
  none_sleeps = λ f p h. ground arith;
}

-- Whether holdingsleep is 1, by the fields of the lock.
holder_of :
    (s : System) (b : Bool)
    → s.lock.locked ≡ b
    → IsExclusive s
    → (q : ℕ) → (s.at q ≡ inside) ↔ ((b && (s.lock.pid == q)) ≡ true)
unfolding holdingsleep
holder_of s b e v q =
    subst (λ x. (s.at q ≡ inside) ↔ ((x && (s.lock.pid == q)) ≡ true)) e (v.holder q)

acquiresleep-IsExclusive :
    (s : System) (p : ℕ) → s.at p ≢ inside → IsExclusive s → IsExclusive (acquiresleep p s)
unfolding acquiresleep holdingsleep
acquiresleep-IsExclusive s p o v = elim (Bool-cases s.lock.locked) [
  | inl y ↦
      rw (y, acquiresleep)
        (record {
          holder = λ q. elim (Bool-cases (q == p)) [
            | inl e ↦
                let same = (==_iff q p).0 e in
                (
                  λ h. absurd (sleeper (sym (move-same p q asleep s.at e) ∙ h)),
                  λ h. absurd (o (ap s.at (sym same) ∙ (holder_of s true y v q).1 h)),
                )
            | inr n ↦
                let m = move-other p q asleep s.at n in
                (λ h. (holder_of s true y v q).0 (sym m ∙ h), λ h. m ∙ (holder_of s true y v q).1 h)
          ];
          none_sleeps = λ f q h. ground arith;
        })
  | inr n ↦
      rw (n, acquiresleep)
        (record {
          holder = λ q. elim (Bool-cases (q == p)) [
            | inl e ↦ (λ h. ground arith, λ h. move-same p q inside s.at e)
            | inr m ↦ (
              λ h.
                  let f = (holder_of s false n v q).0 (sym (move-other p q inside s.at m) ∙ h) in
                  ground arith,
              λ h. ground arith,
            )
          ];
          none_sleeps = λ f q h. ground arith;
        })
]
  where
    sleeper : asleep ≢ inside
    sleeper h = ground arith

releasesleep-IsExclusive :
    (s : System) (p : ℕ) → s.at p ≡ inside → IsExclusive s → IsExclusive (releasesleep p s)
unfolding releasesleep holdingsleep
releasesleep-IsExclusive s p h v = record {
  holder = λ q. (λ k. absurd (left q k), λ k. ground arith);
  none_sleeps = λ f q k. elim (Bool-cases (q == p)) [
    | inl e ↦
        let g : outside ≡ asleep = sym (move-same p q outside (λ r. rouse_place (s.at r)) e) ∙ k in
        ground arith
    | inr n ↦ rouse-asleep (s.at q) (sym (move-other p q outside (λ r. rouse_place (s.at r)) n) ∙ k)
  ];
}
  where
    held : (q : ℕ) → s.at q ≡ inside → s.lock.pid ≡ q
    held q k = let e = (v.holder q).0 k in ground arith

    left : (q : ℕ) → move p outside (λ r. rouse_place (s.at r)) q ≢ inside
    left q k = elim (Bool-cases (q == p)) [
      | inl e ↦
          let g : outside ≡ inside =
            sym (move-same p q outside (λ r. rouse_place (s.at r)) e) ∙ k in
          ground arith
      | inr n ↦
          let i =
            rouse-inside (s.at q)
              (sym (move-other p q outside (λ r. rouse_place (s.at r)) n) ∙ k) in
          let a = held q i in let b = held p h in ground arith
    ]

-- However processes call acquiresleep and releasesleep, from a new lock on, with releasesleep called
-- by the process that has the lock: holdingsleep says exactly which process has it, so there is one at
-- most; and no process is asleep on the lock while it is free.
pub Reach-IsExclusive : (s : System) → Reach s → IsExclusive s
Reach-IsExclusive s initially = start-IsExclusive
Reach-IsExclusive s (later r (enters t p o)) =
    acquiresleep-IsExclusive t p (λ h. let f : outside ≡ inside = sym o ∙ h in ground arith)
      (Reach-IsExclusive t r)
Reach-IsExclusive s (later r (retries t p o)) =
    acquiresleep-IsExclusive t p (λ h. let f : woken ≡ inside = sym o ∙ h in ground arith)
      (Reach-IsExclusive t r)
Reach-IsExclusive s (later r (leaves t p o)) =
    releasesleep-IsExclusive t p o (Reach-IsExclusive t r)
