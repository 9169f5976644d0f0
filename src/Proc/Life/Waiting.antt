-- ===== src/Proc/Life/Waiting.antt =====
-- wait: the outcomes of one pass of its loop.
use lab7sp25_shelnutt.Base.{
  ℕ, ◌<◌, ◌≡◌, ◌≢◌, refl, true, false, Option, none, some, arith, length, Bool-cases, Option-cases,
  inl, inr, ◌⊎◌, points_to, ℤ, pos, minus_one, ap,
}
use lab7sp25_shelnutt.Proc.Table.{Kernel, the_proc, is_state, unused, zombie, sleeping, entry}
use lab7sp25_shelnutt.Proc.Services.{Services}
use lab7sp25_shelnutt.Proc.Sleep.{fall_asleep, sleep}
use lab7sp25_shelnutt.Proc.Inv.{the_proc-update_self, the_proc-update_ne}
use lab7sp25_shelnutt.Proc.Life.{wipe, scan, reap, wait_pass}
use lab7sp25_shelnutt.Proc.Life.Reaped.{
  IsChild, NoZombieChild, scan-some, scan-none, scan-havekids, scan-childless,
}

-- The three outcomes of a pass of wait.
pub record Reaped {W : Type 0} (cur i : ℕ) (k : Kernel W) (out : Option ℤ × Kernel W) : Type 0 where
  pub child : IsChild k.procs cur i
  pub dead : is_state (the_proc k i).state zombie ≡ true
  pub result : out.0 ≡ some (pos (the_proc k i).pid)
  pub freed : (the_proc out.1 i).state ≡ unused
  pub orphaned : (the_proc out.1 i).parent ≡ none
  pub unkilled : (the_proc out.1 i).killed ≡ false
  pub others : (j : ℕ) → i ≢ j → the_proc out.1 j ≡ the_proc k j

pub record Refused {W : Type 0} (cur : ℕ) (k : Kernel W) (out : Option ℤ × Kernel W) : Type 0 where
  pub result : out.0 ≡ some minus_one
  pub same : out.1 ≡ k
  pub none_dead : NoZombieChild k.procs cur
  pub reason :
      ((j : ℕ) → j < length k.procs → points_to (the_proc k j).parent cur ≡ false)
      ⊎ ((the_proc k cur).killed ≡ true)

pub record Waits {W : Type 0} (cur : ℕ) (k : Kernel W) (out : Option ℤ × Kernel W) : Type 0 where
  pub result : out.0 ≡ none
  pub none_dead : NoZombieChild k.procs cur
  pub has_child : (j : ℕ) × IsChild k.procs cur j
  pub not_killed : (the_proc k cur).killed ≡ false
  pub asleep : (the_proc out.1 cur).state ≡ sleeping
  pub on_self : (the_proc out.1 cur).chan ≡ entry cur
  pub others : (j : ℕ) → cur ≢ j → the_proc out.1 j ≡ the_proc k j

module _ (sys : Services) where
  open sys use {World}

  reap-Reaped :
      (cur i : ℕ) (k : Kernel World)
      → IsChild k.procs cur i
      → is_state (the_proc k i).state zombie ≡ true
      → Reaped cur i k (some (pos (the_proc k i).pid), reap sys i k)
  unfolding reap
  reap-Reaped cur i k c z =
      let w = sys.freevm (the_proc k i).pgdir (sys.kfree (the_proc k i).kstack k.world) in
      let k1 = record k { world = w } in
      let self = the_proc-update_self i wipe k1 c.0 in
      record {
        child = c;
        dead = z;
        result = refl;
        freed = ap (λ p. p.state) self;
        orphaned = ap (λ p. p.parent) self;
        unkilled = ap (λ p. p.killed) self;
        others = λ j n. the_proc-update_ne i j wipe k1 n;
      }

  sleep-Waits :
      (cur : ℕ) (k : Kernel World)
      → cur < length k.procs
      → NoZombieChild k.procs cur
      → (scan cur 0 false k.procs).0 ≡ none
      → (scan cur 0 false k.procs).1 ≡ true
      → (the_proc k cur).killed ≡ false
      → Waits cur k (none, sleep cur (entry cur) k)
  unfolding sleep
  sleep-Waits cur k inside dead e h alive =
      let self = the_proc-update_self cur (fall_asleep (entry cur)) k inside in
      record {
        result = refl;
        none_dead = dead;
        has_child = elim (scan-havekids cur 0 false k.procs h e) [
          | inl b ↦ absurd (ground arith)
          | inr c ↦ c
        ];
        not_killed = alive;
        asleep = ap (λ p. p.state) self;
        on_self = ap (λ p. p.chan) self;
        others = λ j n. the_proc-update_ne cur j (fall_asleep (entry cur)) k n;
      }

  -- A pass of wait by `cur`. If it has a ZOMBIE child, one such child is reaped: the result is its pid
  -- and its entry is UNUSED again. Otherwise it returns -1 with nothing changed, and then it has no
  -- children or was killed; or it has children and was not killed, and sleeps on its own entry. No
  -- other entry changes.
  pub wait_pass_lem :
      (cur : ℕ) (k : Kernel World)
      → cur < length k.procs
      → ((i : ℕ) × Reaped cur i k (wait_pass sys cur k))
        ⊎ Refused cur k (wait_pass sys cur k)
        ⊎ Waits cur k (wait_pass sys cur k)
  wait_pass_lem cur k inside = elim (Option-cases (scan cur 0 false k.procs).0) [
    | inr (i, e) ↦
        let (m, q, c, z) = scan-some cur 0 false k.procs {i = i} e in
        let mi : m ≡ i = omega (arith, q) in
        inl
          (i, unfold wait_pass in rw (e, wait_pass) (reap-Reaped cur i k (rw mi at c) (rw mi at z)))
    | inl e ↦
        let dead = scan-none cur 0 false k.procs e in
        elim (Bool-cases (scan cur 0 false k.procs).1) [
          | inr h ↦ inr (
              inl (
                unfold wait_pass in
                rw (e, h, wait_pass)
                  (record {
                    result = refl;
                    same = refl;
                    none_dead = dead;
                    reason = inl (scan-childless cur 0 k.procs h);
                  })))
          | inl h ↦ elim (Bool-cases (the_proc k cur).killed) [
            | inl y ↦ inr (
                inl (
                  unfold wait_pass in
                  rw (e, h, y, wait_pass)
                    (record { result = refl; same = refl; none_dead = dead; reason = inr y })))
            | inr y ↦ inr (
                inr (
                  unfold wait_pass in
                  rw (e, h, y, wait_pass) (sleep-Waits cur k inside dead e h y)))
          ]
        ]
  ]

  -- The equations of the cases above, for a caller that knows the scan.
  pub wait_pass-finds :
      (cur i : ℕ) (k : Kernel World)
      → IsChild k.procs cur i
      → is_state (the_proc k i).state zombie ≡ true
      → (m : ℕ) × ((wait_pass sys cur k).0 ≡ some (pos (the_proc k m).pid))
        × IsChild k.procs cur m
        × (is_state (the_proc k m).state zombie ≡ true)
  wait_pass-finds cur i k c z = elim (Option-cases (scan cur 0 false k.procs).0) [
    | inl e ↦ absurd (ground (arith, scan-none cur 0 false k.procs e i c))
    | inr (j, e) ↦
        let (m, q, d, y) = scan-some cur 0 false k.procs {i = j} e in
        let mj : j ≡ m = omega (arith, q) in (m, unfold wait_pass in rw (e, wait_pass, mj), d, y)
  ]
