-- ===== src/Proc/Life/Orphans.antt =====
-- exit: where the children of the caller go, who is woken, and what stays as it was.
use lab7sp25_shelnutt.Base.{
  ℕ, zero, suc, ◌+◌, ◌≤◌, ◌<◌, ◌≡◌, refl, true, false, ◌&&◌, some, arith, length, length-set,
  length-map, Bool-cases, inl, inr, ◌==◌, ltb, leb, if◌then◌else◌, points_to, dec_lt, get_or_beyond,
  ◌∙◌, ℕ_discrete,
}
use lab7sp25_shelnutt.Proc.Table.{
  Proc, blank, Kernel, the_proc, live, update, is_state, zombie, sleeping, runnable, Chan, chan_of,
  entry, same_chan,
}
use lab7sp25_shelnutt.Proc.Sleep.{rouse, wakeup1}
use lab7sp25_shelnutt.Proc.Sleep.Wakeups.{the_proc-wakeup1}
use lab7sp25_shelnutt.Proc.Inv.{the_proc-update}
use lab7sp25_shelnutt.Proc.Life.{give_to, adopt, adopt_from}

-- What the loop of exit leaves alone in each entry: all that decides who it is, and a state can only
-- go from SLEEPING to RUNNABLE.
pub record Calm (p p' : Proc) : Type 0 where
  pub pid : p'.pid ≡ p.pid
  pub live_still : live p' ≡ live p
  pub zombie_still : is_state p'.state zombie ≡ is_state p.state zombie
  pub chan : p'.chan ≡ p.chan
  pub state_still : is_state p.state sleeping ≡ false → p'.state ≡ p.state
  pub woken : is_state p'.state sleeping ≡ true → is_state p.state sleeping ≡ true
  pub ready : is_state p.state runnable ≡ true → is_state p'.state runnable ≡ true
  pub roused :
      is_state p.state sleeping ≡ true
      → is_state p'.state sleeping ≡ false
      → is_state p'.state runnable ≡ true

pub Calm-trans : {p q r : Proc} → Calm p q → Calm q r → Calm p r
Calm-trans {p} {q} {r} a b = ground arith

rouse-Calm : (c : Chan) (p : Proc) → Calm p (rouse c p)
rouse-Calm c p = ground arith

pub wakeup1-Calm :
    {W : Type 0} (c : Chan) (k : Kernel W) (j : ℕ) → Calm (the_proc k j) (the_proc (wakeup1 c k) j)
wakeup1-Calm c k j = rw (the_proc-wakeup1 c k j) (rouse-Calm c (the_proc k j))

pub wakeup1-parent :
    {W : Type 0} (c : Chan) (k : Kernel W) (j : ℕ)
    → (the_proc (wakeup1 c k) j).parent ≡ (the_proc k j).parent
wakeup1-parent c k j = ground (arith, the_proc-wakeup1 c k j)

pub length-wakeup1 :
    {W : Type 0} (c : Chan) (k : Kernel W) → length (wakeup1 c k).procs ≡ length k.procs
unfolding wakeup1
length-wakeup1 c k = length-map k.procs (rouse c)

-- One round of the loop.
pub record Round {W : Type 0} (cur i : ℕ) (k k' : Kernel W) : Type 0 where
  pub size : length k'.procs ≡ length k.procs
  pub init : k'.initproc ≡ k.initproc
  pub next : k'.nextpid ≡ k.nextpid
  pub parent :
      (j : ℕ)
      → (the_proc k' j).parent ≡ (
          if (i == j) && points_to (the_proc k j).parent cur
          then k.initproc
          else (the_proc k j).parent)
  pub calm : (j : ℕ) → Calm (the_proc k j) (the_proc k' j)
  -- The init process does not sleep on when it has been given a ZOMBIE.
  pub told :
      (q : ℕ)
      → points_to (the_proc k i).parent cur ≡ true
      → is_state (the_proc k i).state zombie ≡ true
      → k.initproc ≡ some q
      → (the_proc k q).chan ≡ entry q
      → is_state (the_proc k' q).state sleeping ≡ false

pub child_in :
    {W : Type 0} (cur i : ℕ) (k : Kernel W)
    → points_to (the_proc k i).parent cur ≡ true
    → i < length k.procs
unfolding blank
child_in cur i k h = elim (dec_lt i (length k.procs)) [
  | yes l ↦ l
  | no n ↦ let e = get_or_beyond k.procs i blank (omega arith) in ground arith
]

-- The round before its wakeup.
abbrev given : {W : Type 0} → ℕ → Kernel W → Kernel W
given i k = update i (give_to k.initproc) k

given-parent :
    {W : Type 0} (cur i : ℕ) (k : Kernel W)
    → points_to (the_proc k i).parent cur ≡ true
    → (j : ℕ)
    → (the_proc (given i k) j).parent ≡ (
        if (i == j) && points_to (the_proc k j).parent cur
        then k.initproc
        else (the_proc k j).parent)
given-parent cur i k h j =
    ground (arith, the_proc-update i j (give_to k.initproc) k, child_in cur i k h)

given-Calm :
    {W : Type 0} (i : ℕ) (k : Kernel W) (j : ℕ) → Calm (the_proc k j) (the_proc (given i k) j)
given-Calm i k j = ground (arith, the_proc-update i j (give_to k.initproc) k)

pub wakeup1-told :
    {W : Type 0} (q : ℕ) (c : Chan) (k : Kernel W)
    → same_chan (the_proc k q).chan c ≡ true
    → is_state (the_proc (wakeup1 c k) q).state sleeping ≡ false
wakeup1-told q c k e = ground (arith, the_proc-wakeup1 c k q)

given-chan :
    {W : Type 0} (i j : ℕ) (k : Kernel W) → (the_proc (given i k) j).chan ≡ (the_proc k j).chan
given-chan i j k = ground (arith, the_proc-update i j (give_to k.initproc) k)

pub Calm-refl : (p : Proc) → Calm p p
Calm-refl p = ground arith

size-given : {W : Type 0} (i : ℕ) (k : Kernel W) → length (given i k).procs ≡ length k.procs
size-given i k = length-set k.procs i (give_to k.initproc (the_proc k i))

adopt-Round : {W : Type 0} (cur i : ℕ) (k : Kernel W) → Round cur i k (adopt cur i k)
adopt-Round cur i k = elim (Bool-cases (points_to (the_proc k i).parent cur)) [
  | inr h ↦
      unfold adopt in
      rw h (record {
        size = refl;
        init = refl;
        next = refl;
        parent = λ j. ground arith;
        calm = λ j. Calm-refl (the_proc k j);
        told = λ q p. cc;
      })
  | inl h ↦ elim (Bool-cases (is_state (the_proc k i).state zombie)) [
    | inr z ↦
        unfold adopt in
        rw (h, z)
          (record {
            size = size-given i k;
            init = refl;
            next = refl;
            parent = given-parent cur i k h;
            calm = given-Calm i k;
            told = λ q p y. cc;
          })
    | inl z ↦
        unfold adopt in
        rw (h, z)
          (record {
            size = length-wakeup1 (chan_of k.initproc) (given i k) ∙ size-given i k;
            init = unfold wakeup1 in refl;
            next = unfold wakeup1 in refl;
            parent =
                λ j. wakeup1-parent (chan_of k.initproc) (given i k) j ∙ given-parent cur i k h j;
            calm = λ j.
                Calm-trans (given-Calm i k j) (wakeup1-Calm (chan_of k.initproc) (given i k) j);
            told = λ q p y e c.
                wakeup1-told q (chan_of k.initproc) (given i k) (ground (arith, given-chan i q k));
          })
  ]
]

-- The rounds from `i` on, `n` of them.
pub record Rounds {W : Type 0} (cur i n : ℕ) (k k' : Kernel W) : Type 0 where
  pub size : length k'.procs ≡ length k.procs
  pub init : k'.initproc ≡ k.initproc
  pub next : k'.nextpid ≡ k.nextpid
  pub parent :
      (j : ℕ)
      → (the_proc k' j).parent ≡ (
          if leb i j && (ltb j (i + n) && points_to (the_proc k j).parent cur)
          then k.initproc
          else (the_proc k j).parent)
  pub calm : (j : ℕ) → Calm (the_proc k j) (the_proc k' j)
  -- The init process does not sleep on when it has been given a ZOMBIE.
  pub told :
      (j : ℕ)
      → i ≤ j
      → j < i + n
      → (q : ℕ) → points_to (the_proc k j).parent cur ≡ true
      → is_state (the_proc k j).state zombie ≡ true
      → k.initproc ≡ some q
      → (the_proc k q).chan ≡ entry q
      → is_state (the_proc k' q).state sleeping ≡ false

Rounds-cons :
    {W : Type 0} {cur i n : ℕ} {k k1 k2 : Kernel W}
    → Round cur i k k1
    → Rounds cur (suc i) n k1 k2
    → Rounds cur i (suc n) k k2
Rounds-cons {i = i} r s = record {
  size = omega (arith, r.size, s.size);
  init = s.init ∙ r.init;
  next = s.next ∙ r.next;
  parent = λ j. ground (arith, r.parent j, s.parent j, r.init);
  calm = λ j. Calm-trans (r.calm j) (s.calm j);
  told = λ j l u q p z e c. elim (ℕ_discrete i j) [
    | yes h ↦ ground (arith, r.told q, (s.calm q).woken)
    | no h ↦ ground (
      arith,
      s.told j (omega arith) (omega arith) q,
      r.parent j,
      (r.calm j).zombie_still,
      (r.calm q).chan,
      r.init,
    )
  ];
}

pub adopt_from-Rounds :
    {W : Type 0} (cur i n : ℕ) (k : Kernel W) → Rounds cur i n k (adopt_from cur i n k)
unfolding adopt_from
adopt_from-Rounds cur i zero k = record {
  size = refl;
  init = refl;
  next = refl;
  parent = λ j. ground arith;
  calm = λ j. Calm-refl (the_proc k j);
  told = λ j l u. absurd (omega arith);
}
adopt_from-Rounds cur i (suc n) k =
    let r = adopt-Round cur i k in Rounds-cons r (adopt_from-Rounds cur (suc i) n (adopt cur i k))
