-- ===== src/Log/Space.antt =====
-- The space of the log: what begin_op sets aside, and what the operations write.
use lab7sp25_shelnutt.Base.{
  ℕ, ◌+◌, ◌-◌, ◌*◌, ◌≤◌, ◌<◌, ◌≡◌, refl, ap, sym, ◌∙◌, Bool, true, false, some, none, ◌⊎◌, leb,
  List, [], ◌∷◌, arith, length, ◌==◌, ltb, Bool-cases, inl, inr, some-injective, subst, get_or,
}
use lab7sp25_shelnutt.Log.Quota.{
  total, use_one, finish, Small, total-use_one, length-use_one, total-finish, length-finish,
  Small-total, use_one-Small, finish-Small, get_or-length,
}
use lab7sp25_shelnutt.Log.{
  Block, Log, logsize, maxopblocks, begin_op, end_op, end_commit, absorb, log_write, store,
}
use lab7sp25_shelnutt.Log.Lengths.{length-absorb, commit-Kept, length-commit}

-- The calls that the operations make, with a commit in its two parts.
pub data Step (s : Log) (qs : List ℕ) : Log → List ℕ → Type 0 where
  begins : {s' : Log} → begin_op s ≡ some s' → Step s qs s' (maxopblocks ∷ qs)
  writes :
      (i b : ℕ) (v : Block) {s' : Log}
      → 0 < get_or qs i 0
      → log_write b v s ≡ some s'
      → Step s qs s' (use_one qs i)
  ends :
      (i : ℕ) {s' : Log} {last : Bool}
      → i < length qs
      → end_op s ≡ some (s', last)
      → Step s qs s' (finish qs i)
  commits : s.committing ≡ true → Step s qs (end_commit s) qs

-- The log region has LOGSIZE blocks or more, the count is that of the operations, what
-- they may still write fits, and a commit runs only while there are none.
pub record Reserved (s : Log) (qs : List ℕ) : Type 0 where
  pub room : logsize ≤ s.size
  pub counted : s.outstanding ≡ length qs
  pub fits : length s.logged + total qs ≤ logsize
  pub alone : s.committing ≡ true → s.outstanding ≡ 0
  pub small : Small qs

begin_op-Reserved :
    (s s' : Log) (qs : List ℕ)
    → begin_op s ≡ some s'
    → Reserved s qs
    → Reserved s' (maxopblocks ∷ qs)
unfolding begin_op
begin_op-Reserved s s' qs e r = elim (Bool-cases s.committing) [
  | inl c ↦ absurd (ground arith)
  | inr c ↦ elim (Bool-cases (ltb logsize (length s.logged + (s.outstanding + 1) * maxopblocks))) [
    | inl f ↦ absurd (ground arith)
    | inr f ↦
        let s2 = record s { outstanding = s.outstanding + 1 } in
        let p : s2 ≡ s' = some-injective s2 s' (sym (rw (c, f)) ∙ e) in
        subst (λ x. Reserved x (maxopblocks ∷ qs)) p
          (record {
            room = r.room;
            counted = omega (arith, r.counted);
            fits = ground (arith, r.counted, Small-total qs r.small);
            alone = λ y. absurd (ground arith);
            small = (omega arith, r.small);
          })
  ]
]

-- log_write has no block left for the last call that is set aside: the header takes one of a region
-- of just LOGSIZE blocks.
pub record HeaderCounts (s : Log) (qs : List ℕ) : Type 0 where
  pub region : s.size ≡ logsize
  pub full : length s.logged + 1 ≡ logsize
  pub last_call : total qs ≡ 1

-- log_write by an operation that may still write.
log_write-Reserved :
    (s : Log) (qs : List ℕ) (i b : ℕ) (v : Block)
    → 0 < get_or qs i 0
    → Reserved s qs
    → ((s' : Log) × (log_write b v s ≡ some s')
        × (length s.logged + 1 < s.size)
        × Reserved s' (use_one qs i))
      ⊎ ((log_write b v s ≡ none) × HeaderCounts s qs)
unfolding log_write
log_write-Reserved s qs i b v h r =
    let (l, pos_total) = get_or-length qs i h in
    let (a, c) = length-absorb s.logged b in
    let u = total-use_one qs i h in
    elim (Bool-cases (leb (s.size - 1) (length s.logged))) [
      | inl y ↦ inr (
        ground (arith, r.fits, r.room, r.counted),
        record {
          region = ground (arith, r.fits, r.room);
          full = ground (arith, r.fits, r.room);
          last_call = ground (arith, r.fits, r.room);
        },
      )
      | inr n ↦ inl (
        record s { logged = absorb s.logged b; cache = store s.cache b v },
        ground (arith, r.fits, r.room, r.counted),
        ground (arith, n, r.room),
        record {
          room = r.room;
          counted = omega (arith, r.counted, length-use_one qs i);
          fits = omega (arith, r.fits, u, c);
          alone = r.alone;
          small = use_one-Small qs i r.small;
        },
      )
    ]

-- end_op by a running operation.
end_op-Reserved :
    (s : Log) (qs : List ℕ) (i : ℕ)
    → i < length qs
    → Reserved s qs
    → (s' : Log) × (last : Bool) × (end_op s ≡ some (s', last)) × Reserved s' (finish qs i)
unfolding end_op
end_op-Reserved s qs i l r =
    let q = length-finish qs i l in
    let t = total-finish qs i in
    elim (Bool-cases s.committing) [
      | inl c ↦ absurd (omega (arith, r.alone c, r.counted))
      | inr c ↦ elim (Bool-cases (s.outstanding == 1)) [
        | inl o ↦ (
          record s { outstanding = 0; committing = true },
          true,
          rw (c, o) refl,
          record {
            room = r.room;
            counted = ground (arith, r.counted, q);
            fits = omega (arith, r.fits, t);
            alone = λ _. refl;
            small = finish-Small qs i r.small;
          },
        )
        | inr o ↦ (
          record s { outstanding = s.outstanding - 1 },
          false,
          rw (c, o) refl,
          record {
            room = r.room;
            counted = omega (arith, r.counted, q);
            fits = omega (arith, r.fits, t);
            alone = λ y. absurd (ground arith);
            small = finish-Small qs i r.small;
          },
        )
      ]
    ]

Step-Reserved : {s s' : Log} {qs qs' : List ℕ} → Step s qs s' qs' → Reserved s qs → Reserved s' qs'
Step-Reserved {s} {qs = qs} (begins {s' = s'} e) r = begin_op-Reserved s s' qs e r
Step-Reserved {s} {qs = qs} (writes i b v {s' = s'} h e) r =
    elim (log_write-Reserved s qs i b v h r) [
      | inl (t, e', _, w) ↦
          subst (λ x. Reserved x (use_one qs i)) (some-injective t s' (sym e' ∙ e)) w
      | inr (e', _) ↦ absurd (cc)
    ]
Step-Reserved {s} {qs = qs} (ends i {s' = s'} {last = last} l e) r =
    let (t, b, e', w) = end_op-Reserved s qs i l r in
    subst (λ x. Reserved x (finish qs i))
      (ap (λ x. x.0) (some-injective (t, b) (s', last) (sym e' ∙ e))) w
Step-Reserved {s} {qs = qs} (commits c) r =
    let k = commit-Kept s in
    unfold end_commit in
    record {
      room = omega (arith, r.room, k.size);
      counted = k.outstanding ∙ r.counted;
      fits = omega (arith, r.fits, length-commit s);
      alone = λ y. absurd (ground arith);
      small = r.small;
    }

-- From a log without operations on, whose region is large enough.
pub data Reach : Log → List ℕ → Type 0 where
  idle :
      (s : Log)
      → logsize ≤ s.size
      → s.outstanding ≡ 0
      → s.committing ≡ false
      → length s.logged ≤ logsize
      → Reach s []
  later : {s s' : Log} {qs qs' : List ℕ} → Reach s qs → Step s qs s' qs' → Reach s' qs'

Reach-Reserved : {s : Log} {qs : List ℕ} → Reach s qs → Reserved s qs
Reach-Reserved (idle s a o c l) = record {
  room = a;
  counted = o;
  fits = omega arith;
  alone = λ y. absurd (ground arith);
  small = tt;
}
Reach-Reserved (later r t) = Step-Reserved t (Reach-Reserved r)

-- In a log region of at least LOGSIZE blocks, as mkfs makes it, let operations begin, write and end in
-- any order, with commits as end_op starts them, where no operation calls log_write more than
-- MAXOPBLOCKS times. Then a call of log_write by an operation that has calls left finds a
-- block of the region free beside the header and those logged, and leaves at most LOGSIZE blocks in
-- the log; or it panics, and that only in a region of exactly LOGSIZE blocks, with
-- LOGSIZE - 1 blocks logged, when it is the last call that any operation has left. And an end_op by a
-- running operation does not panic.
pub log_write_lem :
    {s : Log} {qs : List ℕ} (i j b : ℕ) (v : Block)
    → Reach s qs
    → 0 < get_or qs i 0
    → j < length qs
    → (((s' : Log) × (log_write b v s ≡ some s')
          × (length s.logged + 1 < s.size)
          × (length s'.logged ≤ logsize))
        ⊎ ((log_write b v s ≡ none) × HeaderCounts s qs))
      × ((s' : Log) × (last : Bool) × (end_op s ≡ some (s', last)))
log_write_lem {s} {qs} i j b v r h l =
    let v0 = Reach-Reserved r in
    let (t, last, e', x) = end_op-Reserved s qs j l v0 in
    elim (log_write-Reserved s qs i b v h v0) [
      | inl (s', e, h, w) ↦ (inl (s', e, h, omega (arith, w.fits)), (t, last, e'))
      | inr p ↦ (inr p, (t, last, e'))
    ]
