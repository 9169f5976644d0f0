-- ===== src/Pipe/Queue.antt =====
-- pipewrite and piperead against a queue of bytes: what a stretch of each adds and takes.
use lab7sp25_shelnutt.Base.{
  ℕ, zero, suc, ◌+◌, ◌<◌, ◌≡◌, ◌≢◌, refl, ap, ◌∙◌, sym, Bool, true, false, not, ◌&&◌, ◌||◌, List,
  [], ◌∷◌, ◌++◌, arith, length, take, drop, append_assoc, append-nil, Bool-cases, inl, inr, ◌⊎◌,
}
use lab7sp25_shelnutt.Pipe.{
  Pipe, at_nread, pipesize, put, skip, is_full, is_empty, WriteEnd, wrote, refused, blocked,
  write_on, copy_out, ReadEnd, took, gave_up, hungry, read_on,
}
use lab7sp25_shelnutt.Pipe.Window.{
  count, contents, IsValid, length-contents, full_iff, not_full, empty-count, not_empty,
  put-IsValid, contents-put, skip-IsValid, contents-skip,
}

-- What the end of a stretch says, when `m` of the bytes were written.
abbrev pub WriteEnding : Bool → List ℕ → ℕ → WriteEnd → Pipe → Type 0
WriteEnding killed bs m wrote p = m ≡ length bs
WriteEnding killed bs m refused p =
    (m < length bs) × (count p ≡ pipesize) × ((not p.readopen || killed) ≡ true)
WriteEnding killed bs m (blocked rest) p =
    (m < length bs)
    × (rest ≡ drop m bs)
    × (count p ≡ pipesize)
    × ((not p.readopen || killed) ≡ false)

pub record Wrote (killed : Bool) (p : Pipe) (bs : List ℕ) (e : WriteEnd) (p' : Pipe) : Type 0 where
  pub valid : IsValid p'
  pub sent : ℕ
  pub added : contents p' ≡ contents p ++ take sent bs
  pub counted : count p' ≡ count p + sent
  pub ending : WriteEnding killed bs sent e p'
  pub reader_still : p'.readopen ≡ p.readopen
  pub writer_still : p'.writeopen ≡ p.writeopen

put_keeps :
    (p : Pipe) (x : ℕ) → ((put p x).readopen ≡ p.readopen) × ((put p x).writeopen ≡ p.writeopen)
unfolding put
put_keeps p x = (refl, refl)

count-put : (p : Pipe) (x : ℕ) → IsValid p → count p < pipesize → count (put p x) ≡ suc (count p)
unfolding put
count-put p x v h = omega arith

Wrote-put :
    (killed : Bool) (p : Pipe) (x : ℕ) (xs : List ℕ) (e : WriteEnd) (p' : Pipe)
    → IsValid p
    → count p < pipesize
    → Wrote killed (put p x) xs e p'
    → Wrote killed p (x ∷ xs) e p'
Wrote-put killed p x xs e p' v h w = record {
  valid = w.valid;
  sent = suc w.sent;
  added = w.added ∙ rw (contents-put p x v h, append_assoc);
  counted = omega (arith, w.counted, count-put p x v h);
  ending = shift e w.ending;
  reader_still = w.reader_still ∙ (put_keeps p x).0;
  writer_still = w.writer_still ∙ (put_keeps p x).1;
}
  where
    shift :
        (d : WriteEnd)
        → WriteEnding killed xs w.sent d p'
        → WriteEnding killed (x ∷ xs) (suc w.sent) d p'
    shift wrote g = omega arith
    shift refused g = (omega arith, g.1, g.2)
    shift (blocked rest) g = (omega arith, g.1, g.2, g.3)

Wrote-none :
    (killed : Bool) (p : Pipe) (bs : List ℕ) (e : WriteEnd)
    → IsValid p
    → WriteEnding killed bs 0 e p
    → Wrote killed p bs e p
Wrote-none killed p bs e v g = record {
  valid = v;
  sent = 0;
  added = sym (append-nil (contents p));
  counted = omega arith;
  ending = g;
  reader_still = refl;
  writer_still = refl;
}

-- A stretch of pipewrite on a valid pipe appends a first part of the given bytes to what the pipe
-- holds, leaves it valid and its ends as they were. If it returns the count, all bytes went in. If it
-- returns -1 or sleeps, the pipe holds 512 bytes and bytes are left; it returns -1 exactly if the
-- read end is closed or the process was killed, and else sleeps, with just the other bytes left.
pub write_on_lem :
    (killed : Bool) (p : Pipe) (bs : List ℕ)
    → IsValid p
    → Wrote killed p bs (write_on killed p bs).0 (write_on killed p bs).1
unfolding write_on
write_on_lem killed p [] v = Wrote-none killed p [] wrote v refl
write_on_lem killed p (x ∷ xs) v = elim (Bool-cases (is_full p)) [
  | inr h ↦
      let room = not_full p v h in
      let ih = write_on_lem killed (put p x) xs (put-IsValid p x v room) in
      rw (h, write_on)
        (Wrote-put killed p x xs (write_on killed (put p x) xs).0 (write_on killed (put p x) xs).1 v
          room ih)
  | inl h ↦ elim (Bool-cases (not p.readopen || killed)) [
    | inl r ↦
        rw (h, write_on, r)
          (Wrote-none killed p (x ∷ xs) refused v (omega arith, full_iff p v h, r))
    | inr r ↦
        rw (h, write_on, r)
          (Wrote-none killed p (x ∷ xs) (blocked (x ∷ xs)) v (omega arith, refl, full_iff p v h, r))
  ]
]

-- A stretch that does not return -1 wakes the readers.
pub write_on-wakes :
    (killed : Bool) (p : Pipe) (bs : List ℕ)
    → (write_on killed p bs).0 ≢ refused
    → (write_on killed p bs).2 ≡ at_nread ∷ []
unfolding write_on
write_on-wakes killed p [] h = refl
write_on-wakes killed p (x ∷ xs) h = elim (Bool-cases (is_full p)) [
  | inr f ↦ rw (f, write_on) (write_on-wakes killed (put p x) xs (λ e. h (rw (f, write_on) e)))
  | inl f ↦ ground arith
]

pub record Took (p : Pipe) (n : ℕ) (xs : List ℕ) (p' : Pipe) : Type 0 where
  pub valid : IsValid p'
  pub oldest : xs ≡ take n (contents p)
  pub left : contents p' ≡ drop n (contents p)
  pub writer_still : p'.writeopen ≡ p.writeopen
  pub reader_still : p'.readopen ≡ p.readopen

skip_keeps : (p : Pipe) → ((skip p).readopen ≡ p.readopen) × ((skip p).writeopen ≡ p.writeopen)
unfolding skip
skip_keeps p = (refl, refl)

nil_of_count : (p : Pipe) → count p ≡ 0 → contents p ≡ []
nil_of_count p e = rw e

take-nil : (n : ℕ) → take {A = ℕ} n [] ≡ []
take-nil zero = refl
take-nil (suc n) = refl

drop-nil : (n : ℕ) → drop {A = ℕ} n [] ≡ []
drop-nil zero = refl
drop-nil (suc n) = refl

pub copy_out_lem : (p : Pipe) (n : ℕ) → IsValid p → Took p n (copy_out p n).0 (copy_out p n).1
unfolding copy_out
copy_out_lem p zero v = record {
  valid = v;
  oldest = refl;
  left = refl;
  writer_still = refl;
  reader_still = refl;
}
copy_out_lem p (suc n) v = elim (Bool-cases (is_empty p)) [
  | inl h ↦
      let e = nil_of_count p (empty-count p v h) in
      rw (h, copy_out)
        (record { valid = v; oldest = rw e; left = rw e; writer_still = refl; reader_still = refl })
  | inr h ↦
      let some_left = not_empty p v h in
      let ih = copy_out_lem (skip p) n (skip-IsValid p v some_left) in
      let e = contents-skip p v some_left in
      rw (h, copy_out)
        (record {
          valid = ih.valid;
          oldest = rw (e, ih.oldest);
          left = rw (e, ih.left);
          writer_still = ih.writer_still ∙ (skip_keeps p).1;
          reader_still = ih.reader_still ∙ (skip_keeps p).0;
        })
]

-- What the end of a stretch of piperead says.
abbrev pub ReadEnding : Bool → Pipe → ℕ → ReadEnd → Pipe → Type 0
ReadEnding killed p n (took xs) p' = Took p n xs p' × ((contents p ≢ []) ⊎ (p.writeopen ≡ false))
ReadEnding killed p n gave_up p' =
    (p' ≡ p) × (contents p ≡ []) × (p.writeopen ≡ true) × (killed ≡ true)
ReadEnding killed p n hungry p' =
    (p' ≡ p) × (contents p ≡ []) × (p.writeopen ≡ true) × (killed ≡ false)

nonempty : (p : Pipe) → IsValid p → is_empty p ≡ false → contents p ≢ []
nonempty p v h e = absurd (omega (arith, ap length e, length-contents p, not_empty p v h))

and_true : (a b : Bool) → (a && b) ≡ true → (a ≡ true) × (b ≡ true)
and_true a b h = ground arith

some_or_closed :
    (p : Pipe)
    → IsValid p
    → (is_empty p && p.writeopen) ≡ false
    → (contents p ≢ []) ⊎ (p.writeopen ≡ false)
some_or_closed p v h = elim (Bool-cases p.writeopen) [
  | inr w ↦ inr w
  | inl w ↦ inl (nonempty p v (ground arith))
]

-- A stretch of piperead on a valid pipe. If the pipe holds no byte and its write end is open, nothing
-- changes, and the call returns -1 if the process was killed and sleeps if not. In every other case it
-- returns, for a request of n bytes, the n oldest that the pipe holds (all, if it holds fewer), in
-- order, and leaves the rest; so with the write end closed it never sleeps, and at the end returns 0.
pub read_on_lem :
    (killed : Bool) (p : Pipe) (n : ℕ)
    → IsValid p
    → ReadEnding killed p n (read_on killed p n).0 (read_on killed p n).1
read_on_lem killed p n v = elim (Bool-cases (is_empty p && p.writeopen)) [
  | inr h ↦ unfold read_on in rw (h, read_on) (copy_out_lem p n v, some_or_closed p v h)
  | inl h ↦
      let (e, w) = and_true (is_empty p) p.writeopen h in
      let c = nil_of_count p (empty-count p v e) in
      elim (Bool-cases killed) [
        | inl k ↦ unfold read_on in rw (h, k, read_on) (refl, c, w, refl)
        | inr k ↦ unfold read_on in rw (h, k, read_on) (refl, c, w, refl)
      ]
]
