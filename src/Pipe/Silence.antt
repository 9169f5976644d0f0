-- ===== src/Pipe/Silence.antt =====
-- pipewrite of a process that was killed.
use lab7sp25_shelnutt.Base.{
  ℕ, ◌+◌, ◌-◌, ◌++◌, take, ap, ◌∙◌, ◌<◌, ◌≡◌, refl, Bool, true, List, [], ◌∷◌, arith, length,
  Bool-cases, inl, inr,
}
use lab7sp25_shelnutt.Pipe.{
  Pipe, pipesize, put, is_full, WriteEnd, wrote, refused, blocked, write_on,
}
use lab7sp25_shelnutt.Pipe.Window.{count, contents, IsValid}
use lab7sp25_shelnutt.Pipe.Queue.{Wrote, write_on_lem}

refused-wakes :
    (killed : Bool) (p : Pipe) (bs : List ℕ)
    → (write_on killed p bs).0 ≡ refused
    → (write_on killed p bs).2 ≡ []
unfolding write_on
refused-wakes killed p [] h = cc
refused-wakes killed p (x ∷ xs) h = elim (Bool-cases (is_full p)) [
  | inr f ↦ rw (f, write_on) (refused-wakes killed (put p x) xs (rw (f, write_on) at h))
  | inl f ↦ ground arith
]

overfull :
    (p p' : Pipe) (bs : List ℕ) (e : WriteEnd)
    → pipesize < count p + length bs
    → Wrote true p bs e p'
    → (e ≡ refused) × (count p' ≡ pipesize)
overfull p p' bs wrote big w = absurd (omega (arith, w.ending, w.counted, w.valid.fits))
overfull p p' bs refused big w = (refl, w.ending.1)
overfull p p' bs (blocked rest) big w = absurd (ground (arith, w.ending))

-- The bytes that went in are as many as there was room for.
filled :
    (p p' : Pipe) (bs : List ℕ) (e : WriteEnd)
    → count p' ≡ pipesize
    → Wrote true p bs e p'
    → contents p' ≡ contents p ++ take (pipesize - count p) bs
filled p p' bs e full w =
    let n : w.sent ≡ pipesize - count p = omega (arith, w.counted) in
    w.added ∙ ap (λ m. contents p ++ take m bs) n

-- Let a process that was killed write more bytes to a valid pipe than it has room for. Then pipewrite
-- puts the first of them behind what the pipe holds, until these are 512 bytes, returns -1, and wakes
-- no reader, not even where the pipe was empty before.
pub write_on-silent :
    (p : Pipe) (bs : List ℕ)
    → IsValid p
    → pipesize < count p + length bs
    → let out = write_on true p bs in
      (out.0 ≡ refused)
      × (count out.1 ≡ pipesize)
      × (contents out.1 ≡ contents p ++ take (pipesize - count p) bs)
      × (out.2 ≡ [])
write_on-silent p bs v big =
    let (e, full) =
      overfull p (write_on true p bs).1 bs (write_on true p bs).0 big (write_on_lem true p bs v) in
    (
      e,
      full,
      filled p (write_on true p bs).1 bs (write_on true p bs).0 full (write_on_lem true p bs v),
      refused-wakes true p bs e,
    )
