-- ===== src/Console/Loop.antt =====
-- consoleread on the ring, loop for loop, as the same loop on a queue.
use lab7sp25_shelnutt.Base.{
  ℕ, zero, suc, ◌%◌, ◌<◌, ◌≡◌, refl, ap, sym, ◌∙◌, Bool, true, false, List, [], ◌∷◌, ◌++◌, ◌==◌,
  if◌then◌else◌, arith, get_or, Bool-cases, inl, inr, window, subst,
}
use lab7sp25_shelnutt.Console.{
  Input, input_buf, control, take_byte, has_some, read_on, ReadEnd, gave_up, asleep,
}
use lab7sp25_shelnutt.Console.{line as line_read}
use lab7sp25_shelnutt.Console.Window.{
  IsValid, ready, queue, line, take_byte-IsValid, queue-take_byte,
}

-- consoleread on the queue, loop for loop.
abbrev pub read_line : Bool → List ℕ → List ℕ → ℕ → ReadEnd × List ℕ
read_line killed q got zero = (line_read got, q)
read_line killed [] got (suc n) = (if killed then gave_up else asleep got (suc n), [])
read_line killed (c ∷ q) got (suc n) =
    let more = read_line killed q (got ++ c ∷ []) n in
    if c == control b'D'
    then (line_read got, if has_some got then c ∷ q else q)
    else if c == b'\n'
    then (line_read (got ++ c ∷ []), q)
    else more

-- What the call leaves.
pub record Follows (s : Input) (out : ReadEnd × Input) (want : ReadEnd × List ℕ) : Type 0 where
  pub valid : IsValid out.1
  pub ending : out.0 ≡ want.0
  pub rest : queue out.1 ≡ want.1
  pub same_line : line out.1 ≡ line s

line-take_byte : (s : Input) → line (take_byte s) ≡ line s
unfolding take_byte
line-take_byte s = refl

empty_queue : (s : Input) → IsValid s → (s.r == s.w) ≡ true → queue s ≡ []
empty_queue s v h = let z : ready s ≡ 0 = ground arith in ap (window input_buf s.bytes s.r) z

some_ready : (s : Input) → IsValid s → (s.r == s.w) ≡ false → 0 < ready s
some_ready s v h = ground arith

pub read_on-read_line :
    (killed : Bool) (s : Input) (got : List ℕ) (n : ℕ)
    → IsValid s
    → Follows s (read_on killed s got n) (read_line killed (queue s) got n)
unfolding read_on
read_on-read_line killed s got zero v = record {
  valid = v;
  ending = refl;
  rest = refl;
  same_line = refl;
}
read_on-read_line killed s got (suc n) v = elim (Bool-cases (s.r == s.w)) [
  | inl y ↦
      let e = empty_queue s v y in
      subst (λ q. Follows s (read_on killed s got (suc n)) (read_line killed q got (suc n))) (sym e)
        (rw (y, read_on)
          (elim (Bool-cases killed) [
            | inl k ↦ rw k (record { valid = v; ending = refl; rest = e; same_line = refl })
            | inr k ↦ rw k (record { valid = v; ending = refl; rest = e; same_line = refl })
          ]))
  | inr z ↦
      let h = some_ready s v z in
      let e = queue-take_byte s v h in
      let c = get_or s.bytes (s.r % input_buf) 0 in
      let v' = take_byte-IsValid s v h in
      subst (λ q. Follows s (read_on killed s got (suc n)) (read_line killed q got (suc n))) (sym e)
        (elim (Bool-cases (c == control b'D')) [
          | inl d ↦ elim (Bool-cases (has_some got)) [
            | inl g ↦
                rw (z, d, g, read_on)
                  (record { valid = v; ending = refl; rest = e; same_line = refl })
            | inr g ↦
                rw (z, d, g, read_on)
                  (record { valid = v'; ending = refl; rest = refl; same_line = line-take_byte s })
          ]
          | inr nd ↦ elim (Bool-cases (c == b'\n')) [
            | inl w ↦
                rw (z, nd, w, read_on)
                  (record { valid = v'; ending = refl; rest = refl; same_line = line-take_byte s })
            | inr nw ↦
                let r = read_on-read_line killed (take_byte s) (got ++ c ∷ []) n v' in
                rw (z, nd, nw, read_on)
                  (record {
                    valid = r.valid;
                    ending = r.ending;
                    rest = r.rest;
                    same_line = r.same_line ∙ line-take_byte s;
                  })
          ]
        ])
]
