-- ===== src/Console/Reading.antt =====
-- How a call of consoleread ends on the queue of the finished lines.
use lab7sp25_shelnutt.Base.{
  ℕ, zero, suc, ◌+◌, ◌<◌, ◌≡◌, refl, sym, Bool, true, false, List, [], ◌∷◌, ◌++◌, ◌==◌, arith,
  Bool-cases, inl, inr, subst, length, ◌≢◌, append_assoc, append-nil, length-append,
}
use lab7sp25_shelnutt.Console.{Input, control, has_some, read_on, ReadEnd, gave_up, asleep}
use lab7sp25_shelnutt.Console.{line as line_read}
use lab7sp25_shelnutt.Console.Window.{IsValid, queue, line}
use lab7sp25_shelnutt.Console.Loop.{read_line, read_on-read_line}

-- The byte ends no read.
abbrev pub Plain : ℕ → Type 0
Plain c = (c ≢ b'\n') × (c ≢ control b'D')

abbrev pub AllPlain : List ℕ → Type 0
AllPlain [] = Unit {0}
AllPlain (c ∷ cs) = Plain c × AllPlain cs

-- How a call that has the bytes `got` and room for n more ends on a queue: with what, and what is left
-- of the queue.
pub data Reading (killed : Bool) (got : List ℕ) (n : ℕ) : List ℕ → ReadEnd → List ℕ → Type 0 where
  filled :
      (bs q : List ℕ)
      → AllPlain bs
      → length bs ≡ n
      → Reading killed got n (bs ++ q) (line_read (got ++ bs)) q
  ended :
      (bs q : List ℕ)
      → AllPlain bs
      → length bs < n
      → Reading killed got n (bs ++ b'\n' ∷ q) (line_read ((got ++ bs) ++ b'\n' ∷ [])) q
  stopped :
      (bs q : List ℕ)
      → AllPlain bs
      → length bs < n
      → 0 < length (got ++ bs)
      → Reading killed got n (bs ++ control b'D' ∷ q) (line_read (got ++ bs)) (control b'D' ∷ q)
  end_of_file :
      (q : List ℕ)
      → 0 < n
      → length got ≡ 0
      → Reading killed got n (control b'D' ∷ q) (line_read []) q
  dead :
      (bs : List ℕ)
      → AllPlain bs
      → length bs < n
      → killed ≡ true
      → Reading killed got n bs gave_up []
  waits :
      (bs : List ℕ) (left : ℕ)
      → AllPlain bs
      → length bs + left ≡ n
      → 0 < left
      → killed ≡ false
      → Reading killed got n bs (asleep (got ++ bs) left) []

-- A plain byte in front.
Reading-plain :
    {killed : Bool} {got : List ℕ} {n : ℕ} {q : List ℕ} {out : ReadEnd} {rest : List ℕ} (c : ℕ)
    → Plain c
    → Reading killed (got ++ c ∷ []) n q out rest
    → Reading killed got (suc n) (c ∷ q) out rest
Reading-plain {killed} {got} {n} c p (filled bs q a l) =
    subst (λ x. Reading killed got (suc n) (c ∷ bs ++ q) (line_read x) q)
      (sym (append_assoc got (c ∷ []) bs)) (filled (c ∷ bs) q (p, a) (omega arith))
Reading-plain {killed} {got} {n} c p (ended bs q a l) =
    subst (λ x. Reading killed got (suc n) (c ∷ bs ++ b'\n' ∷ q) (line_read (x ++ b'\n' ∷ [])) q)
      (sym (append_assoc got (c ∷ []) bs)) (ended (c ∷ bs) q (p, a) (omega arith))
Reading-plain {killed} {got} {n} c p (stopped bs q a l h) =
    subst
      (λ x.
        Reading killed got (suc n) (c ∷ bs ++ control b'D' ∷ q) (line_read x) (control b'D' ∷ q))
      (sym (append_assoc got (c ∷ []) bs))
      (stopped (c ∷ bs) q (p, a) (omega arith)
        (subst (λ x. 0 < length x) (append_assoc got (c ∷ []) bs) h))
Reading-plain {killed} {got} {n} c p (end_of_file q l h) =
    absurd (omega (arith, h, length-append got (c ∷ [])))
Reading-plain {killed} {got} {n} c p (dead bs a l k) = dead (c ∷ bs) (p, a) (omega arith) k
Reading-plain {killed} {got} {n} c p (waits bs left a l h k) =
    subst (λ x. Reading killed got (suc n) (c ∷ bs) (asleep x left) [])
      (sym (append_assoc got (c ∷ []) bs)) (waits (c ∷ bs) left (p, a) (omega arith) h k)

has_some-length : (got : List ℕ) → has_some got ≡ true → 0 < length got
has_some-length [] h = absurd (cc)
has_some-length (x ∷ xs) h = omega arith

has_some-nil : (got : List ℕ) → has_some got ≡ false → got ≡ []
has_some-nil [] h = refl
has_some-nil (x ∷ xs) h = absurd (cc)

read_line-Reading :
    (killed : Bool) (q got : List ℕ) (n : ℕ)
    → Reading killed got n q (read_line killed q got n).0 (read_line killed q got n).1
read_line-Reading killed q got zero =
    subst (λ x. Reading killed got 0 q (line_read x) q) (append-nil got) (filled [] q tt refl)
read_line-Reading killed [] got (suc n) = elim (Bool-cases killed) [
  | inl k ↦ rw (k, read_line) (dead [] tt (omega arith) refl)
  | inr k ↦
      rw (k, read_line)
        (subst (λ x. Reading false got (suc n) [] (asleep x (suc n)) []) (append-nil got)
          (waits [] (suc n) tt (omega arith) (omega arith) refl))
]
read_line-Reading killed (c ∷ q) got (suc n) = elim (Bool-cases (c == control b'D')) [
  | inl d ↦
      let e : control b'D' ≡ c = ground arith in
      elim (Bool-cases (has_some got)) [
        | inl g ↦
            rw (d, g, read_line)
              (subst (λ x. Reading killed got (suc n) (x ∷ q) (line_read got) (x ∷ q)) e
                (subst
                  (λ x.
                    Reading killed got (suc n) (control b'D' ∷ q) (line_read x) (control b'D' ∷ q))
                  (append-nil got)
                  (stopped [] q tt (omega arith)
                    (subst (λ x. 0 < length x) (sym (append-nil got)) (has_some-length got g)))))
        | inr g ↦
            rw (d, g, read_line)
              (subst (λ x. Reading killed got (suc n) (x ∷ q) (line_read got) q) e
                (subst (λ x. Reading killed x (suc n) (control b'D' ∷ q) (line_read x) q)
                  (sym (has_some-nil got g)) (end_of_file q (omega arith) refl)))
      ]
  | inr nd ↦ elim (Bool-cases (c == b'\n')) [
    | inl w ↦
        let e : b'\n' ≡ c = ground arith in
        rw (nd, w, read_line)
          (subst (λ x. Reading killed got (suc n) (x ∷ q) (line_read (got ++ x ∷ [])) q) e
            (subst (λ x. Reading killed got (suc n) (b'\n' ∷ q) (line_read (x ++ b'\n' ∷ [])) q)
              (append-nil got) (ended [] q tt (omega arith))))
    | inr nw ↦
        rw (nd, nw, read_line)
          (Reading-plain c (λ h. ground arith, λ h. ground arith)
            (read_line-Reading killed q (got ++ c ∷ []) n))
  ]
]

-- What the call leaves: its end is one of `Reading`.
pub record Reads (killed : Bool) (got : List ℕ) (n : ℕ) (s : Input) (out : ReadEnd × Input)
    : Type 0 where
  pub valid : IsValid out.1
  pub reading : Reading killed got n (queue s) out.0 (queue out.1)
  pub line_still : line out.1 ≡ line s

-- A stretch of consoleread on a valid ring, up to its return or its sleep, with n bytes still wanted
-- and those of `got` read before. It takes from the front of the queue of finished lines, and does not
-- touch the line under editing. It returns all that it has read when the n bytes are there, or up to
-- and with a newline before that; or up to a control-D, which stays in the queue if any bytes were
-- read before it; a control-D with none before it is taken and gives 0 bytes. When the queue runs
-- empty before any of these, a killed caller gives up, and any other sleeps, with all the bytes of the
-- queue and so many fewer still wanted.
pub read_on-Reads :
    (killed : Bool) (s : Input) (got : List ℕ) (n : ℕ)
    → IsValid s
    → Reads killed got n s (read_on killed s got n)
read_on-Reads killed s got n v =
    let f = read_on-read_line killed s got n v in
    let r = read_line-Reading killed (queue s) got n in
    record {
      valid = f.valid;
      reading =
          subst (λ x. Reading killed got n (queue s) x (queue (read_on killed s got n).1))
            (sym f.ending)
            (subst (Reading killed got n (queue s) (read_line killed (queue s) got n).0)
              (sym f.rest) r);
      line_still = f.same_line;
    }
