-- ===== src/Console/Window.antt =====
-- The input ring of the console as two lists: the bytes that consoleread may take, and those of the
-- line that is still edited.
use lab7sp25_shelnutt.Base.{
  ℕ, suc, ◌+◌, ◌%◌, ◌^◌, ◌≤◌, ◌<◌, ◌≡◌, ◌≢◌, ap, ◌∙◌, List, [], ◌∷◌, ◌++◌, arith, length, get_or,
  length-set, add32, sub32, window, window-mod, window-set, window-set_beyond, window-append,
}
use lab7sp25_shelnutt.Console.{
  Input, input_buf, type_byte, rub_out, take_byte, commit_line, last_edited,
}

next : (g h : ℕ) → g % input_buf ≡ h % input_buf → (g + 1) % input_buf ≡ (h + 1) % input_buf
next g h e = omega arith

apart : (h d : ℕ) → 0 < d → d < input_buf → (h + d) % input_buf ≢ h % input_buf
apart h d a b e = omega arith

inside : (h : ℕ) → h % input_buf < input_buf
inside h = omega arith

abbrev pub ready : Input → ℕ
ready s = sub32 s.w s.r

abbrev pub edited : Input → ℕ
edited s = sub32 s.e s.w

abbrev pub queue : Input → List ℕ
queue s = window input_buf s.bytes s.r (ready s)

abbrev pub line : Input → List ℕ
line s = window input_buf s.bytes s.w (edited s)

-- The counters are uints, in their order, and at most 128 apart.
pub record IsValid (s : Input) : Type 0 where
  pub ring : length s.bytes ≡ input_buf
  pub reads : s.r < 2 ^ 32
  pub writes : s.w < 2 ^ 32
  pub edits : s.e < 2 ^ 32
  pub fits : ready s + edited s ≤ input_buf

pub type_byte-IsValid :
    (s : Input) (c : ℕ) → IsValid s → ready s + edited s < input_buf → IsValid (type_byte s c)
unfolding type_byte
type_byte-IsValid s c v h = record {
  ring = omega (arith, length-set s.bytes (s.e % input_buf) c, v.ring);
  reads = v.reads;
  writes = v.writes;
  edits = omega arith;
  fits = omega arith;
}

pub line-type_byte :
    (s : Input) (c : ℕ)
    → IsValid s
    → ready s + edited s < input_buf
    → line (type_byte s c) ≡ line s ++ (c ∷ [])
unfolding type_byte
line-type_byte s c v h =
    let n : edited (type_byte s c) ≡ suc (edited s) = omega arith in
    rw n (
      window-set input_buf next apart inside s.bytes s.w (edited s) (s.e % input_buf) c v.ring
        (omega arith) (omega arith))

pub queue-type_byte :
    (s : Input) (c : ℕ)
    → IsValid s
    → ready s + edited s < input_buf
    → queue (type_byte s c) ≡ queue s
unfolding type_byte
queue-type_byte s c v h =
    window-set_beyond input_buf next apart inside s.bytes s.r (ready s) (ready s + edited s)
      (s.e % input_buf) c (omega arith) h (omega arith)

pub queue-commit_line : (s : Input) → IsValid s → queue (commit_line s) ≡ queue s ++ line s
queue-commit_line s v =
    let n : sub32 s.e s.r ≡ ready s + edited s = omega arith in
    ap (window input_buf s.bytes s.r) n
    ∙ window-append input_buf s.bytes s.r (ready s) (edited s)
    ∙ ap (λ xs. queue s ++ xs)
        (window-mod input_buf next apart inside s.bytes (s.r + ready s) s.w (edited s)
          (omega arith))

pub line-commit_line : (s : Input) → IsValid s → line (commit_line s) ≡ []
line-commit_line s v =
    let n : sub32 s.e s.e ≡ 0 = omega arith in ap (window input_buf s.bytes s.e) n

pub commit_line-IsValid : (s : Input) → IsValid s → IsValid (commit_line s)
commit_line-IsValid s v = record {
  ring = v.ring;
  reads = v.reads;
  writes = v.edits;
  edits = v.edits;
  fits = omega arith;
}

pub rub_out-IsValid : (s : Input) → IsValid s → 0 < edited s → IsValid (rub_out s)
unfolding rub_out
rub_out-IsValid s v h = record {
  ring = v.ring;
  reads = v.reads;
  writes = v.writes;
  edits = omega arith;
  fits = omega arith;
}

-- The last byte of the line is the one that rub_out takes off.
pub line-rub_out :
    (s : Input) → IsValid s → 0 < edited s → line s ≡ line (rub_out s) ++ (last_edited s ∷ [])
unfolding rub_out
line-rub_out s v h =
    let n : edited s ≡ edited (rub_out s) + 1 = omega arith in
    let i : (s.w + edited (rub_out s)) % input_buf ≡ sub32 s.e 1 % input_buf = omega arith in
    ap (window input_buf s.bytes s.w) n
    ∙ window-append input_buf s.bytes s.w (edited (rub_out s)) 1
    ∙ ap (λ j. line (rub_out s) ++ (get_or s.bytes j 0 ∷ [])) i

pub take_byte-IsValid : (s : Input) → IsValid s → 0 < ready s → IsValid (take_byte s)
unfolding take_byte
take_byte-IsValid s v h = record {
  ring = v.ring;
  reads = omega arith;
  writes = v.writes;
  edits = v.edits;
  fits = omega arith;
}

pub queue-take_byte :
    (s : Input)
    → IsValid s
    → 0 < ready s
    → queue s ≡ get_or s.bytes (s.r % input_buf) 0 ∷ queue (take_byte s)
unfolding take_byte
queue-take_byte s v h =
    let n : ready s ≡ suc (ready (take_byte s)) = omega arith in
    rw (
      n,
      window-mod input_buf next apart inside s.bytes (s.r + 1) (add32 s.r 1) (ready (take_byte s))
          (omega arith),
    )
