-- ===== src/Console.antt =====
-- console.c: the formatted output of the kernel, and the input line. What consputc is called with,
-- in order, is a list.
pub mod Format
pub mod Window
pub mod Line
pub mod Loop
pub mod Reading
use mathlib.Core.List.{reverse}
use lab7sp25_shelnutt.Base.{
  ℕ, zero, suc, ◌+◌, ◌-◌, ◌*◌, ◌/◌, ◌%◌, ◌^◌, Bool, true, false, ◌&&◌, ◌||◌, not, List, [], ◌∷◌,
  ◌++◌, ◌==◌, ltb, if◌then◌else◌, get_or, set, add32, sub32,
}
use lab7sp25_shelnutt.Printf.{fill_buf, text_or_null}

-- static char digits[]
abbrev pub digit_chars : List ℕ
digit_chars =
    b'0' ∷ b'1' ∷ b'2' ∷ b'3' ∷ b'4' ∷ b'5' ∷ b'6' ∷ b'7' ∷ b'8' ∷ b'9' ∷ b'a' ∷ b'b' ∷ b'c' ∷ b'd'
    ∷ b'e' ∷ b'f' ∷ []

-- The loops are those of the user library, with other letters.
unfoldable pub printint : ℕ → ℕ → Bool → List ℕ
unfolding fill_buf
printint w base sign = reverse (fill_buf digit_chars w base sign)

module _ (arg : ℕ → ℕ) (text : ℕ → List ℕ) where
  -- The switch of cprintf, with the number of the next argument.
  unfoldable pub convert : ℕ → ℕ → List ℕ × ℕ
  unfolding printint
  convert c n =
      if c == b'd'
      then (printint (arg n) 10 true, n + 1)
      else if (c == b'x') || (c == b'p')
      then (printint (arg n) 16 false, n + 1)
      else if c == b's'
      then (text_or_null arg text (arg n), n + 1)
      else if c == b'%'
      then (b'%' ∷ [], n)
      else (b'%' ∷ c ∷ [], n)

  -- The loop of cprintf.
  unfoldable pub cprintf_from : ℕ → List ℕ → List ℕ
  unfolding convert
  cprintf_from n [] = []
  cprintf_from n (c ∷ []) = if c == b'%' then [] else c ∷ []
  cprintf_from n (c ∷ d ∷ fmt) = elim (c == b'%') [
    | false ↦ c ∷ cprintf_from n (d ∷ fmt)
    | true ↦ let (out, m) = convert d n in out ++ cprintf_from m fmt
  ]

  -- Under cons.lock where `cons.locking` is set.
  unfoldable pub cprintf : List ℕ → List ℕ
  unfolding cprintf_from
  cprintf fmt = cprintf_from 0 fmt

abbrev pub input_buf : ℕ
input_buf = 128

abbrev pub backspace : ℕ
backspace = 0x100

-- C(x)
abbrev pub control : ℕ → ℕ
control x = x - b'@'

-- `bytes` is input.buf.
pub record Input : Type 0 where
  pub bytes : List ℕ
  pub r : ℕ
  pub w : ℕ
  pub e : ℕ

abbrev pub last_edited : Input → ℕ
last_edited s = get_or s.bytes (sub32 s.e 1 % input_buf) 0

unfoldable pub rub_out : Input → Input
rub_out s = record s { e = sub32 s.e 1 }

-- The loop of control-U, with the number of bytes rubbed out; `fuel` bounds its rounds.
unfoldable pub kill_line : ℕ → Input → Input × List ℕ
unfolding rub_out
kill_line zero s = (s, [])
kill_line (suc fuel) s = elim (not (s.e == s.w) && not (last_edited s == b'\n')) [
  | false ↦ (s, [])
  | true ↦ let (s', out) = kill_line fuel (rub_out s) in (s', backspace ∷ out)
]

-- input.buf[input.e++ % INPUT_BUF] = c
unfoldable pub type_byte : Input → ℕ → Input
type_byte s c = record s { bytes = set s.bytes (s.e % input_buf) c; e = add32 s.e 1 }

abbrev pub commit_line : Input → Input
commit_line s = record s { w = s.e }

abbrev pub ends_line : ℕ → Input → Bool
ends_line c s = (c == b'\n') || ((c == control b'D') || (s.e == add32 s.r input_buf))

-- The default case for the byte `c`, after '\r' has become '\n'.
unfoldable pub accept : ℕ → Input → Input × List ℕ × Bool
unfolding type_byte
accept c s =
    let s' = type_byte s c in
    if ends_line c s' then (commit_line s', c ∷ [], true) else (s', c ∷ [], false)

-- What the switch of consoleintr does with one character: the input, the calls of consputc, whether
-- it wakes the readers, and whether it asks for procdump.
pub record Handled : Type 0 where
  pub input : Input
  pub out : List ℕ
  pub wakes : Bool
  pub dump : Bool

unfoldable pub handle : ℕ → Input → Handled
unfolding kill_line rub_out accept
handle c s =
    let (killed, rubbed) = kill_line input_buf s in
    let (taken, echo, wakes) = accept (if c == b'\r' then b'\n' else c) s in
    if c == control b'P'
    then record { input = s; out = []; wakes = false; dump = true }
    else if c == control b'U'
    then record { input = killed; out = rubbed; wakes = false; dump = false }
    else if (c == control b'H') || (c == 0x7f)
    then if not (s.e == s.w)
      then record { input = rub_out s; out = backspace ∷ []; wakes = false; dump = false }
      else record { input = s; out = []; wakes = false; dump = false }
    else if not (c == 0) && ltb (sub32 s.e s.r) input_buf
    then record { input = taken; out = echo; wakes = wakes; dump = false }
    else record { input = s; out = []; wakes = false; dump = false }

-- The loop of consoleintr over the characters that getc returns.
unfoldable pub consoleintr : List ℕ → Input → Input
unfolding handle
consoleintr [] s = s
consoleintr (c ∷ cs) s = consoleintr cs (handle c s).input

-- How a stretch of consoleread ends: with the bytes read in all, with -1, or asleep on &input.r with
-- the number that is still wanted.
pub data ReadEnd : Type 0 where
  line : List ℕ → ReadEnd
  gave_up : ReadEnd
  asleep : List ℕ → ℕ → ReadEnd

unfoldable pub take_byte : Input → Input
take_byte s = record s { r = add32 s.r 1 }

-- n < target
abbrev pub has_some : List ℕ → Bool
has_some [] = false
has_some (x ∷ xs) = true

-- consoleread from the test of its outer loop on, with `n` bytes wanted and `got` those read before.
unfoldable pub read_on : Bool → Input → List ℕ → ℕ → ReadEnd × Input
unfolding take_byte
read_on killed s got zero = (line got, s)
read_on killed s got (suc n) =
    let c = get_or s.bytes (s.r % input_buf) 0 in
    let more = read_on killed (take_byte s) (got ++ c ∷ []) n in
    if s.r == s.w
    then if killed then (gave_up, s) else (asleep got (suc n), s)
    else if c == control b'D'
    then (line got, if has_some got then s else take_byte s)
    else if c == b'\n'
    then (line (got ++ c ∷ []), take_byte s)
    else more
