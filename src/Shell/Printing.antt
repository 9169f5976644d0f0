-- ===== src/Shell/Printing.antt =====
-- Printing the commands of sh.c, with a space behind each token.
use lab7sp25_shelnutt.Base.{
  ◌≤◌, ℕ, suc, ◌<◌, ◌≡◌, refl, true, false, List, [], ◌∷◌, ◌++◌, ◌==◌, if◌then◌else◌, length,
}
use lab7sp25_shelnutt.Shell.{
  in_word, skip_space, Cmd, exec, redir, pipe, list, back, Redir, maxargs, o_rdonly,
  o_wronly_create,
}

abbrev pub space : ℕ
space = b' '

abbrev pub words : List (List ℕ) → List ℕ → List ℕ
words [] rest = rest
words (w ∷ ws) rest = w ++ space ∷ words ws rest

abbrev pub symbol_of : ℕ → ℕ
symbol_of fd = if fd == 0 then b'<' else b'>'

abbrev pub mode_of : ℕ → ℕ
mode_of fd = if fd == 0 then o_rdonly else o_wronly_create

abbrev pub redirs_text : List Redir → List ℕ → List ℕ
redirs_text [] rest = rest
redirs_text (r ∷ rs) rest = symbol_of r.fd ∷ space ∷ (r.file ++ space ∷ redirs_text rs rest)

-- The text of a command in front of another text, where a line, a row of '&', a pipe or a simple
-- command may stand.
pub record Printer : Type 0 where
  pub line : List ℕ → List ℕ
  pub backs : List ℕ → List ℕ
  pub pipeline : List ℕ → List ℕ
  pub command : List ℕ → List ℕ

abbrev pub paren : (List ℕ → List ℕ) → List ℕ → List ℕ
paren t rest = b'(' ∷ space ∷ t (b')' ∷ space ∷ rest)

abbrev pub simple_printer : (List ℕ → List ℕ) → Printer
simple_printer t = record { line = t; backs = t; pipeline = t; command = t }

abbrev pub pipe_printer : (List ℕ → List ℕ) → Printer
pipe_printer t = record { line = t; backs = t; pipeline = t; command = paren t }

abbrev pub back_printer : (List ℕ → List ℕ) → Printer
back_printer t = record { line = t; backs = t; pipeline = paren t; command = paren t }

abbrev pub list_printer : (List ℕ → List ℕ) → Printer
list_printer t = record { line = t; backs = paren t; pipeline = paren t; command = paren t }

unfoldable pub printer : Cmd → Printer
printer (exec argv) = simple_printer (words argv)
printer (redir cmd file mode fd) =
    let t = printer cmd in
    simple_printer
      (λ rest. t.command (redirs_text (record { file = file; mode = mode; fd = fd } ∷ []) rest))
printer (pipe left right) =
    let l = printer left in
    let r = printer right in pipe_printer (λ rest. l.command (b'|' ∷ space ∷ r.pipeline rest))
printer (list left right) =
    let l = printer left in
    let r = printer right in list_printer (λ rest. l.backs (b';' ∷ space ∷ r.line rest))
printer (back cmd) = let t = printer cmd in back_printer (λ rest. t.backs (b'&' ∷ space ∷ rest))

unfoldable pub print : Cmd → List ℕ
unfolding printer
print cmd = (printer cmd).line []

-- The bytes of a word in a C string.
abbrev pub WordBytes : List ℕ → Type 0
WordBytes [] = Unit {0}
WordBytes (c ∷ w) = ((c == 0) ≡ false) × (in_word c ≡ true) × WordBytes w

abbrev pub IsWord : List ℕ → Type 0
IsWord w = (0 < length w) × WordBytes w

abbrev pub AreWords : List (List ℕ) → Type 0
AreWords [] = Unit {0}
AreWords (w ∷ ws) = IsWord w × AreWords ws

abbrev pub IsRedir : Redir → Type 0
IsRedir r = IsWord r.file × (r.mode ≡ mode_of r.fd) × (r.fd ≤ 1)

abbrev pub AreRedirs : List Redir → Type 0
AreRedirs [] = Unit {0}
AreRedirs (r ∷ rs) = IsRedir r × AreRedirs rs

-- The commands that a text can stand for: their words are words, less than MAXARGS in each, and
-- their redirections open the input, 0, for reading or create the output, 1.
unfoldable pub Printable : Cmd → Type 0
Printable (exec argv) = AreWords argv × (length argv < maxargs)
Printable (redir cmd file mode fd) =
    IsRedir (record { file = file; mode = mode; fd = fd }) × Printable cmd
Printable (pipe left right) = Printable left × Printable right
Printable (list left right) = Printable left × Printable right
Printable (back cmd) = Printable cmd

-- What may stand behind a line, a row of '&', a pipe and a simple command.
pub data Ends : ℕ → List ℕ → Type 0 where
  finish : {n : ℕ} → Ends n []
  close : {n : ℕ} (s : List ℕ) → Ends n (b')' ∷ s)
  semi : {n : ℕ} (s : List ℕ) → Ends (suc n) (b';' ∷ s)
  amp : {n : ℕ} (s : List ℕ) → Ends (suc (suc n)) (b'&' ∷ s)
  bar : {n : ℕ} (s : List ℕ) → Ends (suc (suc (suc n))) (b'|' ∷ s)

pub Ends-suc : {n : ℕ} {s : List ℕ} → Ends n s → Ends (suc n) s
Ends-suc finish = finish
Ends-suc (close t) = close t
Ends-suc (semi t) = semi t
Ends-suc (amp t) = amp t
Ends-suc (bar t) = bar t

-- No space at the beginning.
abbrev pub Clean : List ℕ → Type 0
Clean s = skip_space s ≡ s

pub Ends-Clean : {n : ℕ} {s : List ℕ} → Ends n s → Clean s
unfolding skip_space
Ends-Clean finish = refl
Ends-Clean (close t) = refl
Ends-Clean (semi t) = refl
Ends-Clean (amp t) = refl
Ends-Clean (bar t) = refl
