-- ===== src/Shell/Roundtrip.antt =====
-- The parser of sh.c reads back a printed command.
use lab7sp25_shelnutt.Base.{
  ℕ, ◌+◌, ◌*◌, ◌≤◌, ◌≡◌, refl, false, List, [], ◌∷◌, length, arith, length-append,
}
use lab7sp25_shelnutt.Shell.{
  is_space, skip_space, peek, Redir, Cmd, exec, redir, pipe, list, back, parsed, parsecmd,
}
use lab7sp25_shelnutt.Shell.Printing.{
  space, words, redirs_text, Printer, printer, paren, simple_printer, pipe_printer, back_printer,
  list_printer, print, AreWords, Printable, finish, Clean,
}
use lab7sp25_shelnutt.Shell.Words.{words-Clean, redirs_text-Clean}
use lab7sp25_shelnutt.Shell.Levels.{
  Prefixes, LineReads, BacksReads, PipeReads, ExecReads, exec-pipe, pipe-backs, backs-line,
  line-exec, pipe-reads, list-reads, back-reads, exec-reads, redir-reads,
}

-- All of it for a printer.
record Reads (cmd : Cmd) (p : Printer) : Type 0 where
  line : LineReads cmd p.line
  backs : BacksReads cmd p.backs
  pipeline : PipeReads cmd p.pipeline
  command : ExecReads cmd p.command
  line_prefixes : Prefixes p.line
  backs_prefixes : Prefixes p.backs
  pipeline_prefixes : Prefixes p.pipeline
  command_prefixes : Prefixes p.command

paren-Prefixes : (t : List ℕ → List ℕ) → Prefixes t → Prefixes (paren t)
unfolding skip_space
paren-Prefixes t p = record {
  clean = λ s c. refl;
  longer = λ s. let l = p.longer (b')' ∷ space ∷ s) in omega arith;
}

simple-Reads :
    (cmd : Cmd) (t : List ℕ → List ℕ) → ExecReads cmd t → Prefixes t → Reads cmd (simple_printer t)
simple-Reads cmd t h p =
    let k = exec-pipe cmd t h in
    record {
      line = backs-line cmd t (pipe-backs cmd t k);
      backs = pipe-backs cmd t k;
      pipeline = k;
      command = h;
      line_prefixes = p;
      backs_prefixes = p;
      pipeline_prefixes = p;
      command_prefixes = p;
    }

pipe-Reads :
    (cmd : Cmd) (t : List ℕ → List ℕ) → PipeReads cmd t → Prefixes t → Reads cmd (pipe_printer t)
pipe-Reads cmd t h p =
    let k = backs-line cmd t (pipe-backs cmd t h) in
    record {
      line = k;
      backs = pipe-backs cmd t h;
      pipeline = h;
      command = line-exec cmd t k p;
      line_prefixes = p;
      backs_prefixes = p;
      pipeline_prefixes = p;
      command_prefixes = paren-Prefixes t p;
    }

back-Reads :
    (cmd : Cmd) (t : List ℕ → List ℕ) → BacksReads cmd t → Prefixes t → Reads cmd (back_printer t)
back-Reads cmd t h p =
    let k = backs-line cmd t h in
    let m = line-exec cmd t k p in
    record {
      line = k;
      backs = h;
      pipeline = exec-pipe cmd (paren t) m;
      command = m;
      line_prefixes = p;
      backs_prefixes = p;
      pipeline_prefixes = paren-Prefixes t p;
      command_prefixes = paren-Prefixes t p;
    }

list-Reads :
    (cmd : Cmd) (t : List ℕ → List ℕ) → LineReads cmd t → Prefixes t → Reads cmd (list_printer t)
list-Reads cmd t k p =
    let m = line-exec cmd t k p in
    let n = exec-pipe cmd (paren t) m in
    record {
      line = k;
      backs = pipe-backs cmd (paren t) n;
      pipeline = n;
      command = m;
      line_prefixes = p;
      backs_prefixes = paren-Prefixes t p;
      pipeline_prefixes = paren-Prefixes t p;
      command_prefixes = paren-Prefixes t p;
    }

head-Clean : (c : ℕ) (s : List ℕ) → is_space c ≡ false → Clean (c ∷ s)
unfolding skip_space
head-Clean c s h = rw h refl

-- A text, a separator of one byte that is no space, and a text.
joined-Prefixes :
    (c : ℕ) (t u : List ℕ → List ℕ)
    → is_space c ≡ false
    → Prefixes t
    → Prefixes u
    → Prefixes (λ s. t (c ∷ space ∷ u s))
joined-Prefixes c t u h p q = record {
  clean = λ s d. p.clean (c ∷ space ∷ u s) (head-Clean c (space ∷ u s) h);
  longer = λ s. let l = p.longer (c ∷ space ∷ u s) in let m = q.longer s in omega arith;
}

length-words : (ws : List (List ℕ)) (s : List ℕ) → length s ≤ length (words ws s)
length-words [] s = omega arith
length-words (w ∷ ws) s =
    let ih = length-words ws s in omega (arith, length-append w (space ∷ words ws s))

words-Prefixes : (ws : List (List ℕ)) → AreWords ws → Prefixes (words ws)
words-Prefixes ws a = record { clean = λ s c. words-Clean ws s a c; longer = length-words ws }

redir-Prefixes :
    (q : Redir) (t : List ℕ → List ℕ) → Prefixes t → Prefixes (λ s. t (redirs_text (q ∷ []) s))
redir-Prefixes q t p = record {
  clean = λ s c. p.clean (redirs_text (q ∷ []) s) (redirs_text-Clean (q ∷ []) s c);
  longer = λ s.
      let l = p.longer (redirs_text (q ∷ []) s) in omega (arith, length-append q.file (space ∷ s));
}

printer-Reads : (cmd : Cmd) → Printable cmd → Reads cmd (printer cmd)
unfolding printer Printable
printer-Reads (exec argv) (a, l) =
    simple-Reads (exec argv) (words argv) (exec-reads argv a l) (words-Prefixes argv a)
printer-Reads (redir cmd file mode fd) (i, a) =
    let ih = printer-Reads cmd a in
    let q : Redir = record { file = file; mode = mode; fd = fd } in
    let t = (printer cmd).command in
    simple-Reads (redir cmd file mode fd) (λ s. t (redirs_text (q ∷ []) s))
      (redir-reads cmd q t i ih.command) (redir-Prefixes q t ih.command_prefixes)
printer-Reads (pipe l r) (a, b) =
    let h = printer-Reads l a in
    let k = printer-Reads r b in
    let t = (printer l).command in
    let u = (printer r).pipeline in
    pipe-Reads (pipe l r) (λ s. t (b'|' ∷ space ∷ u s))
      (pipe-reads l r t u h.command k.pipeline h.command_prefixes k.pipeline_prefixes)
      (joined-Prefixes b'|' t u refl h.command_prefixes k.pipeline_prefixes)
printer-Reads (list l r) (a, b) =
    let h = printer-Reads l a in
    let k = printer-Reads r b in
    let t = (printer l).backs in
    let u = (printer r).line in
    list-Reads (list l r) (λ s. t (b';' ∷ space ∷ u s))
      (list-reads l r t u h.backs k.line h.backs_prefixes k.line_prefixes)
      (joined-Prefixes b';' t u refl h.backs_prefixes k.line_prefixes)
printer-Reads (back cmd) a =
    let h = printer-Reads cmd a in
    let t = (printer cmd).backs in
    back-Reads (back cmd) (λ s. t (b'&' ∷ space ∷ s)) (back-reads cmd t h.backs)
      (joined-Prefixes b'&' t (λ s. s) refl h.backs_prefixes
        (record { clean = λ s c. c; longer = λ s. omega arith }))

-- For every command whose words are words of the shell, less than MAXARGS of them in each simple
-- command, and whose redirections open descriptor 0 for reading or create the file of descriptor 1:
-- parsecmd on the text of the command returns the command. In the text a command is in parentheses where the grammar needs it.
pub parsecmd-print : (cmd : Cmd) → Printable cmd → parsecmd (print cmd) ≡ parsed cmd []
unfolding parsecmd print peek skip_space
parsecmd-print cmd a =
    rw ((printer-Reads cmd a).line (4 * length (print cmd) + 4) [] finish (omega arith)) refl
