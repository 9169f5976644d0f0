-- ===== src/Shell/Levels.antt =====
-- What the functions of the parser of sh.c make of the text of a command, in front of what may follow.
use lab7sp25_shelnutt.Base.{
  ℕ, zero, suc, ◌+◌, ◌*◌, ◌≤◌, ◌<◌, ◌≡◌, refl, ap, ◌∙◌, sym, false, List, [], ◌∷◌, if◌then◌else◌,
  length, arith, Bool-cases, inl, inr,
}
use lab7sp25_shelnutt.Shell.{
  skip_space, token_at, gettoken, peek, Redir, then_parse, redirected, Cmd, exec, redir, pipe, list,
  back, Parse, parsed, failed, no_fuel, backs_from, wrap, maxargs, parseline, parsepipe, parseexec,
  parseblock,
}
use lab7sp25_shelnutt.Shell.Scan.{length-peek, peek-gettoken}
use lab7sp25_shelnutt.Shell.Printing.{
  space, words, redirs_text, paren, AreWords, IsRedir, AreRedirs, Ends, finish, close, semi, amp,
  bar, Ends-suc, Clean, Ends-Clean,
}
use lab7sp25_shelnutt.Shell.Words.{
  redirs_text-Clean, parseredirs-redirs_text, parse_simple-words, peek_block-words,
}

-- A text before another begins with no space and makes it no shorter.
pub record Prefixes (t : List ℕ → List ℕ) : Type 0 where
  pub clean : (s : List ℕ) → Clean s → Clean (t s)
  pub longer : (s : List ℕ) → length s ≤ length (t s)

-- What each of the four functions makes of the text of a command.
abbrev pub LineReads : Cmd → (List ℕ → List ℕ) → Type 0
LineReads cmd t =
    (fuel : ℕ) (s : List ℕ)
    → Ends 0 s
    → 4 * length (t s) + 4 ≤ fuel
    → parseline fuel (t s) ≡ parsed cmd s

abbrev pub collect_backs : Cmd → List ℕ → Parse
collect_backs cmd s = backs_from (suc (length s)) cmd s

abbrev pub BacksReads : Cmd → (List ℕ → List ℕ) → Type 0
BacksReads cmd t =
    (fuel : ℕ) (s : List ℕ)
    → Ends 2 s
    → 4 * length (t s) + 3 ≤ fuel
    → then_parse (parsepipe fuel (t s)) collect_backs ≡ collect_backs cmd s

abbrev pub PipeReads : Cmd → (List ℕ → List ℕ) → Type 0
PipeReads cmd t =
    (fuel : ℕ) (s : List ℕ)
    → Ends 2 s
    → 4 * length (t s) + 3 ≤ fuel
    → parsepipe fuel (t s) ≡ parsed cmd s

abbrev pub ExecReads : Cmd → (List ℕ → List ℕ) → Type 0
ExecReads cmd t =
    (fuel : ℕ) (qs : List Redir) (s : List ℕ)
    → AreRedirs qs
    → Ends 3 s
    → 4 * length (t (redirs_text qs s)) + 2 ≤ fuel
    → parseexec fuel (t (redirs_text qs s)) ≡ parsed (wrap cmd qs) s

then_parse_assoc :
    (p : Parse) (f g : Cmd → List ℕ → Parse)
    → then_parse (then_parse p f) g ≡ then_parse p (λ cmd s. then_parse (f cmd s) g)
then_parse_assoc (parsed cmd s) f g = refl
then_parse_assoc failed f g = refl
then_parse_assoc no_fuel f g = refl

no_bar : (s : List ℕ) → Ends 2 s → peek s (b'|' ∷ []) ≡ (false, s)
unfolding peek skip_space
no_bar s finish = refl
no_bar s (close t) = refl
no_bar s (semi t) = refl
no_bar s (amp t) = refl

no_amp : (s : List ℕ) → Ends 1 s → peek s (b'&' ∷ []) ≡ (false, s)
unfolding peek skip_space
no_amp s finish = refl
no_amp s (close t) = refl
no_amp s (semi t) = refl

no_semi : (s : List ℕ) → Ends 0 s → peek s (b';' ∷ []) ≡ (false, s)
unfolding peek skip_space
no_semi s finish = refl
no_semi s (close t) = refl

backs_end : (cmd : Cmd) (s : List ℕ) → Ends 1 s → collect_backs cmd s ≡ parsed cmd s
unfolding backs_from
backs_end cmd s e = rw (no_amp s e) refl

-- What parsepipe does behind its first command, and parseline behind the row of '&'.
abbrev pipe_tail : ℕ → Cmd → List ℕ → Parse
pipe_tail fuel cmd s =
    if (peek s (b'|' ∷ [])).0
    then then_parse (parsepipe fuel (gettoken (peek s (b'|' ∷ [])).1).rest)
        (λ right s3. parsed (pipe cmd right) s3)
    else parsed cmd (peek s (b'|' ∷ [])).1

abbrev line_tail : ℕ → Cmd → List ℕ → Parse
line_tail fuel cmd s =
    if (peek s (b';' ∷ [])).0
    then then_parse (parseline fuel (gettoken (peek s (b';' ∷ [])).1).rest)
        (λ right s3. parsed (list cmd right) s3)
    else parsed cmd (peek s (b';' ∷ [])).1

parsepipe-exec :
    (cmd : Cmd) (t : List ℕ → List ℕ)
    → ExecReads cmd t
    → (fuel : ℕ) (s : List ℕ) → Ends 3 s
    → 4 * length (t s) + 2 ≤ fuel
    → parsepipe (suc fuel) (t s) ≡ pipe_tail fuel cmd s
unfolding parsepipe wrap
parsepipe-exec cmd t h fuel s e l = rw (h fuel [] s tt e l) refl

parseline-backs :
    (cmd : Cmd) (t : List ℕ → List ℕ)
    → BacksReads cmd t
    → (fuel : ℕ) (s : List ℕ) → Ends 1 s
    → 4 * length (t s) + 3 ≤ fuel
    → parseline (suc fuel) (t s) ≡ line_tail fuel cmd s
unfolding parseline
parseline-backs cmd t h fuel s e l =
    sym (then_parse_assoc (parsepipe fuel (t s)) collect_backs (line_tail fuel))
    ∙ ap (λ p. then_parse p (line_tail fuel)) (h fuel s (Ends-suc e) l ∙ backs_end cmd s e)

-- From a simple command to a pipe, from there to a row of '&', and to a line.
pub exec-pipe : (cmd : Cmd) (t : List ℕ → List ℕ) → ExecReads cmd t → PipeReads cmd t
exec-pipe cmd t h zero s e l = absurd (omega arith)
exec-pipe cmd t h (suc fuel) s e l =
    parsepipe-exec cmd t h fuel s (Ends-suc e) (omega arith) ∙ rw (no_bar s e) refl

pub pipe-backs : (cmd : Cmd) (t : List ℕ → List ℕ) → PipeReads cmd t → BacksReads cmd t
pipe-backs cmd t h fuel s e l = rw (h fuel s e l) refl

pub backs-line : (cmd : Cmd) (t : List ℕ → List ℕ) → BacksReads cmd t → LineReads cmd t
backs-line cmd t h zero s e l = absurd (omega arith)
backs-line cmd t h (suc fuel) s e l =
    parseline-backs cmd t h fuel s (Ends-suc e) (omega arith) ∙ rw (no_semi s e) refl

-- From a line back to a simple command.
parseblock-line :
    (cmd : Cmd) (t : List ℕ → List ℕ)
    → LineReads cmd t
    → Prefixes t
    → (fuel : ℕ) (s : List ℕ) → Clean s
    → 4 * length (t (b')' ∷ space ∷ s)) + 4 ≤ fuel
    → parseblock (suc fuel) (paren t s) ≡ redirected cmd s
unfolding parseblock peek gettoken token_at skip_space
parseblock-line cmd t h p fuel s c l =
    rw (p.clean (b')' ∷ space ∷ s) refl, h fuel (b')' ∷ space ∷ s) (close (space ∷ s)) l, c) refl

redirected-redirs_text :
    (n : ℕ) (cmd : Cmd) (qs : List Redir) (s : List ℕ)
    → AreRedirs qs
    → Ends n s
    → redirected cmd (redirs_text qs s) ≡ parsed (wrap cmd qs) s
unfolding redirected
redirected-redirs_text n cmd qs s a e = rw (parseredirs-redirs_text n qs s a e) refl

pub line-exec :
    (cmd : Cmd) (t : List ℕ → List ℕ) → LineReads cmd t → Prefixes t → ExecReads cmd (paren t)
unfolding parseexec peek skip_space
line-exec cmd t h p zero qs s a e l = absurd (omega arith)
line-exec cmd t h p (suc zero) qs s a e l = absurd (omega arith)
line-exec cmd t h p (suc (suc fuel)) qs s a e l =
    parseblock-line cmd t h p fuel (redirs_text qs s) (redirs_text-Clean qs s (Ends-Clean e))
      (omega arith)
    ∙ redirected-redirs_text 3 cmd qs s a e

-- The commands.
pub pipe-reads :
    (l r : Cmd) (t u : List ℕ → List ℕ)
    → ExecReads l t
    → PipeReads r u
    → Prefixes t
    → Prefixes u
    → PipeReads (pipe l r) (λ s. t (b'|' ∷ space ∷ u s))
unfolding peek gettoken token_at skip_space
pipe-reads l r t u h k p q zero s e b = absurd (omega arith)
pipe-reads l r t u h k p q (suc fuel) s e b =
    let m = p.longer (b'|' ∷ space ∷ u s) in
    parsepipe-exec l t h fuel (b'|' ∷ space ∷ u s) (bar (space ∷ u s)) (omega arith)
    ∙ rw (q.clean s (Ends-Clean e), k fuel s e (omega arith)) refl

pub list-reads :
    (l r : Cmd) (t u : List ℕ → List ℕ)
    → BacksReads l t
    → LineReads r u
    → Prefixes t
    → Prefixes u
    → LineReads (list l r) (λ s. t (b';' ∷ space ∷ u s))
unfolding peek gettoken token_at skip_space
list-reads l r t u h k p q zero s e b = absurd (omega arith)
list-reads l r t u h k p q (suc fuel) s e b =
    let m = p.longer (b';' ∷ space ∷ u s) in
    parseline-backs l t h fuel (b';' ∷ space ∷ u s) (semi (space ∷ u s)) (omega arith)
    ∙ rw (q.clean s (Ends-Clean e), k fuel s e (omega arith)) refl

-- More fuel than the text is long makes no difference.
backs_fuel :
    (f g : ℕ) (cmd : Cmd) (s : List ℕ)
    → length s < f
    → length s < g
    → backs_from f cmd s ≡ backs_from g cmd s
unfolding backs_from
backs_fuel zero g cmd s a b = absurd (omega arith)
backs_fuel (suc f) zero cmd s a b = absurd (omega arith)
backs_fuel (suc f) (suc g) cmd s a b = elim (Bool-cases (peek s (b'&' ∷ [])).0) [
  | inl y ↦
      let l = peek-gettoken s (b'&' ∷ []) y in
      let m = length-peek s (b'&' ∷ []) in
      rw y (
        backs_fuel f g (back cmd) (gettoken (peek s (b'&' ∷ [])).1).rest (omega arith)
          (omega arith))
  | inr n ↦ rw n refl
]

backs_amp :
    (cmd : Cmd) (s : List ℕ)
    → Clean s
    → collect_backs cmd (b'&' ∷ space ∷ s) ≡ collect_backs (back cmd) s
unfolding backs_from peek gettoken token_at skip_space
backs_amp cmd s c =
    ap (backs_from (suc (suc (length s))) (back cmd)) c
    ∙ (backs_fuel (suc (suc (length s))) (suc (length s)) (back cmd) s (omega arith) (omega arith))

pub back-reads :
    (cmd : Cmd) (t : List ℕ → List ℕ)
    → BacksReads cmd t
    → BacksReads (back cmd) (λ s. t (b'&' ∷ space ∷ s))
back-reads cmd t h fuel s e b =
    h fuel (b'&' ∷ space ∷ s) (amp (space ∷ s)) b ∙ backs_amp cmd s (Ends-Clean e)

pub exec-reads :
    (argv : List (List ℕ))
    → AreWords argv
    → length argv < maxargs
    → ExecReads (exec argv) (words argv)
unfolding parseexec
exec-reads argv a l zero qs s b e f = absurd (omega arith)
exec-reads argv a l (suc fuel) qs s b e f =
    rw (peek_block-words 3 argv qs s a e) (parse_simple-words 3 argv qs s a b e l)

pub redir-reads :
    (cmd : Cmd) (q : Redir) (t : List ℕ → List ℕ)
    → IsRedir q
    → ExecReads cmd t
    → ExecReads (redir cmd q.file q.mode q.fd) (λ s. t (redirs_text (q ∷ []) s))
unfolding wrap
redir-reads cmd q t i h fuel qs s a e l = h fuel (q ∷ qs) s (i, a) e l
