-- ===== src/Shell.antt =====
-- sh.c: the parser of the shell. The pointer *ps is the list of the bytes from it to the end `es`, so
-- that *s at the end is the NUL. A word is the bytes between its two pointers, which nulterminate
-- then ends by a NUL; panic is `failed`.
pub mod Scan
pub mod Consume
pub mod Ends
pub mod Printing
pub mod Words
pub mod Levels
pub mod Roundtrip
use lab7sp25_shelnutt.Base.{
  ℕ, zero, suc, ◌+◌, ◌*◌, Bool, true, false, ◌&&◌, ◌||◌, not, List, [], ◌∷◌, ◌++◌, ◌==◌, leb,
  if◌then◌else◌, length,
}
use lab7sp25_shelnutt.Strings.{head0, tail}

abbrev pub contains : List ℕ → ℕ → Bool
contains [] c = false
contains (x ∷ xs) c = (x == c) || contains xs c

-- " \t\r\n\v"
abbrev pub whitespace : List ℕ
whitespace = b' ' ∷ 9 ∷ 13 ∷ 10 ∷ 11 ∷ []

-- "<|>&;()"
abbrev pub symbols : List ℕ
symbols = b'<' ∷ b'|' ∷ b'>' ∷ b'&' ∷ b';' ∷ b'(' ∷ b')' ∷ []

abbrev pub is_space : ℕ → Bool
is_space c = contains whitespace c

-- A byte that goes on with a word.
abbrev pub in_word : ℕ → Bool
in_word c = not (is_space c) && not (contains symbols c)

-- while(s < es && strchr(whitespace, *s)) s++;
unfoldable pub skip_space : List ℕ → List ℕ
skip_space [] = []
skip_space (c ∷ s) = let rest = skip_space s in if is_space c then rest else c ∷ s

-- The loop of gettoken over a word.
unfoldable pub take_word : List ℕ → List ℕ × List ℕ
take_word [] = ([], [])
take_word (c ∷ s) =
    let rest = take_word s in if in_word c then (c ∷ rest.0, rest.1) else ([], c ∷ s)

-- What gettoken returns, with the bytes from *q to *eq, and *ps afterwards.
pub record Token : Type 0 where
  pub ret : ℕ
  pub text : List ℕ
  pub rest : List ℕ

-- The switch of gettoken.
unfoldable pub token_at : List ℕ → Token
unfolding take_word
token_at [] = record { ret = 0; text = []; rest = [] }
token_at (c ∷ s) =
    if contains (b'|' ∷ b'(' ∷ b')' ∷ b';' ∷ b'&' ∷ b'<' ∷ []) c
    then record { ret = c; text = c ∷ []; rest = s }
    else if c == b'>'
    then if head0 s == b'>'
      then record { ret = b'+'; text = c ∷ c ∷ []; rest = tail s }
      else record { ret = c; text = c ∷ []; rest = s }
    else record { ret = b'a'; text = (take_word (c ∷ s)).0; rest = (take_word (c ∷ s)).1 }

unfoldable pub gettoken : List ℕ → Token
unfolding skip_space token_at
gettoken s = let t = token_at (skip_space s) in record t { rest = skip_space t.rest }

unfoldable pub peek : List ℕ → List ℕ → Bool × List ℕ
unfolding skip_space
peek s toks = let s' = skip_space s in (not (head0 s' == 0) && contains toks (head0 s'), s')

-- The commands. `mode` and the descriptor of a redirection are numbers of fcntl.h.
pub data Cmd : Type 0 where
  exec : List (List ℕ) → Cmd
  redir : Cmd → List ℕ → ℕ → ℕ → Cmd
  pipe : Cmd → Cmd → Cmd
  list : Cmd → Cmd → Cmd
  back : Cmd → Cmd

abbrev pub maxargs : ℕ
maxargs = 10

abbrev pub o_rdonly : ℕ
o_rdonly = 0

abbrev pub o_wronly_create : ℕ
o_wronly_create = 0x201

-- How a parsing function ends.
pub data Parse : Type 0 where
  parsed : Cmd → List ℕ → Parse
  failed : Parse
  no_fuel : Parse

-- A redirection as it stands in the text.
pub record Redir : Type 0 where
  pub file : List ℕ
  pub mode : ℕ
  pub fd : ℕ

-- redircmd around a command, for each of a row of redirections.
unfoldable pub wrap : Cmd → List Redir → Cmd
wrap cmd [] = cmd
wrap cmd (r ∷ rs) = wrap (redir cmd r.file r.mode r.fd) rs

pub data Redirs : Type 0 where
  read : List Redir → List ℕ → Redirs
  failed : Redirs
  no_fuel : Redirs

abbrev pub redir_of : ℕ → List ℕ → Redir
redir_of tok file =
    if tok == b'<'
    then record { file = file; mode = o_rdonly; fd = 0 }
    else record { file = file; mode = o_wronly_create; fd = 1 }

abbrev pub then_parse : Parse → (Cmd → List ℕ → Parse) → Parse
then_parse (parsed cmd s) f = f cmd s
then_parse failed f = failed
then_parse no_fuel f = no_fuel

abbrev pub then_redirs : Redirs → (List Redir → List ℕ → Parse) → Parse
then_redirs (read rs s) f = f rs s
then_redirs failed f = failed
then_redirs no_fuel f = no_fuel

-- The loop of parseredirs, after the redirections `rs`.
unfoldable pub redirs_from : ℕ → List Redir → List ℕ → Redirs
redirs_from zero rs s = no_fuel
redirs_from (suc fuel) rs s =
    let (more, s1) = peek s (b'<' ∷ b'>' ∷ []) in
    let t = gettoken s1 in
    let f = gettoken t.rest in
    let rest = redirs_from fuel (rs ++ redir_of t.ret f.text ∷ []) f.rest in
    if more then if f.ret == b'a' then rest else failed else read rs s1

-- parseredirs; the caller wraps the command. A round takes two tokens of the text at least.
unfoldable pub parseredirs : List ℕ → Redirs
unfolding redirs_from
parseredirs s = redirs_from (suc (length s)) [] s

-- The loop of parseexec, after the words `argv` and the redirections `rs`.
unfoldable pub args_from : ℕ → List (List ℕ) → List Redir → List ℕ → Parse
unfolding parseredirs
args_from zero argv rs s = no_fuel
args_from (suc fuel) argv rs s =
    let (stop, s1) = peek s (b'|' ∷ b')' ∷ b'&' ∷ b';' ∷ []) in
    let t = gettoken s1 in
    let argv' = argv ++ t.text ∷ [] in
    let next = then_redirs (parseredirs t.rest) (λ more s2. args_from fuel argv' (rs ++ more) s2) in
    if stop
    then parsed (wrap (exec argv) rs) s1
    else if t.ret == 0
    then parsed (wrap (exec argv) rs) t.rest
    else if not (t.ret == b'a')
    then failed
    else if leb maxargs (length argv')
    then failed
    else next

-- parseexec on a text that does not begin with a block.
unfoldable pub parse_simple : List ℕ → Parse
unfolding args_from
parse_simple s = then_redirs (parseredirs s) (λ rs s1. args_from (suc (length s1)) [] rs s1)

-- The loop of parseline over '&'.
unfoldable pub backs_from : ℕ → Cmd → List ℕ → Parse
backs_from zero cmd s = no_fuel
backs_from (suc fuel) cmd s =
    let (more, s1) = peek s (b'&' ∷ []) in
    let rest = backs_from fuel (back cmd) (gettoken s1).rest in if more then rest else parsed cmd s1

-- The redirections behind a block.
unfoldable pub redirected : Cmd → List ℕ → Parse
unfolding parseredirs
redirected cmd s = then_redirs (parseredirs s) (λ rs s1. parsed (wrap cmd rs) s1)

-- The four functions that call one another, on common fuel.
unfoldable mutual
  unfolding backs_from

  pub parseline : ℕ → List ℕ → Parse
  parseline zero s = no_fuel
  parseline (suc fuel) s = then_parse (parsepipe fuel s) (λ cmd s1.
      then_parse (backs_from (suc (length s1)) cmd s1) (λ cmd' s2.
        let (more, s3) = peek s2 (b';' ∷ []) in
        let rest =
          then_parse (parseline fuel (gettoken s3).rest)
            (λ right s4. parsed (list cmd' right) s4) in
        if more then rest else parsed cmd' s3))

  pub parsepipe : ℕ → List ℕ → Parse
  parsepipe zero s = no_fuel
  parsepipe (suc fuel) s = then_parse (parseexec fuel s) (λ cmd s1.
      let (more, s2) = peek s1 (b'|' ∷ []) in
      let rest =
        then_parse (parsepipe fuel (gettoken s2).rest) (λ right s3. parsed (pipe cmd right) s3) in
      if more then rest else parsed cmd s2)

  pub parseexec : ℕ → List ℕ → Parse
  parseexec zero s = no_fuel
  parseexec (suc fuel) s =
      let (block, s1) = peek s (b'(' ∷ []) in
      let rest = parseblock fuel s1 in if block then rest else parse_simple s1

  pub parseblock : ℕ → List ℕ → Parse
  parseblock zero s = no_fuel
  parseblock (suc fuel) s =
      let (opened, s1) = peek s (b'(' ∷ []) in
      let rest = then_parse (parseline fuel (gettoken s1).rest) (λ cmd s2.
        let (closed, s3) = peek s2 (b')' ∷ []) in
        if closed then redirected cmd (gettoken s3).rest else failed) in
      if opened then rest else failed

-- parsecmd, with fuel for four calls at each byte of the text.
unfoldable pub parsecmd : List ℕ → Parse
unfolding parseline
parsecmd s = then_parse (parseline (4 * length s + 4) s) (λ cmd s1.
    let (_, s2) = peek s1 [] in elim s2 as (λ _. Parse) [ [] ↦ parsed cmd [] | c ∷ t ↦ failed ])
