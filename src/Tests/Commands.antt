-- ===== src/Tests/Commands.antt =====
-- Commands of the shell.
use lab7sp25_shelnutt.Base.{ℕ, ◌≡◌, ◌≢◌, refl, arith, List, [], ◌∷◌}
use lab7sp25_shelnutt.Shell.{
  Cmd, exec, redir, pipe, list, back, o_wronly_create, parsed, no_fuel, parsecmd,
}
use lab7sp25_shelnutt.Shell.Printing.{IsWord, Printable, print}
use lab7sp25_shelnutt.Shell.Ends.{parsecmd-ends}
use lab7sp25_shelnutt.Shell.Roundtrip.{parsecmd-print}

-- ls & ; ( wc ; x ) | wc > f
abbrev ls : List ℕ
ls = b'l' ∷ b's' ∷ []

abbrev wc : List ℕ
wc = b'w' ∷ b'c' ∷ []

abbrev f_name : List ℕ
f_name = b'f' ∷ []

abbrev some_cmd : Cmd
some_cmd = list (back (exec (ls ∷ []))) (
    pipe (list (exec (wc ∷ [])) (exec (ls ∷ wc ∷ [])))
      (redir (exec (wc ∷ [])) f_name o_wronly_create 1))

ls-IsWord : IsWord ls
ls-IsWord = (omega arith, (refl, refl, (refl, refl, tt)))

wc-IsWord : IsWord wc
wc-IsWord = (omega arith, (refl, refl, (refl, refl, tt)))

f_name-IsWord : IsWord f_name
f_name-IsWord = (omega arith, (refl, refl, tt))

some_cmd-Printable : Printable some_cmd
unfolding Printable
some_cmd-Printable = (
  ((ls-IsWord, tt), omega arith),
  (
    (((wc-IsWord, tt), omega arith), ((ls-IsWord, (wc-IsWord, tt)), omega arith)),
    ((f_name-IsWord, refl, omega arith), ((wc-IsWord, tt), omega arith)),
  ),
)

parsecmd-print_example : parsecmd (print some_cmd) ≡ parsed some_cmd []
parsecmd-print_example = parsecmd-print some_cmd some_cmd-Printable

parsecmd-ends_example : parsecmd (b'(' ∷ b'a' ∷ b'&' ∷ b';' ∷ []) ≢ no_fuel
parsecmd-ends_example = parsecmd-ends (b'(' ∷ b'a' ∷ b'&' ∷ b';' ∷ [])
