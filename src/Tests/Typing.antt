-- ===== src/Tests/Typing.antt =====
-- Lines typed at the console.
use lab7sp25_shelnutt.Base.{ℕ, arith, false, List, [], ◌∷◌, replicate, length-replicate}
use lab7sp25_shelnutt.Console.{Input, input_buf, control, consoleintr, read_on}
use lab7sp25_shelnutt.Console.Window.{IsValid}
use lab7sp25_shelnutt.Console.Line.{IsTyped, Refines, edit_lines, view, consoleintr_lem}
use lab7sp25_shelnutt.Console.Reading.{Reads, read_on-Reads}

abbrev fresh_input : Input
fresh_input = record { bytes = replicate input_buf 0; r = 0; w = 0; e = 0 }

fresh-IsTyped : IsTyped fresh_input
fresh-IsTyped = record {
  valid = record {
    ring = length-replicate {A = ℕ} input_buf 0;
    reads = omega arith;
    writes = omega arith;
    edits = omega arith;
    fits = omega arith;
  };
  one_line = tt;
}

-- a, DEL, b, control-U, c, newline
abbrev keys : List ℕ
keys = b'a' ∷ 0x7f ∷ b'b' ∷ control b'U' ∷ b'c' ∷ b'\n' ∷ []

consoleintr_lem_example :
    Refines (consoleintr keys fresh_input) (edit_lines keys (view fresh_input))
consoleintr_lem_example = consoleintr_lem keys fresh_input fresh-IsTyped

abbrev after_keys : Input
after_keys = consoleintr keys fresh_input

after_keys-IsValid : IsValid after_keys
after_keys-IsValid = (consoleintr_lem keys fresh_input fresh-IsTyped).typed.valid

read_on-Reads_example : Reads false [] 10 after_keys (read_on false after_keys [] 10)
read_on-Reads_example = read_on-Reads false after_keys [] 10 after_keys-IsValid
