-- ===== src/Tests/Pipes.antt =====
-- Pipes over a page of 512 bytes.
use lab7sp25_shelnutt.Base.{
  ℕ, ◌≡◌, arith, true, false, List, [], ◌∷◌, ◌++◌, take, ◌-◌, replicate, length-replicate,
}
use lab7sp25_shelnutt.Pipe.{pipesize, fresh, write_on, read_on, refused}
use lab7sp25_shelnutt.Pipe.Window.{IsValid, count, contents}
use lab7sp25_shelnutt.Pipe.Queue.{Wrote, ReadEnding, write_on_lem, read_on_lem}
use lab7sp25_shelnutt.Pipe.Fifo.{
  Traffic, Flows, Reach-Flows, opened, later, writes, reads, write_step, read_step,
}
use lab7sp25_shelnutt.Pipe.Silence.{write_on-silent}

abbrev page : List ℕ
page = replicate pipesize 0

abbrev start : Traffic
start = record { pipe = fresh page; sent = []; received = [] }

abbrev after_write : Traffic
after_write = write_step false (1 ∷ 2 ∷ 3 ∷ []) start

Reach-Flows_example : Flows (read_step false 2 after_write)
Reach-Flows_example =
    Reach-Flows page (length-replicate {A = ℕ} pipesize 0)
      (later (later opened (writes false (1 ∷ 2 ∷ 3 ∷ []))) (reads false 2))

fresh-IsValid : IsValid (fresh page)
fresh-IsValid = record {
  ring = length-replicate {A = ℕ} pipesize 0;
  reads = omega arith;
  writes = omega arith;
  fits = omega arith;
}

write_on_lem_example :
    Wrote false
      (fresh page)
      (7 ∷ 8 ∷ [])
      (write_on false (fresh page) (7 ∷ 8 ∷ [])).0
      (write_on false (fresh page) (7 ∷ 8 ∷ [])).1
write_on_lem_example = write_on_lem false (fresh page) (7 ∷ 8 ∷ []) fresh-IsValid

after_write-IsValid : IsValid after_write.pipe
after_write-IsValid =
    (Reach-Flows page (length-replicate {A = ℕ} pipesize 0)
      (later opened (writes false (1 ∷ 2 ∷ 3 ∷ [])))).valid

read_on_lem_example :
    ReadEnding false after_write.pipe 2
      (read_on false after_write.pipe 2).0
      (read_on false after_write.pipe 2).1
read_on_lem_example = read_on_lem false after_write.pipe 2 after_write-IsValid

abbrev long : List ℕ
long = replicate 513 65

write_on-silent_example :
    let out = write_on true (fresh page) long in
    (out.0 ≡ refused)
    × (count out.1 ≡ pipesize)
    × (contents out.1 ≡ contents (fresh page) ++ take (pipesize - count (fresh page)) long)
    × (out.2 ≡ [])
write_on-silent_example =
    write_on-silent (fresh page) long fresh-IsValid (omega (arith, length-replicate {A = ℕ} 513 65))
