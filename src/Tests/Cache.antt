-- ===== src/Tests/Cache.antt =====
-- The buffer cache: two blocks are read, the first is released and read again.
use lab7sp25_shelnutt.Base.{ℕ, ◌≡◌, refl, arith, Option, none, some, List}
use lab7sp25_shelnutt.Bio.{Buf, nbuf, binit, bget, brelse}
use lab7sp25_shelnutt.Bio.Unique.{buffers, Holds, started, later, gets, releases, bget_lem}

abbrev after : Option (ℕ × List Buf) → List Buf → List Buf
after none xs = xs
after (some (i, ys)) xs = ys

abbrev first_read : List Buf
first_read = after (bget 1 5 (binit nbuf)) (binit nbuf)

abbrev second_read : List Buf
second_read = after (bget 1 6 first_read) first_read

abbrev third_read : List Buf
third_read = after (bget 1 5 (brelse 0 second_read)) second_read

reads_first : bget 1 5 (binit nbuf) ≡ some (0, first_read)
unfolding bget binit
reads_first = refl

reads_second : bget 1 6 first_read ≡ some (1, second_read)
unfolding bget binit
reads_second = refl

reads_third : bget 1 5 (brelse 0 second_read) ≡ some (0, third_read)
unfolding bget binit brelse
reads_third = refl

bget_lem_example : Holds 0 1 5 third_read × (buffers 1 5 third_read ≡ 1)
bget_lem_example =
    bget_lem 1 5 0
      (later (later (later started (gets 1 5 0 reads_first)) (gets 1 6 1 reads_second))
        (releases 0))
      (omega arith) reads_third
