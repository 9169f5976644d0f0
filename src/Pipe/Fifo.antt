-- ===== src/Pipe/Fifo.antt =====
-- A pipe under any interleaving of its readers and writers.
use lab7sp25_shelnutt.Base.{
  ℕ, ◌-◌, ◌≡◌, refl, Bool, true, false, List, [], ◌++◌, arith, length, take, append_assoc,
  append-nil, take-append-drop,
}
use lab7sp25_shelnutt.Pipe.{
  Pipe, pipesize, fresh, write_on, ReadEnd, took, gave_up, hungry, read_on, pipeclose,
}
use lab7sp25_shelnutt.Pipe.Window.{count, contents, IsValid}
use lab7sp25_shelnutt.Pipe.Queue.{ReadEnding, write_on_lem, read_on_lem}

-- A pipe with all bytes that were ever written to it and read from it.
pub record Traffic : Type 0 where
  pub pipe : Pipe
  pub sent : List ℕ
  pub received : List ℕ

-- How many bytes a stretch of pipewrite has written.
abbrev pub grown : Pipe → Pipe → ℕ
grown p p' = count p' - count p

abbrev pub bytes_of : ReadEnd → List ℕ
bytes_of (took xs) = xs
bytes_of gave_up = []
bytes_of hungry = []

abbrev pub write_step : Bool → List ℕ → Traffic → Traffic
write_step killed bs t =
    let p' = (write_on killed t.pipe bs).1 in
    record t { pipe = p'; sent = t.sent ++ take (grown t.pipe p') bs }

abbrev pub read_step : Bool → ℕ → Traffic → Traffic
read_step killed n t =
    let (e, p', _) = read_on killed t.pipe n in
    record t { pipe = p'; received = t.received ++ bytes_of e }

-- One stretch of any reader or writer, or the close of an end.
pub data Step (t : Traffic) : Traffic → Type 0 where
  writes : (killed : Bool) (bs : List ℕ) → Step t (write_step killed bs t)
  reads : (killed : Bool) (n : ℕ) → Step t (read_step killed n t)
  closes : (writable : Bool) → Step t (record t { pipe = (pipeclose t.pipe writable).0 })

pub data Reach (page : List ℕ) : Traffic → Type 0 where
  opened : Reach page (record { pipe = fresh page; sent = []; received = [] })
  later : {t u : Traffic} → Reach page t → Step t u → Reach page u

pub record Flows (t : Traffic) : Type 0 where
  pub valid : IsValid t.pipe
  pub in_order : t.sent ≡ t.received ++ contents t.pipe

write-Flows : (killed : Bool) (bs : List ℕ) (t : Traffic) → Flows t → Flows (write_step killed bs t)
write-Flows killed bs t f =
    let w = write_on_lem killed t.pipe bs f.valid in
    let g : grown t.pipe (write_on killed t.pipe bs).1 ≡ w.sent = omega (arith, w.counted) in
    record { valid = w.valid; in_order = rw (g, w.added, f.in_order, append_assoc) }

read-Flows : (killed : Bool) (n : ℕ) (t : Traffic) → Flows t → Flows (read_step killed n t)
read-Flows killed n t f =
    go (read_on killed t.pipe n).0 (read_on killed t.pipe n).1 (read_on_lem killed t.pipe n f.valid)
  where
    same : (p' : Pipe) → p' ≡ t.pipe → Flows (record t { pipe = p'; received = t.received ++ [] })
    same p' e = rw (e, append-nil t.received) f

    go :
        (e : ReadEnd) (p' : Pipe)
        → ReadEnding killed t.pipe n e p'
        → Flows (record t { pipe = p'; received = t.received ++ bytes_of e })
    go (took xs) p' r = record {
      valid = r.0.valid;
      in_order =
          rw (r.0.oldest, r.0.left, append_assoc, take-append-drop n (contents t.pipe)) f.in_order;
    }
    go gave_up p' r = same p' r.0
    go hungry p' r = same p' r.0

close-Flows :
    (writable : Bool) (t : Traffic)
    → Flows t
    → Flows (record t { pipe = (pipeclose t.pipe writable).0 })
unfolding pipeclose
close-Flows true t f = record {
  valid = record {
    ring = f.valid.ring;
    reads = f.valid.reads;
    writes = f.valid.writes;
    fits = f.valid.fits;
  };
  in_order = f.in_order;
}
close-Flows false t f = record {
  valid = record {
    ring = f.valid.ring;
    reads = f.valid.reads;
    writes = f.valid.writes;
    fits = f.valid.fits;
  };
  in_order = f.in_order;
}

-- From the creation of a pipe on, under any order of the stretches of its readers and writers and of
-- closes: what was written is what was read, followed by what the pipe holds, in order; so no byte
-- is lost, doubled or overtaken. The pipe stays valid.
pub Reach-Flows : (page : List ℕ) {t : Traffic} → length page ≡ pipesize → Reach page t → Flows t
Reach-Flows page l opened = record {
  valid = record { ring = l; reads = omega arith; writes = omega arith; fits = omega arith };
  in_order = refl;
}
Reach-Flows page l (later {t = t} r (writes killed bs)) =
    write-Flows killed bs t (Reach-Flows page l r)
Reach-Flows page l (later {t = t} r (reads killed n)) = read-Flows killed n t (Reach-Flows page l r)
Reach-Flows page l (later {t = t} r (closes writable)) =
    close-Flows writable t (Reach-Flows page l r)
