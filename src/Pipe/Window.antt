-- ===== src/Pipe/Window.antt =====
-- The bytes in a pipe, oldest first, and what one `put` and one `skip` make of them.
use lab7sp25_shelnutt.Base.{
  ℕ, suc, ◌+◌, ◌%◌, ◌^◌, ◌≤◌, ◌<◌, ◌≡◌, ◌≢◌, true, false, List, [], ◌∷◌, ◌++◌, arith, window,
  window-mod, window-set, length-window, length, get_or, length-set, add32, sub32,
}
use lab7sp25_shelnutt.Pipe.{Pipe, pipesize, put, skip, is_full, is_empty}

-- The facts about 512 that the ring asks for.
next : (g h : ℕ) → g % pipesize ≡ h % pipesize → (g + 1) % pipesize ≡ (h + 1) % pipesize
next g h e = omega arith

apart : (h d : ℕ) → 0 < d → d < pipesize → (h + d) % pipesize ≢ h % pipesize
apart h d a b e = omega arith

inside : (h : ℕ) → h % pipesize < pipesize
inside h = omega arith

abbrev pub count : Pipe → ℕ
count p = sub32 p.nwrite p.nread

abbrev pub contents : Pipe → List ℕ
contents p = window pipesize p.bytes p.nread (count p)

-- The representation of a pipe: at most 512 bytes between the two counters, which are uints.
pub record IsValid (p : Pipe) : Type 0 where
  pub ring : length p.bytes ≡ pipesize
  pub reads : p.nread < 2 ^ 32
  pub writes : p.nwrite < 2 ^ 32
  pub fits : count p ≤ pipesize

pub length-contents : (p : Pipe) → length (contents p) ≡ count p
length-contents p = length-window pipesize p.bytes p.nread (count p)

-- The tests of the code, as the number of bytes.
pub full_iff : (p : Pipe) → IsValid p → is_full p ≡ true → count p ≡ pipesize
full_iff p v h = ground arith

pub not_full : (p : Pipe) → IsValid p → is_full p ≡ false → count p < pipesize
not_full p v h = ground arith

pub empty-count : (p : Pipe) → IsValid p → is_empty p ≡ true → count p ≡ 0
empty-count p v h = ground arith

pub not_empty : (p : Pipe) → IsValid p → is_empty p ≡ false → 0 < count p
not_empty p v h = ground arith

pub put-IsValid : (p : Pipe) (x : ℕ) → IsValid p → count p < pipesize → IsValid (put p x)
unfolding put
put-IsValid p x v h = record {
  ring = omega (arith, length-set p.bytes (p.nwrite % pipesize) x, v.ring);
  reads = v.reads;
  writes = omega arith;
  fits = omega arith;
}

pub contents-put :
    (p : Pipe) (x : ℕ)
    → IsValid p
    → count p < pipesize
    → contents (put p x) ≡ contents p ++ (x ∷ [])
unfolding put
contents-put p x v h =
    let c : count (put p x) ≡ suc (count p) = omega arith in
    rw c (
      window-set pipesize next apart inside p.bytes p.nread (count p) (p.nwrite % pipesize) x v.ring
        h (omega arith))

pub skip-IsValid : (p : Pipe) → IsValid p → 0 < count p → IsValid (skip p)
unfolding skip
skip-IsValid p v h = record {
  ring = v.ring;
  reads = omega arith;
  writes = v.writes;
  fits = omega arith;
}

pub contents-skip :
    (p : Pipe)
    → IsValid p
    → 0 < count p
    → contents p ≡ get_or p.bytes (p.nread % pipesize) 0 ∷ contents (skip p)
unfolding skip
contents-skip p v h =
    let c : count p ≡ suc (count (skip p)) = omega arith in
    rw (
      c,
      window-mod pipesize next apart inside p.bytes (p.nread + 1) (add32 p.nread 1) (count (skip p))
          (omega arith),
    )
