-- ===== src/Shell/Ends.antt =====
-- The recursion of the parser of sh.c ends: four calls at each byte of the text are enough fuel.
use lab7sp25_shelnutt.Base.{
  ℕ, zero, suc, ◌+◌, ◌*◌, ◌≤◌, ◌<◌, ◌≡◌, ◌≢◌, subst, true, List, [], ◌∷◌, if◌then◌else◌, length,
  arith, Bool-cases, inl, inr,
}
use lab7sp25_shelnutt.Shell.{
  gettoken, peek, Parse, parsed, failed, no_fuel, backs_from, then_parse, redirected, Cmd, list,
  pipe, parse_simple, parseline, parsepipe, parseexec, parseblock, parsecmd,
}
use lab7sp25_shelnutt.Shell.Scan.{length-peek, peek-gettoken}
use lab7sp25_shelnutt.Shell.Consume.{
  Within, Within-weaken, then_parse-Within, backs_from-Within, redirected-Within,
  parse_simple-Within,
}

-- A byte that peek finds, and the parse behind it.
peek-Within :
    (n : ℕ) (s toks : List ℕ) (yes_parse no_parse : Parse)
    → ((peek s toks).0 ≡ true
        → length (gettoken (peek s toks).1).rest < length s
        → Within n yes_parse)
    → (length (peek s toks).1 ≤ length s → Within n no_parse)
    → Within n (if (peek s toks).0 then yes_parse else no_parse)
peek-Within n s toks y m f g =
    let p = length-peek s toks in
    elim (Bool-cases (peek s toks).0) [
      | inl h ↦ let q = peek-gettoken s toks h in rw h (f h (omega arith))
      | inr h ↦ rw h (g p)
    ]

-- The fuel for each of the four functions.
record Fueled (fuel : ℕ) : Type 0 where
  line : (s : List ℕ) → 4 * length s + 4 ≤ fuel → Within (length s) (parseline fuel s)
  pipeline : (s : List ℕ) → 4 * length s + 3 ≤ fuel → Within (length s) (parsepipe fuel s)
  command : (s : List ℕ) → 4 * length s + 2 ≤ fuel → Within (length s) (parseexec fuel s)
  block : (s : List ℕ) → 4 * length s + 1 ≤ fuel → Within (length s) (parseblock fuel s)

-- A parse of the rest, whose result is put into a command.
then_build-Within :
    (m n : ℕ) (p : Parse) (build : Cmd → Cmd)
    → Within m p
    → m ≤ n
    → Within n (then_parse p (λ right s. parsed (build right) s))
unfolding Within
then_build-Within m n p build w l =
    then_parse-Within m n p (λ right s. parsed (build right) s) w (λ right s k. omega arith)

fueled-line :
    (fuel : ℕ)
    → Fueled fuel
    → (s : List ℕ) → 4 * length s + 4 ≤ suc fuel
    → Within (length s) (parseline (suc fuel) s)
unfolding parseline Within
fueled-line fuel ih s l =
    then_parse-Within (length s) (length s) (parsepipe fuel s) _ (ih.pipeline s (omega arith))
      (λ cmd s1 l1.
        then_parse-Within (length s1) (length s) (backs_from (suc (length s1)) cmd s1) _
          (backs_from-Within (suc (length s1)) cmd s1 (omega arith))
          (λ cmd' s2 l2.
            peek-Within (length s) s2 (b';' ∷ []) _ _
              (λ _ m.
                let rest = (gettoken (peek s2 (b';' ∷ [])).1).rest in
                then_build-Within (length rest) (length s) (parseline fuel rest) (list cmd')
                  (ih.line rest (omega arith)) (omega arith))
              (λ m. omega arith)))

fueled-pipe :
    (fuel : ℕ)
    → Fueled fuel
    → (s : List ℕ) → 4 * length s + 3 ≤ suc fuel
    → Within (length s) (parsepipe (suc fuel) s)
unfolding parsepipe Within
fueled-pipe fuel ih s l =
    then_parse-Within (length s) (length s) (parseexec fuel s) _ (ih.command s (omega arith))
      (λ cmd s1 l1.
        peek-Within (length s) s1 (b'|' ∷ []) _ _
          (λ _ m.
            let rest = (gettoken (peek s1 (b'|' ∷ [])).1).rest in
            then_build-Within (length rest) (length s) (parsepipe fuel rest) (pipe cmd)
              (ih.pipeline rest (omega arith)) (omega arith))
          (λ m. omega arith))

fueled-exec :
    (fuel : ℕ)
    → Fueled fuel
    → (s : List ℕ) → 4 * length s + 2 ≤ suc fuel
    → Within (length s) (parseexec (suc fuel) s)
unfolding parseexec
fueled-exec fuel ih s l =
    let s1 = (peek s (b'(' ∷ [])).1 in
    let p = length-peek s (b'(' ∷ []) in
    peek-Within (length s) s (b'(' ∷ []) (parseblock fuel s1) (parse_simple s1)
      (λ _ m.
        Within-weaken (length s1) (length s) (parseblock fuel s1) p (ih.block s1 (omega arith)))
      (λ m. Within-weaken (length s1) (length s) (parse_simple s1) p (parse_simple-Within s1))

fueled-block :
    (fuel : ℕ)
    → Fueled fuel
    → (s : List ℕ) → 4 * length s + 1 ≤ suc fuel
    → Within (length s) (parseblock (suc fuel) s)
unfolding parseblock Within
fueled-block fuel ih s l =
    peek-Within (length s) s (b'(' ∷ []) _ failed
      (λ _ m.
        let inside = (gettoken (peek s (b'(' ∷ [])).1).rest in
        then_parse-Within (length inside) (length s) (parseline fuel inside) _
          (ih.line inside (omega arith))
          (λ cmd s2 l2.
            peek-Within (length s) s2 (b')' ∷ []) _ failed
              (λ _ m2.
                let rest = (gettoken (peek s2 (b')' ∷ [])).1).rest in
                Within-weaken (length rest) (length s) (redirected cmd rest) (omega arith)
                  (redirected-Within cmd rest))
              (λ m2. tt)))
      (λ m. tt)

fueled : (fuel : ℕ) → Fueled fuel
fueled zero = record {
  line = λ s l. absurd (omega arith);
  pipeline = λ s l. absurd (omega arith);
  command = λ s l. absurd (omega arith);
  block = λ s l. absurd (omega arith);
}
fueled (suc fuel) = record {
  line = fueled-line fuel (fueled fuel);
  pipeline = fueled-pipe fuel (fueled fuel);
  command = fueled-exec fuel (fueled fuel);
  block = fueled-block fuel (fueled fuel);
}

Within-ends : (n : ℕ) (p : Parse) → Within n p → p ≢ no_fuel
unfolding Within
Within-ends n p w e = subst (Within n) e w

at_end-Within :
    (n : ℕ) (cmd : Cmd) (s : List ℕ)
    → Within n (elim s as (λ _. Parse) [ [] ↦ parsed cmd [] | c ∷ t ↦ failed ])
unfolding Within
at_end-Within n cmd [] = omega arith
at_end-Within n cmd (c ∷ t) = tt

-- The parser ends on every text: it either fails, as on a syntax error, or returns a command, and the
-- fuel it is given never runs out.
pub parsecmd-ends : (s : List ℕ) → parsecmd s ≢ no_fuel
unfolding parsecmd
parsecmd-ends s = Within-ends (length s) (parsecmd s) (
    then_parse-Within (length s) (length s) (parseline (4 * length s + 4) s) _
      ((fueled (4 * length s + 4)).line s (omega arith))
      (λ cmd s1 l. at_end-Within (length s) cmd (peek s1 []).1))
