-- ===== src/Shell/Consume.antt =====
-- The loops of the parser of sh.c end on their own fuel, and leave no more text than they had.
use lab7sp25_shelnutt.Base.{
  ℕ, zero, suc, ◌≤◌, ◌<◌, List, [], ◌∷◌, ◌++◌, ◌==◌, leb, length, arith, Bool-cases, inl, inr,
}
use lab7sp25_shelnutt.Shell.{
  gettoken, peek, Parse, parsed, failed, no_fuel, Redirs, read, Redir, redir_of, redirs_from,
  parseredirs, args_from, parse_simple, backs_from, then_parse, then_redirs, redirected, Cmd, wrap,
  back, maxargs,
}
use lab7sp25_shelnutt.Shell.Scan.{length-gettoken, length-peek, peek-gettoken, ret-gettoken}

-- The parse did not run out of fuel, and what it leaves is no longer than n.
unfoldable pub Within : ℕ → Parse → Type 0
Within n (parsed cmd s) = length s ≤ n
Within n failed = Unit
Within n no_fuel = ⊥

pub WithinRedirs : ℕ → Redirs → Type 0
WithinRedirs n (read rs s) = length s ≤ n
WithinRedirs n failed = Unit
WithinRedirs n no_fuel = ⊥

pub Within-weaken : (m n : ℕ) (p : Parse) → m ≤ n → Within m p → Within n p
unfolding Within
Within-weaken m n (parsed cmd s) l w = omega arith
Within-weaken m n failed l w = tt
Within-weaken m n no_fuel l w = absurd w

pub WithinRedirs-weaken : (m n : ℕ) (p : Redirs) → m ≤ n → WithinRedirs m p → WithinRedirs n p
unfolding WithinRedirs
WithinRedirs-weaken m n (read rs s) l w = omega arith
WithinRedirs-weaken m n failed l w = tt
WithinRedirs-weaken m n no_fuel l w = absurd w

pub then_parse-Within :
    (m n : ℕ) (p : Parse) (f : Cmd → List ℕ → Parse)
    → Within m p
    → ((cmd : Cmd) (s : List ℕ) → length s ≤ m → Within n (f cmd s))
    → Within n (then_parse p f)
unfolding Within
then_parse-Within m n (parsed cmd s) f w h = h cmd s w
then_parse-Within m n failed f w h = tt
then_parse-Within m n no_fuel f w h = absurd w

pub then_redirs-Within :
    (m n : ℕ) (p : Redirs) (f : List Redir → List ℕ → Parse)
    → WithinRedirs m p
    → ((rs : List Redir) (s : List ℕ) → length s ≤ m → Within n (f rs s))
    → Within n (then_redirs p f)
unfolding Within WithinRedirs
then_redirs-Within m n (read rs s) f w h = h rs s w
then_redirs-Within m n failed f w h = tt
then_redirs-Within m n no_fuel f w h = absurd w

pub redirs_from-Within :
    (fuel : ℕ) (rs : List Redir) (s : List ℕ)
    → length s < fuel
    → WithinRedirs (length s) (redirs_from fuel rs s)
unfolding redirs_from WithinRedirs
redirs_from-Within zero rs s l = absurd (omega arith)
redirs_from-Within (suc fuel) rs s l =
    let p = length-peek s (b'<' ∷ b'>' ∷ []) in
    elim (Bool-cases (peek s (b'<' ∷ b'>' ∷ [])).0) [
      | inl h ↦
          let t = gettoken (peek s (b'<' ∷ b'>' ∷ [])).1 in
          let q = peek-gettoken s (b'<' ∷ b'>' ∷ []) h in
          let r = length-gettoken t.rest in
          elim (Bool-cases ((gettoken t.rest).ret == b'a')) [
            | inl g ↦
                let ih =
                  redirs_from-Within fuel (rs ++ redir_of t.ret (gettoken t.rest).text ∷ [])
                    (gettoken t.rest).rest (omega arith) in
                rw (h, g) (WithinRedirs-weaken _ (length s) _ (omega arith) ih)
            | inr g ↦ rw (h, g) tt
          ]
      | inr h ↦ rw h p
    ]

pub parseredirs-Within : (s : List ℕ) → WithinRedirs (length s) (parseredirs s)
unfolding parseredirs
parseredirs-Within s = redirs_from-Within (suc (length s)) [] s (omega arith)

pub backs_from-Within :
    (fuel : ℕ) (cmd : Cmd) (s : List ℕ)
    → length s < fuel
    → Within (length s) (backs_from fuel cmd s)
unfolding backs_from Within
backs_from-Within zero cmd s l = absurd (omega arith)
backs_from-Within (suc fuel) cmd s l =
    let p = length-peek s (b'&' ∷ []) in
    elim (Bool-cases (peek s (b'&' ∷ [])).0) [
      | inl h ↦
          let q = peek-gettoken s (b'&' ∷ []) h in
          let ih =
            backs_from-Within fuel (back cmd) (gettoken (peek s (b'&' ∷ [])).1).rest
              (omega arith) in
          rw h (Within-weaken _ (length s) _ (omega arith) ih)
      | inr h ↦ rw h p
    ]

pub redirected-Within : (cmd : Cmd) (s : List ℕ) → Within (length s) (redirected cmd s)
unfolding redirected Within
redirected-Within cmd s =
    then_redirs-Within (length s) (length s) (parseredirs s) (λ rs s1. parsed (wrap cmd rs) s1)
      (parseredirs-Within s) (λ rs s1 l. l)

pub args_from-Within :
    (fuel : ℕ) (argv : List (List ℕ)) (rs : List Redir) (s : List ℕ)
    → length s < fuel
    → Within (length s) (args_from fuel argv rs s)
unfolding args_from Within
args_from-Within zero argv rs s l = absurd (omega arith)
args_from-Within (suc fuel) argv rs s l =
    let p = length-peek s (b'|' ∷ b')' ∷ b'&' ∷ b';' ∷ []) in
    elim (Bool-cases (peek s (b'|' ∷ b')' ∷ b'&' ∷ b';' ∷ [])).0) [
      | inl h ↦ rw h p
      | inr h ↦
          let t = gettoken (peek s (b'|' ∷ b')' ∷ b'&' ∷ b';' ∷ [])).1 in
          elim (Bool-cases (t.ret == 0)) [
            | inl e ↦
                let r = length-gettoken (peek s (b'|' ∷ b')' ∷ b'&' ∷ b';' ∷ [])).1 in
                rw (h, e) (omega arith)
            | inr e ↦
                let r = ret-gettoken (peek s (b'|' ∷ b')' ∷ b'&' ∷ b';' ∷ [])).1 e in
                elim (Bool-cases (t.ret == b'a')) [
                  | inl g ↦ elim (Bool-cases (leb maxargs (length (argv ++ t.text ∷ [])))) [
                    | inl k ↦ rw (h, e, g, k) tt
                    | inr k ↦
                        rw (h, e, g, k)
                          (then_redirs-Within (length t.rest) (length s) (parseredirs t.rest)
                            (λ more s2. args_from fuel (argv ++ t.text ∷ []) (rs ++ more) s2)
                            (parseredirs-Within t.rest)
                            (λ more s2 k2. Within-weaken (length s2) (length s) _ (omega arith) (
                              args_from-Within fuel (argv ++ t.text ∷ []) (rs ++ more) s2
                                (omega arith))))
                  ]
                  | inr g ↦ rw (h, e, g) tt
                ]
          ]
    ]

pub parse_simple-Within : (s : List ℕ) → Within (length s) (parse_simple s)
unfolding parse_simple
parse_simple-Within s =
    then_redirs-Within (length s) (length s) (parseredirs s)
      (λ rs s1. args_from (suc (length s1)) [] rs s1) (parseredirs-Within s)
      (λ rs s1 l.
        Within-weaken (length s1) (length s) _ l
          (args_from-Within (suc (length s1)) [] rs s1 (omega arith)))
