-- ===== src/Console/Line.antt =====
-- consoleintr as a line discipline on two lists.
use lab7sp25_shelnutt.Base.{
  ℕ, zero, suc, ◌+◌, ◌-◌, ◌≤◌, ◌<◌, ◌≡◌, refl, ap, sym, ◌∙◌, true, false, ◌&&◌, ◌||◌, not, List, [],
  ◌∷◌, ◌++◌, ◌==◌, ltb, if◌then◌else◌, arith, length, length-append, take, sub32, add32, Bool-cases,
  inl, inr, length-window, window, subst, subst₂,
}
use lab7sp25_shelnutt.Console.{
  Input, input_buf, control, rub_out, type_byte, kill_line, last_edited, ends_line, accept, handle,
  consoleintr,
}
use lab7sp25_shelnutt.Console.Window.{
  IsValid, ready, edited, queue, line, type_byte-IsValid, line-type_byte, queue-type_byte,
  queue-commit_line, line-commit_line, commit_line-IsValid, rub_out-IsValid, line-rub_out,
}

-- What a reader may take, and the line that is edited.
pub record Typed : Type 0 where
  pub ready_bytes : List ℕ
  pub edit : List ℕ

abbrev pub view : Input → Typed
view s = record { ready_bytes = queue s; edit = line s }

abbrev pub size_of : Typed → ℕ
size_of t = length t.ready_bytes + length t.edit

-- A byte at the end of the line, which makes the line ready if it is a newline, control-D or the last
-- that there is room for.
abbrev pub typing : ℕ → Typed → Typed
typing c t =
    let edit' = t.edit ++ c ∷ [] in
    if (c == b'\n') || ((c == control b'D') || (length t.ready_bytes + length edit' == input_buf))
    then record { ready_bytes = t.ready_bytes ++ edit'; edit = [] }
    else record t { edit = edit' }

-- One character, for the user: control-P lists the processes, control-U empties the line, control-H
-- and DEL take off its last byte, a carriage return is a newline, and all else is typed, if there is
-- room.
abbrev pub edit_line : ℕ → Typed → Typed
edit_line c t =
    if c == control b'P'
    then t
    else if c == control b'U'
    then record t { edit = [] }
    else if (c == control b'H') || (c == 0x7f)
    then record t { edit = take (length t.edit - 1) t.edit }
    else if not (c == 0) && ltb (size_of t) input_buf
    then typing (if c == b'\r' then b'\n' else c) t
    else t

-- No byte of the line is a newline.
abbrev pub OneLine : List ℕ → Type 0
OneLine [] = Unit {0}
OneLine (x ∷ xs) = ((x == b'\n') ≡ false) × OneLine xs

OneLine-append : (xs ys : List ℕ) → OneLine xs → OneLine ys → OneLine (xs ++ ys)
OneLine-append [] ys a b = b
OneLine-append (x ∷ xs) ys (h, a) b = (h, OneLine-append xs ys a b)

OneLine-front : (xs ys : List ℕ) → OneLine (xs ++ ys) → OneLine xs × OneLine ys
OneLine-front [] ys a = (tt, a)
OneLine-front (x ∷ xs) ys (h, a) = let (b, c) = OneLine-front xs ys a in ((h, b), c)

pub record IsTyped (s : Input) : Type 0 where
  pub valid : IsValid s
  pub one_line : OneLine (line s)

length-line : (s : Input) → length (line s) ≡ edited s
length-line s = length-window input_buf s.bytes s.w (edited s)

length-queue : (s : Input) → length (queue s) ≡ ready s
length-queue s = length-window input_buf s.bytes s.r (ready s)

take_front : (xs : List ℕ) (y : ℕ) → take (length (xs ++ y ∷ []) - 1) (xs ++ y ∷ []) ≡ xs
take_front [] y = refl
take_front (x ∷ xs) y =
    let n = length-append xs (y ∷ []) in
    let e : suc (length (xs ++ y ∷ [])) - 1 ≡ suc (length (xs ++ y ∷ []) - 1) = omega (arith, n) in
    rw e (ap (λ r. x ∷ r) (take_front xs y))

queue-rub_out : (s : Input) → queue (rub_out s) ≡ queue s
unfolding rub_out
queue-rub_out s = refl

rub_out-IsTyped :
    (s : Input)
    → IsTyped s
    → 0 < edited s
    → IsTyped (rub_out s)
      × (line (rub_out s) ≡ take (length (line s) - 1) (line s))
      × ((last_edited s == b'\n') ≡ false)
rub_out-IsTyped s t h =
    let e = line-rub_out s t.valid h in
    let (a, b) = OneLine-front (line (rub_out s)) (last_edited s ∷ []) (rw e at (t.one_line)) in
    let f = take_front (line (rub_out s)) (last_edited s) in
    (
      record { valid = rub_out-IsValid s t.valid h; one_line = a },
      sym (ap (λ l. take (length l - 1) l) e ∙ f),
      b.0,
    )

edited-rub_out : (s : Input) → IsValid s → 0 < edited s → suc (edited (rub_out s)) ≡ edited s
unfolding rub_out
edited-rub_out s v h = omega arith

no_edit : (s : Input) → IsValid s → (s.e == s.w) ≡ true → line s ≡ []
no_edit s v h = let z : edited s ≡ 0 = ground arith in ap (window input_buf s.bytes s.w) z

some_edit : (s : Input) → IsValid s → (s.e == s.w) ≡ false → 0 < edited s
some_edit s v h = ground arith

-- With enough fuel the loop of control-U takes off the whole line.
kill_line-IsTyped :
    (fuel : ℕ) (s : Input)
    → edited s ≤ fuel
    → IsTyped s
    → let s' = (kill_line fuel s).0 in IsTyped s' × (queue s' ≡ queue s) × (line s' ≡ [])
unfolding kill_line
kill_line-IsTyped zero s f t =
    let z : edited s ≡ 0 = omega arith in (t, refl, ap (window input_buf s.bytes s.w) z)
kill_line-IsTyped (suc fuel) s f t = elim (Bool-cases (s.e == s.w)) [
  | inl y ↦ rw (y, kill_line) (t, refl, no_edit s t.valid y)
  | inr n ↦
      let h = some_edit s t.valid n in
      let (r, l, b) = rub_out-IsTyped s t h in
      let (k, q, z) =
        kill_line-IsTyped fuel (rub_out s) (omega (arith, edited-rub_out s t.valid h)) r in
      rw (n, b, kill_line) (k, q ∙ queue-rub_out s, z)
]

-- The state after a character, in both views.
pub record Refines (s' : Input) (t' : Typed) : Type 0 where
  pub typed : IsTyped s'
  pub same_ready : queue s' ≡ t'.ready_bytes
  pub same_edit : line s' ≡ t'.edit

accept-Refines :
    (c : ℕ) (s : Input)
    → IsTyped s
    → ready s + edited s < input_buf
    → Refines (accept c s).0 (typing c (view s))
unfolding accept
accept-Refines c s t h =
    let s' = type_byte s c in
    let v = type_byte-IsValid s c t.valid h in
    let l = line-type_byte s c t.valid h in
    let q = queue-type_byte s c t.valid h in
    let room = length (queue s) + length (line s ++ c ∷ []) in
    let full : (s'.e == add32 s'.r input_buf) ≡ (room == input_buf) =
      ground (arith, length-queue s, length-append (line s) (c ∷ []), length-line s) in
    let same = ap (λ b. (c == b'\n') || ((c == control b'D') || b)) full in
    elim (Bool-cases (ends_line c s')) [
      | inl y ↦
          let y' = sym same ∙ y in
          rw (y, y')
            (record {
              typed = record {
                valid = commit_line-IsValid s' v;
                one_line = subst OneLine (sym (line-commit_line s' v)) tt;
              };
              same_ready = queue-commit_line s' v ∙ rw (q, l) refl;
              same_edit = line-commit_line s' v;
            })
      | inr n ↦
          let n' = sym same ∙ n in
          let plain : (c == b'\n') ≡ false = ground arith in
          rw (n, n')
            (record {
              typed = record {
                valid = v;
                one_line = rw l (OneLine-append (line s) (c ∷ []) t.one_line (plain, tt));
              };
              same_ready = q;
              same_edit = l;
            })
    ]

-- consoleintr takes each character as the line discipline says, in a ring that holds a line in
-- order; and it keeps the ring valid.
handle-Refines : (c : ℕ) (s : Input) → IsTyped s → Refines (handle c s).input (edit_line c (view s))
unfolding handle
handle-Refines c s t =
    let still : Refines s (view s) = record { typed = t; same_ready = refl; same_edit = refl } in
    elim (Bool-cases (c == control b'P')) [
      | inl p ↦ rw (p, handle) still
      | inr np ↦ elim (Bool-cases (c == control b'U')) [
        | inl u ↦
            let (k, q, z) = kill_line-IsTyped input_buf s (omega arith) t in
            rw (np, u, handle) (record { typed = k; same_ready = q; same_edit = z })
        | inr nu ↦ elim (Bool-cases ((c == control b'H') || (c == 0x7f))) [
          | inl b ↦ elim (Bool-cases (s.e == s.w)) [
            | inl y ↦
                let z = no_edit s t.valid y in
                rw (np, nu, b, y, handle)
                  (record {
                    typed = t;
                    same_ready = refl;
                    same_edit = z ∙ sym (ap (λ l. take (length l - 1) l) z);
                  })
            | inr n ↦
                let (r, l, _) = rub_out-IsTyped s t (some_edit s t.valid n) in
                rw (np, nu, b, n, handle)
                  (record { typed = r; same_ready = queue-rub_out s; same_edit = l })
          ]
          | inr nb ↦
              let fits : ltb (sub32 s.e s.r) input_buf ≡ ltb (size_of (view s)) input_buf =
                ground (arith, length-queue s, length-line s) in
              elim (Bool-cases (not (c == 0) && ltb (size_of (view s)) input_buf)) [
                | inl g ↦
                    let g' = ap (λ b. not (c == 0) && b) fits ∙ g in
                    rw (np, nu, nb, g, g', handle)
                      (accept-Refines (if c == b'\r' then b'\n' else c) s t
                        (ground (arith, length-queue s, length-line s)))
                | inr g ↦
                    let g' = ap (λ b. not (c == 0) && b) fits ∙ g in
                    rw (np, nu, nb, g, g', handle) still
              ]
        ]
      ]
    ]

-- All characters of an interrupt.
abbrev pub edit_lines : List ℕ → Typed → Typed
edit_lines [] t = t
edit_lines (c ∷ cs) t = edit_lines cs (edit_line c t)

-- In a valid ring whose edited part holds no newline, as in the empty one, consoleintr on any
-- characters does what the line discipline does one character after the other: what a reader may
-- take and the line under editing are the same. The ring stays such.
pub consoleintr_lem :
    (cs : List ℕ) (s : Input) → IsTyped s → Refines (consoleintr cs s) (edit_lines cs (view s))
unfolding consoleintr
consoleintr_lem [] s t = record { typed = t; same_ready = refl; same_edit = refl }
consoleintr_lem (c ∷ cs) s t =
    let h = handle-Refines c s t in
    let e = h.same_ready in
    let f = h.same_edit in
    subst₂
      (λ q l.
        Refines (consoleintr cs (handle c s).input)
          (edit_lines cs (record { ready_bytes = q; edit = l })))
      e f (consoleintr_lem cs (handle c s).input h.typed)
