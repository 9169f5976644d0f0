-- ===== src/Fs/Content/Logged.antt =====
-- The loop of writei with the log: how it panics for want of space there.
use lab7sp25_shelnutt.Base.{
  ℕ, zero, suc, ◌+◌, ◌-◌, ◌*◌, ◌/◌, ◌%◌, ◌≤◌, ◌<◌, ◌≡◌, refl, sym, true, false, List, [], ◌∷◌, ltb,
  length, drop, arith, inl, inr, subst, Option, none, some, Option-cases, Bool-cases, add32, ◌⊎◌,
}
use lab7sp25_shelnutt.Fs.{bsize, maxfile}
use lab7sp25_shelnutt.Fs.Bitmap.{Superblock, Disk, write_block}
use lab7sp25_shelnutt.Fs.Content.{
  Content, put_bytes, bmap, bmap_calls, indirect_calls, slot_block, ndirect, write_from,
}
use lab7sp25_shelnutt.Fs.Content.Ranges.{length-drop, part}
use lab7sp25_shelnutt.Fs.Content.Write.{rounds, count, fill_from, round_full, round_next}

-- A call of bmap makes at most five.
indirect_calls_few : (j : ℕ) (r : Option (ℕ × Content × Disk)) → indirect_calls j r ≤ 3
indirect_calls_few j none = omega arith
indirect_calls_few j (some (addr, ip', disk')) = ground arith

bmap_calls_few :
    (sb : Superblock) (bn : ℕ) (ip : Content) (disk : Disk) → bmap_calls sb bn ip disk ≤ 5
unfolding bmap_calls
bmap_calls_few sb bn ip disk =
    let l = indirect_calls_few (bn - ndirect) (slot_block sb ndirect ip disk) in
    elim (Bool-cases (ltb bn ndirect)) [
      | inl y ↦ rw (y, bmap_calls) (ground arith)
      | inr z ↦ rw (z, bmap_calls) (ground arith)
    ]

-- A run of the loop beside the same run where the log takes every call: it panics as that does, or
-- for want of space for six calls in each round; and each round makes a call.
abbrev pub Logged : ℕ → ℕ → Option (ℕ × Content × Disk) → Option (ℕ × Content × Disk × ℕ) → Type 0
Logged room n r none = (r ≡ none) ⊎ (room < 6 * n)
Logged room n r (some (off', ip', disk', left)) =
    (r ≡ some (off', ip', disk')) × (room ≤ left + 6 * n) × (left + n ≤ room)

log_full :
    (sb : Superblock) (fuel room off x : ℕ) (xs : List ℕ) (ip : Content) (disk : Disk)
    → bmap sb (off / bsize) ip disk ≡ none
    → write_from sb (suc fuel) room off (x ∷ xs) ip disk ≡ none
unfolding write_from
log_full sb fuel room off x xs ip disk e = rw (write_from, e) refl

log_short :
    (sb : Superblock) (fuel room off x : ℕ) (xs : List ℕ) (ip ip' : Content) (disk disk' : Disk)
    (b : ℕ)
    → bmap sb (off / bsize) ip disk ≡ some (b, ip', disk')
    → ltb room (bmap_calls sb (off / bsize) ip disk + 1) ≡ true
    → write_from sb (suc fuel) room off (x ∷ xs) ip disk ≡ none
unfolding write_from
log_short sb fuel room off x xs ip ip' disk disk' b e y = rw (write_from, e, y) refl

log_next :
    (sb : Superblock) (fuel room off x : ℕ) (xs : List ℕ) (ip ip' : Content) (disk disk' : Disk)
    (b : ℕ)
    → off < maxfile * bsize
    → bmap sb (off / bsize) ip disk ≡ some (b, ip', disk')
    → ltb room (bmap_calls sb (off / bsize) ip disk + 1) ≡ false
    → write_from sb (suc fuel) room off (x ∷ xs) ip disk
      ≡ write_from sb fuel
          (room - (bmap_calls sb (off / bsize) ip disk + 1))
          (off + part off (x ∷ xs))
          (drop (part off (x ∷ xs)) (x ∷ xs))
          ip'
          (write_block b (put_bytes (disk' b) (off % bsize) (part off (x ∷ xs)) (x ∷ xs)) disk')
unfolding write_from
log_next sb fuel room off x xs ip ip' disk disk' b l e z =
    let s : add32 off (part off (x ∷ xs)) ≡ off + part off (x ∷ xs) = omega arith in
    rw (write_from, e, z, s) refl

-- A round in front, with c calls.
Logged-suc :
    (room c n : ℕ) (r : Option (ℕ × Content × Disk)) (q : Option (ℕ × Content × Disk × ℕ))
    → 0 < c
    → c ≤ 6
    → c ≤ room
    → Logged (room - c) n r q
    → Logged room (suc n) r q
Logged-suc room c n r none p l m (inl e) = inl e
Logged-suc room c n r none p l m (inr h) = inr (omega arith)
Logged-suc room c n r (some (off', ip', disk', left)) p l m (e, h, g) =
    (e, omega arith, omega arith)

pub write_from-Logged :
    (sb : Superblock) (fuel room off : ℕ) (xs : List ℕ) (ip : Content) (disk : Disk)
    → off + length xs ≤ maxfile * bsize
    → Logged room
        (rounds off (length xs))
        (fill_from sb fuel off xs ip disk)
        (write_from sb fuel room off xs ip disk)
write_from-Logged sb zero room off xs ip disk l = unfold write_from fill_from in inl refl
write_from-Logged sb (suc fuel) room off [] ip disk l =
    unfold write_from fill_from in (refl, omega arith, omega arith)
write_from-Logged sb (suc fuel) room off (x ∷ xs) ip disk l =
    let n = rounds off (length (x ∷ xs)) in
    elim (Option-cases (bmap sb (off / bsize) ip disk)) [
      | inl e ↦
          subst (Logged room n (fill_from sb (suc fuel) off (x ∷ xs) ip disk))
            (sym (log_full sb fuel room off x xs ip disk e))
            (inl (round_full sb fuel off x xs ip disk e))
      | inr ((b, ip1, disk1), e) ↦
          let c = bmap_calls sb (off / bsize) ip disk + 1 in
          let few = bmap_calls_few sb (off / bsize) ip disk in
          elim (Bool-cases (ltb room c)) [
            | inl y ↦
                subst (Logged room n (fill_from sb (suc fuel) off (x ∷ xs) ip disk))
                  (sym (log_short sb fuel room off x xs ip ip1 disk disk1 b e y))
                  (inr (short y few))
            | inr z ↦
                let k = part off (x ∷ xs) in
                let rest = drop k (x ∷ xs) in
                let len = length-drop k (x ∷ xs) in
                let disk2 = write_block b (put_bytes (disk1 b) (off % bsize) k (x ∷ xs)) disk1 in
                let fill = fill_from sb fuel (off + k) rest ip1 disk2 in
                let run = write_from sb fuel (room - c) (off + k) rest ip1 disk2 in
                let more : suc (rounds (off + k) (length rest)) ≡ n =
                  count off (length xs) (length rest) len in
                let ih =
                  write_from-Logged sb fuel (room - c) (off + k) rest ip1 disk2
                    (omega (arith, len)) in
                subst (Logged room n (fill_from sb (suc fuel) off (x ∷ xs) ip disk))
                  (sym (log_next sb fuel room off x xs ip ip1 disk disk1 b (omega arith) e z))
                  (subst (λ r. Logged room n r run)
                    (sym (round_next sb fuel off x xs ip ip1 disk disk1 b (omega arith) e))
                    (subst (λ m. Logged room m fill run) more
                      (Logged-suc room c (rounds (off + k) (length rest)) fill run (omega arith)
                        (omega arith) (ground arith) ih)))
          ]
    ]
  where
    short :
        ltb room (bmap_calls sb (off / bsize) ip disk + 1) ≡ true
        → bmap_calls sb (off / bsize) ip disk ≤ 5
        → room < 6 * rounds off (length (x ∷ xs))
    short y few =
        let q : room < bmap_calls sb (off / bsize) ip disk + 1 = ground arith in omega arith
