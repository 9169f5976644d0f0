-- ===== src/Syscall/Bounds.antt =====
-- The bounds of the fetch of arguments.
use lab7sp25_shelnutt.Base.{
  ℕ, zero, suc, ◌+◌, ◌-◌, ◌*◌, ◌^◌, ◌≤◌, ◌<◌, ◌≡◌, ◌≢◌, refl, ap, ◌⊎◌, inl, inr, arith, Bool-cases,
  none, some, ◌==◌, leb, pos, add32, false, dec_lt, dec_le,
}
use lab7sp25_shelnutt.Syscall.{
  UserSpace, kernbase, word_at, fetchint, find_nul, fetchstr, argint, argptr,
}

fetchint_lem :
    (addr : ℕ) (u : UserSpace)
    → u.sz ≤ kernbase
    → addr < 2 ^ 32
    → ((u.sz < addr + 4) × (fetchint addr u ≡ none))
      ⊎ ((addr + 4 ≤ u.sz) × (fetchint addr u ≡ some (word_at u.bytes addr)))
unfolding fetchint
fetchint_lem addr u k b = elim (dec_le (addr + 4) u.sz) [
  | yes h ↦ inr (h, ground arith)
  | no h ↦ inl (omega arith, ground arith)
]

-- The bytes at `s` and the `n - 1` addresses behind it have no NUL.
abbrev pub NoNul : (ℕ → ℕ) → ℕ → ℕ → Type 0
NoNul m s n = (i : ℕ) → i < n → m (s + i) ≢ 0

find_nul_lem :
    (m : ℕ → ℕ) (s done left : ℕ)
    → ((find_nul m s done left ≡ none) × NoNul m s left)
      ⊎ ((n : ℕ) × (find_nul m s done left ≡ some (done + n))
          × (n < left)
          × (m (s + n) ≡ 0)
          × NoNul m s n)
unfolding find_nul
find_nul_lem m s done zero = inl (refl, λ i l. absurd (omega arith))
find_nul_lem m s done (suc left) =
    let ih = find_nul_lem m (suc s) (suc done) left in
    elim (Bool-cases (m s == 0)) [
      | inl y ↦ inr (0, ground arith, omega arith, ground arith, λ i l. absurd (omega arith))
      | inr n ↦ elim ih [
        | inl (e, free) ↦
            inl (ground arith, later (suc left) (ground arith) (λ i l. free i (omega arith)))
        | inr (k, e, l, z, free) ↦ inr (
          suc k,
          ground arith,
          omega arith,
          shift k z,
          later (suc k) (ground arith) (λ i j. free i (omega arith)),
        )
      ]
    ]
  where
    shift : (k : ℕ) → m (suc s + k) ≡ 0 → m (s + suc k) ≡ 0
    shift k z = let e : s + suc k ≡ suc s + k = omega arith in rw e z

    later : (n : ℕ) → m s ≢ 0 → ((i : ℕ) → suc i < n → m (suc s + i) ≢ 0) → NoNul m s n
    later n h free zero l = let e : s + 0 ≡ s = omega arith in rw e h
    later n h free (suc i) l = let e : s + suc i ≡ suc s + i = omega arith in rw e (free i l)

-- fetchstr, for an address space below the kernel. It succeeds exactly if a NUL stands between the
-- address and the end of the process; then the result is the address with the distance of the first
-- such NUL.
pub fetchstr_lem :
    (addr : ℕ) (u : UserSpace)
    → ((fetchstr addr u ≡ none) × NoNul u.bytes addr (u.sz - addr))
      ⊎ ((n : ℕ) × (fetchstr addr u ≡ some (addr, n))
          × (addr + n < u.sz)
          × (u.bytes (addr + n) ≡ 0)
          × NoNul u.bytes addr n)
unfolding fetchstr
fetchstr_lem addr u = elim (dec_lt addr u.sz) [
  | no h ↦ inl (ground arith, λ i l. absurd (omega arith))
  | yes h ↦
      let o : leb u.sz addr ≡ false = ground arith in
      elim (find_nul_lem u.bytes addr 0 (u.sz - addr)) [
        | inl (e, free) ↦ inl (rw (o, e, fetchstr) refl, free)
        | inr (n, e, l, z, free) ↦
            inr (
              n,
              rw (o, e, fetchstr) (ap (λ x. some (addr, x)) (omega arith)),
              omega arith,
              z,
              free,
            )
      ]
]

word_bound : (m : ℕ → ℕ) (a : ℕ) → ((x : ℕ) → m x < 256) → word_at m a < 2 ^ 32
unfolding word_at
word_bound m a h = omega (arith, h a, h (a + 1), h (a + 2), h (a + 3))

-- The address of the argument with number `n`.
abbrev pub arg_addr : ℕ → UserSpace → ℕ
arg_addr n u = add32 (add32 u.esp 4) (4 * n)

-- argptr, for a process below the kernel, whatever its stack pointer and its memory hold. Either the
-- argument lies within the process, and the block of the given size that starts at its value lies
-- within the process too, without wrap-around; then the result is that value. Or one of these does
-- not hold, and the call fails.
pub argptr_lem :
    (n size : ℕ) (u : UserSpace)
    → u.sz ≤ kernbase
    → size < 2 ^ 31
    → ((a : ℕ) → u.bytes a < 256)
    → let a = arg_addr n u in
      let p = word_at u.bytes a in
      ((argptr n (pos size) u ≡ some p) × (a + 4 ≤ u.sz) × (p < u.sz) × (p + size ≤ u.sz))
      ⊎ ((argptr n (pos size) u ≡ none) × ((u.sz < a + 4) ⊎ (u.sz ≤ p) ⊎ (u.sz < p + size)))
unfolding argptr argint
argptr_lem n size u k small b =
    let p = word_at u.bytes (arg_addr n u) in
    let pb = word_bound u.bytes (arg_addr n u) b in
    elim (fetchint_lem (arg_addr n u) u k (omega arith)) [
      | inl (l, e) ↦ inr (rw (e, argptr, argint) refl, inl l)
      | inr (l, e) ↦ elim (dec_lt p u.sz) [
        | no h ↦ inr (rw (e, argptr, argint) (ground arith), inr (inl (omega arith)))
        | yes h ↦ elim (dec_le (p + size) u.sz) [
          | no g ↦ inr (rw (e, argptr, argint) (ground arith), inr (inr (omega arith)))
          | yes g ↦ inl (rw (e, argptr, argint) (ground arith), l, h, g)
        ]
      ]
    ]
