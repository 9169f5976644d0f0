-- ===== src/Syscall.antt =====
-- syscall.c: how the kernel fetches the arguments of a system call from the memory of the process.
-- `bytes` is that memory, of which the process owns the addresses below `sz`. A pointer and an int
-- are 32-bit words, and the result -1 is `none`.
pub mod Bounds
use lab7sp25_shelnutt.Base.{
  ℕ, zero, suc, ◌+◌, ◌-◌, ◌*◌, ◌^◌, ◌||◌, Option, none, some, ◌==◌, ltb, leb, if◌then◌else◌, ℤ, pos,
  negsuc, add32, ltb_ℤ, pos_part,
}

-- What the functions use of the current process.
pub record UserSpace : Type 0 where
  pub sz : ℕ
  pub esp : ℕ
  pub bytes : ℕ → ℕ

abbrev pub kernbase : ℕ
kernbase = 0x80000000

-- *(int*)addr, little-endian.
unfoldable pub word_at : (ℕ → ℕ) → ℕ → ℕ
word_at m a = m a + 2 ^ 8 * m (a + 1) + 2 ^ 16 * m (a + 2) + 2 ^ 24 * m (a + 3)

unfoldable pub fetchint : ℕ → UserSpace → Option ℕ
fetchint addr u =
    if leb u.sz addr || ltb u.sz (add32 addr 4) then none else some (word_at u.bytes addr)

-- The loop of fetchstr with `left` addresses to go, of which `done` have been passed.
unfoldable pub find_nul : (ℕ → ℕ) → ℕ → ℕ → ℕ → Option ℕ
find_nul m s done zero = none
find_nul m s done (suc left) =
    let rest = find_nul m (suc s) (suc done) left in if m s == 0 then some done else rest

-- The address, which goes to *pp, and the length.
unfoldable pub fetchstr : ℕ → UserSpace → Option (ℕ × ℕ)
unfolding find_nul
fetchstr addr u =
    if leb u.sz addr
    then none
    else elim (find_nul u.bytes addr 0 (u.sz - addr)) [ none ↦ none | some n ↦ some (addr, n) ]

unfoldable pub argint : ℕ → UserSpace → Option ℕ
unfolding fetchint
argint n u = fetchint (add32 (add32 u.esp 4) (4 * n)) u

-- `size` is an int.
unfoldable pub argptr : ℕ → ℤ → UserSpace → Option ℕ
unfolding argint
argptr n size u = elim (argint n u) [
  | none ↦ none
  | some i ↦
      if ltb_ℤ size (pos 0) || (leb u.sz i || ltb u.sz (add32 i (pos_part size)))
      then none
      else some i
]

unfoldable pub argstr : ℕ → UserSpace → Option (ℕ × ℕ)
unfolding argint fetchstr
argstr n u = elim (argint n u) [ none ↦ none | some addr ↦ fetchstr addr u ]
