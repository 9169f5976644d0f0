-- ===== src/Spinlock/Nesting.antt =====
-- acquire and release as a pair.
use lab7sp25_shelnutt.Base.{◌<◌, ◌≡◌, refl, true, false, some, ◌==◌, arith, Bool-cases, inl, inr}
use lab7sp25_shelnutt.Spinlock.{
  Cpu, Spinlock, free_lock, pushcli, popcli, is_held, holding, panics, taken, acquire, release,
}

-- A CPU with open calls of pushcli runs without interrupts.
abbrev pub Masked : Cpu → Type 0
Masked c = 0 < c.ncli → c.eflags_if ≡ false

abbrev pub held : Spinlock
held = record { locked = true; mine = true }

popcli-pushcli :
    (c : Cpu)
    → Masked c
    → (c' : Cpu) × (popcli (pushcli c) ≡ some c')
      × (c'.ncli ≡ c.ncli)
      × (c'.eflags_if ≡ c.eflags_if)
unfolding popcli pushcli
popcli-pushcli c m = elim (Bool-cases (c.ncli == 0)) [
  | inl z ↦
      (record (pushcli c) { ncli = c.ncli; eflags_if = c.eflags_if }, ground arith, refl, refl)
  | inr n ↦ (
    record (pushcli c) { ncli = c.ncli; eflags_if = c.eflags_if },
    ground (arith, m (ground arith)),
    refl,
    refl,
  )
]

-- Within an open pushcli the pair does nothing.
popcli_inside : (c : Cpu) → 0 < c.ncli → c.eflags_if ≡ false → popcli (pushcli c) ≡ some c
unfolding popcli pushcli
popcli_inside c h e = ground arith

holding_inside :
    (l : Spinlock) (c : Cpu) → 0 < c.ncli → c.eflags_if ≡ false → holding l c ≡ some (is_held l, c)
unfolding holding
holding_inside l c h e = rw (popcli_inside c h e, holding) refl

pushed : (c : Cpu) → (0 < (pushcli c).ncli) × ((pushcli c).eflags_if ≡ false)
unfolding pushcli
pushed c = (omega arith, refl)

-- On a CPU that runs without interrupts while calls of pushcli are open: acquire takes a free lock
-- with its first try; a second acquire of it by the same CPU panics, where it would spin for ever;
-- and release frees the lock, and leaves the nesting and the interrupt flag as they were before
-- acquire.
pub acquire-release :
    (c : Cpu)
    → Masked c
    → (acquire free_lock c ≡ taken held (pushcli c))
      × (acquire held (pushcli c) ≡ panics)
      × ((c' : Cpu) × (release held (pushcli c) ≡ some (free_lock, c'))
          × (c'.ncli ≡ c.ncli)
          × (c'.eflags_if ≡ c.eflags_if))
acquire-release c m =
    let (a, b) = pushed c in
    let (a', b') = pushed (pushcli c) in
    let (c', e, n, f) = popcli-pushcli c m in
    (
      unfold acquire in rw (holding_inside free_lock (pushcli c) a b, acquire) refl,
      unfold acquire in rw (holding_inside held (pushcli (pushcli c)) a' b', acquire) refl,
      (c', unfold release in rw (holding_inside held (pushcli c) a b, e, release) refl, n, f),
    )
