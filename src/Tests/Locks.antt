-- ===== src/Tests/Locks.antt =====
-- A CPU that takes a spin lock with interrupts on.
use lab7sp25_shelnutt.Base.{◌≡◌, true, false, some, arith}
use lab7sp25_shelnutt.Spinlock.{Cpu, free_lock, pushcli, acquire, release, taken, panics}
use lab7sp25_shelnutt.Spinlock.Nesting.{Masked, held, acquire-release}

abbrev open_cpu : Cpu
open_cpu = record { ncli = 0; intena = false; eflags_if = true }

open_cpu-Masked : Masked open_cpu
open_cpu-Masked h = absurd (omega arith)

acquire-release_example :
    (acquire free_lock open_cpu ≡ taken held (pushcli open_cpu))
    × (acquire held (pushcli open_cpu) ≡ panics)
    × ((c' : Cpu) × (release held (pushcli open_cpu) ≡ some (free_lock, c'))
        × (c'.ncli ≡ 0)
        × (c'.eflags_if ≡ true))
acquire-release_example = acquire-release open_cpu open_cpu-Masked
