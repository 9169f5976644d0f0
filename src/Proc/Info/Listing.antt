-- ===== src/Proc/Info/Listing.antt =====
-- fillpstat: what its rows say of the table.
use lab7sp25_shelnutt.Base.{
  ℕ, zero, suc, ◌<◌, ◌≡◌, refl, List, [], ◌∷◌, arith, length, length-map, get_or, map, ◌↔◌, true,
  take,
}
use lab7sp25_shelnutt.Proc.Table.{ProcState, Proc, proc_at, live}
use lab7sp25_shelnutt.Proc.Info.{Pstat, letter, pstat_of, fillpstat}

-- The letter of a state tells all states apart.
pub letter-injective : (s t : ProcState) → letter s ≡ letter t → s ≡ t
letter-injective s t h = ground arith

get_or-map_in :
    (t : List Proc) (i : ℕ) (d : Pstat)
    → i < length t
    → get_or (map pstat_of t) i d ≡ pstat_of (proc_at t i)
get_or-map_in [] i d l = absurd (omega arith)
get_or-map_in (p ∷ t) zero d l = refl
get_or-map_in (p ∷ t) (suc i) d l = get_or-map_in t i d (omega arith)

-- fillpstat writes one row for each entry of the table, and the row `i` shows the entry `i`: it is
-- marked as in use exactly if the entry is, it has the pid, the tickets, the ticks and the name of
-- the entry, and its letter determines the state of the entry.
pub fillpstat_lem :
    (t : List Proc) (i : ℕ) (d : Pstat)
    → i < length t
    → let r = get_or (fillpstat t) i d in
      let p = proc_at t i in
      (length (fillpstat t) ≡ length t)
      × ((r.inuse ≡ 1) ↔ (live p ≡ true))
      × (r.pid ≡ p.pid)
      × (r.tickets ≡ p.tickets)
      × (r.ticks ≡ p.ticks)
      × (r.name ≡ take 16 p.name)
      × ((s : ProcState) → r.state ≡ letter s → p.state ≡ s)
unfolding fillpstat
fillpstat_lem t i d l = rw (get_or-map_in t i d l) (
  length-map t pstat_of,
  unfold pstat_of in (λ h. ground arith, λ h. ground arith),
  unfold pstat_of in refl,
  unfold pstat_of in refl,
  unfold pstat_of in refl,
  unfold pstat_of in refl,
  λ s h. letter-injective (proc_at t i).state s (unfold pstat_of in h),
)
