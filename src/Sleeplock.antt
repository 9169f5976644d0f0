-- ===== src/Sleeplock.antt =====
-- sleeplock.c. What a function does under lk->lk, up to its release or to sleep, is one step; `at`
-- says where the process with a given pid is in its use of the lock.
pub mod Exclusion
use lab7sp25_shelnutt.Base.{ℕ, ◌<◌, ◌≡◌, Bool, true, false, ◌&&◌, ◌==◌, if◌then◌else◌}

pub record Sleeplock : Type 0 where
  pub locked : Bool
  pub pid : ℕ

-- initsleeplock
abbrev pub fresh_lock : Sleeplock
fresh_lock = record { locked = false; pid = 0 }

-- Outside, asleep on the lock, awake again before the next test of its loop, or in possession of it.
pub data Place : Type 0 where
  outside asleep woken inside : Place

pub record System : Type 0 where
  pub lock : Sleeplock
  pub at : ℕ → Place

abbrev pub move : ℕ → Place → (ℕ → Place) → ℕ → Place
move p x at q = if q == p then x else at q

-- wakeup
abbrev pub rouse_place : Place → Place
rouse_place asleep = woken
rouse_place outside = outside
rouse_place woken = woken
rouse_place inside = inside

-- acquiresleep of the process p, from a test of its loop up to its sleep or its return.
unfoldable pub acquiresleep : ℕ → System → System
acquiresleep p s =
    if s.lock.locked
    then record s { at = move p asleep s.at }
    else record { lock = record { locked = true; pid = p }; at = move p inside s.at }

unfoldable pub releasesleep : ℕ → System → System
releasesleep p s = record { lock = fresh_lock; at = move p outside (λ q. rouse_place (s.at q)) }

unfoldable pub holdingsleep : ℕ → System → Bool
holdingsleep p s = s.lock.locked && (s.lock.pid == p)

abbrev pub start : System
start = record { lock = fresh_lock; at = λ p. outside }

-- The processes in any order: a call of acquiresleep, its going on after a wakeup, and a call of
-- releasesleep by the process that has the lock.
pub data Step : System → System → Type 0 where
  enters : (s : System) (p : ℕ) → s.at p ≡ outside → Step s (acquiresleep p s)
  retries : (s : System) (p : ℕ) → s.at p ≡ woken → Step s (acquiresleep p s)
  leaves : (s : System) (p : ℕ) → s.at p ≡ inside → Step s (releasesleep p s)

pub data Reach : System → Type 0 where
  initially : Reach start
  later : {s t : System} → Reach s → Step s t → Reach t
