-- ===== src/Tests/Sleepers.antt =====
-- Two processes on a sleep lock.
use lab7sp25_shelnutt.Base.{refl}
use lab7sp25_shelnutt.Sleeplock.{
  System, acquiresleep, releasesleep, start, Reach, initially, later, enters, retries, leaves,
}
use lab7sp25_shelnutt.Sleeplock.Exclusion.{IsExclusive, Reach-IsExclusive}

abbrev one_in : System
one_in = acquiresleep 4 start

abbrev one_waits : System
one_waits = acquiresleep 5 one_in

abbrev handed_over : System
handed_over = acquiresleep 5 (releasesleep 4 one_waits)

run : Reach handed_over
unfolding acquiresleep releasesleep
run =
    later
      (later (later (later initially (enters start 4 refl)) (enters one_in 5 refl))
        (leaves one_waits 4 refl))
      (retries (releasesleep 4 one_waits) 5 refl)

Reach-IsExclusive_example : IsExclusive handed_over
Reach-IsExclusive_example = Reach-IsExclusive handed_over run
