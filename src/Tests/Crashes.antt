-- ===== src/Tests/Crashes.antt =====
-- A log with two logged blocks on a small disk, and crashes of its commit.
use lab7sp25_shelnutt.Base.{
  ℕ, ◌+◌, ◌<◌, ◌≤◌, refl, arith, false, [], ◌∷◌, replicate, ◌⊎◌, inr, ◌==◌, if◌then◌else◌,
}
use lab7sp25_shelnutt.Log.{Log, Block, commit, reboot, recover_from_log, restarts}
use lab7sp25_shelnutt.Log.Crash.{Before, After}
use lab7sp25_shelnutt.Log.Atomic.{IsReady}
use lab7sp25_shelnutt.Log.Durable.{restarts-commit}

-- Each block is its own number, but for the header block 2, which is 0.
abbrev on_disk : ℕ → Block
on_disk b = if b == 2 then replicate 128 0 else b ∷ []

abbrev in_cache : ℕ → Block
in_cache b = if b == 2 then replicate 128 0 else (b + 100) ∷ []

-- The power ends after the header and the first of the two blocks.
abbrev ready : Log
ready = record {
  start = 2;
  size = 30;
  outstanding = 0;
  committing = false;
  logged = 40 ∷ 50 ∷ [];
  cache = in_cache;
  disk = on_disk;
  power = 4;
}

ready-IsReady : IsReady 30 ready
ready-IsReady = record {
  fits = omega arith;
  outside = (inr (omega arith), (inr (omega arith), tt));
  room = omega arith;
  quiet = refl;
}

-- The next start stops after one write, and the one after it goes through.
restarts-commit_example :
    let t = recover_from_log (reboot 10 (restarts (1 ∷ []) (commit ready))) in
    ((ready.power ≤ 2) × Before 2 30 on_disk t.disk)
    ⊎ ((2 < ready.power) × After 2 30 (40 ∷ 50 ∷ []) in_cache on_disk t.disk)
restarts-commit_example =
    restarts-commit 30 ready (1 ∷ []) 10 ready-IsReady (omega arith) (omega arith)
