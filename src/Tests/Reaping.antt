-- ===== src/Tests/Reaping.antt =====
-- Witnesses on the reaper.
use lance_laker.Base.{String, ◌≡◌, refl, Bool, false, List, Memᴰ}
use lance_laker.Outcome.{ok}
use lance_laker.Models.{WorkerRegistry, Db}
use lance_laker.Scheduler.Dispatch.{reap_dead_workers}
use lance_laker.Accounting.Invariant.{running_on}
use lance_laker.Accounting.Recovery.{reap_dead_workers_frees}
use lance_laker.Tests.Fixtures.{scheduler, site, worker_1}

abbrev nobody_locks : WorkerRegistry → Bool
nobody_locks _ = false

reap_dead_workers_frees_example :
    (reaped : List String) × (uuids : List String) × (db' : Db) × (reap_dead_workers scheduler 40000
        30000 nobody_locks site
      ≡ ok ((reaped, uuids), db'))
    × (running_on "w-1" db'.tasks ≡ 0)
    × Memᴰ "w-1" reaped
reap_dead_workers_frees_example =
    reap_dead_workers_frees scheduler 40000 30000 nobody_locks site worker_1 refl (Memᴰ.head refl)
      refl
