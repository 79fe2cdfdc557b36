-- ===== src/Tests/Leasing.antt =====
-- A witness on leases.
use lance_laker.Base.{ℕ, String, ◌≡◌, ◌≢◌, refl, Bool, false, none, find_by, put_by, arith, eq_iff}
use lance_laker.Outcome.{ok, err, lease_mismatch}
use lance_laker.Models.{Task, WorkerRegistry}
use lance_laker.Session.{save_worker}
use lance_laker.Scheduler.Workers.{
  Registration, Attempt, renewed, register_from, register_worker, beaten, heartbeat,
}
use lance_laker.Scheduler.Dispatch.{claim_next_task}
use lance_laker.Scheduler.Leases.{register_worker-fences}
use lance_laker.Tests.Fixtures.{engine, scheduler, site, worker_1}

abbrev bigger : Registration
bigger = record { worker_type = "lifecycle"; host = none; capacity = 4; labels = none }

abbrev restart : ℕ → Attempt
restart _ = record { lease = "lease-2"; now = 700; meanwhile = λ d. d }

abbrev restarted : WorkerRegistry
restarted = renewed bigger (restart 0) worker_1

first_registration :
    register_worker scheduler restart "w-1" bigger site ≡ ok (restarted, save_worker restarted site)
unfolding register_worker register_from find_by put_by
first_registration = refl

abbrev none_locked : Task → Bool
none_locked _ = false

old_lease : ◌≢◌ {A = String} "lease-1" "lease-2"
old_lease = ground (arith, eq_iff "lease-1" "lease-2")

register_worker-fences_example :
    (claim_next_task engine scheduler none_locked 800 "w-1" "lease-1" none
        (save_worker restarted site)
      ≡ err lease_mismatch)
    × (heartbeat scheduler 800 "w-1" "lease-1" (save_worker restarted site) ≡ err lease_mismatch)
    × (heartbeat scheduler 800 "w-1" "lease-2" (save_worker restarted site)
        ≡ ok
            (beaten 800 restarted, save_worker (beaten 800 restarted) (save_worker restarted site)))
register_worker-fences_example =
    register_worker-fences scheduler scheduler engine restart "w-1" "lease-1" bigger site
      (save_worker restarted site) restarted none_locked 800 none first_registration refl old_lease
