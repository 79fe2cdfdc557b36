-- ===== src/Tests/Dispatching.antt =====
-- Witnesses on the scheduler's theorems.
use lance_laker.Base.{
  inr, String, ◌≤◌, ◌≡◌, ◌⊎◌, refl, Bool, true, false, none, some, List, [], ◌∷◌, arith, find_by,
  select_by, put_by, IsUnique, has_key, eq_iff, count_by, update_by, str_eq, ◌&&◌,
}
use lance_laker.Rls.{before_execute}
use lance_laker.Outcome.{ok}
use lance_laker.Tenant.{is_system_ctx}
use lance_laker.Models.{Task, WorkerRegistry, cancelled, Db}
use lance_laker.Session.{save_task, save_worker, visible}
use lance_laker.Scheduler.Workers.{decrement_in_flight}
use lance_laker.Scheduler.Dispatch.{dispatched, loaded, take_first, claim_next_task, complete_task}
use lance_laker.Scheduler.Claim.{all_tenants, claim_sound, IsDispatch}
use lance_laker.TaskService.{retry_task, retried}
use lance_laker.Accounting.Invariant.{running_on, IsSound}
use lance_laker.Accounting.Moves.{uuid_of}
use lance_laker.History.Calls.{Call, claims, completes, retries, perform, run}
use lance_laker.History.Accounts.{run-accounts}
use lance_laker.History.Fates.{run-terminal, retry-last_stuck}
use lance_laker.History.Evolution.{Evolves}
use lance_laker.History.Transitions.{perform-Evolves}
use lance_laker.Tests.Fixtures.{engine, scheduler, request, task_a, task_c, worker_1, site}

abbrev unlocked : Task → Bool
unlocked _ = false

abbrev visible_to_acme : String → Bool
visible_to_acme tenant = str_eq tenant "acme" && true

abbrev claimed : Db
claimed = save_worker (loaded worker_1) (save_task all_tenants (dispatched "w-1" 200 task_a) site)

claim_site :
    claim_next_task engine scheduler unlocked 200 "w-1" "lease-1" none site
    ≡ ok (some (dispatched "w-1" 200 task_a), claimed)
unfolding claim_next_task take_first engine visible before_execute select_by find_by put_by
claim_site = refl

claim_sound_example :
    (is_system_ctx scheduler ≡ true)
    × IsDispatch unlocked 200 "w-1" "lease-1" none site (dispatched "w-1" 200 task_a) claimed
claim_sound_example =
    claim_sound engine scheduler unlocked 200 "w-1" "lease-1" none site claimed
      (dispatched "w-1" 200 task_a) claim_site

-- The worker is now full.
claim_again :
    claim_next_task engine scheduler unlocked 300 "w-1" "lease-1" none claimed ≡ ok (none, claimed)
unfolding claim_next_task take_first engine visible before_execute select_by find_by put_by
claim_again = refl

-- Two pending tasks.
abbrev task_d : Task
task_d = record task_a { task_uuid = "t-d"; idempotency_key = none; created_at = 11 }

abbrev queue : Db
queue = record site {
  tasks = task_a ∷ task_d ∷ [];
  workers = record worker_1 { in_flight = 0 } ∷ [];
}

abbrev idle : WorkerRegistry
idle = record worker_1 { in_flight = 0 }

abbrev queue_1 : Db
queue_1 = save_worker (loaded idle) (save_task all_tenants (dispatched "w-1" 200 task_a) queue)

abbrev queue_2 : Db
queue_2 =
    save_worker (loaded (loaded idle)) (save_task all_tenants (dispatched "w-1" 300 task_d) queue_1)

abbrev day : List Call
day =
    claims scheduler unlocked 200 "w-1" "lease-1" none
    ∷ completes scheduler 300 "w-1" "t-b" none
    ∷ retries request "t-c"
    ∷ []

pub site-IsSound : IsSound site
unfolding find_by count_by
site-IsSound = record {
  tasks_unique = (refl, (refl, (refl, tt)));
  workers_unique = (refl, tt);
  counted = ((refl, omega arith, ground (arith, eq_iff "w-1" "")), tt);
}

run-accounts_example :
    IsSound (run engine day site)
    × (1 ≡ running_on "w-1" (run engine day site).tasks)
    × (running_on "w-1" (run engine day site).tasks ≤ 2)
unfolding run perform claim_next_task take_first engine visible before_execute complete_task
    retry_task decrement_in_flight select_by find_by put_by update_by
run-accounts_example =
    run-accounts engine day site "w-1" worker_1 (tt, (tt, (tt, tt))) site-IsSound refl

site-IsUnique : IsUnique uuid_of site.tasks
unfolding find_by
site-IsUnique = (refl, (refl, (refl, tt)))

-- Two tasks, of which one was called off.
abbrev called_off_c : Task
called_off_c = record task_c { status = cancelled }

abbrev quiet : Db
quiet = record site { tasks = task_a ∷ called_off_c ∷ [] }

quiet-IsUnique : IsUnique uuid_of quiet.tasks
unfolding find_by
quiet-IsUnique = (refl, (refl, tt))

called_off_found : find_by (has_key uuid_of "t-c") quiet.tasks ≡ some called_off_c
unfolding find_by
called_off_found = refl

run-terminal_example :
    find_by (has_key uuid_of "t-c") (run engine day quiet).tasks ≡ some called_off_c
run-terminal_example =
    run-terminal engine day quiet "t-c" called_off_c quiet-IsUnique called_off_found (inr refl)

retry_site :
    retry_task request "t-c" site
    ≡ ok (retried task_c, save_task visible_to_acme (retried task_c) site)
unfolding retry_task visible before_execute find_by put_by
retry_site = refl

retry-last_stuck_example :
    (t : Task) × (find_by
        (has_key uuid_of "t-c")
        (run engine day (save_task visible_to_acme (retried task_c) site)).tasks
      ≡ some t)
    × ((t ≡ retried task_c) ⊎ (t.status ≡ cancelled))
retry-last_stuck_example =
    retry-last_stuck engine request day site (save_task visible_to_acme (retried task_c) site) "t-c"
      (retried task_c) site-IsUnique retry_site refl

perform-Evolves_example :
    Evolves site.tasks (perform engine (completes scheduler 300 "w-1" "t-b" none) site).tasks
perform-Evolves_example =
    perform-Evolves engine (completes scheduler 300 "w-1" "t-b" none) site site-IsUnique
