-- ===== src/Worker.antt =====
-- workers/lifecycle_worker_service.py: one claim, its execution and its end. The claim commits before
-- the executor runs, and each end commits, so an iteration returns the state that it leaves along
-- with what it returns or raises. No other transaction commits within an iteration.
pub mod Finalizing
pub mod Iteration
pub mod Building
pub mod Daemon
pub mod Looping
pub mod Sound
pub mod Idleness
use lance_laker.Base.{ℕ, String, ◌++◌, Bool, true, false, Option, none, some, str_eq, find_by}
use lance_laker.Outcome.{Error, Outcome, ok, err}
use lance_laker.Tenant.{Ctx}
use lance_laker.Json.{Fields}
use lance_laker.Models.{Task, TaskStatus, succeeded, failed, Dataset, Db}
use lance_laker.Session.{visible, dataset_at}
use lance_laker.Scheduler.Dispatch.{Engine, claim_next_task, complete_task, fail_task}
use lance_laker.Executors.{Executed, done, raised, Executor}

pub record WorkerConfig : Type 0 where
  pub worker_id : String
  pub lease_id : String
  pub task_type : Option String

-- A finished iteration; `idle` is `TickOutcome(claimed=False)`.
pub data TickOutcome : Type 0 where
  idle : TickOutcome
  finished : Task → TaskStatus → Option String → TickOutcome

-- The times of the two ends, `str(exc)[:2048]` and `repr` of a text.
pub record Tick : Type 0 where
  pub claimed_at : ℕ
  pub ended_at : ℕ
  pub first_2048 : String → String
  pub repr : String → String

abbrev pub ended : Db → TickOutcome → Outcome (Task × Db) → Outcome TickOutcome × Db
ended db outcome (ok (_, db')) = (ok outcome, db')
ended db outcome (err e) = (err e, db)

-- Ends the task as FAILED, on the state after the claim: what an executor wrote is rolled back.
abbrev pub failed_with :
    Ctx → Tick → String → Task → String → String → Db → Outcome TickOutcome × Db
failed_with c tick worker_id t code message db =
    ended db (finished t failed (some code))
      (fail_task c tick.ended_at worker_id t.task_uuid code message db)

abbrev pub finalize :
    Ctx → Tick → String → Task → Db → Executed (Fields × Db) → Outcome TickOutcome × Db
finalize c tick worker_id t db (raised code message) =
    failed_with c tick worker_id t code (tick.first_2048 message) db
finalize c tick worker_id t db (done (payload, written)) =
    ended db (finished t succeeded none)
      (complete_task c tick.ended_at worker_id t.task_uuid (some payload) written)

abbrev pub orphan_message : Task → String
orphan_message t = "dataset " ++ (t.dataset_uuid ++ " no longer exists; task is orphaned")

-- `_dispatch_and_finalize`.
unfoldable pub dispatch_and_finalize :
    (String → Option Executor) → Ctx → Tick → String → Task → Db → Outcome TickOutcome × Db
dispatch_and_finalize executors c tick worker_id t db = elim (visible c "dataset") [
  | err e ↦ (err e, db)
  | ok see ↦ elim (find_by (dataset_at see t.dataset_uuid) db.datasets) [
    | none ↦ failed_with c tick worker_id t "DatasetMissing" (orphan_message t) db
    | some d ↦ elim (executors t.task_type) [
      | none ↦
          failed_with c tick worker_id t "UnknownTaskType"
            ("no executor registered for " ++ tick.repr t.task_type) db
      | some execute ↦ finalize c tick worker_id t db (execute t d db)
    ]
  ]
]

unfoldable pub run_iteration :
    Engine
    → (String → Option Executor)
    → Ctx
    → (Task → Bool)
    → Tick
    → WorkerConfig
    → Db
    → Outcome TickOutcome × Db
unfolding dispatch_and_finalize
run_iteration e executors c locked tick config db =
    elim (claim_next_task e c locked tick.claimed_at config.worker_id config.lease_id
      config.task_type db) [
        | err e' ↦ (err e', db)
        | ok claimed ↦ elim claimed.0 [
          | none ↦ (ok idle, claimed.1)
          | some t ↦ dispatch_and_finalize executors c tick config.worker_id t claimed.1
        ]
      ]
