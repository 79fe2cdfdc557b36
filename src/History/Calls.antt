-- ===== src/History/Calls.antt =====
-- One constructor for each service call that writes the tables `task` and `worker_registry`, with
-- what it is given and what the environment decides (the time, new uuids, rows locked elsewhere).
use lance_laker.Base.{ℕ, String, Bool, Option, List, [], ◌∷◌}
use lance_laker.Outcome.{Outcome, ok, err}
use lance_laker.Tenant.{Ctx}
use lance_laker.Json.{Fields}
use lance_laker.Models.{Task, WorkerRegistry, Db}
use lance_laker.Scheduler.Workers.{Registration, Attempt, register_worker, heartbeat, drain_worker}
use lance_laker.Scheduler.Dispatch.{
  Engine, claim_next_task, complete_task, fail_task, reap_dead_workers,
}
use lance_laker.TaskService.{Submission, submit_task, cancel_task, retry_task}

pub data Call : Type 0 where
  registers : Ctx → String → ℕ → String → Registration → Call
  beats : Ctx → ℕ → String → String → Call
  drains : Ctx → String → Call
  claims : Ctx → (Task → Bool) → ℕ → String → String → Option String → Call
  completes : Ctx → ℕ → String → String → Option Fields → Call
  fails : Ctx → ℕ → String → String → String → String → Call
  reaps : Ctx → ℕ → ℕ → (WorkerRegistry → Bool) → Call
  submits : Ctx → String → ℕ → Submission → Call
  cancels : Ctx → ℕ → String → Call
  retries : Ctx → String → Call

-- In a sequence no transaction comes between the statements of another.
abbrev pub undisturbed : String → ℕ → ℕ → Attempt
undisturbed lease now i = record { lease = lease; now = now; meanwhile = λ d. d }

abbrev pub after : {A : Type 0} → Db → Outcome (A × Db) → Db
after db (ok (_, db')) = db'
after db (err _) = db

abbrev pub after_submit : Db → Outcome (Task × Bool × Db) → Db
after_submit db (ok (_, _, db')) = db'
after_submit db (err _) = db

unfoldable pub perform : Engine → Call → Db → Db
perform e (registers c lease now w r) db =
    after db (register_worker c (undisturbed lease now) w r db)
perform e (beats c now w lease) db = after db (heartbeat c now w lease db)
perform e (drains c w) db = after db (drain_worker c w db)
perform e (claims c locked now w lease type) db =
    after db (claim_next_task e c locked now w lease type db)
perform e (completes c now w uuid result) db = after db (complete_task c now w uuid result db)
perform e (fails c now w uuid code message) db = after db (fail_task c now w uuid code message db)
perform e (reaps c now timeout locked) db = after db (reap_dead_workers c now timeout locked db)
perform e (submits c uuid now s) db = after_submit db (submit_task c (λ d. d) uuid now s db)
perform e (cancels c now uuid) db = after db (cancel_task c now uuid db)
perform e (retries c uuid) db = after db (retry_task c uuid db)

unfoldable pub run : Engine → List Call → Db → Db
run e [] db = db
run e (call ∷ calls) db = run e calls (perform e call db)
