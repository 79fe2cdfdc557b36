-- ===== src/Accounting/Invariant.antt =====
-- What holds of the tasks and the workers between two transactions, and how writing one row acts
-- on it.
use lance_laker.Base.{
  ℕ, String, ◌≤◌, ◌≡◌, ◌≢◌, Bool, ◌&&◌, List, holds_text, arith, All, IsUnique, count_by,
}
use lance_laker.Models.{Task, WorkerRegistry, is_running, Db}

abbrev pub runs_for : String → Task → Bool
runs_for worker_id t = holds_text t.worker_id worker_id && is_running t.status

-- The RUNNING tasks of a worker.
abbrev pub running_on : String → List Task → ℕ
running_on worker_id ts = count_by (runs_for worker_id) ts

-- What a worker row promises of the tasks.
abbrev pub IsCounted : List Task → WorkerRegistry → Type 0
IsCounted ts w =
    (w.in_flight ≡ running_on w.worker_id ts) × (w.in_flight ≤ w.capacity) × (w.worker_id ≢ "")

-- Uuids and worker ids are unique (the UNIQUE keys of the two tables), every `in_flight` is the
-- number of the worker's RUNNING tasks and within its capacity, and no worker id is empty.
pub record IsSound (db : Db) : Type 0 where
  pub tasks_unique : IsUnique (λ t. t.task_uuid) db.tasks
  pub workers_unique : IsUnique (λ w. w.worker_id) db.workers
  pub counted : All (IsCounted db.tasks) db.workers

-- Two rows of a task that run on the same worker, or on none, count alike.
pub IsCounted-tasks :
    (ts ts' : List Task) (w : WorkerRegistry)
    → running_on w.worker_id ts' ≡ running_on w.worker_id ts
    → IsCounted ts w
    → IsCounted ts' w
IsCounted-tasks ts ts' w same h = (omega arith, h.1, h.2)
