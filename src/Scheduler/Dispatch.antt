-- ===== src/Scheduler/Dispatch.antt =====
-- services/scheduler_service.py: claim, completion and failure of a task, and the reaper. The
-- database's part of a claim is a parameter: which rows other transactions hold locked, and which
-- of the first rows in the requested order it returns.
use lance_laker.Base.{
  ℕ, String, ◌+◌, ◌<◌, ◌≤◌, ◌≡◌, ◌≢◌, ◌⊎◌, Bool, true, not, ◌&&◌, Option, none, some, List, [], ◌∷◌,
  map, Memᴰ, ltb, leb, nat_eq, str_eq, holds_text, if◌then◌else◌, All, find_by, select_by,
  update_by,
}
use mathlib.Core.List.{◌++◌}
use lance_laker.Outcome.{Outcome, ok, ◌>>=◌, ◌>>◌, raise_if, lease_mismatch, bad_transition}
use lance_laker.Tenant.{Ctx, require_system_context}
use lance_laker.Json.{Fields}
use lance_laker.Models.{
  Task, pending, running, succeeded, failed, is_running, is_waiting, WorkerRegistry, dead, is_alive,
  is_dead, Db,
}
use lance_laker.Session.{visible, or_raise, task_at, save_task, save_worker}
use lance_laker.Scheduler.Workers.{get_worker, decrement_in_flight}

-- `ORDER BY priority ASC, created_at ASC`.
abbrev pub Before : Task → Task → Type 0
Before t u = (t.priority < u.priority) ⊎ ((t.priority ≡ u.priority) × (t.created_at ≤ u.created_at))

-- `ORDER BY ... LIMIT 1`, as the database documents it: a row of the result, none other before it,
-- and none only of an empty result. Which of several equal rows it is, is not said.
pub record Engine : Type 0 where
  pub first : List Task → Option Task
  pub first-Mem : (ts : List Task) (t : Task) → first ts ≡ some t → Memᴰ t ts
  pub first-Before : (ts : List Task) (t : Task) → first ts ≡ some t → All (Before t) ts
  pub first-cons : (t : Task) (ts : List Task) → first (t ∷ ts) ≢ none

-- The WHERE of the claim.
abbrev pub is_dispatchable : Option String → Task → Bool
is_dispatchable task_type t =
    is_waiting t.status
    && (ltb t.attempt t.max_attempts
        && elim task_type [ none ↦ true | some type ↦ str_eq t.task_type type ])

abbrev pub candidates : (String → Bool) → (Task → Bool) → Option String → Db → List Task
candidates see locked task_type db =
    select_by (λ t. see t.tenant_id && (is_dispatchable task_type t && not (locked t))) db.tasks

abbrev pub dispatched : String → ℕ → Task → Task
dispatched worker_id now t = record t {
  status = running;
  worker_id = some worker_id;
  started_at = some now;
  attempt = if nat_eq t.attempt 0 then 1 else t.attempt;
}

abbrev pub loaded : WorkerRegistry → WorkerRegistry
loaded w = record w { in_flight = w.in_flight + 1 }

-- The part of a claim after the worker was found to be entitled to a task.
unfoldable pub take_first :
    Engine
    → (String → Bool)
    → (Task → Bool)
    → Option String
    → ℕ
    → WorkerRegistry
    → Db
    → Option Task × Db
take_first e see locked task_type now w db = elim (e.first (candidates see locked task_type db)) [
  | none ↦ (none, db)
  | some t ↦ (
    some (dispatched w.worker_id now t),
    save_worker (loaded w) (save_task see (dispatched w.worker_id now t) db),
  )
]

unfoldable pub claim_next_task :
    Engine
    → Ctx
    → (Task → Bool)
    → ℕ
    → String
    → String
    → Option String
    → Db
    → Outcome (Option Task × Db)
claim_next_task e c locked now worker_id lease_id task_type db = do
  require_system_context c
  w ← get_worker worker_id db
  raise_if (not (str_eq w.lease_id lease_id)) lease_mismatch
  see ← visible c "task"
  if is_alive w.status && not (leb w.capacity w.in_flight)
      then ok (take_first e see locked task_type now w db)
      else ok (none, db)

-- `_get_task`.
abbrev pub get_task : (String → Bool) → String → Db → Outcome Task
get_task see task_uuid db = or_raise (find_by (task_at see task_uuid) db.tasks) bad_transition

abbrev pub completed : ℕ → Option Fields → Task → Task
completed now result t = record t {
  status = succeeded;
  finished_at = some now;
  result = result;
  error_code = none;
  error_message = none;
}

abbrev pub broken : ℕ → String → String → Task → Task
broken now code message t = record t {
  status = failed;
  finished_at = some now;
  error_code = some code;
  error_message = some message;
}

-- What `complete_task` and `fail_task` share: the two guards, and the release of the slot.
unfoldable pub finish : Ctx → String → String → (Task → Task) → Db → Outcome (Task × Db)
finish c worker_id task_uuid change db = do
  require_system_context c
  see ← visible c "task"
  t ← get_task see task_uuid db
  raise_if (not (holds_text t.worker_id worker_id)) bad_transition
  raise_if (not (is_running t.status)) bad_transition
  ok (change t, decrement_in_flight worker_id (save_task see (change t) db))

unfoldable pub complete_task : Ctx → ℕ → String → String → Option Fields → Db → Outcome (Task × Db)
unfolding finish
complete_task c now worker_id task_uuid result db =
    finish c worker_id task_uuid (completed now result) db

unfoldable pub fail_task : Ctx → ℕ → String → String → String → String → Db → Outcome (Task × Db)
unfolding finish
fail_task c now worker_id task_uuid code message db =
    finish c worker_id task_uuid (broken now code message) db

-- A worker that the reaper takes: not DEAD, and `last_heartbeat_at < now - timeout`.
abbrev pub is_stale : ℕ → ℕ → (WorkerRegistry → Bool) → WorkerRegistry → Bool
is_stale now timeout locked w =
    not (is_dead w.status) && (ltb (w.last_heartbeat_at + timeout) now && not (locked w))

abbrev pub runs_on : (String → Bool) → String → Task → Bool
runs_on see worker_id t =
    see t.tenant_id && (holds_text t.worker_id worker_id && is_running t.status)

abbrev pub requeued : Task → Task
requeued t = record t { status = pending; worker_id = none; started_at = none }

abbrev pub buried : WorkerRegistry → WorkerRegistry
buried w = record w { status = dead; in_flight = 0 }

abbrev pub reap_one : (String → Bool) → WorkerRegistry → Db → Db
reap_one see w db =
    save_worker (buried w)
      (record db { tasks = update_by (runs_on see w.worker_id) requeued db.tasks })

-- The loop over the stale workers, with the ids reaped and the uuids requeued.
unfoldable pub reap_all :
    (String → Bool) → List WorkerRegistry → Db → (List String × List String) × Db
reap_all see [] db = (([], []), db)
reap_all see (w ∷ ws) db =
    let uuids = map (λ t. t.task_uuid) (select_by (runs_on see w.worker_id) db.tasks) in
    let ((ids, others), db') = reap_all see ws (reap_one see w db) in
    ((w.worker_id ∷ ids, uuids ++ others), db')

unfoldable pub reap_dead_workers :
    Ctx → ℕ → ℕ → (WorkerRegistry → Bool) → Db → Outcome ((List String × List String) × Db)
unfolding reap_all
reap_dead_workers c now timeout locked db = do
  require_system_context c
  see ← visible c "task"
  ok (reap_all see (select_by (is_stale now timeout locked) db.workers) db)
