-- ===== src/TaskService.antt =====
-- services/task_service.py: submission with an idempotency key, lookup, cancellation and retry of a
-- task. Every call is one transaction, as in services/scheduler_service.py.
pub mod Keys
pub mod Idempotency
pub mod Listing
use lance_laker.Base.{
  ℕ, String, ◌++◌, ◌+◌, Bool, true, false, not, ◌&&◌, ◌||◌, Option, none, some, ◌∷◌, leb, str_eq,
  holds_text, List, select_by, count_by, if◌then◌else◌, find_by,
}
use lance_laker.Outcome.{
  Outcome, ok, err, ◌>>=◌, ◌>>◌, raise_if, integrity, task_not_found, task_transition,
}
use lance_laker.Tenant.{TenantPrincipal, Ctx, require_current_tenant}
use lance_laker.Json.{Fields}
use lance_laker.Models.{
  Task, TaskStatus, same_status, pending, queued, running, cancelled, is_running, is_failed,
  is_cancelled, Db,
}
use lance_laker.Paging.{agrees, page_of}
use lance_laker.Session.{visible, or_raise, task_at, save_task}
use lance_laker.Scheduler.Workers.{decrement_in_flight}

pub record Submission : Type 0 where
  pub task_type : String
  pub dataset_uuid : String
  pub priority : ℕ
  pub params : Option Fields
  pub idempotency_key : Option String
  pub max_attempts : ℕ

-- `f"{principal.tenant_id}:{idempotency_key}"`.
unfoldable pub scope_key : String → String → String
scope_key tenant_id key = tenant_id ++ (":" ++ key)

abbrev pub scoped_key : TenantPrincipal → Submission → Option String
scoped_key p s = elim s.idempotency_key [ none ↦ none | some k ↦ some (scope_key p.tenant_id k) ]

abbrev pub new_task : TenantPrincipal → Submission → String → ℕ → Task
new_task p s uuid now = record {
  task_uuid = uuid;
  task_type = s.task_type;
  dataset_uuid = s.dataset_uuid;
  tenant_id = p.tenant_id;
  status = pending;
  priority = s.priority;
  progress = 0;
  attempt = 0;
  max_attempts = s.max_attempts;
  worker_id = none;
  idempotency_key = scoped_key p s;
  params = s.params;
  result = none;
  error_code = none;
  error_message = none;
  scheduled_at = none;
  started_at = none;
  finished_at = none;
  created_at = now;
}

abbrev pub keyed : (String → Bool) → String → Task → Bool
keyed see key t = see t.tenant_id && holds_text t.idempotency_key key

-- Whether a stored row has the uuid or the key of a new one: `task_uuid` and `idempotency_key` are
-- UNIQUE, and NULL keys do not clash.
abbrev pub clashes : Task → Task → Bool
clashes new t =
    str_eq t.task_uuid new.task_uuid
    || elim new.idempotency_key [ none ↦ false | some k ↦ holds_text t.idempotency_key k ]

-- The flush of a new row.
unfoldable pub insert_task : Task → Db → Option Db
insert_task t db = elim (find_by (clashes t) db.tasks) [
  | some _ ↦ none
  | none ↦ some (record db { tasks = t ∷ db.tasks })
]

-- The SELECT by key; a task without a key is not looked for.
abbrev pub find_keyed : (String → Bool) → Option String → Db → Option Task
find_keyed see none db = none
find_keyed see (some key) db = find_by (keyed see key) db.tasks

-- The INSERT, and the second SELECT if the flush is refused.
abbrev pub insert_or_winner :
    (String → Bool) → Option String → Task → Db → Outcome (Task × Bool × Db)
insert_or_winner see key t db = elim (insert_task t db) [
  | some db' ↦ ok (t, true, db')
  | none ↦ elim (find_keyed see key db) [
    | some winner ↦ ok (winner, false, db)
    | none ↦ err integrity
  ]
]

-- `meanwhile` is what other transactions commit between the first SELECT and the INSERT.
unfoldable pub submit_task :
    Ctx → (Db → Db) → String → ℕ → Submission → Db → Outcome (Task × Bool × Db)
submit_task c meanwhile uuid now s db = do
  p ← require_current_tenant c
  see ← visible c "task"
  elim (find_keyed see (scoped_key p s) db) [
    | some existing ↦ ok (existing, false, db)
    | none ↦ insert_or_winner see (scoped_key p s) (new_task p s uuid now) (meanwhile db)
  ]

unfoldable pub get_task : Ctx → String → Db → Outcome Task
get_task c task_uuid db = do
  see ← visible c "task"
  or_raise (find_by (task_at see task_uuid) db.tasks) task_not_found

abbrev pub has_status : Option TaskStatus → TaskStatus → Bool
has_status none status = true
has_status (some value) status = same_status value status

-- What the caller of `list_tasks` gives.
pub record TaskFilters : Type 0 where
  pub dataset_uuid : Option String
  pub task_type : Option String
  pub status : Option TaskStatus

-- `_apply_task_filters`, with the tenant predicate of the listener.
abbrev pub task_listed : (String → Bool) → TaskFilters → Task → Bool
task_listed see f t =
    see t.tenant_id
    && (agrees f.dataset_uuid t.dataset_uuid
        && (agrees f.task_type t.task_type && has_status f.status t.status))

-- `newest_first` is the database's `ORDER BY created_at DESC`.
unfoldable pub list_tasks :
    (List Task → List Task) → Ctx → TaskFilters → ℕ → ℕ → Db → Outcome (List Task × ℕ)
list_tasks newest_first c f page page_size db = do
  see ← visible c "task"
  ok (
    page_of page page_size (newest_first (select_by (task_listed see f) db.tasks)),
    count_by (task_listed see f) db.tasks,
  )

-- `_CANCELLABLE_STATES`.
abbrev pub is_cancellable : TaskStatus → Bool
is_cancellable pending = true
is_cancellable queued = true
is_cancellable running = true
is_cancellable _ = false

-- `obj.worker_id`, as a truth value: a text that is not empty.
abbrev pub has_worker : Option String → Bool
has_worker none = false
has_worker (some w) = not (str_eq w "")

-- The release of the slot, where the task runs on a worker.
abbrev pub release_slot : Task → Db → Db
release_slot t db = elim t.worker_id [
  | none ↦ db
  | some w ↦ if is_running t.status && has_worker (some w) then decrement_in_flight w db else db
]

abbrev pub called_off : ℕ → Task → Task
called_off now t = record t { status = cancelled; finished_at = some now }

unfoldable pub cancel_task : Ctx → ℕ → String → Db → Outcome (Task × Db)
unfolding get_task
cancel_task c now task_uuid db = do
  t ← get_task c task_uuid db
  see ← visible c "task"
  if is_cancelled t.status then ok (t, db) else do
    raise_if (not (is_cancellable t.status)) task_transition
    ok (called_off now t, save_task see (called_off now t) (release_slot t db))

abbrev pub retried : Task → Task
retried t = record t {
  status = pending;
  attempt = t.attempt + 1;
  error_code = none;
  error_message = none;
  started_at = none;
  finished_at = none;
}

unfoldable pub retry_task : Ctx → String → Db → Outcome (Task × Db)
unfolding get_task
retry_task c task_uuid db = do
  t ← get_task c task_uuid db
  see ← visible c "task"
  raise_if (not (is_failed t.status)) task_transition
  raise_if (leb t.max_attempts t.attempt) task_transition
  ok (retried t, save_task see (retried t) db)
