-- ===== src/Scheduler/Workers.antt =====
-- services/scheduler_service.py: registration, heartbeat and drain of a worker, and the counter
-- `in_flight`.
use lance_laker.Base.{
  ℕ, zero, suc, String, ◌-◌, not, Option, none, some, ◌∷◌, ltb, str_eq, if◌then◌else◌, find_by,
  update_by,
}
use lance_laker.Outcome.{
  Outcome, ok, err, ◌>>=◌, ◌>>◌, raise_if, integrity, worker_not_found, lease_mismatch,
}
use lance_laker.Tenant.{Ctx, require_system_context}
use lance_laker.Json.{Fields}
use lance_laker.Models.{WorkerRegistry, alive, draining, is_dead, Db}
use lance_laker.Session.{or_raise, worker_at, save_worker}

-- What the caller of `register_worker` gives beside the id.
pub record Registration : Type 0 where
  pub worker_type : String
  pub host : Option String
  pub capacity : ℕ
  pub labels : Option Fields

-- One attempt: the new uuid, the time, and what other transactions commit between its SELECT and
-- its INSERT.
pub record Attempt : Type 0 where
  pub lease : String
  pub now : ℕ
  pub meanwhile : Db → Db

abbrev pub renewed : Registration → Attempt → WorkerRegistry → WorkerRegistry
renewed r a w = record w {
  worker_type = r.worker_type;
  host = r.host;
  lease_id = a.lease;
  capacity = r.capacity;
  labels = r.labels;
  in_flight = 0;
  status = alive;
  last_heartbeat_at = a.now;
}

abbrev pub new_worker : String → Registration → Attempt → WorkerRegistry
new_worker worker_id r a = record {
  worker_id = worker_id;
  worker_type = r.worker_type;
  host = r.host;
  lease_id = a.lease;
  capacity = r.capacity;
  in_flight = 0;
  labels = r.labels;
  status = alive;
  last_heartbeat_at = a.now;
  created_at = a.now;
}

-- The flush of a new row: the unique `worker_id` refuses it, or it is stored.
abbrev pub insert_worker : WorkerRegistry → Db → Option Db
insert_worker w db = elim (find_by (worker_at w.worker_id) db.workers) [
  | some _ ↦ none
  | none ↦ some (record db { workers = w ∷ db.workers })
]

-- `left` is how often the call may still issue itself again, `2 - _retry_count`.
unfoldable pub register_from :
    ℕ → (ℕ → Attempt) → String → Registration → ℕ → Db → Outcome (WorkerRegistry × Db)
register_from zero tries worker_id r k db =
    let a = tries k in
    let w = new_worker worker_id r a in
    elim (find_by (worker_at worker_id) db.workers) [
      | some old ↦ ok (renewed r a old, save_worker (renewed r a old) db)
      | none ↦ elim (insert_worker w (a.meanwhile db)) [
        | some db' ↦ ok (w, db')
        | none ↦ err integrity
      ]
    ]
register_from (suc left) tries worker_id r k db =
    let a = tries k in
    let w = new_worker worker_id r a in
    elim (find_by (worker_at worker_id) db.workers) [
      | some old ↦ ok (renewed r a old, save_worker (renewed r a old) db)
      | none ↦ elim (insert_worker w (a.meanwhile db)) [
        | some db' ↦ ok (w, db')
        | none ↦ register_from left tries worker_id r (suc k) (a.meanwhile db)
      ]
    ]

unfoldable pub register_worker :
    Ctx → (ℕ → Attempt) → String → Registration → Db → Outcome (WorkerRegistry × Db)
register_worker c tries worker_id r db = do
  require_system_context c
  register_from 2 tries worker_id r 0 db

abbrev pub get_worker : String → Db → Outcome WorkerRegistry
get_worker worker_id db = or_raise (find_by (worker_at worker_id) db.workers) worker_not_found

abbrev pub beaten : ℕ → WorkerRegistry → WorkerRegistry
beaten now w = record w {
  last_heartbeat_at = now;
  status = if is_dead w.status then alive else w.status;
}

unfoldable pub heartbeat : Ctx → ℕ → String → String → Db → Outcome (WorkerRegistry × Db)
heartbeat c now worker_id lease_id db = do
  require_system_context c
  w ← get_worker worker_id db
  raise_if (not (str_eq w.lease_id lease_id)) lease_mismatch
  ok (beaten now w, save_worker (beaten now w) db)

abbrev pub drained : WorkerRegistry → WorkerRegistry
drained w = record w { status = draining }

unfoldable pub drain_worker : Ctx → String → Db → Outcome (WorkerRegistry × Db)
drain_worker c worker_id db = do
  require_system_context c
  w ← get_worker worker_id db
  if is_dead w.status then ok (w, db) else ok (drained w, save_worker (drained w) db)

abbrev pub released : WorkerRegistry → WorkerRegistry
released w = record w { in_flight = if ltb 0 w.in_flight then w.in_flight - 1 else 0 }

-- `_decrement_in_flight`: an UPDATE of the rows with this id.
unfoldable pub decrement_in_flight : String → Db → Db
decrement_in_flight worker_id db = record db {
  workers = update_by (worker_at worker_id) released db.workers;
}
