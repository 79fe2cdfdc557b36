-- ===== src/Accounting/Idle.antt =====
-- A worker without a RUNNING task: what the registration and a new task keep of it.
use lance_laker.Base.{
  ℕ, zero, suc, String, ◌≡◌, ◌≢◌, sym, ap, subst, ◌∙◌, inl, inr, false, some, none, ◌∷◌, arith,
  Option-cases, eq_iff, find_by, count_by, find_by_holds, find_by-none, has_key,
}
use lance_laker.Outcome.{ok}
use lance_laker.Tenant.{Ctx}
use lance_laker.Models.{Task, is_running, WorkerRegistry, Db}
use lance_laker.Session.{worker_at, save_worker}
use lance_laker.TaskService.{clashes, insert_task}
use lance_laker.Scheduler.Workers.{
  Registration, Attempt, renewed, new_worker, register_from, register_worker,
}
use lance_laker.Accounting.Invariant.{runs_for, running_on, IsSound}
use lance_laker.Accounting.Moves.{uuid_of, add_task}
use lance_laker.Accounting.Requests.{insert-inv}
use lance_laker.Accounting.Registration.{IsHarmless, register-IsSound}

-- The accounts hold, and none of the worker's tasks is RUNNING.
abbrev pub IsIdle : String → Db → Type 0
IsIdle worker_id db = IsSound db × (running_on worker_id db.tasks ≡ 0)

pub insert_task-IsIdle :
    (k : String) (t : Task) (db db' : Db)
    → t.worker_id ≡ none
    → is_running t.status ≡ false
    → insert_task t db ≡ some db'
    → IsIdle k db
    → IsIdle k db'
unfolding count_by
insert_task-IsIdle k t db db' nobody waits stored (s, idle) =
    let (new, same) = insert-inv t db db' stored in
    let fresh =
      find_by-none (clashes t) (has_key uuid_of t.task_uuid) db.tasks (λ x hit. ground arith) new in
    let off : runs_for k t ≡ false = ground arith in
    subst (IsIdle k) (sym same) (add_task db t fresh waits s, ground arith)

-- What a registration that is harmless leaves.
abbrev pub Registered : String → WorkerRegistry → Db → Type 0
Registered k w db = (w.worker_id ≡ k) × (running_on k db.tasks ≡ 0)

renewed-Registered :
    (a : Attempt) (k : String) (r : Registration) (db db' : Db) (w w' : WorkerRegistry)
    → find_by (worker_at k) db.workers ≡ some w
    → w' ≡ renewed r a w
    → db' ≡ save_worker (renewed r a w) db
    → running_on k db.tasks ≡ 0
    → Registered k w' db'
renewed-Registered a k r db db' w w' found is_w is_db idle =
    let own : w.worker_id ≡ k =
      ground (arith, find_by_holds (worker_at k) db.workers w found, eq_iff w.worker_id k) in
    (ap (λ x. x.worker_id) is_w ∙ own, ap (λ d. running_on k d.tasks) is_db ∙ idle)

stored-Registered :
    (a : Attempt) (k : String) (r : Registration) (d db' : Db) (w' : WorkerRegistry)
    → w' ≡ new_worker k r a
    → db' ≡ record d { workers = new_worker k r a ∷ d.workers }
    → running_on k d.tasks ≡ 0
    → Registered k w' db'
stored-Registered a k r d db' w' is_w is_db idle =
    (ap (λ x. x.worker_id) is_w, ap (λ x. running_on k x.tasks) is_db ∙ idle)

register_from-Registered :
    (left : ℕ) (tries : ℕ → Attempt) (worker_id : String) (r : Registration) (i : ℕ) (db db' : Db)
    (w' : WorkerRegistry)
    → IsHarmless tries worker_id
    → register_from left tries worker_id r i db ≡ ok (w', db')
    → IsIdle worker_id db
    → Registered worker_id w' db'
unfolding register_from
register_from-Registered zero tries wid r i db db' w' others h s =
    elim (Option-cases (find_by (worker_at wid) db.workers)) [
      | inr (w, found) ↦
          renewed-Registered (tries i) wid r db db' w w' found (ground arith) (ground arith) s.1
      | inl missing ↦
          elim (Option-cases (find_by (worker_at wid) ((tries i).meanwhile db).workers)) [
            | inr (w, raced) ↦ absurd (ground arith)
            | inl fresh ↦
                stored-Registered (tries i) wid r ((tries i).meanwhile db) db' w' (ground arith)
                  (ground arith) (others i db s).1
          ]
    ]
register_from-Registered (suc left) tries wid r i db db' w' others h s =
    elim (Option-cases (find_by (worker_at wid) db.workers)) [
      | inr (w, found) ↦
          renewed-Registered (tries i) wid r db db' w w' found (ground arith) (ground arith) s.1
      | inl missing ↦
          elim (Option-cases (find_by (worker_at wid) ((tries i).meanwhile db).workers)) [
            | inr (w, raced) ↦
                register_from-Registered left tries wid r (suc i) ((tries i).meanwhile db) db' w'
                  others (ground arith) (others i db s)
            | inl fresh ↦
                stored-Registered (tries i) wid r ((tries i).meanwhile db) db' w' (ground arith)
                  (ground arith) (others i db s).1
          ]
    ]

-- Registering an idle worker leaves it idle, whatever harmless transactions come between.
pub register-IsIdle :
    (c : Ctx) (tries : ℕ → Attempt) (worker_id : String) (r : Registration) (db db' : Db)
    (w' : WorkerRegistry)
    → worker_id ≢ ""
    → IsHarmless tries worker_id
    → register_worker c tries worker_id r db ≡ ok (w', db')
    → IsIdle worker_id db
    → (w'.worker_id ≡ worker_id) × IsIdle worker_id db'
unfolding register_worker
register-IsIdle c tries wid r db db' w' named others h i =
    let (own, idle) = register_from-Registered 2 tries wid r 0 db db' w' others (ground arith) i in
    (own, (register-IsSound c tries wid r db db' w' named others i.1 h i.0, idle))
