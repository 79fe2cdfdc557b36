-- ===== src/Worker/Finalizing.antt =====
-- workers/lifecycle_worker_service.py over services/scheduler_service.py: what an iteration leaves.
use lance_laker.Base.{
  ℕ, String, ◌++◌, ◌⊎◌, ◌≡◌, refl, sym, ap, subst, ◌∙◌, inl, inr, Bool, true, Option, none, some,
  arith, Option-cases, eq_iff, eq_refl, find_by, find_by_holds, find_by-put_by, find_by-update_by,
  find_by_unique, IsUnique, has_key, put_by,
}
use lance_laker.Outcome.{Outcome, ok}
use lance_laker.Tenant.{Ctx, is_system_ctx}
use lance_laker.Json.{Fields}
use lance_laker.Models.{Task, TaskStatus, running, succeeded, failed, WorkerRegistry, Db}
use lance_laker.Session.{visible-system, dataset_at, task_at, worker_at, save_task}
use lance_laker.Scheduler.Workers.{released, decrement_in_flight}
use lance_laker.Scheduler.Dispatch.{
  Engine, loaded, completed, broken, finish, claim_next_task, complete_task, fail_task,
}
use lance_laker.Scheduler.Claim.{all_tenants, claim_sound}
use lance_laker.Accounting.Moves.{uuid_of}
use lance_laker.Executors.{done, Executor}
use lance_laker.Executors.Effects.{LeavesQueue, KeepsQueue, Executed-split}
use lance_laker.Worker.{
  TickOutcome, finished, Tick, failed_with, finalize, dispatch_and_finalize, orphan_message,
}

-- `finish` does not raise where the task runs on the worker.
pub finish-runs :
    (c : Ctx) (worker_id uuid : String) (change : Task → Task) (db : Db) (t : Task)
    → is_system_ctx c ≡ true
    → find_by (task_at all_tenants uuid) db.tasks ≡ some t
    → t.worker_id ≡ some worker_id
    → t.status ≡ running
    → finish c worker_id uuid change db
      ≡ ok (change t, decrement_in_flight worker_id (save_task all_tenants (change t) db))
unfolding finish
finish-runs c wid uuid change db t sys found owner runs =
    ground (arith, visible-system c "task" sys, eq_refl wid)

-- A slot taken and given back.
released-loaded : (w : WorkerRegistry) → released (loaded w) ≡ w
released-loaded w = ground arith

-- What the end of a task leaves: its row in the final status, and the worker's row, slots included,
-- as it was before the claim.
abbrev pub HasEnded : WorkerRegistry → Task → TaskStatus → Db → Type 0
HasEnded w t status db =
    (t' : Task) × (find_by (has_key uuid_of t.task_uuid) db.tasks ≡ some t')
    × (t'.status ≡ status)
    × (find_by (worker_at w.worker_id) db.workers ≡ some w)

-- The state that `finish` leaves of a claimed task and its worker.
finish-HasEnded :
    (w : WorkerRegistry) (t : Task) (change : Task → Task) (db : Db)
    → (change t).task_uuid ≡ t.task_uuid
    → find_by (has_key uuid_of t.task_uuid) db.tasks ≡ some t
    → find_by (worker_at w.worker_id) db.workers ≡ some (loaded w)
    → HasEnded w t
        (change t).status
        (decrement_in_flight w.worker_id (save_task all_tenants (change t) db))
unfolding decrement_in_flight
finish-HasEnded w t change db same found registered = (
  change t,
  subst
      (λ k.
        find_by (has_key uuid_of t.task_uuid) (put_by (has_key uuid_of k) (change t) db.tasks)
        ≡ some (change t))
      (sym same)
      (find_by-put_by (has_key uuid_of t.task_uuid) (change t) db.tasks t found
        (ground (arith, eq_iff (change t).task_uuid t.task_uuid))),
  refl,
  find_by-update_by (worker_at w.worker_id) released db.workers (loaded w) registered
        (eq_refl w.worker_id)
      ∙ ap some (released-loaded w),
)

-- What a claim leaves of the task and the worker.
pub claim-leaves :
    (e : Engine) (c : Ctx) (locked : Task → Bool) (now : ℕ) (worker_id lease_id : String)
    (task_type : Option String) (db db1 : Db) (t : Task)
    → IsUnique uuid_of db.tasks
    → claim_next_task e c locked now worker_id lease_id task_type db ≡ ok (some t, db1)
    → (w : WorkerRegistry) × (is_system_ctx c ≡ true)
      × (w.worker_id ≡ worker_id)
      × (find_by (worker_at worker_id) db.workers ≡ some w)
      × (t.worker_id ≡ some worker_id)
      × (t.status ≡ running)
      × (find_by (has_key uuid_of t.task_uuid) db1.tasks ≡ some t)
      × (find_by (worker_at w.worker_id) db1.workers ≡ some (loaded w))
      × (db1.indexes ≡ db.indexes)
      × (db1.datasets ≡ db.datasets)
claim-leaves e c locked now wid lease type db db1 t u h =
    let (sys, (w, t0, registered, _, _, _, stored, _, _, _, is_t, is_db)) =
      claim_sound e c locked now wid lease type db db1 t h in
    let own : w.worker_id ≡ wid =
      ground
        (arith, find_by_holds (worker_at wid) db.workers w registered, eq_iff w.worker_id wid) in
    let same : t.task_uuid ≡ t0.task_uuid = ap uuid_of is_t in
    let before : find_by (has_key uuid_of t.task_uuid) db.tasks ≡ some t0 =
      subst (λ k. find_by (has_key uuid_of k) db.tasks ≡ some t0) (sym same)
        (find_by_unique uuid_of db.tasks t0 u stored) in
    let at_w : find_by (worker_at w.worker_id) db.workers ≡ some w =
      subst (λ k. find_by (worker_at k) db.workers ≡ some w) (sym own) registered in
    (
      w,
      sys,
      own,
      registered,
      ap (λ x. x.worker_id) is_t,
      ap (λ x. x.status) is_t,
      ap (λ d. find_by (has_key uuid_of t.task_uuid) d.tasks) is_db
          ∙ find_by-put_by (has_key uuid_of t.task_uuid) t db.tasks t0 before (eq_refl t.task_uuid),
      ap (λ d. find_by (worker_at w.worker_id) d.workers) is_db
          ∙ find_by-put_by (worker_at w.worker_id) (loaded w) db.workers w at_w
              (eq_refl w.worker_id),
      ap (λ d. d.indexes) is_db,
      ap (λ d. d.datasets) is_db,
    )

-- How a claimed task ends: as FAILED, with the indexes as before, or as SUCCEEDED.
abbrev pub IsEnd : WorkerRegistry → Task → Db → Outcome TickOutcome × Db → Type 0
IsEnd w t db (r, db') =
    ((code : String) × (r ≡ ok (finished t failed (some code)))
      × HasEnded w t failed db'
      × (db'.indexes ≡ db.indexes))
    ⊎ ((r ≡ ok (finished t succeeded none)) × HasEnded w t succeeded db')

-- A claimed task `t` of the worker `w`.
pub record IsClaimed (c : Ctx) (w : WorkerRegistry) (t : Task) (db : Db) : Type 0 where
  pub by_system : is_system_ctx c ≡ true
  pub is_owner : t.worker_id ≡ some w.worker_id
  pub runs : t.status ≡ running
  pub task_stored : find_by (has_key uuid_of t.task_uuid) db.tasks ≡ some t
  pub worker_stored : find_by (worker_at w.worker_id) db.workers ≡ some (loaded w)

failed_with-IsEnd :
    (c : Ctx) (tick : Tick) (w : WorkerRegistry) (t : Task) (code message : String) (db : Db)
    → IsClaimed c w t db
    → IsEnd w t db (failed_with c tick w.worker_id t code message db)
unfolding fail_task decrement_in_flight
failed_with-IsEnd c tick w t code message db h =
    let ran =
      finish-runs c w.worker_id t.task_uuid (broken tick.ended_at code message) db t h.by_system
        h.task_stored h.is_owner h.runs in
    rw ran (
      inl (
        code,
        refl,
        finish-HasEnded w t (broken tick.ended_at code message) db refl h.task_stored
            h.worker_stored,
        refl,
      ))

pub completed-IsEnd :
    (c : Ctx) (tick : Tick) (w : WorkerRegistry) (t : Task) (payload : Fields) (db written : Db)
    → LeavesQueue db written
    → IsClaimed c w t db
    → IsEnd w t db (finalize c tick w.worker_id t db (done (payload, written)))
unfolding complete_task
completed-IsEnd c tick w t payload db written left h =
    let found : find_by (has_key uuid_of t.task_uuid) written.tasks ≡ some t =
      rw left.same_tasks h.task_stored in
    let registered : find_by (worker_at w.worker_id) written.workers ≡ some (loaded w) =
      rw left.same_workers h.worker_stored in
    let change = completed tick.ended_at (some payload) in
    let ran =
      finish-runs c w.worker_id t.task_uuid change written t h.by_system found h.is_owner h.runs in
    rw ran (inr (refl, finish-HasEnded w t change written refl found registered))

pub dispatch-IsEnd :
    (executors : String → Option Executor) (c : Ctx) (tick : Tick) (w : WorkerRegistry) (t : Task)
    (db : Db)
    → ((execute : Executor) → executors t.task_type ≡ some execute → KeepsQueue execute)
    → IsClaimed c w t db
    → IsEnd w t db (dispatch_and_finalize executors c tick w.worker_id t db)
unfolding dispatch_and_finalize
dispatch-IsEnd executors c tick w t db keeps h =
    let seen = visible-system c "dataset" h.by_system in
    let run = dispatch_and_finalize executors c tick w.worker_id t db in
    elim (Option-cases (find_by (dataset_at all_tenants t.dataset_uuid) db.datasets)) [
      | inl missing ↦
          let out : run ≡ failed_with c tick w.worker_id t "DatasetMissing" (orphan_message t) db =
            ground arith in
          subst (IsEnd w t db) (sym out) (failed_with-IsEnd c tick w t _ _ db h)
      | inr (d, found) ↦ elim (Option-cases (executors t.task_type)) [
        | inl unknown ↦
            let out : run
                ≡ failed_with c tick w.worker_id t "UnknownTaskType"
                    ("no executor registered for " ++ tick.repr t.task_type) db =
              ground arith in
            subst (IsEnd w t db) (sym out) (failed_with-IsEnd c tick w t _ _ db h)
        | inr (execute, registered) ↦
            let out : run ≡ finalize c tick w.worker_id t db (execute t d db) = ground arith in
            subst (IsEnd w t db) (sym out) (elim (Executed-split (execute t d db)) [
              | inl ((payload, written), ran) ↦
                  subst (λ x. IsEnd w t db (finalize c tick w.worker_id t db x)) (sym ran)
                    (completed-IsEnd c tick w t payload db written
                      (keeps execute registered t d db written payload ran) h)
              | inr (code, message, raised') ↦
                  subst (λ x. IsEnd w t db (finalize c tick w.worker_id t db x)) (sym raised')
                    (failed_with-IsEnd c tick w t code (tick.first_2048 message) db h)
            ])
      ]
    ]
