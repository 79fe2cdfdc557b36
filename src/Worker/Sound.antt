-- ===== src/Worker/Sound.antt =====
-- workers/lifecycle_worker_service.py: an iteration keeps the accounts of tasks and workers.
use lance_laker.Base.{
  String, ◌++◌, ◌≡◌, refl, sym, subst, inl, inr, Bool, Option, some, arith, Option-cases, find_by,
}
use lance_laker.Outcome.{Outcome, ok, err, Outcome-split}
use lance_laker.Tenant.{Ctx}
use lance_laker.Json.{Fields}
use lance_laker.Models.{Task, Db}
use lance_laker.Session.{visible, dataset_at}
use lance_laker.Scheduler.Dispatch.{Engine, claim_next_task, complete_task, fail_task}
use lance_laker.Accounting.Invariant.{IsSound}
use lance_laker.Accounting.Operations.{claim-IsSound, complete-IsSound, fail-IsSound}
use lance_laker.Executors.{Executed, done, raised, Executor, Environment}
use lance_laker.Executors.Registry.{default_registry}
use lance_laker.Executors.Effects.{LeavesQueue, KeepsQueue, default_registry-KeepsQueue}
use lance_laker.Worker.{
  WorkerConfig, TickOutcome, idle, Tick, ended, failed_with, finalize, orphan_message,
  dispatch_and_finalize, run_iteration,
}

ended-IsSound :
    (db : Db) (outcome : TickOutcome) (o : Outcome (Task × Db))
    → ((t : Task) (db' : Db) → o ≡ ok (t, db') → IsSound db')
    → IsSound db
    → IsSound (ended db outcome o).1
ended-IsSound db outcome (ok (t, db')) step s = step t db' refl
ended-IsSound db outcome (err e) step s = s

LeavesQueue-IsSound : (db db' : Db) → LeavesQueue db db' → IsSound db → IsSound db'
LeavesQueue-IsSound db db' left s =
    let tasks = left.same_tasks in
    let workers = left.same_workers in
    record {
      tasks_unique = rw tasks s.tasks_unique;
      workers_unique = rw workers s.workers_unique;
      counted = rw tasks (rw workers s.counted);
    }

failed_with-IsSound :
    (c : Ctx) (tick : Tick) (worker_id : String) (t : Task) (code message : String) (db : Db)
    → IsSound db
    → IsSound (failed_with c tick worker_id t code message db).1
failed_with-IsSound c tick wid t code message db s =
    ended-IsSound db _ (fail_task c tick.ended_at wid t.task_uuid code message db)
      (λ t' db' h. fail-IsSound c tick.ended_at wid t.task_uuid code message db db' t' h s) s

finalize-IsSound :
    (c : Ctx) (tick : Tick) (worker_id : String) (t : Task) (db : Db) (o : Executed (Fields × Db))
    → ((payload : Fields) (written : Db) → o ≡ done (payload, written) → LeavesQueue db written)
    → IsSound db
    → IsSound (finalize c tick worker_id t db o).1
finalize-IsSound c tick wid t db (raised code message) leaves s =
    failed_with-IsSound c tick wid t code (tick.first_2048 message) db s
finalize-IsSound c tick wid t db (done (payload, written)) leaves s =
    ended-IsSound db _ (complete_task c tick.ended_at wid t.task_uuid (some payload) written)
      (λ t' db' h.
        complete-IsSound c tick.ended_at wid t.task_uuid (some payload) written db' t' h
          (LeavesQueue-IsSound db written (leaves payload written refl) s))
      s

dispatch-IsSound :
    (executors : String → Option Executor) (c : Ctx) (tick : Tick) (worker_id : String) (t : Task)
    (db : Db)
    → ((execute : Executor) → executors t.task_type ≡ some execute → KeepsQueue execute)
    → IsSound db
    → IsSound (dispatch_and_finalize executors c tick worker_id t db).1
unfolding dispatch_and_finalize
dispatch-IsSound executors c tick wid t db keeps s =
    let run = dispatch_and_finalize executors c tick wid t db in
    elim (Outcome-split (visible c "dataset")) [
      | inr (e, denied) ↦
          let out : run ≡ (err e, db) = ground arith in subst (λ x. IsSound x.1) (sym out) s
      | inl (see, seen) ↦
          elim (Option-cases (find_by (dataset_at see t.dataset_uuid) db.datasets)) [
            | inl missing ↦
                let out : run ≡ failed_with c tick wid t "DatasetMissing" (orphan_message t) db =
                  ground arith in
                subst (λ x. IsSound x.1) (sym out) (failed_with-IsSound c tick wid t _ _ db s)
            | inr (d, found) ↦ elim (Option-cases (executors t.task_type)) [
              | inl unknown ↦
                  let out : run
                      ≡ failed_with c tick wid t "UnknownTaskType"
                          ("no executor registered for " ++ tick.repr t.task_type) db =
                    ground arith in
                  subst (λ x. IsSound x.1) (sym out) (failed_with-IsSound c tick wid t _ _ db s)
              | inr (execute, registered) ↦
                  let out : run ≡ finalize c tick wid t db (execute t d db) = ground arith in
                  subst (λ x. IsSound x.1) (sym out)
                    (finalize-IsSound c tick wid t db (execute t d db)
                      (λ payload written ran. keeps execute registered t d db written payload ran)
                      s)
            ]
          ]
    ]

-- Whatever lance and Gravitino do, an iteration keeps the accounts, however it ends.
pub run_iteration-IsSound :
    (e : Engine) (env : Environment) (c : Ctx) (locked : Task → Bool) (tick : Tick)
    (config : WorkerConfig) (db : Db)
    → IsSound db
    → IsSound (run_iteration e (default_registry env) c locked tick config db).1
unfolding run_iteration
run_iteration-IsSound e env c locked tick config db s =
    let run = run_iteration e (default_registry env) c locked tick config db in
    let claim =
      claim_next_task e c locked tick.claimed_at config.worker_id config.lease_id config.task_type
        db in
    elim (Outcome-split claim) [
      | inr (e', refused) ↦
          let out : run ≡ (err e', db) = ground arith in subst (λ x. IsSound x.1) (sym out) s
      | inl ((chosen, db1), granted) ↦
          let s1 =
            claim-IsSound e c locked tick.claimed_at config.worker_id config.lease_id
              config.task_type db db1 chosen granted s in
          elim (Option-cases chosen) [
            | inl no_task ↦
                let out : run ≡ (ok idle, db1) = ground arith in
                subst (λ x. IsSound x.1) (sym out) s1
            | inr (t, chose) ↦
                let out : run
                    ≡ dispatch_and_finalize (default_registry env) c tick config.worker_id t db1 =
                  ground arith in
                subst (λ x. IsSound x.1) (sym out)
                  (dispatch-IsSound (default_registry env) c tick config.worker_id t db1
                    (λ execute h. default_registry-KeepsQueue env t.task_type execute h) s1)
          ]
    ]
