-- ===== src/Worker/Iteration.antt =====
-- workers/lifecycle_worker_service.py: `run_iteration` with the default registry.
use lance_laker.Base.{
  ℕ, String, ◌⊎◌, ◌≡◌, sym, subst, inl, inr, Bool, Option, none, some, arith, Option-cases, find_by,
  IsUnique,
}
use lance_laker.Outcome.{Error, ok, err, Outcome-split}
use lance_laker.Tenant.{Ctx}
use lance_laker.Models.{Task, WorkerRegistry, Db}
use lance_laker.Session.{worker_at}
use lance_laker.Scheduler.Dispatch.{Engine, claim_next_task}
use lance_laker.Scheduler.Claim.{claim-none}
use lance_laker.Accounting.Moves.{uuid_of}
use lance_laker.Executors.{Environment}
use lance_laker.Executors.Registry.{default_registry}
use lance_laker.Executors.Effects.{default_registry-KeepsQueue}
use lance_laker.Worker.{WorkerConfig, idle, Tick, dispatch_and_finalize, run_iteration}
use lance_laker.Worker.Finalizing.{IsEnd, IsClaimed, claim-leaves, dispatch-IsEnd}

pub claim-IsClaimed :
    (e : Engine) (c : Ctx) (locked : Task → Bool) (now : ℕ) (worker_id lease_id : String)
    (task_type : Option String) (db db1 : Db) (t : Task)
    → IsUnique uuid_of db.tasks
    → claim_next_task e c locked now worker_id lease_id task_type db ≡ ok (some t, db1)
    → (w : WorkerRegistry) × (w.worker_id ≡ worker_id)
      × (find_by (worker_at worker_id) db.workers ≡ some w)
      × IsClaimed c w t db1
      × (db1.indexes ≡ db.indexes)
      × (db1.datasets ≡ db.datasets)
claim-IsClaimed e c locked now wid lease type db db1 t u h =
    let (w, sys, own, registered, owner, runs, stored, busy, indexes, datasets) =
      claim-leaves e c locked now wid lease type db db1 t u h in
    (
      w,
      own,
      registered,
      record {
        by_system = sys;
        is_owner = rw own owner;
        runs = runs;
        task_stored = stored;
        worker_stored = busy;
      },
      indexes,
      datasets,
    )

pub run_iteration-IsEnd :
    (e : Engine) (env : Environment) (c : Ctx) (locked : Task → Bool) (tick : Tick)
    (config : WorkerConfig) (db : Db)
    → IsUnique uuid_of db.tasks
    → ((e' : Error) × (run_iteration e (default_registry env) c locked tick config db
          ≡ (err e', db)))
      ⊎ ((run_iteration e (default_registry env) c locked tick config db ≡ (ok idle, db))
          ⊎ ((w : WorkerRegistry) × (t : Task) × (db1 : Db) × (find_by
                  (worker_at config.worker_id)
                  db.workers
                ≡ some w)
              × (claim_next_task e c locked tick.claimed_at config.worker_id config.lease_id
                    config.task_type db
                  ≡ ok (some t, db1))
              × (db1.indexes ≡ db.indexes)
              × IsEnd w t db1 (run_iteration e (default_registry env) c locked tick config db)))
unfolding run_iteration
run_iteration-IsEnd e env c locked tick config db u =
    let claim =
      claim_next_task e c locked tick.claimed_at config.worker_id config.lease_id config.task_type
        db in
    elim (Outcome-split claim) [
      | inr (e', refused) ↦ inl (e', ground arith)
      | inl ((chosen, db1), granted) ↦ elim (Option-cases chosen) [
        | inl no_task ↦
            let none_granted : claim ≡ ok (none, db1) =
              subst (λ x. claim ≡ ok (x, db1)) no_task granted in
            let (_, _, _, same) =
              claim-none e c locked tick.claimed_at config.worker_id config.lease_id
                config.task_type db db1 none_granted in
            inr (inl (ground arith))
        | inr (t, is_t) ↦
            let some_granted : claim ≡ ok (some t, db1) =
              subst (λ x. claim ≡ ok (x, db1)) is_t granted in
            let (w, own, registered, claimed, indexes, _) =
              claim-IsClaimed e c locked tick.claimed_at config.worker_id config.lease_id
                config.task_type db db1 t u some_granted in
            let out : run_iteration e (default_registry env) c locked tick config db
                ≡ dispatch_and_finalize (default_registry env) c tick w.worker_id t db1 =
              ground arith in
            inr (
              inr (
                w,
                t,
                db1,
                registered,
                some_granted,
                indexes,
                subst (IsEnd w t db1) (sym out) (
                    dispatch-IsEnd (default_registry env) c tick w t db1
                      (default_registry-KeepsQueue env t.task_type) claimed),
              ))
      ]
    ]
