-- ===== src/History/Transitions.antt =====
-- Every call makes rows evolve: the reaper's loop, the calls that write no task, and the whole.
use lance_laker.Base.{
  ℕ, zero, suc, String, ◌≡◌, ◌⊎◌, refl, ap, subst, ◌∙◌, inl, inr, Bool, List, [], ◌∷◌, arith,
  Bool-cases, IsUnique, select_by,
}
use lance_laker.Outcome.{ok}
use lance_laker.Tenant.{Ctx, is_system_ctx}
use lance_laker.Models.{Task, WorkerRegistry, running, Db}
use lance_laker.Session.{visible-system}
use lance_laker.Scheduler.Workers.{
  Registration, register_worker, register_from, heartbeat, drain_worker,
}
use lance_laker.Scheduler.Dispatch.{
  Engine, claim_next_task, completed, broken, complete_task, fail_task, runs_on, requeued, reap_one,
  reap_all, is_stale, reap_dead_workers,
}
use lance_laker.Scheduler.Claim.{all_tenants}
use lance_laker.TaskService.{submit_task, cancel_task, retry_task}
use lance_laker.Accounting.Moves.{uuid_of}
use lance_laker.Accounting.Operations.{heartbeat-inv}
use lance_laker.History.Calls.{
  Call, registers, beats, drains, claims, completes, fails, reaps, submits, cancels, retries,
  undisturbed, perform,
}
use lance_laker.History.Accounts.{after_ok, after_submit_ok}
use lance_laker.History.Steps.{Step, Rowwise, Rowwise-refl, Rowwise-update_by}
use lance_laker.History.Evolution.{
  Evolves, Keeps, unchanged, same_tasks, claim-Evolves, finish-Evolves, retry-Evolves,
  cancel-Evolves, submit-Evolves,
}

-- What the reaper's loop does to a row: nothing, or it requeues a RUNNING one, once.
abbrev Reaped : Task → Task → Type 0
Reaped t t' = (t' ≡ t) ⊎ ((t.status ≡ running) × (t' ≡ requeued t))

Reaped-trans : (a b c : Task) → Reaped a b → Reaped b c → Reaped a c
Reaped-trans a b c (inl e) h = subst (λ x. Reaped x c) e h
Reaped-trans a b c (inr (ran, e)) (inl f) = inr (ran, f ∙ e)
Reaped-trans a b c (inr (ran, e)) (inr (again, f)) = absurd (ground (arith, ap (λ x. x.status) e))

Rowwise-trans :
    (xs ys zs : List Task) → Rowwise Reaped xs ys → Rowwise Reaped ys zs → Rowwise Reaped xs zs
Rowwise-trans [] [] zs h k = k
Rowwise-trans [] (y ∷ ys) zs h k = absurd h
Rowwise-trans (x ∷ xs) [] zs h k = absurd h
Rowwise-trans (x ∷ xs) (y ∷ ys) [] h k = absurd k
Rowwise-trans (x ∷ xs) (y ∷ ys) (z ∷ zs) h k =
    (Reaped-trans x y z h.0 k.0, Rowwise-trans xs ys zs h.1 k.1)

Rowwise-map :
    (R S : Task → Task → Type 0) (xs ys : List Task)
    → ((x y : Task) → R x y → S x y)
    → Rowwise R xs ys
    → Rowwise S xs ys
Rowwise-map R S [] [] each h = h
Rowwise-map R S [] (y ∷ ys) each h = h
Rowwise-map R S (x ∷ xs) [] each h = h
Rowwise-map R S (x ∷ xs) (y ∷ ys) each h = (each x y h.0, Rowwise-map R S xs ys each h.1)

pub reap_all-Reaped :
    (ws : List WorkerRegistry) (db : Db)
    → Rowwise Reaped db.tasks (reap_all all_tenants ws db).1.tasks
unfolding reap_all
reap_all-Reaped [] db = Rowwise-refl Reaped (λ t. inl refl) db.tasks
reap_all-Reaped (w ∷ ws) db =
    Rowwise-trans db.tasks (reap_one all_tenants w db).tasks
      (reap_all all_tenants ws (reap_one all_tenants w db)).1.tasks
      (Rowwise-update_by Reaped (λ t. inl refl) (runs_on all_tenants w.worker_id) requeued db.tasks
        (λ x runs. inr (ground arith, refl)))
      (reap_all-Reaped ws (reap_one all_tenants w db))

reap-Evolves :
    (c : Ctx) (now timeout : ℕ) (locked : WorkerRegistry → Bool) (db db' : Db)
    (r : List String × List String)
    → reap_dead_workers c now timeout locked db ≡ ok (r, db')
    → Keeps db db'
unfolding reap_dead_workers
reap-Evolves c now timeout locked db db' r h = elim (Bool-cases (is_system_ctx c)) [
  | inr user ↦ absurd (ground arith)
  | inl sys ↦
      let stale : List WorkerRegistry = select_by (is_stale now timeout locked) db.workers in
      let is_db : db' ≡ (reap_all all_tenants stale db).1 =
        ground (arith, visible-system c "task" sys) in
      rw is_db (
        inl (
          Rowwise-map Reaped Step db.tasks (reap_all all_tenants stale db).1.tasks Reaped-Step
            (reap_all-Reaped stale db)))
]
  where
    Reaped-Step : (x y : Task) → Reaped x y → Step x y
    Reaped-Step x y (inl e) = rw e Step.stays
    Reaped-Step x y (inr (ran, e)) = rw e (Step.requeues ran)

register_from-tasks :
    (left : ℕ) (lease : String) (now : ℕ) (worker_id : String) (r : Registration) (i : ℕ)
    (db db' : Db) (w' : WorkerRegistry)
    → register_from left (undisturbed lease now) worker_id r i db ≡ ok (w', db')
    → db'.tasks ≡ db.tasks
unfolding register_from
register_from-tasks zero lease now wid r i db db' w' h = ground arith
register_from-tasks (suc left) lease now wid r i db db' w' h =
    ground (arith, register_from-tasks left lease now wid r (suc i) db db' w')

register-tasks :
    (c : Ctx) (lease : String) (now : ℕ) (worker_id : String) (r : Registration) (db db' : Db)
    (w' : WorkerRegistry)
    → register_worker c (undisturbed lease now) worker_id r db ≡ ok (w', db')
    → db'.tasks ≡ db.tasks
unfolding register_worker
register-tasks c lease now wid r db db' w' h =
    register_from-tasks 2 lease now wid r 0 db db' w' (ground arith)

drain-tasks :
    (c : Ctx) (worker_id : String) (db db' : Db) (w' : WorkerRegistry)
    → drain_worker c worker_id db ≡ ok (w', db')
    → db'.tasks ≡ db.tasks
unfolding drain_worker
drain-tasks c wid db db' w' h = ground arith

-- Uuids being unique, every call of the history makes each stored row take one step or stay, or
-- stores one new row, PENDING and unlike all stored ones in uuid and key, and changes no other.
pub perform-Evolves :
    (e : Engine) (call : Call) (db : Db)
    → IsUnique uuid_of db.tasks
    → Evolves db.tasks (perform e call db).tasks
unfolding perform complete_task fail_task
perform-Evolves e (registers c lease now w r) db u =
    after_ok (Keeps db) db (register_worker c (undisturbed lease now) w r db)
      (λ a db' h. same_tasks db db' (register-tasks c lease now w r db db' a h))
      (unchanged db.tasks)
perform-Evolves e (beats c now w lease) db u =
    after_ok (Keeps db) db (heartbeat c now w lease db)
      (λ a db' h. same_tasks db db' (ap (λ d. d.tasks) (heartbeat-inv c now w lease db db' a h).5))
      (unchanged db.tasks)
perform-Evolves e (drains c w) db u =
    after_ok (Keeps db) db (drain_worker c w db)
      (λ a db' h. same_tasks db db' (drain-tasks c w db db' a h)) (unchanged db.tasks)
perform-Evolves e (claims c locked now w lease type) db u =
    after_ok (Keeps db) db (claim_next_task e c locked now w lease type db)
      (λ a db' h. claim-Evolves e c locked now w lease type db db' a u h) (unchanged db.tasks)
perform-Evolves e (completes c now w uuid result) db u =
    after_ok (Keeps db) db (complete_task c now w uuid result db)
      (λ a db' h.
        finish-Evolves c w uuid (completed now result) db db' a (λ t. refl)
          (λ t ran. Step.completes now result ran) h)
      (unchanged db.tasks)
perform-Evolves e (fails c now w uuid code message) db u =
    after_ok (Keeps db) db (fail_task c now w uuid code message db)
      (λ a db' h.
        finish-Evolves c w uuid (broken now code message) db db' a (λ t. refl)
          (λ t ran. Step.breaks now code message ran) h)
      (unchanged db.tasks)
perform-Evolves e (reaps c now timeout locked) db u =
    after_ok (Keeps db) db (reap_dead_workers c now timeout locked db)
      (λ a db' h. reap-Evolves c now timeout locked db db' a h) (unchanged db.tasks)
perform-Evolves e (submits c uuid now sub) db u =
    after_submit_ok (Keeps db) db (submit_task c (λ d. d) uuid now sub db)
      (λ t b db' h. submit-Evolves c uuid now sub db db' t b h) (unchanged db.tasks)
perform-Evolves e (cancels c now uuid) db u =
    after_ok (Keeps db) db (cancel_task c now uuid db)
      (λ a db' h. cancel-Evolves c now uuid db db' a h) (unchanged db.tasks)
perform-Evolves e (retries c uuid) db u =
    after_ok (Keeps db) db (retry_task c uuid db) (λ a db' h. retry-Evolves c uuid db db' a h)
      (unchanged db.tasks)
