-- ===== src/Scheduler/Leases.antt =====
-- services/scheduler_service.py: the lease that a registration gives, and the leases before it.
use lance_laker.Base.{
  ℕ, zero, suc, String, ◌≡◌, ◌≢◌, refl, sym, subst, inl, inr, Bool, true, false, Option, some, ◌∷◌,
  arith, Option-cases, str_eq, eq_iff, eq_refl, find_by, find_by_holds, find_by-put_by,
}
use lance_laker.Outcome.{ok, err, lease_mismatch}
use lance_laker.Tenant.{Ctx, is_system_ctx}
use lance_laker.Models.{Task, WorkerRegistry, Db}
use lance_laker.Session.{worker_at, save_worker}
use lance_laker.Scheduler.Workers.{
  Registration, Attempt, renewed, new_worker, register_from, register_worker, beaten, heartbeat,
}
use lance_laker.Scheduler.Dispatch.{Engine, claim_next_task}

renewed-stored :
    (a : Attempt) (r : Registration) (worker_id : String) (db : Db) (w : WorkerRegistry)
    → find_by (worker_at worker_id) db.workers ≡ some w
    → find_by (worker_at worker_id) (save_worker (renewed r a w) db).workers ≡ some (renewed r a w)
renewed-stored a r wid db w found =
    let own : w.worker_id ≡ wid =
      ground (arith, find_by_holds (worker_at wid) db.workers w found, eq_iff w.worker_id wid) in
    subst
      (λ k. find_by (worker_at k) (save_worker (renewed r a w) db).workers ≡ some (renewed r a w))
      own
      (find_by-put_by (worker_at w.worker_id) (renewed r a w) db.workers w
        (subst (λ k. find_by (worker_at k) db.workers ≡ some w) (sym own) found)
        (eq_refl w.worker_id))

new_worker-stored :
    (a : Attempt) (r : Registration) (worker_id : String) (db : Db)
    → find_by (worker_at worker_id) (new_worker worker_id r a ∷ db.workers)
      ≡ some (new_worker worker_id r a)
unfolding find_by
new_worker-stored a r wid db = rw (eq_refl wid) refl

register_from-stored :
    (left : ℕ) (tries : ℕ → Attempt) (worker_id : String) (r : Registration) (i : ℕ) (db db' : Db)
    (w' : WorkerRegistry)
    → register_from left tries worker_id r i db ≡ ok (w', db')
    → find_by (worker_at worker_id) db'.workers ≡ some w'
unfolding register_from
register_from-stored zero tries wid r i db db' w' h =
    elim (Option-cases (find_by (worker_at wid) db.workers)) [
      | inr (w, found) ↦ ground (arith, renewed-stored (tries i) r wid db w found)
      | inl missing ↦
          elim (Option-cases (find_by (worker_at wid) ((tries i).meanwhile db).workers)) [
            | inr (w, raced) ↦ absurd (ground arith)
            | inl fresh ↦ ground (arith, new_worker-stored (tries i) r wid ((tries i).meanwhile db))
          ]
    ]
register_from-stored (suc left) tries wid r i db db' w' h =
    elim (Option-cases (find_by (worker_at wid) db.workers)) [
      | inr (w, found) ↦ ground (arith, renewed-stored (tries i) r wid db w found)
      | inl missing ↦
          elim (Option-cases (find_by (worker_at wid) ((tries i).meanwhile db).workers)) [
            | inr (w, raced) ↦
                register_from-stored left tries wid r (suc i) ((tries i).meanwhile db) db' w'
                  (ground arith)
            | inl fresh ↦ ground (arith, new_worker-stored (tries i) r wid ((tries i).meanwhile db))
          ]
    ]

-- After a registration that does not raise, whatever came between its statements: a claim or a
-- heartbeat for the worker under any lease but the returned one, by a system principal, raises
-- WorkerLeaseMismatchError; a heartbeat under the returned one is accepted.
pub register_worker-fences :
    (c c' : Ctx) (e : Engine) (tries : ℕ → Attempt) (worker_id lease : String) (r : Registration)
    (db db' : Db) (w : WorkerRegistry) (locked : Task → Bool) (now : ℕ) (task_type : Option String)
    → register_worker c tries worker_id r db ≡ ok (w, db')
    → is_system_ctx c' ≡ true
    → lease ≢ w.lease_id
    → (claim_next_task e c' locked now worker_id lease task_type db' ≡ err lease_mismatch)
      × (heartbeat c' now worker_id lease db' ≡ err lease_mismatch)
      × (heartbeat c' now worker_id w.lease_id db'
          ≡ ok (beaten now w, save_worker (beaten now w) db'))
unfolding register_worker claim_next_task heartbeat
register_worker-fences c c' e tries wid lease r db db' w locked now type h sys other =
    let ran : register_from 2 tries wid r 0 db ≡ ok (w, db') = ground arith in
    let stored = register_from-stored 2 tries wid r 0 db db' w ran in
    let differs : str_eq w.lease_id lease ≡ false = ground (arith, eq_iff w.lease_id lease) in
    let same : str_eq w.lease_id w.lease_id ≡ true = eq_refl w.lease_id in
    (ground arith, ground arith, ground arith)
