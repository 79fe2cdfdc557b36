-- ===== src/Accounting/Registration.antt =====
-- The registration's part in the accounts.
use lance_laker.Base.{
  ℕ, zero, suc, String, ◌≡◌, ◌≢◌, refl, sym, subst, inl, inr, none, some, ◌∷◌, eq_iff, arith,
  Option-cases, find_by, find_by_holds,
}
use lance_laker.Outcome.{ok}
use lance_laker.Tenant.{Ctx}
use lance_laker.Models.{WorkerRegistry, Db}
use lance_laker.Session.{worker_at, save_worker}
use lance_laker.Scheduler.Workers.{
  Registration, Attempt, renewed, new_worker, register_from, register_worker,
}
use lance_laker.Accounting.Invariant.{running_on, IsSound}
use lance_laker.Accounting.Moves.{keep_worker}

-- A worker without RUNNING tasks is stored with an empty account.
store-IsSound :
    (a : Attempt) (r : Registration) (worker_id : String) (db : Db)
    → worker_id ≢ ""
    → running_on worker_id db.tasks ≡ 0
    → find_by (worker_at worker_id) db.workers ≡ none
    → IsSound db
    → IsSound (record db { workers = new_worker worker_id r a ∷ db.workers })
store-IsSound a r wid db named idle fresh s = record {
  tasks_unique = s.tasks_unique;
  workers_unique = (fresh, s.workers_unique);
  counted = ((sym idle, omega arith, named), s.counted);
}

renew-IsSound :
    (a : Attempt) (r : Registration) (worker_id : String) (db : Db) (w : WorkerRegistry)
    → worker_id ≢ ""
    → running_on worker_id db.tasks ≡ 0
    → find_by (worker_at worker_id) db.workers ≡ some w
    → IsSound db
    → IsSound (save_worker (renewed r a w) db)
renew-IsSound a r wid db w named idle found s =
    let own : w.worker_id ≡ wid =
      ground (arith, find_by_holds (worker_at wid) db.workers w found, eq_iff w.worker_id wid) in
    keep_worker db w.worker_id (renewed r a w) w
      (subst (λ k. find_by (worker_at k) db.workers ≡ some w) (sym own) found) refl
      (
        subst (λ k. 0 ≡ running_on k db.tasks) (sym own) (sym idle),
        omega arith,
        subst (λ k. k ≢ "") (sym own) named,
      )
      s

-- What the other transactions may do between the SELECT and the INSERT of a registration.
abbrev pub IsHarmless : (ℕ → Attempt) → String → Type 0
IsHarmless tries k =
    (i : ℕ) (d : Db)
    → IsSound d × (running_on k d.tasks ≡ 0)
    → IsSound ((tries i).meanwhile d) × (running_on k ((tries i).meanwhile d).tasks ≡ 0)

inserted :
    (left : ℕ) (tries : ℕ → Attempt) (worker_id : String) (r : Registration) (i : ℕ) (db db' : Db)
    (w' : WorkerRegistry)
    → find_by (worker_at worker_id) db.workers ≡ none
    → find_by (worker_at worker_id) ((tries i).meanwhile db).workers ≡ none
    → register_from left tries worker_id r i db ≡ ok (w', db')
    → db' ≡ record ((tries i).meanwhile db) {
      workers = new_worker worker_id r (tries i) ∷ ((tries i).meanwhile db).workers;
    }
unfolding register_from
inserted zero tries wid r i db db' w' missing fresh h = ground arith
inserted (suc left) tries wid r i db db' w' missing fresh h = ground arith

pub register_from-IsSound :
    (left : ℕ) (tries : ℕ → Attempt) (worker_id : String) (r : Registration) (i : ℕ) (db db' : Db)
    (w' : WorkerRegistry)
    → worker_id ≢ ""
    → IsHarmless tries worker_id
    → register_from left tries worker_id r i db ≡ ok (w', db')
    → IsSound db × (running_on worker_id db.tasks ≡ 0)
    → IsSound db'
unfolding register_from
register_from-IsSound zero tries wid r i db db' w' named others h s =
    elim (Option-cases (find_by (worker_at wid) db.workers)) [
      | inr (w, found) ↦
          let is_db : db' ≡ save_worker (renewed r (tries i) w) db = ground arith in
          rw is_db (renew-IsSound (tries i) r wid db w named s.1 found s.0)
      | inl missing ↦
          elim (Option-cases (find_by (worker_at wid) ((tries i).meanwhile db).workers)) [
            | inr (w, raced) ↦ absurd (ground arith)
            | inl fresh ↦ rw (inserted zero tries wid r i db db' w' missing fresh h) (
                store-IsSound (tries i) r wid ((tries i).meanwhile db) named (others i db s).1 fresh
                  (others i db s).0)
          ]
    ]
register_from-IsSound (suc left) tries wid r i db db' w' named others h s =
    elim (Option-cases (find_by (worker_at wid) db.workers)) [
      | inr (w, found) ↦
          let is_db : db' ≡ save_worker (renewed r (tries i) w) db = ground arith in
          rw is_db (renew-IsSound (tries i) r wid db w named s.1 found s.0)
      | inl missing ↦
          elim (Option-cases (find_by (worker_at wid) ((tries i).meanwhile db).workers)) [
            | inr (w, raced) ↦
                register_from-IsSound left tries wid r (suc i) ((tries i).meanwhile db) db' w' named
                  others (ground arith) (others i db s)
            | inl fresh ↦ rw (inserted (suc left) tries wid r i db db' w' missing fresh h) (
                store-IsSound (tries i) r wid ((tries i).meanwhile db) named (others i db s).1 fresh
                  (others i db s).0)
          ]
    ]

-- Registration of a worker that runs nothing keeps the accounts, whatever harmless transactions
-- come between.
pub register-IsSound :
    (c : Ctx) (tries : ℕ → Attempt) (worker_id : String) (r : Registration) (db db' : Db)
    (w' : WorkerRegistry)
    → worker_id ≢ ""
    → IsHarmless tries worker_id
    → running_on worker_id db.tasks ≡ 0
    → register_worker c tries worker_id r db ≡ ok (w', db')
    → IsSound db
    → IsSound db'
unfolding register_worker
register-IsSound c tries wid r db db' w' named others idle h s =
    register_from-IsSound 2 tries wid r 0 db db' w' named others (ground arith) (s, idle)
