-- ===== src/Accounting/Reaping.antt =====
-- The reaper's and the registration's part in the accounts.
use lance_laker.Base.{
  ℕ, String, ◌≡◌, ◌≢◌, refl, sym, ◌∙◌, inl, inr, Bool, false, Option, none, some, List, [], ◌∷◌,
  str_eq, eq_iff, arith, Bool-cases, All, update_by, select_by, All-select_by, All-map, put_by-All,
  put_by-cases, put_by-IsUnique, update_by-IsUnique, count_by-update_by, count_by-none,
  find_by_holds, if◌then◌else◌,
}
use lance_laker.Outcome.{ok}
use lance_laker.Tenant.{Ctx, is_system_ctx}
use lance_laker.Models.{Task, WorkerRegistry, Db}
use lance_laker.Session.{visible-system, worker_at}
use lance_laker.Scheduler.Dispatch.{
  runs_on, requeued, buried, reap_one, reap_all, is_stale, reap_dead_workers,
}
use lance_laker.Scheduler.Claim.{all_tenants}
use lance_laker.Accounting.Invariant.{runs_for, running_on, IsCounted, IsSound}
use lance_laker.Accounting.Moves.{uuid_of, id_of}

abbrev requeue : String → List Task → List Task
requeue k ts = update_by (runs_on all_tenants k) requeued ts

-- Nothing of the worker's runs any more, and nothing else stops.
pub running_on-requeue_self : (k : String) (ts : List Task) → running_on k (requeue k ts) ≡ 0
running_on-requeue_self k ts =
    count_by-update_by (runs_for k) (λ _. false) (runs_on all_tenants k) requeued ts
      (λ x. elim (Bool-cases (runs_for k x)) [ inl runs ↦ rw runs | inr idle ↦ rw idle idle ])
    ∙ count_by-none (λ _. false) ts (λ _. refl)

pub running_on-requeue_other :
    (k j : String) (ts : List Task)
    → str_eq j k ≡ false
    → running_on j (requeue k ts) ≡ running_on j ts
running_on-requeue_other k j ts other =
    count_by-update_by (runs_for j) (runs_for j) (runs_on all_tenants k) requeued ts
      (λ x. owner_split x x.worker_id refl)
  where
    owner_split :
        (x : Task) (o : Option String)
        → x.worker_id ≡ o
        → runs_for j (if runs_on all_tenants k x then requeued x else x) ≡ runs_for j x
    owner_split x none e = ground arith
    owner_split x (some o) e = ground (arith, eq_iff o k, eq_iff o j, eq_iff j k)

reap_one-IsSound :
    (w : WorkerRegistry) (db : Db)
    → w.worker_id ≢ ""
    → IsSound db
    → IsSound (reap_one all_tenants w db)
reap_one-IsSound w db named s = record {
  tasks_unique =
      update_by-IsUnique uuid_of (runs_on all_tenants w.worker_id) requeued db.tasks (λ x. refl)
        s.tasks_unique;
  workers_unique = elim (put_by-cases (worker_at w.worker_id) (buried w) db.workers) [
    | inl same ↦ rw same s.workers_unique
    | inr (old, found) ↦
        put_by-IsUnique id_of (worker_at w.worker_id) (buried w) db.workers old found
          (ground (
            arith,
            find_by_holds (worker_at w.worker_id) db.workers old found,
            eq_iff old.worker_id w.worker_id,
          ))
          s.workers_unique
  ];
  counted =
      put_by-All (IsCounted db.tasks) (IsCounted (requeue w.worker_id db.tasks)) id_of w.worker_id
        (buried w) db.workers s.workers_unique
        (λ x other h. (
          omega (arith, h.0, running_on-requeue_other w.worker_id x.worker_id db.tasks other),
          h.1,
          h.2,
        ))
        (sym (running_on-requeue_self w.worker_id db.tasks), omega arith, named) s.counted;
}

pub reap_all-IsSound :
    (ws : List WorkerRegistry) (db : Db)
    → All (λ w. w.worker_id ≢ "") ws
    → IsSound db
    → IsSound (reap_all all_tenants ws db).1
unfolding reap_all
reap_all-IsSound [] db named s = s
reap_all-IsSound (w ∷ ws) db named s =
    reap_all-IsSound ws (reap_one all_tenants w db) named.1 (reap_one-IsSound w db named.0 s)

pub reap-IsSound :
    (c : Ctx) (now timeout : ℕ) (locked : WorkerRegistry → Bool) (db db' : Db)
    (r : List String × List String)
    → reap_dead_workers c now timeout locked db ≡ ok (r, db')
    → IsSound db
    → IsSound db'
unfolding reap_dead_workers
reap-IsSound c now timeout locked db db' r h s = elim (Bool-cases (is_system_ctx c)) [
  | inr user ↦ absurd (ground arith)
  | inl sys ↦
      let stale : List WorkerRegistry = select_by (is_stale now timeout locked) db.workers in
      let is_db : db' ≡ (reap_all all_tenants stale db).1 =
        ground (arith, visible-system c "task" sys) in
      rw is_db (
        reap_all-IsSound stale db
          (All-select_by (λ w. w.worker_id ≢ "") (is_stale now timeout locked) db.workers
            (All-map (IsCounted db.tasks) (λ w. w.worker_id ≢ "") db.workers (λ w k. k.2)
              s.counted))
          s)
]
