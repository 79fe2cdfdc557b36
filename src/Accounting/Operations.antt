-- ===== src/Accounting/Operations.antt =====
-- Each operation of the scheduler and of the task service keeps the accounts.
use lance_laker.Base.{
  ℕ, String, ◌≡◌, refl, sym, ap, subst, ◌∙◌, inl, inr, Bool, true, false, Option, none, some, List,
  eq_iff, arith, Bool-cases, Option-cases, find_by, All-find_by, find_by_holds, find_by_unique,
}
use lance_laker.Outcome.{ok}
use lance_laker.Tenant.{Ctx, is_system_ctx}
use lance_laker.Json.{Fields}
use lance_laker.Models.{Task, WorkerRegistry, running, is_running, is_dead, Db}
use lance_laker.Session.{visible-system, task_at, worker_at, save_task, save_worker}
use lance_laker.Scheduler.Workers.{decrement_in_flight, heartbeat, drain_worker, beaten, drained}
use lance_laker.Scheduler.Dispatch.{
  Engine, claim_next_task, finish, completed, broken, complete_task, fail_task,
}
use lance_laker.Scheduler.Claim.{claim_sound, claim-none, all_tenants}
use lance_laker.Accounting.Invariant.{IsCounted, IsSound}
use lance_laker.Accounting.Moves.{uuid_of, start_task, stop_task, keep_worker}

-- The row that a uuid finds is found by its own uuid.
pub found_by_own :
    (see : String → Bool) (uuid : String) (ts : List Task) (t : Task)
    → find_by (task_at see uuid) ts ≡ some t
    → find_by (task_at see t.task_uuid) ts ≡ some t
found_by_own see uuid ts t found =
    let own : t.task_uuid ≡ uuid =
      ground (arith, find_by_holds (task_at see uuid) ts t found, eq_iff t.task_uuid uuid) in
    subst (λ k. find_by (task_at see k) ts ≡ some t) (sym own) found

pub worker_by_own :
    (wid : String) (ws : List WorkerRegistry) (w : WorkerRegistry)
    → find_by (worker_at wid) ws ≡ some w
    → find_by (worker_at w.worker_id) ws ≡ some w
worker_by_own wid ws w found =
    let own : w.worker_id ≡ wid =
      ground (arith, find_by_holds (worker_at wid) ws w found, eq_iff w.worker_id wid) in
    subst (λ k. find_by (worker_at k) ws ≡ some w) (sym own) found

pub claim-IsSound :
    (e : Engine) (c : Ctx) (locked : Task → Bool) (now : ℕ) (worker_id lease_id : String)
    (task_type : Option String) (db db' : Db) (r : Option Task)
    → claim_next_task e c locked now worker_id lease_id task_type db ≡ ok (r, db')
    → IsSound db
    → IsSound db'
claim-IsSound e c locked now wid lease type db db' none h s =
    let (w, registered, why, same) = claim-none e c locked now wid lease type db db' h in rw same s
claim-IsSound e c locked now wid lease type db db' (some t') h s =
    let (_, dispatch) = claim_sound e c locked now wid lease type db db' t' h in
    let (w, t, registered, _, _, free, stored, fits, _, _, is_t, is_db) = dispatch in
    let found : find_by (task_at all_tenants t'.task_uuid) db.tasks ≡ some t =
      rw is_t (find_by_unique uuid_of db.tasks t s.tasks_unique stored) in
    rw is_db (
      start_task db (task_at all_tenants t'.task_uuid) t' t w found (ap uuid_of is_t) (ground arith)
        (ap (λ x. x.status) is_t)
        (ap (λ x. x.worker_id) is_t
          ∙ ap some (
              ground (
                arith,
                find_by_holds (worker_at wid) db.workers w registered,
                eq_iff w.worker_id wid,
              )))
        (worker_by_own wid db.workers w registered) free s)

-- Inversion of `finish`.
pub finish-inv :
    (c : Ctx) (worker_id uuid : String) (change : Task → Task) (db db' : Db) (t' : Task)
    → finish c worker_id uuid change db ≡ ok (t', db')
    → (t : Task) × (is_system_ctx c ≡ true)
      × (find_by (task_at all_tenants uuid) db.tasks ≡ some t)
      × (t.worker_id ≡ some worker_id)
      × (t.status ≡ running)
      × (t' ≡ change t)
      × (db' ≡ decrement_in_flight worker_id (save_task all_tenants (change t) db))
unfolding finish
finish-inv c wid uuid change db db' t' h = elim (Bool-cases (is_system_ctx c)) [
  | inr user ↦ absurd (ground arith)
  | inl sys ↦ elim (Option-cases (find_by (task_at all_tenants uuid) db.tasks)) [
    | inl missing ↦ absurd (ground (arith, visible-system c "task" sys))
    | inr (t, found) ↦ elim (Option-cases t.worker_id) [
      | inl nobody ↦ absurd (ground (arith, visible-system c "task" sys))
      | inr (o, owner) ↦ (
        t,
        sys,
        found,
        ground (arith, visible-system c "task" sys, eq_iff o wid),
        ground (arith, visible-system c "task" sys),
        ground (arith, visible-system c "task" sys),
        ground (arith, visible-system c "task" sys),
      )
    ]
  ]
]

finish-IsSound :
    (c : Ctx) (worker_id uuid : String) (change : Task → Task) (db db' : Db) (t' : Task)
    → ((t : Task) → (change t).task_uuid ≡ t.task_uuid)
    → ((t : Task) → is_running (change t).status ≡ false)
    → finish c worker_id uuid change db ≡ ok (t', db')
    → IsSound db
    → IsSound db'
unfolding decrement_in_flight
finish-IsSound c wid uuid change db db' t' same idle h s =
    let (t, _, found, owner, ran, is_t, is_db) = finish-inv c wid uuid change db db' t' h in
    rw is_db (
      stop_task db (task_at all_tenants (change t).task_uuid) (change t) t wid
        (rw (same t) (found_by_own all_tenants uuid db.tasks t found)) (same t) (rw ran) owner
        (idle t) s)

pub complete-IsSound :
    (c : Ctx) (now : ℕ) (worker_id uuid : String) (result : Option Fields) (db db' : Db) (t' : Task)
    → complete_task c now worker_id uuid result db ≡ ok (t', db')
    → IsSound db
    → IsSound db'
unfolding complete_task
complete-IsSound c now wid uuid result db db' t' h s =
    finish-IsSound c wid uuid (completed now result) db db' t' (λ t. refl) (λ t. refl) h s

pub fail-IsSound :
    (c : Ctx) (now : ℕ) (worker_id uuid code message : String) (db db' : Db) (t' : Task)
    → fail_task c now worker_id uuid code message db ≡ ok (t', db')
    → IsSound db
    → IsSound db'
unfolding fail_task
fail-IsSound c now wid uuid code message db db' t' h s =
    finish-IsSound c wid uuid (broken now code message) db db' t' (λ t. refl) (λ t. refl) h s

pub heartbeat-inv :
    (c : Ctx) (now : ℕ) (worker_id lease_id : String) (db db' : Db) (w' : WorkerRegistry)
    → heartbeat c now worker_id lease_id db ≡ ok (w', db')
    → (w : WorkerRegistry) × (is_system_ctx c ≡ true)
      × (find_by (worker_at worker_id) db.workers ≡ some w)
      × (w.lease_id ≡ lease_id)
      × (w' ≡ beaten now w)
      × (db' ≡ save_worker (beaten now w) db)
unfolding heartbeat
heartbeat-inv c now wid lease db db' w' h =
    elim (Option-cases (find_by (worker_at wid) db.workers)) [
      | inl missing ↦ absurd (ground arith)
      | inr (w, found) ↦ (
        w,
        ground arith,
        found,
        ground (arith, eq_iff w.lease_id lease),
        ground arith,
        ground arith,
      )
    ]

pub heartbeat-IsSound :
    (c : Ctx) (now : ℕ) (worker_id lease_id : String) (db db' : Db) (w' : WorkerRegistry)
    → heartbeat c now worker_id lease_id db ≡ ok (w', db')
    → IsSound db
    → IsSound db'
heartbeat-IsSound c now wid lease db db' w' h s =
    let (w, _, found, _, _, is_db) = heartbeat-inv c now wid lease db db' w' h in
    rw is_db (
      keep_worker db w.worker_id (beaten now w) w (worker_by_own wid db.workers w found) refl
        (All-find_by (IsCounted db.tasks) (worker_at wid) db.workers w s.counted found) s)

pub drain-IsSound :
    (c : Ctx) (worker_id : String) (db db' : Db) (w' : WorkerRegistry)
    → drain_worker c worker_id db ≡ ok (w', db')
    → IsSound db
    → IsSound db'
unfolding drain_worker
drain-IsSound c wid db db' w' h s = elim (Option-cases (find_by (worker_at wid) db.workers)) [
  | inl missing ↦ absurd (ground arith)
  | inr (w, found) ↦ elim (Bool-cases (is_dead w.status)) [
    | inl gone ↦ subst IsSound (let same : db ≡ db' = ground arith in same) s
    | inr here ↦
        let is_db : db' ≡ save_worker (drained w) db = ground arith in
        rw is_db (
          keep_worker db w.worker_id (drained w) w (worker_by_own wid db.workers w found) refl
            (All-find_by (IsCounted db.tasks) (worker_at wid) db.workers w s.counted found) s)
  ]
]
