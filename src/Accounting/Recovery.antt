-- ===== src/Accounting/Recovery.antt =====
-- services/scheduler_service.py: what `reap_dead_workers` takes back.
use lance_laker.Base.{
  ℕ, String, ◌≤◌, ◌≡◌, refl, ap, inl, inr, Bool, true, false, List, [], ◌∷◌, Memᴰ, arith, str_eq,
  Bool-cases, select_by, eq_iff,
}
use lance_laker.Outcome.{ok}
use lance_laker.Tenant.{Ctx, is_system_ctx}
use lance_laker.Models.{WorkerRegistry, Db}
use lance_laker.Session.{visible-system}
use lance_laker.Scheduler.Dispatch.{reap_one, reap_all, is_stale, reap_dead_workers}
use lance_laker.Scheduler.Claim.{all_tenants}
use lance_laker.Accounting.Invariant.{running_on}
use lance_laker.Accounting.Reaping.{running_on-requeue_self, running_on-requeue_other}

reap_one-running_on :
    (j : String) (w : WorkerRegistry) (db : Db)
    → running_on j (reap_one all_tenants w db).tasks ≤ running_on j db.tasks
reap_one-running_on j w db = elim (Bool-cases (str_eq j w.worker_id)) [
  | inl same ↦
      let is_j : j ≡ w.worker_id = ground (arith, eq_iff j w.worker_id) in
      let none_left : running_on j (reap_one all_tenants w db).tasks ≡ 0 =
        rw is_j (running_on-requeue_self w.worker_id db.tasks) in
      omega (arith, none_left)
  | inr other ↦ omega (arith, running_on-requeue_other w.worker_id j db.tasks other)
]

reap_all-running_on :
    (j : String) (ws : List WorkerRegistry) (db : Db)
    → running_on j (reap_all all_tenants ws db).1.tasks ≤ running_on j db.tasks
unfolding reap_all
reap_all-running_on j [] db = omega arith
reap_all-running_on j (w ∷ ws) db =
    omega (arith, reap_all-running_on j ws (reap_one all_tenants w db), reap_one-running_on j w db)

reap_all-freed :
    (w : WorkerRegistry) (ws : List WorkerRegistry) (db : Db)
    → Memᴰ w ws
    → (running_on w.worker_id (reap_all all_tenants ws db).1.tasks ≡ 0)
      × Memᴰ w.worker_id (reap_all all_tenants ws db).0.0
unfolding reap_all
reap_all-freed w [] db m = elim m [ ]
reap_all-freed w (v ∷ ws) db (Memᴰ.head e) =
    let one : running_on w.worker_id (reap_one all_tenants v db).tasks ≡ 0 =
      rw (ap (λ x. x.worker_id) e) (running_on-requeue_self v.worker_id db.tasks) in
    (
      omega (arith, one, reap_all-running_on w.worker_id ws (reap_one all_tenants v db)),
      Memᴰ.head (ap (λ x. x.worker_id) e),
    )
reap_all-freed w (v ∷ ws) db (Memᴰ.tail m) =
    let (freed, listed) = reap_all-freed w ws (reap_one all_tenants v db) m in
    (freed, Memᴰ.tail listed)

reap_all-spared :
    (j : String) (ws : List WorkerRegistry) (db : Db)
    → ((w : WorkerRegistry) → Memᴰ w ws → str_eq j w.worker_id ≡ false)
    → running_on j (reap_all all_tenants ws db).1.tasks ≡ running_on j db.tasks
unfolding reap_all
reap_all-spared j [] db others = refl
reap_all-spared j (w ∷ ws) db others =
    let rest = reap_all-spared j ws (reap_one all_tenants w db) (λ v m. others v (Memᴰ.tail m)) in
    let here = running_on-requeue_other w.worker_id j db.tasks (others w (Memᴰ.head refl)) in
    omega (arith, rest, here)

Memᴰ-select_by :
    (p : WorkerRegistry → Bool) (ws : List WorkerRegistry) (w : WorkerRegistry)
    → Memᴰ w ws
    → p w ≡ true
    → Memᴰ w (select_by p ws)
unfolding select_by
Memᴰ-select_by p [] w m h = elim m [ ]
Memᴰ-select_by p (x ∷ xs) w (Memᴰ.head e) h = rw (← e) (rw h (Memᴰ.head refl))
Memᴰ-select_by p (x ∷ xs) w (Memᴰ.tail m) h = elim (Bool-cases (p x)) [
  | inl kept ↦ rw kept (Memᴰ.tail (Memᴰ-select_by p xs w m h))
  | inr dropped ↦ rw dropped (Memᴰ-select_by p xs w m h)
]

-- Under a system principal the reaper returns; and of a stored worker that is not DEAD, whose last
-- heartbeat is older than the timeout and whose row no other transaction has locked, no task is
-- RUNNING in the state that it leaves, and the worker is among those that it reports as reaped.
pub reap_dead_workers_frees :
    (c : Ctx) (now timeout : ℕ) (locked : WorkerRegistry → Bool) (db : Db) (w : WorkerRegistry)
    → is_system_ctx c ≡ true
    → Memᴰ w db.workers
    → is_stale now timeout locked w ≡ true
    → (reaped : List String) × (uuids : List String) × (db' : Db) × (reap_dead_workers c now timeout
          locked db
        ≡ ok ((reaped, uuids), db'))
      × (running_on w.worker_id db'.tasks ≡ 0)
      × Memᴰ w.worker_id reaped
unfolding reap_dead_workers
reap_dead_workers_frees c now timeout locked db w sys m late =
    let stale = select_by (is_stale now timeout locked) db.workers in
    let out = reap_all all_tenants stale db in
    let ran : reap_dead_workers c now timeout locked db ≡ ok ((out.0.0, out.0.1), out.1) =
      ground (arith, visible-system c "task" sys) in
    let (freed, listed) =
      reap_all-freed w stale db
        (Memᴰ-select_by (is_stale now timeout locked) db.workers w m late) in
    (out.0.0, out.0.1, out.1, ran, freed, listed)

-- Under a system principal the reaper leaves, of an id that no worker has whom it takes, as many
-- tasks RUNNING as before.
reap_dead_workers_spares :
    (c : Ctx) (now timeout : ℕ) (locked : WorkerRegistry → Bool) (db : Db) (j : String)
    → is_system_ctx c ≡ true
    → ((w : WorkerRegistry)
        → Memᴰ w (select_by (is_stale now timeout locked) db.workers)
        → str_eq j w.worker_id ≡ false)
    → (reports : List String × List String) × (db' : Db) × (reap_dead_workers c now timeout locked
          db
        ≡ ok (reports, db'))
      × (running_on j db'.tasks ≡ running_on j db.tasks)
unfolding reap_dead_workers
reap_dead_workers_spares c now timeout locked db j sys others =
    let stale = select_by (is_stale now timeout locked) db.workers in
    let out = reap_all all_tenants stale db in
    let ran : reap_dead_workers c now timeout locked db ≡ ok ((out.0.0, out.0.1), out.1) =
      ground (arith, visible-system c "task" sys) in
    ((out.0.0, out.0.1), out.1, ran, reap_all-spared j stale db others)
