-- ===== src/Scheduler/Claim.antt =====
-- When `claim_next_task` hands out a task, and which one.
use lance_laker.Base.{
  ℕ, String, ◌<◌, ◌≡◌, ◌≢◌, ◌⊎◌, inl, inr, refl, Bool, true, false, not, ◌&&◌, Option, none, some,
  if◌then◌else◌, List, [], ◌∷◌, Memᴰ, leb, eq_iff, arith, Bool-cases, Option-cases, All, find_by,
  select_by-Memᴰ, find_by_holds, ◌≤◌,
}
use lance_laker.Outcome.{ok}
use lance_laker.Tenant.{Ctx, is_system_ctx}
use lance_laker.Models.{Task, WorkerRegistry, alive, is_alive, Db}
use lance_laker.Session.{visible-system, worker_at, save_task, save_worker}
use lance_laker.Scheduler.Dispatch.{
  Before, Engine, is_dispatchable, candidates, dispatched, loaded, take_first, claim_next_task,
}

abbrev pub all_tenants : String → Bool
all_tenants _ = true

-- A claim by an entitled worker is the choice of the first candidate.
pub claim-entitled :
    (e : Engine) (c : Ctx) (locked : Task → Bool) (now : ℕ) (worker_id lease_id : String)
    (task_type : Option String) (db : Db) (w : WorkerRegistry)
    → is_system_ctx c ≡ true
    → find_by (worker_at worker_id) db.workers ≡ some w
    → w.lease_id ≡ lease_id
    → claim_next_task e c locked now worker_id lease_id task_type db ≡ (
        if is_alive w.status && not (leb w.capacity w.in_flight)
        then ok (take_first e all_tenants locked task_type now w db)
        else ok (none, db))
unfolding claim_next_task
claim-entitled e c locked now wid lease tt' db w sys found same =
    ground (arith, visible-system c "task" sys, eq_iff w.lease_id lease)

-- A claim that does not raise came from a registered worker under its current lease.
pub claim-inv :
    (e : Engine) (c : Ctx) (locked : Task → Bool) (now : ℕ) (worker_id lease_id : String)
    (task_type : Option String) (db : Db) (r : Option Task × Db)
    → claim_next_task e c locked now worker_id lease_id task_type db ≡ ok r
    → (w : WorkerRegistry) × (is_system_ctx c ≡ true)
      × (find_by (worker_at worker_id) db.workers ≡ some w)
      × (w.lease_id ≡ lease_id)
      × (r ≡ (
          if is_alive w.status && not (leb w.capacity w.in_flight)
          then take_first e all_tenants locked task_type now w db
          else (none, db)))
unfolding claim_next_task
claim-inv e c locked now wid lease type db r h = elim (Bool-cases (is_system_ctx c)) [
  | inr user ↦ absurd (ground arith)
  | inl sys ↦ elim (Option-cases (find_by (worker_at wid) db.workers)) [
    | inl missing ↦ absurd (ground arith)
    | inr (w, found) ↦ (
      w,
      sys,
      found,
      ground (arith, visible-system c "task" sys, eq_iff w.lease_id lease),
      ground (arith, visible-system c "task" sys, eq_iff w.lease_id lease),
    )
  ]
]

take_first-some :
    (e : Engine) (locked : Task → Bool) (task_type : Option String) (now : ℕ) (w : WorkerRegistry)
    (db db' : Db) (t' : Task)
    → take_first e all_tenants locked task_type now w db ≡ (some t', db')
    → (t : Task) × (e.first (candidates all_tenants locked task_type db) ≡ some t)
      × (t' ≡ dispatched w.worker_id now t)
      × (db' ≡ save_worker (loaded w) (save_task all_tenants t' db))
unfolding take_first
take_first-some e locked type now w db db' t' h =
    elim (Option-cases (e.first (candidates all_tenants locked type db))) [
      | inl no_task ↦ absurd (ground arith)
      | inr (t, chosen) ↦ (t, chosen, ground arith, ground arith)
    ]

-- What a claim promises of the task `t'` that it returns and of the state that it commits. The
-- worker is registered and ALIVE, shows its current lease and has a free slot. The task comes from
-- a stored row that is PENDING or QUEUED with attempts left, of the requested type and not
-- locked, and no candidate is before it in the requested order. The row is stored as RUNNING on
-- this worker, and the worker's `in_flight` is one higher; nothing else is written.
abbrev pub IsDispatch :
    (Task → Bool) → ℕ → String → String → Option String → Db → Task → Db → Type 0
IsDispatch locked now worker_id lease_id task_type db t' db' =
    (w : WorkerRegistry) × (t : Task) × (find_by (worker_at worker_id) db.workers ≡ some w)
    × (w.lease_id ≡ lease_id)
    × (w.status ≡ alive)
    × (w.in_flight < w.capacity)
    × Memᴰ t db.tasks
    × (is_dispatchable task_type t ≡ true)
    × (locked t ≡ false)
    × All (Before t) (candidates all_tenants locked task_type db)
    × (t' ≡ dispatched worker_id now t)
    × (db' ≡ save_worker (loaded w) (save_task all_tenants t' db))

-- A claim that returns a task was made under a system principal, by an entitled worker, for the
-- first of the candidates, and commits exactly its dispatch to this worker (`IsDispatch`).
pub claim_sound :
    (e : Engine) (c : Ctx) (locked : Task → Bool) (now : ℕ) (worker_id lease_id : String)
    (task_type : Option String) (db db' : Db) (t' : Task)
    → claim_next_task e c locked now worker_id lease_id task_type db ≡ ok (some t', db')
    → (is_system_ctx c ≡ true) × IsDispatch locked now worker_id lease_id task_type db t' db'
claim_sound e c locked now wid lease type db db' t' h =
    let (w, sys, found, same, result) =
      claim-inv e c locked now wid lease type db (some t', db') h in
    let free : (is_alive w.status && not (leb w.capacity w.in_flight)) ≡ true = ground arith in
    let (t, chosen, is_t, is_db) = take_first-some e locked type now w db db' t' (ground arith) in
    let (stored, fits) =
      select_by-Memᴰ _ db.tasks t (e.first-Mem (candidates all_tenants locked type db) t chosen) in
    (
      sys,
      (
        w,
        t,
        found,
        same,
        ground arith,
        ground arith,
        stored,
        ground arith,
        ground arith,
        e.first-Before _ t chosen,
        ground (arith, eq_iff w.worker_id wid, find_by_holds (worker_at wid) db.workers w found),
        is_db,
      ),
    )

first-none : (e : Engine) (ts : List Task) → e.first ts ≡ none → ts ≡ []
first-none e [] h = refl
first-none e (t ∷ ts) h = absurd (e.first-cons t ts h)

take_first-none :
    (e : Engine) (locked : Task → Bool) (task_type : Option String) (now : ℕ) (w : WorkerRegistry)
    (db db' : Db)
    → take_first e all_tenants locked task_type now w db ≡ (none, db')
    → (candidates all_tenants locked task_type db ≡ []) × (db' ≡ db)
unfolding take_first
take_first-none e locked type now w db db' h =
    elim (Option-cases (e.first (candidates all_tenants locked type db))) [
      | inl no_task ↦ (first-none e _ no_task, ground arith)
      | inr (t, chosen) ↦ absurd (ground arith)
    ]

-- A claim by an entitled worker returns no task only if the worker is not ALIVE, has no free slot,
-- or no row is a candidate; then nothing is written.
pub claim-none :
    (e : Engine) (c : Ctx) (locked : Task → Bool) (now : ℕ) (worker_id lease_id : String)
    (task_type : Option String) (db db' : Db)
    → claim_next_task e c locked now worker_id lease_id task_type db ≡ ok (none, db')
    → (w : WorkerRegistry) × (find_by (worker_at worker_id) db.workers ≡ some w)
      × ((w.status ≢ alive)
          ⊎ ((w.capacity ≤ w.in_flight) ⊎ (candidates all_tenants locked task_type db ≡ [])))
      × (db' ≡ db)
claim-none e c locked now wid lease type db db' h =
    let (w, sys, found, same, result) = claim-inv e c locked now wid lease type db (none, db') h in
    elim (Bool-cases (is_alive w.status && not (leb w.capacity w.in_flight))) [
      | inr refused ↦ (w, found, ground arith, ground arith)
      | inl free ↦
          let (empty, same_db) = take_first-none e locked type now w db db' (ground arith) in
          (w, found, inr (inr empty), same_db)
    ]
