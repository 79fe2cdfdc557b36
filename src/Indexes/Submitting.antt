-- ===== src/Indexes/Submitting.antt =====
-- services/index_service.py: the `try` around the submission of a task.
use lance_laker.Base.{
  ℕ, String, ◌≡◌, ◌⊎◌, refl, sym, ap, ◌∙◌, inl, inr, Bool, true, some, Memᴰ, arith, find_by,
  find_by-put_by, find_by-Memᴰ, eq_refl,
}
use lance_laker.Outcome.{Error, Outcome, ok, err, Outcome-split}
use lance_laker.Tenant.{TenantPrincipal, Ctx}
use lance_laker.Models.{Task, Index, IndexStatus, Db}
use lance_laker.Format.{Format}
use lance_laker.TaskService.{Submission, scope_key, submit_task, keyed}
use lance_laker.TaskService.Idempotency.{submit-stored, found_holds_key}
use lance_laker.Accounting.Requests.{submit-inv, insert-inv}
use lance_laker.Indexes.{
  Stamp, index_at, save_index, maybe_get_index, submission_failed, submit_or_fall_back,
}

-- A task is stored under the key.
abbrev pub HasTask : String → Db → Type 0
HasTask key db = (t : Task) × Memᴰ t db.tasks × (t.idempotency_key ≡ some key)

submit-indexes :
    (c : Ctx) (uuid : String) (now : ℕ) (s : Submission) (db db' : Db) (t : Task) (created : Bool)
    → submit_task c (λ d. d) uuid now s db ≡ ok (t, created, db')
    → db'.indexes ≡ db.indexes
submit-indexes c uuid now s db db' t created h =
    let (p, see, _, _, how) = submit-inv c (λ d. d) uuid now s db db' t created h in
    elim how [
      | inl (_, is_db, _) ↦ ap (λ d. d.indexes) is_db
      | inr (_, inl (_, is_db, _)) ↦ ap (λ d. d.indexes) is_db
      | inr (_, inr (_, _, stored)) ↦ ap (λ d. d.indexes) (insert-inv t db db' stored).1
    ]

submit-HasTask :
    (c : Ctx) (p : TenantPrincipal) (uuid : String) (now : ℕ) (s : Submission) (k : String)
    (db db' : Db) (t : Task) (created : Bool)
    → c.principal ≡ some p
    → s.idempotency_key ≡ some k
    → submit_task c (λ d. d) uuid now s db ≡ ok (t, created, db')
    → HasTask (scope_key p.tenant_id k) db'
submit-HasTask c p uuid now s k db db' t created bound hk h =
    let (see, _, found) = submit-stored c p (λ d. d) uuid now s k db db' t created bound hk h in
    (
      t,
      find_by-Memᴰ (keyed see (scope_key p.tenant_id k)) db'.tasks t found,
      found_holds_key see (scope_key p.tenant_id k) db' t found,
    )

-- The two ways out of the `try`.
fall_back-inv :
    (f : Format) (c : Ctx) (p : TenantPrincipal) (stamp : Stamp) (s : Submission) (k : String)
    (fallback : IndexStatus) (x : Index) (db db' : Db) (r : Outcome Index)
    → c.principal ≡ some p
    → s.idempotency_key ≡ some k
    → submit_or_fall_back f c stamp s fallback x db ≡ (r, db')
    → ((r ≡ ok x) × (db'.indexes ≡ db.indexes) × HasTask (scope_key p.tenant_id k) db')
      ⊎ ((e : Error) × (r ≡ err e) × (db' ≡ save_index (submission_failed f fallback e x) db))
unfolding submit_or_fall_back
fall_back-inv f c p stamp s k fallback x db db' r bound hk h =
    elim (Outcome-split (submit_task c (λ d. d) stamp.task_uuid stamp.now s db)) [
      | inr (e, raised) ↦ inr (e, ground arith, ground arith)
      | inl ((t, created, db1), done) ↦
          let same : db1 ≡ db' = ground arith in
          inl (
            ground arith,
            ap (λ d. d.indexes) (sym same)
                ∙ submit-indexes c stamp.task_uuid stamp.now s db db1 t created done,
            submit-HasTask c p stamp.task_uuid stamp.now s k db db' t created bound hk
                (rw (← same) done),
          )
    ]

-- What a call on an index leaves. Either it returns the row, stored in the transient status, with
-- a task for it; or it raises, and the state is the old one, or has the row in the status
-- `fallback` and the tasks are the old ones.
abbrev pub IsPaired :
    TenantPrincipal
    → (Index → String)
    → IndexStatus
    → IndexStatus
    → String
    → String
    → Db
    → Outcome Index × Db
    → Type 0
IsPaired p key transient fallback dataset_uuid name db (r, db') =
    ((x : Index) × (r ≡ ok x)
      × (maybe_get_index dataset_uuid name db' ≡ some x)
      × (x.status ≡ transient)
      × HasTask (scope_key p.tenant_id (key x)) db')
    ⊎ ((e : Error) × (r ≡ err e)
        × ((db' ≡ db)
            ⊎ ((x : Index) × (maybe_get_index dataset_uuid name db' ≡ some x)
                × (x.status ≡ fallback)
                × (db'.tasks ≡ db.tasks))))

pub index_at_self : (x : Index) → index_at x.dataset_uuid x.index_name x ≡ true
index_at_self x = ground (arith, eq_refl x.dataset_uuid, eq_refl x.index_name)

-- A call that has stored `x` and then submits is paired, where the tasks are still those before.
pub fall_back-IsPaired :
    (f : Format) (c : Ctx) (p : TenantPrincipal) (stamp : Stamp) (s : Submission)
    (key : Index → String) (fallback : IndexStatus) (x : Index) (db0 db : Db)
    → c.principal ≡ some p
    → s.idempotency_key ≡ some (key x)
    → maybe_get_index x.dataset_uuid x.index_name db ≡ some x
    → db.tasks ≡ db0.tasks
    → IsPaired p key x.status fallback x.dataset_uuid x.index_name db0
        (submit_or_fall_back f c stamp s fallback x db)
fall_back-IsPaired f c p stamp s key fallback x db0 db bound hk stored tasks =
    elim (fall_back-inv f c p stamp s (key x) fallback x db
      (submit_or_fall_back f c stamp s fallback x db).1
      (submit_or_fall_back f c stamp s fallback x db).0 bound hk refl) [
        | inl (done, same, task) ↦
            inl (
              x,
              done,
              ap (find_by (index_at x.dataset_uuid x.index_name)) same ∙ stored,
              refl,
              task,
            )
        | inr (e, raised, is_db) ↦
            let y = submission_failed f fallback e x in
            inr (
              e,
              raised,
              inr (
                y,
                ap (λ d. maybe_get_index x.dataset_uuid x.index_name d) is_db
                    ∙ find_by-put_by (index_at x.dataset_uuid x.index_name) y db.indexes x stored
                        (index_at_self x),
                refl,
                ap (λ d. d.tasks) is_db ∙ tasks,
              ),
            )
      ]
