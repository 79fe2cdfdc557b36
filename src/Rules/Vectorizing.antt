-- ===== src/Rules/Vectorizing.antt =====
-- services/vectorization_service.py: how often `vectorize-now` gives a task.
use lance_laker.Base.{
  ℕ, String, ◌++◌, ◌≡◌, refl, sym, ap, subst, ◌∙◌, inl, inr, Bool, true, false, ◌&&◌, some, List,
  arith, Option-cases, Bool-cases, holds_text, find_by_holds, find_by-Memᴰ, find_by_unique,
  Memᴰ-find_by, IsUnique, has_key,
}
use lance_laker.Outcome.{ok}
use lance_laker.Tenant.{TenantPrincipal, Ctx}
use lance_laker.Models.{VectorizationRule, Task, Db}
use lance_laker.Format.{Format}
use lance_laker.Scheduler.Dispatch.{Engine}
use lance_laker.TaskService.{Submission, scope_key, find_keyed, keyed, submit_task}
use lance_laker.TaskService.Idempotency.{submit-stored, found_holds_key}
use lance_laker.Accounting.Moves.{uuid_of}
use lance_laker.History.Calls.{Call, run}
use lance_laker.History.Reach.{run-Reach}
use lance_laker.History.Fates.{Reach-IsSameTask}
use lance_laker.Rules.{get_rule, vectorize_key, vectorize_submission, submit_vectorize_task}

-- A task that a key finds is, after any history, followed by one that the key finds.
find_keyed-run :
    (e : Engine) (calls : List Call) (see : String → Bool) (key : String) (db : Db) (t : Task)
    → IsUnique uuid_of db.tasks
    → find_keyed see (some key) db ≡ some t
    → (t' : Task) × (find_keyed see (some key) (run e calls db) ≡ some t')
find_keyed-run e calls see key db t u found =
    let here =
      find_by_unique uuid_of db.tasks t u (find_by-Memᴰ (keyed see key) db.tasks t found) in
    let (t', there, reach) = run-Reach e calls db t.task_uuid t u here in
    let same = Reach-IsSameTask reach in
    let hit : keyed see key t' ≡ true =
      subst (λ o. see t'.tenant_id && holds_text o key ≡ true) (sym same.same_key)
        (subst (λ o. see o && holds_text t.idempotency_key key ≡ true) (sym same.same_tenant)
          (find_by_holds (keyed see key) db.tasks t found)) in
    let member = find_by-Memᴰ (has_key uuid_of t.task_uuid) (run e calls db).tasks t' there in
    elim (Option-cases (find_keyed see (some key) (run e calls db))) [
      | inl absent ↦
          absurd (Memᴰ-find_by (keyed see key) (run e calls db).tasks t' member hit absent)
      | inr later ↦ later
    ]

-- A keyed submission of a bound principal is the last with its key: after any history of calls, a
-- submission of the principal with this key creates no task and changes nothing.
submit-after_history :
    (e : Engine) (c : Ctx) (p : TenantPrincipal) (calls : List Call)
    (meanwhile meanwhile' : Db → Db) (uuid uuid' : String) (now now' : ℕ) (s s' : Submission)
    (k : String) (db db' : Db) (t : Task) (created : Bool)
    → c.principal ≡ some p
    → s.idempotency_key ≡ some k
    → s'.idempotency_key ≡ some k
    → submit_task c meanwhile uuid now s db ≡ ok (t, created, db')
    → IsUnique uuid_of db'.tasks
    → (t' : Task) × (t'.idempotency_key ≡ some (scope_key p.tenant_id k))
      × (submit_task c meanwhile' uuid' now' s' (run e calls db') ≡ ok (t', false, run e calls db'))
unfolding submit_task
submit-after_history e c p calls meanwhile meanwhile' uuid uuid' now now' s s' k db db' t created
      bound hk hk' h u =
    let (see, seen, found) = submit-stored c p meanwhile uuid now s k db db' t created bound hk h in
    let (t', found') = find_keyed-run e calls see (scope_key p.tenant_id k) db' t u found in
    (t', found_holds_key see (scope_key p.tenant_id k) (run e calls db') t' found', ground arith)

-- What `submit_vectorize_task` submits.
vectorize-inv :
    (f : Format) (c : Ctx) (meanwhile : Db → Db) (uuid : String) (now : ℕ) (dataset column : String)
    (db : Db) (r : VectorizationRule)
    → get_rule c dataset column db ≡ ok r
    → r.enabled ≡ true
    → submit_vectorize_task f c meanwhile uuid now dataset column db
      ≡ submit_task c meanwhile uuid now (vectorize_submission f dataset column r) db
unfolding submit_vectorize_task
vectorize-inv f c meanwhile uuid now dataset column db r got on = rw got (rw on refl)

-- Task uuids being unique, `vectorize-now` by a bound principal gives at most one task for a rule's
-- row: after one that has returned a task, and any history of task and worker calls, another one for
-- the same dataset, column and rule id, the rule being enabled, creates none and changes nothing,
-- but returns a stored task with that key, whatever became of it.
pub submit_vectorize-once :
    (f : Format) (e : Engine) (c : Ctx) (p : TenantPrincipal) (calls : List Call)
    (meanwhile meanwhile' : Db → Db) (uuid uuid' : String) (now now' : ℕ) (dataset column : String)
    (db db' : Db) (r r' : VectorizationRule) (t : Task) (created : Bool)
    → c.principal ≡ some p
    → get_rule c dataset column db ≡ ok r
    → submit_vectorize_task f c meanwhile uuid now dataset column db ≡ ok (t, created, db')
    → IsUnique uuid_of db'.tasks
    → get_rule c dataset column (run e calls db') ≡ ok r'
    → r'.id ≡ r.id
    → r'.enabled ≡ true
    → (t' : Task) × (t'.idempotency_key
        ≡ some (scope_key p.tenant_id (vectorize_key f dataset column r)))
      × (submit_vectorize_task f c meanwhile' uuid' now' dataset column (run e calls db')
          ≡ ok (t', false, run e calls db'))
unfolding submit_vectorize_task
submit_vectorize-once f e c p calls meanwhile meanwhile' uuid uuid' now now' dataset column db db' r
      r' t created bound got h u got' same on' =
    elim (Bool-cases r.enabled) [
      | inr off ↦ absurd (ground arith)
      | inl on ↦
          let first = sym (vectorize-inv f c meanwhile uuid now dataset column db r got on) ∙ h in
          let key' : vectorize_key f dataset column r' ≡ vectorize_key f dataset column r =
            ap (λ i. "vectorize:" ++ (dataset ++ ("/" ++ (column ++ (":" ++ f.str_int i))))) same in
          let (t', keyed', second) =
            submit-after_history e c p calls meanwhile meanwhile' uuid uuid' now now'
              (vectorize_submission f dataset column r) (vectorize_submission f dataset column r')
              (vectorize_key f dataset column r) db db' t created bound refl (ap some key') first
              u in
          (
            t',
            keyed',
            vectorize-inv f c meanwhile' uuid' now' dataset column (run e calls db') r' got' on'
                ∙ second,
          )
    ]
