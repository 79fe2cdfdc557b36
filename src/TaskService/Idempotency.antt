-- ===== src/TaskService/Idempotency.antt =====
-- services/task_service.py: what an idempotency key promises.
use lance_laker.Base.{
  ℕ, String, ◌≡◌, refl, sym, ap, ◌∙◌, inl, inr, Bool, true, none, some, arith, Option-cases, eq_iff,
  eq_refl, find_by, find_by_holds, Memᴰ, Memᴰ-find_by,
}
use mathlib.Core.Option.{some-injective}
use lance_laker.Outcome.{ok, err, integrity}
use lance_laker.Tenant.{TenantPrincipal, Ctx}
use lance_laker.Models.{Task, Db}
use lance_laker.Session.{visible, sees_own}
use lance_laker.Rls.{is_protected}
use lance_laker.TaskService.{
  Submission, scope_key, scoped_key, find_keyed, keyed, new_task, clashes, insert_task, submit_task,
}
use lance_laker.Accounting.Requests.{submit-inv, insert-inv}

task_protected : is_protected "task" ≡ true
unfolding is_protected
task_protected = refl

pub found_holds_key :
    (see : String → Bool) (key : String) (db : Db) (t : Task)
    → find_keyed see (some key) db ≡ some t
    → t.idempotency_key ≡ some key
found_holds_key see key db t found = elim (Option-cases t.idempotency_key) [
  | inl null ↦ absurd (ground (arith, find_by_holds (keyed see key) db.tasks t found))
  | inr (k, is_k) ↦ ground (arith, find_by_holds (keyed see key) db.tasks t found, eq_iff k key)
]

-- What a keyed submission leaves behind: the returned row, found again by the scoped key.
pub submit-stored :
    (c : Ctx) (p : TenantPrincipal) (meanwhile : Db → Db) (uuid : String) (now : ℕ) (s : Submission)
    (k : String) (db db' : Db) (t : Task) (created : Bool)
    → c.principal ≡ some p
    → s.idempotency_key ≡ some k
    → submit_task c meanwhile uuid now s db ≡ ok (t, created, db')
    → (see : String → Bool) × (visible c "task" ≡ ok see)
      × (find_keyed see (some (scope_key p.tenant_id k)) db' ≡ some t)
unfolding find_by
submit-stored c p meanwhile uuid now s k db db' t created bound keyed' h =
    let (p', see, bound', seen, how) = submit-inv c meanwhile uuid now s db db' t created h in
    let same : p' ≡ p = some-injective p' p (sym bound' ∙ bound) in
    let scoped : scoped_key p' s ≡ some (scope_key p.tenant_id k) = rw same (rw keyed') in
    elim how [
      | inl (_, is_db, found) ↦ (see, seen, rw is_db (rw scoped at found))
      | inr (_, inl (_, is_db, found)) ↦ (see, seen, rw is_db (rw scoped at found))
      | inr (_, inr (_, is_new, stored)) ↦
          let (_, is_db) = insert-inv t (meanwhile db) db' stored in
          let own : see p.tenant_id ≡ true = sees_own c p "task" see task_protected bound seen in
          let owner : t.tenant_id ≡ p.tenant_id =
            ap (λ x. x.tenant_id) is_new ∙ ap (λ q. q.tenant_id) same in
          let key : t.idempotency_key ≡ some (scope_key p.tenant_id k) =
            ap (λ x. x.idempotency_key) is_new ∙ scoped in
          let reached : see t.tenant_id ≡ true = ap see owner ∙ own in
          let hit : keyed see (scope_key p.tenant_id k) t ≡ true =
            ground (arith, eq_refl (scope_key p.tenant_id k)) in
          (see, seen, rw is_db (rw hit))
    ]

-- A submission raises IntegrityError, and stores nothing, where a row that the caller cannot see
-- has the new row's scoped key and no row that it sees has it: the second SELECT finds no winner.
submit-blocked :
    (c : Ctx) (p : TenantPrincipal) (see : String → Bool) (uuid : String) (now : ℕ) (s : Submission)
    (k : String) (db : Db) (t : Task)
    → c.principal ≡ some p
    → visible c "task" ≡ ok see
    → s.idempotency_key ≡ some k
    → find_by (keyed see (scope_key p.tenant_id k)) db.tasks ≡ none
    → Memᴰ t db.tasks
    → t.idempotency_key ≡ some (scope_key p.tenant_id k)
    → submit_task c (λ d. d) uuid now s db ≡ err integrity
unfolding submit_task insert_task
submit-blocked c p see uuid now s k db t bound seen hk unseen stored hidden =
    elim (Option-cases (find_by (clashes (new_task p s uuid now)) db.tasks)) [
      | inr (other, clash) ↦ ground arith
      | inl free ↦
          let hit : clashes (new_task p s uuid now) t ≡ true =
            ground (arith, eq_refl (scope_key p.tenant_id k)) in
          absurd (Memᴰ-find_by (clashes (new_task p s uuid now)) db.tasks t stored hit free)
    ]
