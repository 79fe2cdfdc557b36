-- ===== src/Session.antt =====
-- How a service reads and writes the tables that the listener of db/rls.py protects. A SELECT, and
-- the UPDATE of a row that it returned, pass through `before_execute`; `visible` is the tenant
-- predicate that it leaves in the WHERE of a statement on one such table.
use lance_laker.Base.{
  refl, ap, ◌∙◌, inl, inr, false, arith, Bool-cases, eq_refl, String, ◌≡◌, Bool, true, false, ◌&&◌,
  Option, none, some, [], ◌∷◌, str_eq, put_by,
}
use lance_laker.Outcome.{Error, Outcome, ok, err, ◌>>=◌}
use lance_laker.Tenant.{TenantPrincipal, Ctx, is_system_ctx}
use lance_laker.Rls.{Statement, leaf, select, is_protected, before_execute}
use lance_laker.Rls.Isolation.{keeps}
use lance_laker.Rls.Confinement.{
  before_execute-system, before_execute-off, before_execute-one_table,
}
use lance_laker.Models.{Task, Dataset, WorkerRegistry, Db}

abbrev pub one_table : String → Statement
one_table name = select (leaf 0 name true ∷ []) []

-- Whether a row of the table with this `tenant_id` is within the statement's reach.
unfoldable pub visible : Ctx → String → Outcome (String → Bool)
visible c name = do
  stmt ← before_execute c (one_table name)
  ok (λ tenant. keeps stmt (λ _. tenant))

abbrev pub or_raise {ℓ} : {A : Type ℓ} → Option A → Error → Outcome A
or_raise none e = err e
or_raise (some a) e = ok a

-- The WHERE of a statement on one row of `task`, `dataset` and `worker_registry`.
abbrev pub task_at : (String → Bool) → String → Task → Bool
task_at see uuid t = see t.tenant_id && str_eq t.task_uuid uuid

abbrev pub dataset_at : (String → Bool) → String → Dataset → Bool
dataset_at see uuid d = see d.tenant_id && str_eq d.dataset_uuid uuid

abbrev pub worker_at : String → WorkerRegistry → Bool
worker_at worker_id w = str_eq w.worker_id worker_id

abbrev pub save_task : (String → Bool) → Task → Db → Db
save_task see t db = record db { tasks = put_by (task_at see t.task_uuid) t db.tasks }

abbrev pub save_worker : WorkerRegistry → Db → Db
save_worker w db = record db { workers = put_by (worker_at w.worker_id) w db.workers }

-- A system principal reaches every row.
pub visible-system :
    (c : Ctx) (name : String) → is_system_ctx c ≡ true → visible c name ≡ ok (λ _. true)
unfolding visible
visible-system c name system = rw (before_execute-system c (one_table name) system)

-- A request reaches the rows of its tenant, in a protected table.
pub visible-user :
    (c : Ctx) (p : TenantPrincipal) (name : String)
    → c.enforce_tenant_rls ≡ true
    → c.principal ≡ some p
    → p.is_system ≡ false
    → is_protected name ≡ true
    → visible c name ≡ ok (λ tenant. str_eq tenant p.tenant_id && true)
unfolding visible
visible-user c p name on bound user prot = rw (before_execute-one_table c p name on bound user prot)

visible-off :
    (c : Ctx) (name : String) → c.enforce_tenant_rls ≡ false → visible c name ≡ ok (λ _. true)
unfolding visible
visible-off c name off = rw (before_execute-off c (one_table name) off)

same_reach : (f g : String → Bool) (o : Outcome (String → Bool)) → o ≡ ok f → o ≡ ok g → f ≡ g
same_reach f g o hf hg = cc

-- A bound principal sees the rows of its own tenant.
pub sees_own :
    (c : Ctx) (p : TenantPrincipal) (name : String) (see : String → Bool)
    → is_protected name ≡ true
    → c.principal ≡ some p
    → visible c name ≡ ok see
    → see p.tenant_id ≡ true
sees_own c p name see prot bound seen = elim (Bool-cases c.enforce_tenant_rls) [
  | inr off ↦ reach (λ _. true) refl (visible-off c name off)
  | inl on ↦ elim (Bool-cases p.is_system) [
    | inl sys ↦ reach (λ _. true) refl (visible-system c name (ground arith))
    | inr user ↦
        reach (λ tenant. str_eq tenant p.tenant_id && true) (ground (arith, eq_refl p.tenant_id))
          (visible-user c p name on bound user prot)
  ]
]
  where
    reach :
        (f : String → Bool) → f p.tenant_id ≡ true → visible c name ≡ ok f → see p.tenant_id ≡ true
    reach f h e = ap (λ g. g p.tenant_id) (same_reach see f (visible c name) seen e) ∙ h
