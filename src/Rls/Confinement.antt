-- ===== src/Rls/Confinement.antt =====
-- db/rls.py's `_before_execute` as a whole: confinement to the tenant, and failing closed.
use lance_laker.Base.{
  false, ℕ, String, ◌≡◌, refl, ◌∙◌, ◌≢◌, true, false, none, some, List, [], ◌∷◌, arith,
}
use lance_laker.Outcome.{ok, err, rls_denied}
use lance_laker.Tenant.{TenantPrincipal, Ctx, is_system_ctx}
use lance_laker.Rls.{
  is_seen, From, Statement, select, is_protected, find_rls_targets, inject_tenant_filter, guarded,
  before_execute,
}
use lance_laker.Rls.Isolation.{
  Row, keeps, Touches, keeps-user, before_execute-user, all_of-owner, is_seen-all_of,
  targets_complete, targets-other,
}

-- What the rewriting of a statement means for a tenant. A row that the rewritten statement keeps was
-- kept by the original, and in each protected leaf table that has columns, on any side of any
-- join, it belongs to the tenant. A row of the tenant's own that the original keeps is kept.
abbrev pub IsConfined : Statement → Statement → String → Type 0
IsConfined stmt stmt' tenant =
    ((row : Row)
      → keeps stmt' row ≡ true
      → (keeps stmt row ≡ true)
        × ((i : ℕ) (name : String)
            → Touches stmt i name
            → is_protected name ≡ true
            → row i ≡ tenant))
    × ((row : Row) → keeps stmt row ≡ true → ((i : ℕ) → row i ≡ tenant) → keeps stmt' row ≡ true)

-- Under the setting `enforce_tenant_rls` and a bound principal that is no system principal, the
-- listener lets every statement run, confined to the principal's tenant (`IsConfined`).
pub before_execute-isolates :
    (c : Ctx) (p : TenantPrincipal) (stmt : Statement)
    → c.enforce_tenant_rls ≡ true
    → c.principal ≡ some p
    → p.is_system ≡ false
    → (stmt' : Statement) × (before_execute c stmt ≡ ok stmt') × IsConfined stmt stmt' p.tenant_id
before_execute-isolates c p stmt on bound user = (
  inject_tenant_filter stmt (find_rls_targets stmt) p.tenant_id,
  before_execute-user c p stmt on bound user,
  (
    (λ row kept. (
      ground (arith, keeps-user stmt p.tenant_id row),
      λ i name m prot.
          is_seen-all_of i (find_rls_targets stmt) p.tenant_id row
            (targets_complete stmt i name m prot) (ground (arith, keeps-user stmt p.tenant_id row)),
    )),
    λ row kept own. ground (
      arith,
      keeps-user stmt p.tenant_id row,
      all_of-owner (find_rls_targets stmt) p.tenant_id row own,
    ),
  ),
)

guarded-denied :
    (c : Ctx) (stmt : Statement) (targets : List ℕ)
    → c.principal ≡ none
    → targets ≢ []
    → guarded c stmt targets ≡ err rls_denied
guarded-denied c stmt [] unbound h = absurd (h refl)
guarded-denied c stmt (i ∷ targets) unbound h = rw unbound

guarded-system :
    (c : Ctx) (stmt : Statement) (targets : List ℕ)
    → is_system_ctx c ≡ true
    → guarded c stmt targets ≡ ok stmt
guarded-system c stmt [] system = refl
guarded-system c stmt (i ∷ targets) system = ground arith

no_targets-is_seen : (i : ℕ) (targets : List ℕ) → is_seen i targets ≡ true → targets ≢ []
unfolding is_seen
no_targets-is_seen i [] h = absurd (cc)
no_targets-is_seen i (j ∷ targets) h = λ e. cc

-- Under the setting `enforce_tenant_rls` and with no principal bound, the listener refuses every
-- statement that touches a protected leaf table with columns, on whatever side of a join.
pub before_execute-fails_closed :
    (c : Ctx) (stmt : Statement) (i : ℕ) (name : String)
    → c.enforce_tenant_rls ≡ true
    → c.principal ≡ none
    → Touches stmt i name
    → is_protected name ≡ true
    → before_execute c stmt ≡ err rls_denied
unfolding before_execute
before_execute-fails_closed c stmt i name on unbound touched prot =
    let some_target : find_rls_targets stmt ≢ [] =
      no_targets-is_seen i (find_rls_targets stmt) (targets_complete stmt i name touched prot) in
    ground (arith, guarded-denied c stmt _ unbound some_target, targets-other)

-- A statement of a system principal, or with the setting off, runs as it was written.
pub before_execute-system :
    (c : Ctx) (stmt : Statement) → is_system_ctx c ≡ true → before_execute c stmt ≡ ok stmt
unfolding before_execute
before_execute-system c stmt system =
    ground (arith, guarded-system c stmt (find_rls_targets stmt) system)

pub before_execute-off :
    (c : Ctx) (stmt : Statement) → c.enforce_tenant_rls ≡ false → before_execute c stmt ≡ ok stmt
unfolding before_execute
before_execute-off c stmt off = rw off

targets-one_table :
    (name : String)
    → is_protected name ≡ true
    → find_rls_targets (select (From.leaf 0 name true ∷ []) []) ≡ 0 ∷ []
unfolding find_rls_targets
targets-one_table name prot = ground arith

-- A statement on one protected table gains one predicate.
pub before_execute-one_table :
    (c : Ctx) (p : TenantPrincipal) (name : String)
    → c.enforce_tenant_rls ≡ true
    → c.principal ≡ some p
    → p.is_system ≡ false
    → is_protected name ≡ true
    → before_execute c (select (From.leaf 0 name true ∷ []) [])
      ≡ ok (select (From.leaf 0 name true ∷ []) ((0, p.tenant_id) ∷ []))
before_execute-one_table c p name on bound user prot =
    before_execute-user c p (select (From.leaf 0 name true ∷ []) []) on bound user
    ∙ rw (targets-one_table name prot) (unfold inject_tenant_filter in refl)
