-- ===== src/Rls.antt =====
-- db/rls.py: the `before_execute` listener that adds a tenant predicate to each statement. A
-- statement is what the listener reads of it: its kind, its FROM clauses and its WHERE.
pub mod Isolation
pub mod Confinement
use lance_laker.Base.{
  ℕ, String, ◌≡◌, Bool, true, false, ◌&&◌, ◌||◌, Option, none, some, List, [], ◌∷◌, nat_eq, str_eq,
  if◌then◌else◌,
}
use mathlib.Core.List.{◌++◌}
use lance_laker.Outcome.{Outcome, ok, err, rls_denied}
use lance_laker.Tenant.{TenantPrincipal, Ctx}

-- A table-like leaf has an identity (Python's `id`), a name, and perhaps columns (`hasattr c`).
pub data From : Type 0 where
  leaf : ℕ → String → Bool → From
  join : From → From → From

-- `leaf.c.tenant_id == tenant`, by the leaf's identity.
abbrev pub Predicate : Type 0
Predicate = ℕ × String

-- `other` is any other element: an INSERT, a text, DDL. `no_table` is an UPDATE or a DELETE that
-- has no attribute `table`.
pub data Statement : Type 0 where
  select : List From → List Predicate → Statement
  modify : From → List Predicate → Statement
  modify_no_table : List Predicate → Statement
  other : Statement

-- `RLS_PROTECTED_TABLES`.
unfoldable pub is_protected : String → Bool
is_protected name = str_eq name "dataset" || str_eq name "task"

unfoldable pub iter_leaf_tables : From → List (ℕ × String × Bool)
iter_leaf_tables (leaf i name c) = (i, name, c) ∷ []
iter_leaf_tables (join l r) = iter_leaf_tables l ++ iter_leaf_tables r

iter_roots : List From → List (ℕ × String × Bool)
iter_roots [] = []
iter_roots (f ∷ fs) = iter_leaf_tables f ++ iter_roots fs

pub is_seen : ℕ → List ℕ → Bool
is_seen i [] = false
is_seen i (j ∷ seen) = nat_eq i j || is_seen i seen

-- The loop over the leaves: protected ones with columns, each identity once.
collect_targets : List ℕ → List (ℕ × String × Bool) → List ℕ
collect_targets seen [] = []
collect_targets seen ((i, name, c) ∷ leaves) = elim (is_protected name && c) [
  | false ↦ collect_targets seen leaves
  | true ↦ elim (is_seen i seen) [
    | true ↦ collect_targets seen leaves
    | false ↦ i ∷ collect_targets (i ∷ seen) leaves
  ]
]

unfoldable pub find_rls_targets : Statement → List ℕ
unfolding iter_leaf_tables iter_roots is_seen collect_targets is_protected
find_rls_targets (select froms preds) = collect_targets [] (iter_roots froms)
find_rls_targets (modify t preds) = collect_targets [] (iter_roots (t ∷ []))
find_rls_targets (modify_no_table preds) = []
find_rls_targets other = []

-- `rewritten.where(...)`: one more predicate.
unfoldable pub where_tenant : Statement → Predicate → Statement
where_tenant (select froms preds) p = select froms (p ∷ preds)
where_tenant (modify t preds) p = modify t (p ∷ preds)
where_tenant (modify_no_table preds) p = modify_no_table (p ∷ preds)
where_tenant other p = other

unfoldable pub inject_tenant_filter : Statement → List ℕ → String → Statement
unfolding where_tenant
inject_tenant_filter stmt [] tenant = stmt
inject_tenant_filter stmt (i ∷ targets) tenant =
    inject_tenant_filter (where_tenant stmt (i, tenant)) targets tenant

abbrev pub is_filtered : Statement → Bool
is_filtered other = false
is_filtered _ = true

abbrev guarded : Ctx → Statement → List ℕ → Outcome Statement
guarded c stmt [] = ok stmt
guarded c stmt (i ∷ targets) = elim c.principal [
  | none ↦ err rls_denied
  | some p ↦
      if p.is_system then ok stmt else ok (inject_tenant_filter stmt (i ∷ targets) p.tenant_id)
]

unfoldable pub before_execute : Ctx → Statement → Outcome Statement
unfolding find_rls_targets inject_tenant_filter
before_execute c stmt =
    if c.enforce_tenant_rls
    then if is_filtered stmt then guarded c stmt (find_rls_targets stmt) else ok stmt
    else ok stmt
