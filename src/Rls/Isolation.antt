-- ===== src/Rls/Isolation.antt =====
-- What the rewritten statement can touch: db/rls.py's `_before_execute` seen through the rows. A
-- joined row gives each leaf table, by its identity, the tenant of the part that it takes there.
use lance_laker.Base.{
  ◌⊎◌, inl, inr, ℕ, String, ◌≡◌, refl, ap, Bool, true, false, ◌&&◌, ◌||◌, some, List, [], ◌∷◌, Memᴰ,
  str_eq, eq_iff, arith,
}
use lance_laker.Outcome.{ok}
use lance_laker.Tenant.{TenantPrincipal, Ctx}
use mathlib.Core.List.Memᴰ.{append_left, append_right}
use lance_laker.Rls.{
  From, leaf, join, iter_leaf_tables, Predicate, Statement, select, modify, modify_no_table, other,
  is_protected, iter_roots, is_seen, collect_targets, find_rls_targets, where_tenant,
  inject_tenant_filter, is_filtered, guarded, before_execute,
}

abbrev pub Row : Type 0
Row = ℕ → String

abbrev pub passes : List Predicate → Row → Bool
passes [] row = true
passes ((i, tenant) ∷ ps) row = str_eq (row i) tenant && passes ps row

-- Whether a statement's WHERE keeps a row.
abbrev pub keeps : Statement → Row → Bool
keeps (select froms ps) row = passes ps row
keeps (modify t ps) row = passes ps row
keeps (modify_no_table ps) row = passes ps row
keeps other row = true

abbrev pub all_of : List ℕ → String → Row → Bool
all_of [] tenant row = true
all_of (i ∷ is) tenant row = str_eq (row i) tenant && all_of is tenant row

-- A leaf table of a FROM clause, on either side of a join, with its columns.
abbrev pub IsLeaf : ℕ → String → From → Type 0
IsLeaf i name (leaf j n c) = (i ≡ j) × (name ≡ n) × (true ≡ c)
IsLeaf i name (join l r) = IsLeaf i name l ⊎ IsLeaf i name r

abbrev pub IsAmong : ℕ → String → List From → Type 0
IsAmong i name [] = ⊥
IsAmong i name (f ∷ fs) = IsLeaf i name f ⊎ IsAmong i name fs

-- A leaf table that a SELECT reads, or that an UPDATE or a DELETE writes.
abbrev pub Touches : Statement → ℕ → String → Type 0
Touches (select froms ps) i name = IsAmong i name froms
Touches (modify t ps) i name = IsLeaf i name t
Touches (modify_no_table ps) i name = ⊥
Touches other i name = ⊥

iter_leaf_tables_complete :
    (i : ℕ) (name : String) (f : From) → IsLeaf i name f → Memᴰ (i, name, true) (iter_leaf_tables f)
unfolding iter_leaf_tables
iter_leaf_tables_complete i name (leaf j n c) (same, named, columns) =
    Memᴰ.head (rw same (rw named (rw columns refl)))
iter_leaf_tables_complete i name (join l r) (inl m) =
    append_left (iter_leaf_tables r) (iter_leaf_tables_complete i name l m)
iter_leaf_tables_complete i name (join l r) (inr m) =
    append_right (iter_leaf_tables l) (iter_leaf_tables_complete i name r m)

iter_roots_complete :
    (i : ℕ) (name : String) (fs : List From)
    → IsAmong i name fs
    → Memᴰ (i, name, true) (iter_roots fs)
unfolding iter_roots
iter_roots_complete i name [] m = elim m [ ]
iter_roots_complete i name (f ∷ fs) (inl m) =
    append_left (iter_roots fs) (iter_leaf_tables_complete i name f m)
iter_roots_complete i name (f ∷ fs) (inr m) =
    append_right (iter_leaf_tables f) (iter_roots_complete i name fs m)

pub is_seen-all_of :
    (i : ℕ) (targets : List ℕ) (tenant : String) (row : Row)
    → is_seen i targets ≡ true
    → all_of targets tenant row ≡ true
    → row i ≡ tenant
unfolding is_seen
is_seen-all_of i [] tenant row h k = absurd (cc)
is_seen-all_of i (j ∷ js) tenant row h k =
    ground (arith, eq_iff (row i) tenant, eq_iff (row j) tenant, is_seen-all_of i js tenant row)

-- A protected leaf is a target, or was seen before.
collect_targets_complete :
    (seen : List ℕ) (leaves : List (ℕ × String × Bool)) (i : ℕ) (name : String)
    → Memᴰ (i, name, true) leaves
    → is_protected name ≡ true
    → (is_seen i seen || is_seen i (collect_targets seen leaves)) ≡ true
unfolding is_seen collect_targets
collect_targets_complete seen [] i name m h = elim m [ ]
collect_targets_complete seen ((j, n, c) ∷ leaves) i name (Memᴰ.head e) h =
    let same : i ≡ j = ap (λ t. t.0) e in
    let named : name ≡ n = ap (λ t. t.1) e in
    let columns : true ≡ c = ap (λ t. t.2) e in ground arith
collect_targets_complete seen ((j, n, c) ∷ leaves) i name (Memᴰ.tail m) h = ground (
  arith,
  collect_targets_complete seen leaves i name m h,
  collect_targets_complete (j ∷ seen) leaves i name m h,
)

keeps-where_tenant :
    (stmt : Statement) (i : ℕ) (tenant : String) (row : Row)
    → is_filtered stmt ≡ true
    → keeps (where_tenant stmt (i, tenant)) row ≡ (str_eq (row i) tenant && keeps stmt row)
unfolding where_tenant
keeps-where_tenant (select froms ps) i tenant row h = refl
keeps-where_tenant (modify t ps) i tenant row h = refl
keeps-where_tenant (modify_no_table ps) i tenant row h = refl
keeps-where_tenant other i tenant row h = absurd (cc)

is_filtered-where_tenant :
    (stmt : Statement) (p : Predicate) → is_filtered (where_tenant stmt p) ≡ is_filtered stmt
unfolding where_tenant
is_filtered-where_tenant (select froms ps) p = refl
is_filtered-where_tenant (modify t ps) p = refl
is_filtered-where_tenant (modify_no_table ps) p = refl
is_filtered-where_tenant other p = refl

-- The rewritten WHERE is the old one and the tenant's predicate on each target.
keeps-inject :
    (targets : List ℕ) (stmt : Statement) (tenant : String) (row : Row)
    → is_filtered stmt ≡ true
    → keeps (inject_tenant_filter stmt targets tenant) row
      ≡ (all_of targets tenant row && keeps stmt row)
unfolding inject_tenant_filter
keeps-inject [] stmt tenant row h = refl
keeps-inject (i ∷ targets) stmt tenant row h = ground (
  arith,
  keeps-inject targets (where_tenant stmt (i, tenant)) tenant row,
  is_filtered-where_tenant stmt (i, tenant),
  keeps-where_tenant stmt i tenant row h,
)

pub targets_complete :
    (stmt : Statement) (i : ℕ) (name : String)
    → Touches stmt i name
    → is_protected name ≡ true
    → is_seen i (find_rls_targets stmt) ≡ true
unfolding find_rls_targets
targets_complete (select froms ps) i name m h =
    collect_targets_complete [] (iter_roots froms) i name (iter_roots_complete i name froms m) h
targets_complete (modify t ps) i name m h =
    collect_targets_complete [] (iter_roots (t ∷ [])) i name
      (iter_roots_complete i name (t ∷ []) (inl m)) h
targets_complete (modify_no_table ps) i name m h = elim m [ ]
targets_complete other i name m h = elim m [ ]

pub inject-nil : (stmt : Statement) (tenant : String) → inject_tenant_filter stmt [] tenant ≡ stmt
unfolding inject_tenant_filter
inject-nil stmt tenant = refl

pub guarded-user :
    (c : Ctx) (p : TenantPrincipal) (stmt : Statement) (targets : List ℕ)
    → c.principal ≡ some p
    → p.is_system ≡ false
    → guarded c stmt targets ≡ ok (inject_tenant_filter stmt targets p.tenant_id)
guarded-user c p stmt [] bound user = ground (arith, inject-nil stmt p.tenant_id)
guarded-user c p stmt (i ∷ targets) bound user = rw bound (rw user)

pub targets-other : find_rls_targets other ≡ []
unfolding find_rls_targets
targets-other = refl

pub before_execute-user :
    (c : Ctx) (p : TenantPrincipal) (stmt : Statement)
    → c.enforce_tenant_rls ≡ true
    → c.principal ≡ some p
    → p.is_system ≡ false
    → before_execute c stmt ≡ ok (inject_tenant_filter stmt (find_rls_targets stmt) p.tenant_id)
unfolding before_execute
before_execute-user c p (select froms ps) on bound user =
    rw on (guarded-user c p (select froms ps) (find_rls_targets (select froms ps)) bound user)
before_execute-user c p (modify t ps) on bound user =
    rw on (guarded-user c p (modify t ps) (find_rls_targets (modify t ps)) bound user)
before_execute-user c p (modify_no_table ps) on bound user =
    rw on (guarded-user c p (modify_no_table ps) (find_rls_targets (modify_no_table ps)) bound user)
before_execute-user c p other on bound user = rw on

pub keeps-user :
    (stmt : Statement) (tenant : String) (row : Row)
    → keeps (inject_tenant_filter stmt (find_rls_targets stmt) tenant) row
      ≡ (all_of (find_rls_targets stmt) tenant row && keeps stmt row)
keeps-user (select froms ps) tenant row = keeps-inject _ (select froms ps) tenant row refl
keeps-user (modify t ps) tenant row = keeps-inject _ (modify t ps) tenant row refl
keeps-user (modify_no_table ps) tenant row = keeps-inject _ (modify_no_table ps) tenant row refl
keeps-user other tenant row = rw targets-other (rw inject-nil)

pub all_of-owner :
    (targets : List ℕ) (tenant : String) (row : Row)
    → ((i : ℕ) → row i ≡ tenant)
    → all_of targets tenant row ≡ true
all_of-owner [] tenant row h = refl
all_of-owner (i ∷ is) tenant row h =
    ground (arith, eq_iff (row i) tenant, h i, all_of-owner is tenant row h)
