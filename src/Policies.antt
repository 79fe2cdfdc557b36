-- ===== src/Policies.antt =====
-- services/lifecycle_service.py: the lifecycle policies of a dataset. Every call is one transaction; a
-- row that a call writes is the row that its SELECT has returned.
pub mod Isolation
pub mod Roundtrip
use lance_laker.Base.{
  ℕ, String, Bool, true, false, not, ◌&&◌, Option, none, some, List, ◌∷◌, str_eq, same_flag,
  if◌then◌else◌, find_by, select_by, put_by,
}
use lance_laker.Outcome.{Outcome, ok, err, ◌>>=◌, ◌>>◌, integrity, policy_not_found, policy_exists}
use lance_laker.Tenant.{Ctx}
use lance_laker.Json.{Fields}
use lance_laker.Models.{LifecyclePolicy, Db}
use lance_laker.Paging.{length}
use lance_laker.Session.{or_raise}
use lance_laker.Datasets.{get_dataset}
use lance_laker.Patch.{Patch, patched, patched_required}

pub record PolicyCreateRequest : Type 0 where
  pub policy_name : String
  pub tier_rules : Option Fields
  pub ttl_days : Option ℕ
  pub compaction_threshold : Option Fields
  pub index_optimize_cron : Option String
  pub index_watch_enabled : Bool
  pub index_watch_min_unindexed_rows : Option ℕ
  pub index_watch_min_version_drift : Option ℕ
  pub index_watch_stale_minutes : Option ℕ
  pub enabled : Bool

pub record PolicyUpdateRequest : Type 0 where
  pub tier_rules : Patch Fields
  pub ttl_days : Patch ℕ
  pub compaction_threshold : Patch Fields
  pub index_optimize_cron : Patch String
  pub index_watch_enabled : Patch Bool
  pub index_watch_min_unindexed_rows : Patch ℕ
  pub index_watch_min_version_drift : Patch ℕ
  pub index_watch_stale_minutes : Patch ℕ

abbrev pub policy_at : String → String → LifecyclePolicy → Bool
policy_at dataset_uuid name p = str_eq p.dataset_uuid dataset_uuid && str_eq p.policy_name name

abbrev pub save_policy : LifecyclePolicy → Db → Db
save_policy p db = record db {
  policies = put_by (policy_at p.dataset_uuid p.policy_name) p db.policies;
}

-- `id` is the next of the column's AUTO_INCREMENT.
abbrev pub new_policy : String → PolicyCreateRequest → ℕ → ℕ → LifecyclePolicy
new_policy dataset_uuid r id now = record {
  id = id;
  dataset_uuid = dataset_uuid;
  policy_name = r.policy_name;
  tier_rules = r.tier_rules;
  ttl_days = r.ttl_days;
  compaction_threshold = r.compaction_threshold;
  index_optimize_cron = r.index_optimize_cron;
  index_watch_enabled = r.index_watch_enabled;
  index_watch_min_unindexed_rows = r.index_watch_min_unindexed_rows;
  index_watch_min_version_drift = r.index_watch_min_version_drift;
  index_watch_stale_minutes = r.index_watch_stale_minutes;
  enabled = r.enabled;
  last_run_at = none;
  created_at = now;
}

abbrev pub maybe_get_policy : String → String → Db → Option LifecyclePolicy
maybe_get_policy dataset_uuid name db = find_by (policy_at dataset_uuid name) db.policies

-- The flush of a new row: `(dataset_uuid, policy_name)` is UNIQUE.
unfoldable pub insert_policy : LifecyclePolicy → Db → Outcome Db
insert_policy p db = elim (maybe_get_policy p.dataset_uuid p.policy_name db) [
  | some _ ↦ err policy_exists
  | none ↦ ok (record db { policies = p ∷ db.policies })
]

unfoldable pub create_policy :
    Ctx → ℕ → ℕ → String → PolicyCreateRequest → Db → Outcome (LifecyclePolicy × Db)
create_policy c id now dataset_uuid r db = do
  get_dataset c dataset_uuid db
  db' ← insert_policy (new_policy dataset_uuid r id now) db
  ok (new_policy dataset_uuid r id now, db')

unfoldable pub get_policy : Ctx → String → String → Db → Outcome LifecyclePolicy
get_policy c dataset_uuid name db = do
  get_dataset c dataset_uuid db
  or_raise (maybe_get_policy dataset_uuid name db) policy_not_found

-- `newest_first` is the database's `ORDER BY created_at DESC`.
unfoldable pub list_policies :
    (List LifecyclePolicy → List LifecyclePolicy)
    → Ctx
    → String
    → Db
    → Outcome (List LifecyclePolicy × ℕ)
list_policies newest_first c dataset_uuid db = do
  get_dataset c dataset_uuid db
  let items = newest_first (select_by (λ p. str_eq p.dataset_uuid dataset_uuid) db.policies)
  ok (items, length items)

-- The row after the `setattr`s; `none` where a NOT NULL column is null.
abbrev pub apply_policy_update : PolicyUpdateRequest → LifecyclePolicy → Option LifecyclePolicy
apply_policy_update u p = elim (patched_required u.index_watch_enabled p.index_watch_enabled) [
  | none ↦ none
  | some watched ↦ some (record p {
    tier_rules = patched u.tier_rules p.tier_rules;
    ttl_days = patched u.ttl_days p.ttl_days;
    compaction_threshold = patched u.compaction_threshold p.compaction_threshold;
    index_optimize_cron = patched u.index_optimize_cron p.index_optimize_cron;
    index_watch_enabled = watched;
    index_watch_min_unindexed_rows =
        patched u.index_watch_min_unindexed_rows p.index_watch_min_unindexed_rows;
    index_watch_min_version_drift =
        patched u.index_watch_min_version_drift p.index_watch_min_version_drift;
    index_watch_stale_minutes = patched u.index_watch_stale_minutes p.index_watch_stale_minutes;
  })
]

unfoldable pub update_policy :
    Ctx → String → String → PolicyUpdateRequest → Db → Outcome (LifecyclePolicy × Db)
update_policy c dataset_uuid name u db = do
  p ← get_policy c dataset_uuid name db
  p' ← or_raise (apply_policy_update u p) integrity
  ok (p', save_policy p' db)

unfoldable pub delete_policy : Ctx → String → String → Db → Outcome Db
delete_policy c dataset_uuid name db = do
  p ← get_policy c dataset_uuid name db
  ok (record db {
    policies = select_by (λ q. not (policy_at p.dataset_uuid p.policy_name q)) db.policies;
  })

unfoldable pub set_enabled : Ctx → String → String → Bool → Db → Outcome (LifecyclePolicy × Db)
set_enabled c dataset_uuid name enabled db = do
  p ← get_policy c dataset_uuid name db
  let p' = record p { enabled = enabled }
  if same_flag p.enabled enabled then ok (p, db) else ok (p', save_policy p' db)
