-- ===== src/Tests/Policies.antt =====
-- Witnesses on services/lifecycle_service.py.
use lance_laker.Base.{true, false, none, some, [], ◌∷◌}
use lance_laker.Models.{LifecyclePolicy, Db}
use lance_laker.Patch.{unset, given}
use lance_laker.Policies.{PolicyCreateRequest, PolicyUpdateRequest, new_policy}
use lance_laker.Tests.Indexing.{library}

abbrev monthly : PolicyCreateRequest
monthly = record {
  policy_name = "monthly";
  tier_rules = none;
  ttl_days = some 30;
  compaction_threshold = none;
  index_optimize_cron = none;
  index_watch_enabled = false;
  index_watch_min_unindexed_rows = some 1000;
  index_watch_min_version_drift = some 1;
  index_watch_stale_minutes = some 30;
  enabled = true;
}

-- Clears `ttl_days` and sets the cron expression.
abbrev change : PolicyUpdateRequest
change = record {
  tier_rules = unset;
  ttl_days = given none;
  compaction_threshold = unset;
  index_optimize_cron = given (some "0 * * * *");
  index_watch_enabled = unset;
  index_watch_min_unindexed_rows = unset;
  index_watch_min_version_drift = unset;
  index_watch_stale_minutes = unset;
}

abbrev created : LifecyclePolicy
created = new_policy "d-1" monthly 3 50

abbrev with_policy : Db
with_policy = record library { policies = created ∷ [] }

abbrev changed : LifecyclePolicy
changed = record created { ttl_days = none; index_optimize_cron = some "0 * * * *" }
