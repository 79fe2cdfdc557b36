-- ===== src/Tests/Planning.antt =====
-- Witnesses on services/lifecycle_planner_service.py.
use lance_laker.Base.{false, ◌≡◌, refl, none, some, [], ◌∷◌, eq_iff, true}
use lance_laker.Models.{LifecyclePolicy, Db}
use lance_laker.Due.{Surroundings}
use lance_laker.Planner.{Progress, stamp, plan_for_policy}
use lance_laker.Planner.Growth.{IsAlone, IsFresh}
use lance_laker.Planner.Again.{later, stamped, plan_for_policy-again}
use lance_laker.Tests.Indexing.{format, photos}
use lance_laker.Tests.Vectorizing.{with_rule}

abbrev pub nightly_policy : LifecyclePolicy
nightly_policy = record {
  id = 3;
  dataset_uuid = "d-1";
  policy_name = "default";
  tier_rules = none;
  ttl_days = some 30;
  compaction_threshold = none;
  index_optimize_cron = some "0 * * * *";
  index_watch_enabled = false;
  index_watch_min_unindexed_rows = none;
  index_watch_min_version_drift = none;
  index_watch_stale_minutes = none;
  enabled = true;
  last_run_at = none;
  created_at = 2;
}

-- Each uuid is its key.
abbrev pub morning : Surroundings
morning = record {
  now = 5000;
  day_bucket = "20250101";
  hour_bucket = "2025010108";
  uuid_for = λ key. key;
  rival = λ _. none;
}

abbrev nothing_yet : Progress
nothing_yet = record { emitted_tasks = []; skipped_duplicates = 0 }

abbrev planned_db : Db
planned_db = record with_rule { policies = nightly_policy ∷ []; tasks = [] }

alone : IsAlone morning
alone = record { no_rival = λ key. refl; distinct = λ j k same. (eq_iff j k).0 same }

fresh : IsFresh morning planned_db
fresh = tt

abbrev first_pass : Progress × Db
first_pass =
    plan_for_policy format morning planned_db nightly_policy photos (nothing_yet, planned_db)

plan_for_policy-again_example :
    (second : Progress) × (plan_for_policy format
        (later morning 6000 (λ key. key) (λ _. none))
        first_pass.1
        (stamped (some 5000) nightly_policy)
        photos
        (nothing_yet, first_pass.1)
      ≡ (second, stamp 6000 nightly_policy.id first_pass.1))
    × (second.emitted_tasks ≡ nothing_yet.emitted_tasks)
plan_for_policy-again_example =
    plan_for_policy-again format morning planned_db first_pass.1 nightly_policy photos nothing_yet
      first_pass.0 nothing_yet planned_db first_pass.1 6000 (λ key. key) (λ _. none) (some 5000)
      alone fresh refl
