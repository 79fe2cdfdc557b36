-- ===== src/Tests/Watching.antt =====
-- Witnesses on services/index_watcher_service.py.
use lance_laker.Base.{◌≡◌, ◌⊎◌, refl, true, false, none, some, [], ◌∷◌, find_by, put_by}
use lance_laker.Models.{LifecyclePolicy, Task, Db}
use lance_laker.TaskService.{insert_task}
use lance_laker.Indexes.{optimized, save_index}
use lance_laker.Watcher.{
  unindexed_rows, version_drift, stale, past, Signals, TriggerDecision, decide_trigger,
}
use lance_laker.Watcher.Trigger.{Crosses, decide_trigger_lem}
use lance_laker.Watcher.Passes.{Surroundings, live, try_emit_optimize_task, watch_task, watch_key}
use lance_laker.Watcher.Report.{try_emit-once}
use lance_laker.Tests.Indexing.{format, photos, ready_index, library}

abbrev watched : LifecyclePolicy
watched = record {
  id = 3;
  dataset_uuid = "d-1";
  policy_name = "default";
  tier_rules = none;
  ttl_days = none;
  compaction_threshold = none;
  index_optimize_cron = none;
  index_watch_enabled = true;
  index_watch_min_unindexed_rows = some 1000;
  index_watch_min_version_drift = some 5;
  index_watch_stale_minutes = some 60;
  enabled = true;
  last_run_at = none;
  created_at = 2;
}

abbrev signals : Signals
signals = record {
  unindexed_rows = some 10;
  latest_version = 9;
  last_seen_version = some 2;
  last_optimized_at = none;
  now = 5000;
}

-- Ten rows are too few, seven versions are enough.
drifted : (decide_trigger signals watched).reason ≡ some version_drift
unfolding decide_trigger
drifted = refl

decide_trigger_lem_example :
    (((decide_trigger signals watched).reason ≡ some unindexed_rows)
      × Crosses unindexed_rows signals watched)
    ⊎ ((((decide_trigger signals watched).reason ≡ some version_drift)
          × Crosses version_drift signals watched
          × (Crosses unindexed_rows signals watched → ⊥))
        ⊎ ((((decide_trigger signals watched).reason ≡ some stale)
              × Crosses stale signals watched
              × (Crosses unindexed_rows signals watched → ⊥)
              × (Crosses version_drift signals watched → ⊥))
            ⊎ (((decide_trigger signals watched).reason ≡ none)
                × (Crosses unindexed_rows signals watched → ⊥)
                × (Crosses version_drift signals watched → ⊥)
                × (Crosses stale signals watched → ⊥))))
decide_trigger_lem_example = decide_trigger_lem signals watched

abbrev env : Surroundings
env = record {
  now = 5000;
  read_stats = λ _ _. live (some 2000) 9;
  uuid_for = λ key. key;
  rival = λ _. none;
}

abbrev watched_library : Db
watched_library = record library { policies = watched ∷ [] }

abbrev decision : TriggerDecision
decision = record {
  reason = some unindexed_rows;
  unindexed_rows = some 2000;
  version_drift = 9;
  stale_for = past 0;
}

abbrev emitted : Task
emitted = watch_task format "t-w" 5000 9 unindexed_rows decision ready_index photos

abbrev after_emission : Db
after_emission = record (save_index (optimized 5000 ready_index) watched_library) {
  tasks = emitted ∷ watched_library.tasks;
}

first_emission :
    try_emit_optimize_task env watched_library
      (watch_key format 7 9 unindexed_rows)
      emitted
      ready_index
      watched_library
    ≡ (true, after_emission)
unfolding try_emit_optimize_task insert_task find_by put_by
first_emission = refl

try_emit-once_example :
    try_emit_optimize_task env after_emission
      (watch_key format 7 9 unindexed_rows)
      emitted
      ready_index
      after_emission
    ≡ (false, after_emission)
try_emit-once_example =
    try_emit-once env env watched_library after_emission watched_library after_emission
      (watch_key format 7 9 unindexed_rows) emitted emitted ready_index ready_index refl
      first_emission
