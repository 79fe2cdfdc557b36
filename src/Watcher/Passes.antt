-- ===== src/Watcher/Passes.antt =====
-- services/index_watcher_service.py: the pass over the watched indexes, and the emission of a task.
use lance_laker.Base.{
  ℕ, String, ◌++◌, ◌+◌, Bool, true, false, Option, none, some, List, [], ◌∷◌, holds_text, find_by,
}
use lance_laker.Outcome.{Outcome, ok, ◌>>◌}
use lance_laker.Tenant.{Ctx, require_system_context}
use lance_laker.Json.{Json, null, num, str, field, end}
use lance_laker.Models.{Dataset, Index, Task, pending, Db}
use lance_laker.TaskService.{insert_task}
use lance_laker.Format.{Format}
use lance_laker.Indexes.{maybe_get_index, save_index, optimized}
use lance_laker.Watcher.Candidates.{Candidate, fetch_candidates}
use lance_laker.Watcher.{
  TriggerReason, unindexed_rows, version_drift, stale, Elapsed, past, ahead, TriggerDecision,
  decide_trigger,
}

pub record WatchPassReport : Type 0 where
  pub scanned_indexes : ℕ
  pub enqueued_tasks : ℕ
  pub skipped_no_dataset : ℕ
  pub skipped_below_threshold : ℕ
  pub skipped_open_failed : ℕ
  pub skipped_idempotent : ℕ
  pub emitted_keys : List String

-- What reading an index's statistics gives: an exception, `None`, or the statistics.
pub data ReadStats : Type 0 where
  open_failed gone : ReadStats
  live : Option ℕ → ℕ → ReadStats

-- What a pass meets: the time, what lance reports of an index (by its dataset's URI and its name),
-- the uuids that it draws, and, for a key that another pass commits between this pass's SELECT and
-- its INSERT, the committed state that the rollback then shows.
pub record Surroundings : Type 0 where
  pub now : ℕ
  pub read_stats : String → String → ReadStats
  pub uuid_for : String → String
  pub rival : String → Option Db

abbrev pub reason_text : TriggerReason → String
reason_text unindexed_rows = "unindexed_rows"
reason_text version_drift = "version_drift"
reason_text stale = "stale"

abbrev pub watch_key : Format → ℕ → ℕ → TriggerReason → String
watch_key f id version r =
    "watcher:"
    ++ (f.str_int id ++ (":INDEX_OPTIMIZE:v" ++ (f.str_int version ++ (":" ++ reason_text r))))

abbrev pub rows_json : Option ℕ → Json
rows_json none = null
rows_json (some rows) = num rows

abbrev pub minutes_json : Format → Elapsed → Json
minutes_json f (past ms) = str (f.round_minutes ms)
minutes_json f (ahead ms) = str ("-" ++ f.round_minutes ms)

abbrev pub watch_task :
    Format → String → ℕ → ℕ → TriggerReason → TriggerDecision → Index → Dataset → Task
watch_task f uuid now version r decision x d = record {
  task_uuid = uuid;
  task_type = "INDEX_OPTIMIZE";
  dataset_uuid = d.dataset_uuid;
  tenant_id = d.tenant_id;
  status = pending;
  priority = 5;
  progress = 0;
  attempt = 0;
  max_attempts = 3;
  worker_id = none;
  idempotency_key = some (watch_key f x.id version r);
  params = some (
      field "index_name" (str x.index_name) (
        field "trigger_reason" (str (reason_text r)) (
          field "lance_version" (num version) (
            field "unindexed_rows" (rows_json decision.unindexed_rows) (
              field "version_drift" (num decision.version_drift) (
                field "stale_minutes" (minutes_json f decision.stale_for)
                  (field "source" (str "index_watcher") end)))))));
  result = none;
  error_code = none;
  error_message = none;
  scheduled_at = none;
  started_at = none;
  finished_at = none;
  created_at = now;
}

abbrev pub has_key_text : String → Task → Bool
has_key_text key t = holds_text t.idempotency_key key

-- `base` is the committed state, to which a rollback returns, with what the pass has emitted so far
-- undone.
unfoldable pub try_emit_optimize_task : Surroundings → Db → String → Task → Index → Db → Bool × Db
try_emit_optimize_task env base key t x db = elim (find_by (has_key_text key) db.tasks) [
  | some _ ↦ (false, db)
  | none ↦ elim (env.rival key) [
    | some committed ↦ (false, committed)
    | none ↦ elim (insert_task t (save_index (optimized env.now x) db)) [
      | some db' ↦ (true, db')
      | none ↦ (false, base)
    ]
  ]
]

-- The index of a candidate as the session has it by now.
abbrev pub current : Index → Db → Index
current x db = elim (maybe_get_index x.dataset_uuid x.index_name db) [ none ↦ x | some y ↦ y ]

abbrev pub noted : Bool → String → WatchPassReport → WatchPassReport
noted true key r = record r {
  enqueued_tasks = r.enqueued_tasks + 1;
  emitted_keys = key ∷ r.emitted_keys;
}
noted false key r = record r { skipped_idempotent = r.skipped_idempotent + 1 }

-- What the loop does with a decision. The list of keys is kept last first.
unfoldable pub act :
    Format
    → Surroundings
    → Db
    → Dataset
    → Index
    → ℕ
    → TriggerDecision
    → Option TriggerReason
    → WatchPassReport × Db
    → WatchPassReport × Db
unfolding try_emit_optimize_task
act f env base d x version decision none (r, db) =
    (record r { skipped_below_threshold = r.skipped_below_threshold + 1 }, db)
act f env base d x version decision (some reason) (r, db) =
    let key = watch_key f x.id version reason in
    let tried =
      try_emit_optimize_task env base key
        (watch_task f (env.uuid_for key) env.now version reason decision x d) x db in
    (noted tried.0 key r, tried.1)

unfoldable pub judge :
    Format
    → Surroundings
    → Db
    → Candidate
    → Index
    → ReadStats
    → WatchPassReport × Db
    → WatchPassReport × Db
unfolding act
judge f env base c x open_failed (r, db) =
    (record r { skipped_open_failed = r.skipped_open_failed + 1 }, db)
judge f env base c x gone (r, db) = (record r { skipped_no_dataset = r.skipped_no_dataset + 1 }, db)
judge f env base c x (live rows version) (r, db) =
    let decision =
      decide_trigger
        (record {
          unindexed_rows = rows;
          latest_version = version;
          last_seen_version = x.last_seen_version;
          last_optimized_at = x.last_optimized_at;
          now = env.now;
        })
        c.policy in
    act f env base c.dataset x version decision decision.reason (r, db)

-- The body of the loop, after `scanned_indexes` was raised.
unfoldable pub visit :
    Format → Surroundings → Db → Candidate → WatchPassReport × Db → WatchPassReport × Db
unfolding judge
visit f env base c (r, db) =
    let x = current c.index db in
    judge f env base c x (env.read_stats c.dataset.storage_uri x.index_name) (r, db)

abbrev pub scanned : WatchPassReport → WatchPassReport
scanned r = record r { scanned_indexes = r.scanned_indexes + 1 }

unfoldable pub visit_all :
    Format → Surroundings → Db → List Candidate → WatchPassReport × Db → WatchPassReport × Db
visit_all f env base [] state = state
visit_all f env base (c ∷ cs) (r, db) = visit_all f env base cs (visit f env base c (scanned r, db))

abbrev pub no_report : WatchPassReport
no_report = record {
  scanned_indexes = 0;
  enqueued_tasks = 0;
  skipped_no_dataset = 0;
  skipped_below_threshold = 0;
  skipped_open_failed = 0;
  skipped_idempotent = 0;
  emitted_keys = [];
}

unfoldable pub run_watch_pass :
    Format
    → Surroundings
    → (List Candidate → List Candidate)
    → Ctx
    → Db
    → Outcome (WatchPassReport × Db)
run_watch_pass f env by_name c db = do
  require_system_context c
  ok (visit_all f env db (fetch_candidates by_name db) (no_report, db))
