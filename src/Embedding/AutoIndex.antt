-- ===== src/Embedding/AutoIndex.antt =====
-- workers/executors/embedding.py: `_maybe_submit_index_build`, in the session of the executor.
use lance_laker.Base.{String, ◌++◌, Option, none, some, if◌then◌else◌}
use lance_laker.Json.{get_field, null, str, obj, Fields, end, field}
use lance_laker.Models.{Task, pending, Dataset, Index, Db}
use lance_laker.TaskService.{insert_task}
use lance_laker.Indexes.{IndexSpec, new_index, maybe_get_index, insert_index, build_fields}
use lance_laker.Executors.{Executed, done, raised, Environment, is_truthy, dict_or_empty, bound}
use lance_laker.Executors.Vectorize.{get_or}
use lance_laker.Embedding.{Outside}

-- `None` where nothing is configured, `False`, `True` with the rows that are added, and `None` where a
-- flush has failed, which leaves a session that refuses every further statement.
pub data Submitted : Type 0 where
  not_configured exists : Submitted
  submitted : Db → Submitted
  flush_failed : Submitted

abbrev pub params_or_none : Fields → Option Fields
params_or_none end = none
params_or_none (field k value rest) = some (field k value rest)

abbrev pub auto_spec : Environment → Dataset → String → Fields → IndexSpec
auto_spec env d target_column config = record {
  dataset_uuid = d.dataset_uuid;
  index_name = bound env (get_or "index_name" (str ("idx_" ++ target_column)) config);
  column_name = target_column;
  index_type = bound env (get_or "index_type" (str "IVF_PQ") config);
  params = params_or_none (dict_or_empty (get_field "params" config));
}

abbrev pub auto_index : Outside → Dataset → String → Fields → Index
auto_index o d target_column config =
    new_index (auto_spec o.env d target_column config) o.next_id o.env.now

abbrev pub auto_key : Outside → Index → String
auto_key o x =
    "auto_build:" ++ (x.dataset_uuid ++ ("/" ++ (x.index_name ++ (":" ++ o.str_int x.id))))

abbrev pub auto_task : Outside → Dataset → Index → Task
auto_task o d x = record {
  task_uuid = o.task_uuid;
  task_type = "INDEX_BUILD";
  dataset_uuid = d.dataset_uuid;
  tenant_id = d.tenant_id;
  status = pending;
  priority = 5;
  progress = 0;
  attempt = 0;
  max_attempts = 3;
  worker_id = none;
  idempotency_key = some (auto_key o x);
  params = some (build_fields x);
  result = none;
  error_code = none;
  error_message = none;
  scheduled_at = none;
  started_at = none;
  finished_at = none;
  created_at = o.env.now;
}

-- Two inserts, each with a flush.
abbrev pub add_rows : Outside → Dataset → Index → Db → Submitted
add_rows o d x db = elim (insert_index x db) [
  | none ↦ flush_failed
  | some db' ↦ elim (insert_task (auto_task o d x) db') [
    | none ↦ flush_failed
    | some db'' ↦ submitted db''
  ]
]

unfoldable pub submit_unless_known : Outside → Dataset → Index → Db → Submitted
submit_unless_known o d x db = elim (maybe_get_index x.dataset_uuid x.index_name db) [
  | some old ↦ exists
  | none ↦ add_rows o d x db
]

-- The test of the configuration stands before the `try`: where it is truthy but no dict, `get` raises.
unfoldable pub maybe_submit_index_build :
    Outside → Dataset → String → Fields → Db → Executed Submitted
unfolding submit_unless_known
maybe_submit_index_build o d target_column extra db = elim (get_or "index_config" null extra) [
  | obj config ↦
      if is_truthy (get_or "auto_build" null config)
      then done (submit_unless_known o d (auto_index o d target_column config) db)
      else done not_configured
  | other ↦
      if is_truthy other
      then raised "AttributeError" "the configuration has no attribute 'get'"
      else done not_configured
]
