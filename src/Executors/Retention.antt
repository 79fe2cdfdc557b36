-- ===== src/Executors/Retention.antt =====
-- workers/executors/ttl_delete.py and workers/executors/compaction.py: executors that write no row.
use lance_laker.Base.{ℕ, String, ◌++◌, ◌||◌, Bool, Option, none, some, str_eq, if◌then◌else◌}
use lance_laker.Json.{
  get_field, Json, null, num, str, arr, obj, Items, nil, cons, Fields, end, field,
}
use lance_laker.Models.{Task, Dataset}
use lance_laker.Executors.{
  Executed, done, raised, ◌>>=◌, Executor, Environment, CompactionStats, params_of, dict_or_empty,
  as_int,
}

abbrev pub ttl_payload : Environment → Dataset → Json → String → Option (String × ℕ) → Fields
ttl_payload env d ttl preview none = field "executor" (str "TtlDeleteExecutor") (
    field "mode" (str "stub") (
      field "dataset_uuid" (str d.dataset_uuid) (
        field "storage_uri" (str d.storage_uri) (
          field "ttl_days" ttl (
            field "predicate_preview" (str preview) (
              field "would_call" (str "lance.LanceDataset.delete")
                (field "executed_at" (str (env.isoformat env.now)) end)))))))
ttl_payload env d ttl preview (some (predicate, rows_after)) =
    field "executor" (str "TtlDeleteExecutor") (
      field "mode" (str "real") (
        field "dataset_uuid" (str d.dataset_uuid) (
          field "storage_uri" (str d.storage_uri) (
            field "ttl_days" ttl (
              field "predicate" (str predicate) (
                field "predicate_preview" (str preview) (
                  field "rows_after" (num rows_after)
                    (field "executed_at" (str (env.isoformat env.now)) end))))))))

-- What the executor deletes, with the cutoff that it has computed.
abbrev pub ttl_predicate : String → String
ttl_predicate cutoff = "created_at < timestamp '" ++ (cutoff ++ "'")

abbrev pub ttl_preview : Environment → Json → String
ttl_preview env ttl = "created_at < (now - INTERVAL " ++ (env.str_json ttl ++ " DAY)")

abbrev pub delete_on_disk : Environment → Dataset → Json → String → Executed Fields
delete_on_disk env d ttl cutoff =
    if env.has_endpoint
    then (env.delete_rows d.storage_uri (ttl_predicate cutoff) >>= λ rows.
        done (ttl_payload env d ttl (ttl_preview env ttl) (some (ttl_predicate cutoff, rows))))
    else done (ttl_payload env d ttl (ttl_preview env ttl) none)

-- `params.get("ttl_days")`, where it is not None.
abbrev pub ttl_days_of : Task → Option Json
ttl_days_of t = elim (get_field "ttl_days" (params_of t)) [
  | none ↦ none
  | some null ↦ none
  | some ttl ↦ some ttl
]

-- What `int(value)` raises.
abbrev pub int_error : Json → String
int_error (arr items) = "TypeError"
int_error (obj fields) = "TypeError"
int_error _ = "ValueError"

unfoldable pub ttl_delete : Environment → Executor
ttl_delete env t d db = elim (ttl_days_of t) [
  | none ↦ raised "ValueError" "TTL_DELETE task is missing 'ttl_days' in params"
  | some ttl ↦ elim (as_int env ttl) [
    | none ↦ raised (int_error ttl) "ttl_days is no integer"
    | some days ↦ elim (env.iso_days_before env.now days) [
      | none ↦ raised "OverflowError" "date value out of range"
      | some cutoff ↦ delete_on_disk env d ttl cutoff >>= λ payload. done (payload, db)
    ]
  ]
]

-- `_LANCE_COMPACT_KWARGS`.
abbrev pub is_compact_kwarg : String → Bool
is_compact_kwarg k = str_eq k "target_rows_per_fragment" || str_eq k "materialize_deletions"

unfoldable pub compact_kwargs : Fields → Fields
compact_kwargs end = end
compact_kwargs (field k value rest) =
    let others = compact_kwargs rest in if is_compact_kwarg k then field k value others else others

-- `ignored_threshold_keys`, without the order.
unfoldable pub ignored_keys : Fields → Items
ignored_keys end = nil
ignored_keys (field k value rest) =
    let others = ignored_keys rest in if is_compact_kwarg k then others else cons (str k) others

abbrev pub stats_json : CompactionStats → Json
stats_json s = obj (
    field "fragments_removed" (num s.fragments_removed) (
      field "fragments_added" (num s.fragments_added) (
        field "files_removed" (num s.files_removed) (field "files_added" (num s.files_added) end))))

abbrev pub compaction_payload : Environment → Dataset → Fields → Option CompactionStats → Fields
compaction_payload env d threshold none = field "executor" (str "CompactionExecutor") (
    field "mode" (str "stub") (
      field "dataset_uuid" (str d.dataset_uuid) (
        field "storage_uri" (str d.storage_uri) (
          field "threshold" (obj threshold) (
            field "would_call" (str "lance.LanceDataset.optimize.compact_files")
              (field "executed_at" (str (env.isoformat env.now)) end))))))
compaction_payload env d threshold (some stats) = field "executor" (str "CompactionExecutor") (
    field "mode" (str "real") (
      field "dataset_uuid" (str d.dataset_uuid) (
        field "storage_uri" (str d.storage_uri) (
          field "threshold" (obj threshold) (
            field "ignored_threshold_keys" (arr (ignored_keys threshold)) (
              field "stats" (stats_json stats)
                (field "executed_at" (str (env.isoformat env.now)) end)))))))

unfoldable pub compaction : Environment → Executor
unfolding compact_kwargs ignored_keys
compaction env t d db =
    let threshold = dict_or_empty (get_field "threshold" (params_of t)) in
    if env.has_endpoint
    then (env.compact_files d.storage_uri (compact_kwargs threshold) >>= λ stats.
        done (compaction_payload env d threshold (some stats), db))
    else done (compaction_payload env d threshold none, db)
