-- ===== src/Executors/Indexing.antt =====
-- workers/executors/index_build.py and workers/executors/index_optimize.py.
use lance_laker.Base.{
  ℕ, String, ◌+◌, Bool, true, ◌&&◌, Option, none, some, List, [], ◌∷◌, str_eq, if◌then◌else◌,
  select_by, count_by, update_by,
}
use lance_laker.Json.{
  get_field, Json, truth, num, str, arr, obj, Items, nil, cons, Fields, end, field,
}
use lance_laker.Models.{Task, Dataset, Index, ready, is_optimizing}
use lance_laker.Indexes.{maybe_get_index, save_index}
use lance_laker.Executors.{
  Executed, done, raised, ◌>>=◌, Executor, Environment, is_truthy, params_of, dict_or_empty, as_int,
  bound,
}

-- `params.get(key)` where it is truthy.
abbrev pub required : String → Fields → Option Json
required key params = elim (get_field key params) [
  | none ↦ none
  | some value ↦ if is_truthy value then some value else none
]

pub record BuildParams : Type 0 where
  pub index_name : String
  pub column_name : String
  pub index_type : String
  pub index_params : Fields

abbrev missing_params : {A : Type 0} → Executed A
missing_params = raised "ValueError" "INDEX_BUILD task is missing required params"

unfoldable pub read_build_params : Environment → Fields → Executed BuildParams
read_build_params env params = elim (required "index_name" params) [
  | none ↦ missing_params
  | some name ↦ elim (required "column_name" params) [
    | none ↦ missing_params
    | some column ↦ elim (required "index_type" params) [
      | none ↦ missing_params
      | some type ↦ done (record {
        index_name = bound env name;
        column_name = bound env column;
        index_type = bound env type;
        index_params = dict_or_empty (get_field "params" params);
      })
    ]
  ]
]

abbrev pub promoted : ℕ → Index → Index
promoted now x = record x { status = ready; last_optimized_at = some now }

abbrev pub build_payload : Environment → Dataset → BuildParams → Option Json → Bool → Fields
build_payload env d p descriptor pushed = field "executor" (str "IndexBuildExecutor") (
    field "mode" (str (elim descriptor [ none ↦ "stub" | some _ ↦ "real" ])) (
      field "dataset_uuid" (str d.dataset_uuid) (
        field "storage_uri" (str d.storage_uri) (
          field "index_name" (str p.index_name) (
            field "column_name" (str p.column_name) (
              field "index_type" (str p.index_type) (
                field "index_params" (obj p.index_params) (
                  field (elim descriptor [ none ↦ "would_call" | some _ ↦ "lance_descriptor" ])
                    (elim descriptor [
                      | none ↦ str "lance.LanceDataset.create_index"
                      | some value ↦ value
                    ])
                    (field "executed_at" (str (env.isoformat env.now))
                      (field "gravitino_property_pushed" (truth pushed) end))))))))))

-- The call of lance, where an endpoint is configured.
abbrev pub build_on_disk : Environment → Dataset → BuildParams → Executed (Option Json)
build_on_disk env d p =
    if env.has_endpoint
    then (env.create_index d.storage_uri p.column_name p.index_type p.index_params >>= λ descriptor.
        done (some descriptor))
    else done none

unfoldable pub index_build : Environment → Executor
unfolding read_build_params
index_build env t d db = do
  p ← read_build_params env (params_of t)
  elim (maybe_get_index d.dataset_uuid p.index_name db) [
    | none ↦ raised "ValueError" "INDEX_BUILD target index not found"
    | some x ↦ do
      descriptor ← build_on_disk env d p
      done (
        build_payload env d p descriptor
            (env.push_index_properties d p.index_name "READY" p.column_name env.now),
        save_index (promoted env.now x) db,
      )
  ]

-- `_extract_lance_version`.
abbrev pub extract_lance_version : Environment → Task → Option ℕ
extract_lance_version env t = elim (get_field "lance_version" (params_of t)) [
  | none ↦ none
  | some value ↦ as_int env value
]

abbrev pub optimizing_of : String → Index → Bool
optimizing_of dataset_uuid x = str_eq x.dataset_uuid dataset_uuid && is_optimizing x.status

abbrev pub refreshed : ℕ → Option ℕ → Index → Index
refreshed now seen x = record x {
  status = ready;
  last_optimized_at = some now;
  last_seen_version = elim seen [ none ↦ x.last_seen_version | some v ↦ some v ];
}

abbrev pub optimize_on_disk : Environment → Dataset → Executed (Option (ℕ × ℕ))
optimize_on_disk env d =
    if env.has_endpoint
    then (env.optimize_indices d.storage_uri >>= λ found. done (some found))
    else done none

-- The version that the promoted rows have seen: lance's, or else the one of the task's params.
abbrev pub seen_version : Environment → Task → Option (ℕ × ℕ) → Option ℕ
seen_version env t none = extract_lance_version env t
seen_version env t (some (count, version)) = some version

unfoldable pub names_json : List Index → Items
names_json [] = nil
names_json (x ∷ xs) = cons (str x.index_name) (names_json xs)

unfoldable pub pushed_count : Environment → Dataset → List Index → ℕ
pushed_count env d [] = 0
pushed_count env d (x ∷ xs) =
    (if env.push_index_properties d x.index_name "READY" x.column_name env.now then 1 else 0)
    + pushed_count env d xs

abbrev pub lance_fields : Option (ℕ × ℕ) → Fields
lance_fields none = end
lance_fields (some (count, version)) =
    field "lance_index_count" (num count) (field "post_optimize_version" (num version) end)

abbrev pub optimize_payload : Environment → Dataset → List Index → Option (ℕ × ℕ) → Fields
optimize_payload env d rows found = field "executor" (str "IndexOptimizeExecutor") (
    field "mode" (str "real") (
      field "dataset_uuid" (str d.dataset_uuid) (
        field "indexes_promoted" (arr (names_json rows)) (
          field "promoted_count" (num (count_by (λ _. true) rows)) (
            field "executed_at" (str (env.isoformat env.now)) (
              field "gravitino_property_pushed_count" (num (pushed_count env d rows))
                (lance_fields found)))))))

unfoldable pub index_optimize : Environment → Executor
index_optimize env t d db = do
  found ← optimize_on_disk env d
  done (
    optimize_payload env d (select_by (optimizing_of d.dataset_uuid) db.indexes) found,
    record db {
      indexes =
          update_by (optimizing_of d.dataset_uuid) (refreshed env.now (seen_version env t found))
            db.indexes;
    },
  )
