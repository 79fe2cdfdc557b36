-- ===== src/Indexes.antt =====
-- services/index_service.py: the metadata of the vector indexes. A call that changes a row commits,
-- submits a task, and undoes its change of state where the submission raises; it returns what it
-- returns to the caller together with the state that it leaves, since it commits before it raises.
-- No other transaction commits within a call.
pub mod Isolation
pub mod Submitting
pub mod Pairing
pub mod Merging
use lance_laker.Base.{
  ℕ, String, ◌++◌, Bool, true, false, not, ◌&&◌, Option, none, some, List, [], ◌∷◌, str_eq,
  if◌then◌else◌, find_by, select_by, put_by,
}
use lance_laker.Outcome.{
  Error, Outcome, ok, err, ◌>>=◌, ◌>>◌, raise_if, index_not_found, index_exists, index_transition,
}
use lance_laker.Tenant.{Ctx}
use lance_laker.Json.{Json, str, obj, Fields, field, end}
use lance_laker.Models.{
  Dataset, Index, IndexStatus, building, ready, optimizing, merging, failed, dropped, is_ready,
  is_dropped, Task, Db,
}
use lance_laker.Session.{or_raise}
use lance_laker.TaskService.{Submission, submit_task}
use lance_laker.Format.{Format}
use lance_laker.Datasets.{get_dataset}

-- What the caller of `create_index` gives.
pub record IndexSpec : Type 0 where
  pub dataset_uuid : String
  pub index_name : String
  pub column_name : String
  pub index_type : String
  pub params : Option Fields

-- The uuid and the time of the task that a call submits.
pub record Stamp : Type 0 where
  pub task_uuid : String
  pub now : ℕ

abbrev pub index_at : String → String → Index → Bool
index_at dataset_uuid index_name x =
    str_eq x.dataset_uuid dataset_uuid && str_eq x.index_name index_name

abbrev pub save_index : Index → Db → Db
save_index x db = record db { indexes = put_by (index_at x.dataset_uuid x.index_name) x db.indexes }

abbrev pub maybe_get_index : String → String → Db → Option Index
maybe_get_index dataset_uuid index_name db = find_by (index_at dataset_uuid index_name) db.indexes

unfoldable pub get_index : Ctx → String → String → Db → Outcome Index
get_index c dataset_uuid index_name db = do
  get_dataset c dataset_uuid db
  or_raise (maybe_get_index dataset_uuid index_name db) index_not_found

-- `id` is the next of the column's AUTO_INCREMENT.
abbrev pub new_index : IndexSpec → ℕ → ℕ → Index
new_index s id now = record {
  id = id;
  dataset_uuid = s.dataset_uuid;
  index_name = s.index_name;
  column_name = s.column_name;
  index_type = s.index_type;
  params = s.params;
  status = building;
  coverage = 0;
  fragment_count = 0;
  delta_count = 0;
  last_optimized_at = none;
  last_merged_at = none;
  last_seen_version = none;
  error_message = none;
  created_at = now;
}

-- `replace_if_exists`: the old row is deleted.
unfoldable pub make_room : Bool → String → String → Db → Db
make_room replace dataset_uuid index_name db =
    if replace
    then record db {
      indexes = select_by (λ x. not (index_at dataset_uuid index_name x)) db.indexes;
    }
    else db

-- The flush of a new row: `(dataset_uuid, index_name)` is UNIQUE.
unfoldable pub insert_index : Index → Db → Option Db
insert_index x db = elim (maybe_get_index x.dataset_uuid x.index_name db) [
  | some _ ↦ none
  | none ↦ some (record db { indexes = x ∷ db.indexes })
]

abbrev pub build_key : Format → Index → String
build_key f x = "build:" ++ (x.dataset_uuid ++ ("/" ++ (x.index_name ++ (":" ++ f.str_int x.id))))

abbrev pub params_or_empty : Option Fields → Fields
params_or_empty none = end
params_or_empty (some fields) = fields

abbrev pub build_fields : Index → Fields
build_fields x = field "index_name" (str x.index_name) (
    field "column_name" (str x.column_name)
      (field "index_type" (str x.index_type) (field "params" (obj (params_or_empty x.params)) end)))

abbrev pub build_task : Format → Index → Submission
build_task f x = record {
  task_type = "INDEX_BUILD";
  dataset_uuid = x.dataset_uuid;
  priority = 5;
  params = some (build_fields x);
  idempotency_key = some (build_key f x);
  max_attempts = 3;
}

abbrev pub submission_failed : Format → IndexStatus → Error → Index → Index
submission_failed f status e x = record x {
  status = status;
  error_message = some ("task submission failed: " ++ f.str_exc e);
}

-- The `try` around the submission: where it raises, the row gets the status `fallback`.
unfoldable pub submit_or_fall_back :
    Format → Ctx → Stamp → Submission → IndexStatus → Index → Db → Outcome Index × Db
submit_or_fall_back f c stamp s fallback x db =
    elim (submit_task c (λ d. d) stamp.task_uuid stamp.now s db) [
      | ok created ↦ (ok x, created.2)
      | err e ↦ (err e, save_index (submission_failed f fallback e x) db)
    ]

unfoldable pub create_index : Format → Ctx → Stamp → ℕ → Bool → IndexSpec → Db → Outcome Index × Db
create_index f c stamp id replace s db =
    let x = new_index s id stamp.now in
    elim (get_dataset c s.dataset_uuid db) [
      | err e ↦ (err e, db)
      | ok _ ↦ elim (insert_index x (make_room replace s.dataset_uuid s.index_name db)) [
        | none ↦ (err index_exists, db)
        | some db' ↦ submit_or_fall_back f c stamp (build_task f x) failed x db'
      ]
    ]

-- `list_indexes` without its order.
unfoldable pub list_indexes : Ctx → String → Db → Outcome (List Index)
list_indexes c dataset_uuid db = do
  get_dataset c dataset_uuid db
  ok (select_by (λ x. str_eq x.dataset_uuid dataset_uuid) db.indexes)

unfoldable pub drop_index : Ctx → String → String → Db → Outcome Db
drop_index c dataset_uuid index_name db = do
  x ← get_index c dataset_uuid index_name db
  if is_dropped x.status then ok db else ok (save_index (record x { status = dropped }) db)

abbrev pub optimize_key : Format → ℕ → Index → String
optimize_key f at x =
    "optimize:"
    ++ (x.dataset_uuid
        ++ ("/" ++ (x.index_name ++ (":" ++ (f.str_int x.id ++ (":" ++ f.isoformat at))))))

abbrev pub optimize_task : Format → ℕ → Index → Submission
optimize_task f at x = record {
  task_type = "INDEX_OPTIMIZE";
  dataset_uuid = x.dataset_uuid;
  priority = 5;
  params = some (field "index_name" (str x.index_name) end);
  idempotency_key = some (optimize_key f at x);
  max_attempts = 3;
}

abbrev pub optimized : ℕ → Index → Index
optimized at x = record x { status = optimizing; last_optimized_at = some at }

unfoldable pub optimize_index : Format → Ctx → Stamp → ℕ → String → String → Db → Outcome Index × Db
optimize_index f c stamp at dataset_uuid index_name db =
    elim (get_index c dataset_uuid index_name db) [
      | err e ↦ (err e, db)
      | ok x ↦
          if is_ready x.status
          then submit_or_fall_back f c stamp (optimize_task f at x) ready (optimized at x)
              (save_index (optimized at x) db)
          else (err index_transition, db)
    ]

abbrev pub merged : ℕ → Index → Index
merged at x = record x { status = merging; last_merged_at = some at }

unfoldable pub merge_index : Ctx → ℕ → String → String → Db → Outcome (Index × Db)
merge_index c at dataset_uuid index_name db = do
  x ← get_index c dataset_uuid index_name db
  raise_if (not (is_ready x.status)) index_transition
  ok (merged at x, save_index (merged at x) db)
