-- ===== src/LanceIo.antt =====
-- data_plane/lance_io.py: the calls of lance. What they change is lance's state, a value of a type that
-- is a parameter, as are a dataset that is open and the transform of a column.
pub mod Calls
pub mod Quiet
pub mod Counting
pub mod Stats
pub mod Search
pub mod Searching
use lance_laker.Base.{
  ℕ, String, Bool, true, false, Option, none, some, List, [], ◌∷◌, str_eq, if◌then◌else◌,
}
use lance_laker.Json.{get_field, Json, null, truth, num, str, obj, Fields, end, field}
use lance_laker.Paging.{length}
use lance_laker.Executors.{Executed, done, raised, CompactionStats}

-- The fields of `Settings` that name the storage.
pub record StorageSettings : Type 0 where
  pub lance_storage_endpoint : String
  pub lance_storage_access_key : String
  pub lance_storage_secret_key : String
  pub lance_storage_region : String
  pub lance_storage_allow_http : Bool
  pub lance_storage_path_style : Bool

abbrev pub flag_text : Bool → String
flag_text b = if b then "true" else "false"

unfoldable pub build_storage_options : StorageSettings → Fields
build_storage_options cfg =
    if str_eq cfg.lance_storage_endpoint ""
    then end
    else field "endpoint" (str cfg.lance_storage_endpoint) (
        field "aws_access_key_id" (str cfg.lance_storage_access_key) (
          field "aws_secret_access_key" (str cfg.lance_storage_secret_key) (
            field "aws_region" (str cfg.lance_storage_region) (
              field "allow_http" (str (flag_text cfg.lance_storage_allow_http)) (
                field "virtual_hosted_style_request"
                  (str (if cfg.lance_storage_path_style then "false" else "true")) end)))))

pub record Column : Type 0 where
  pub name : String
  pub is_string : Bool

-- `ds.search(...)` with what is chained to it.
pub record Query : Type 0 where
  pub vector : List String
  pub vector_column_name : String
  pub limit : ℕ
  pub where_expr : Option String
  pub select : Option (List String)
  pub nprobes : Option ℕ
  pub refine_factor : Option ℕ

-- A call that may change lance's state `W`, and may raise.
abbrev pub Io : Type 0 → Type 0 → Type 0
Io W A = W → Executed A × W

module _ {W A B : Type 0} where
  abbrev pub continue : Executed A × W → (A → Io W B) → Executed B × W
  continue (done a, w) f = f a w
  continue (raised code message, w) f = (raised code message, w)

  abbrev pub followed_by : Io W A → (A → Io W B) → Io W B
  followed_by call f w = continue (call w) f

abbrev pub reading : {W A : Type 0} → Executed A → Io W A
reading answer w = (answer, w)

-- The package `lance`; the two last methods are missing from some versions of it. `dataset` is given
-- the storage options where there are any. An index is known by its name, where its entry has one.
pub record Lance (W D T : Type 0) : Type 0 where
  pub is_installed : Bool
  pub dataset : W → String → Option Fields → Executed D
  pub schema : D → List Column
  pub count_rows : D → Executed ℕ
  pub latest_version : D → ℕ
  pub delete : D → String → Io W (Unit {0})
  pub compact_files : D → Fields → Io W (String → Option ℕ)
  pub optimize_indices : D → Io W (Unit {0})
  pub create_index : D → String → String → Bool → Fields → Io W (Unit {0})
  pub add_columns : D → T → Option (List String) → Io W (Unit {0})
  pub search : D → Query → Executed (List Fields)
  pub list_indices : D → Option (Executed (List (Option String)))
  pub index_statistics : D → Option (String → Executed (Option Fields))

-- `int(getattr(metrics, name, 0) or 0)`; an attribute may be missing or None.
abbrev pub metric : String → (String → Option ℕ) → ℕ
metric name metrics = elim (metrics name) [ none ↦ 0 | some n ↦ n ]

abbrev pub from_lance_metrics : (String → Option ℕ) → CompactionStats
from_lance_metrics metrics = record {
  fragments_removed = metric "fragments_removed" metrics;
  fragments_added = metric "fragments_added" metrics;
  files_removed = metric "files_removed" metrics;
  files_added = metric "files_added" metrics;
}

-- The keyword arguments that are set.
abbrev pub compact_kwargs_of : Option ℕ → Option Bool → Fields
compact_kwargs_of none none = end
compact_kwargs_of (some n) none = field "target_rows_per_fragment" (num n) end
compact_kwargs_of none (some b) = field "materialize_deletions" (truth b) end
compact_kwargs_of (some n) (some b) =
    field "target_rows_per_fragment" (num n) (field "materialize_deletions" (truth b) end)

abbrev pub descriptor : String → String → String → Bool → Fields → Json
descriptor uri column index_type replace index_params = obj (
    field "uri" (str uri) (
      field "column" (str column) (
        field "index_type" (str index_type)
          (field "replace" (truth replace) (field "params" (obj index_params) end)))))

-- `_safe_count_indices`.
abbrev pub safe_count_indices : Option (Executed (List (Option String))) → ℕ
safe_count_indices none = 0
safe_count_indices (some (raised code message)) = 0
safe_count_indices (some (done names)) = length names

module _ {W D T : Type 0} (cfg : StorageSettings) (lance : Lance W D T) where
  abbrev pub options_given : Fields → Option Fields
  options_given end = none
  options_given (field k value rest) = some (field k value rest)

  unfoldable pub open_dataset : String → Option Fields → Io W D
  unfolding build_storage_options
  open_dataset uri storage_options w =
      if lance.is_installed
      then (
        lance.dataset w uri (
            options_given
              (elim storage_options [ none ↦ build_storage_options cfg | some options ↦ options ])),
        w,
      )
      else (raised "LanceNotInstalledError" "pylance is not installed", w)

  unfoldable pub count_rows : String → Option Fields → Io W ℕ
  unfolding open_dataset
  count_rows uri opts = followed_by (open_dataset uri opts) (λ ds. reading (lance.count_rows ds))

  -- A dataset that is open is a snapshot: it is opened again to count.
  unfoldable pub delete_rows : String → String → Option Fields → Io W ℕ
  unfolding open_dataset
  delete_rows uri predicate opts = followed_by (open_dataset uri opts) (λ ds.
      followed_by (lance.delete ds predicate) (λ deleted.
        followed_by (open_dataset uri opts) (λ ds_after. reading (lance.count_rows ds_after))))

  unfoldable pub compact_files :
      String → Option Fields → Option ℕ → Option Bool → Io W CompactionStats
  unfolding open_dataset
  compact_files uri opts target_rows materialize = followed_by (open_dataset uri opts) (λ ds.
      followed_by (lance.compact_files ds (compact_kwargs_of target_rows materialize))
        (λ metrics. reading (done (from_lance_metrics metrics))))

  unfoldable pub optimize_indices : String → Option Fields → Io W (ℕ × ℕ)
  unfolding open_dataset
  optimize_indices uri opts = followed_by (open_dataset uri opts) (λ ds.
      followed_by (lance.optimize_indices ds) (λ optimized.
        followed_by (open_dataset uri opts) (λ ds_after. reading (
          done (safe_count_indices (lance.list_indices ds_after), lance.latest_version ds_after)))))

  unfoldable pub create_index : String → String → String → Option Fields → Bool → Fields → Io W Json
  unfolding open_dataset
  create_index uri column index_type opts replace index_params =
      followed_by (open_dataset uri opts) (λ ds.
        followed_by (lance.create_index ds column index_type replace index_params)
          (λ created. reading (done (descriptor uri column index_type replace index_params))))

  unfoldable pub add_columns_from_func : String → T → Option (List String) → Option Fields → Io W ℕ
  unfolding open_dataset
  add_columns_from_func uri transforms read_columns opts =
      followed_by (open_dataset uri opts) (λ ds.
        followed_by (lance.add_columns ds transforms read_columns) (λ added.
          followed_by (open_dataset uri opts) (λ ds_after. reading (lance.count_rows ds_after))))

  unfoldable pub read_dataset_schema : String → Option Fields → Io W (List Column)
  unfolding open_dataset
  read_dataset_schema uri opts =
      followed_by (open_dataset uri opts) (λ ds. reading (done (lance.schema ds)))
