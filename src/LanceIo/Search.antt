-- ===== src/LanceIo/Search.antt =====
-- data_plane/lance_io.py, `vector_search`, and services/search_service.py.
use lance_laker.Base.{
  ℕ, String, ◌++◌, Bool, false, ◌||◌, Option, some, List, [], ◌∷◌, map, str_eq, if◌then◌else◌,
}
use lance_laker.Outcome.{Outcome, ok, err, Error}
use lance_laker.Tenant.{Ctx}
use lance_laker.Models.{Dataset, Db}
use lance_laker.Json.{Fields}
use lance_laker.Datasets.{get_dataset}
use lance_laker.Executors.{Executed, done, raised}
use lance_laker.LanceIo.{
  StorageSettings, build_storage_options, Column, Query, Lance, Io, followed_by, reading,
  open_dataset,
}

-- What Python makes of texts: `sub in text`, `lower`, `repr` of a text and of the sorted names, and
-- whether a class is `ValueError` or below it.
pub record Python : Type 0 where
  pub contains : String → String → Bool
  pub lower : String → String
  pub repr : String → String
  pub repr_sorted : List String → String
  pub is_value_error : String → Bool

-- The arguments of a search beside the dataset.
pub record SearchArgs : Type 0 where
  pub vector : List String
  pub column : String
  pub k : ℕ
  pub filter_expr : Option String
  pub select_columns : Option (List String)
  pub nprobes : Option ℕ
  pub refine_factor : Option ℕ

unfoldable pub has_column : String → List Column → Bool
has_column name [] = false
has_column name (c ∷ cs) = str_eq c.name name || has_column name cs

abbrev pub query_of : SearchArgs → Query
query_of a = record {
  vector = a.vector;
  vector_column_name = a.column;
  limit = a.k;
  where_expr = a.filter_expr;
  select = a.select_columns;
  nprobes = a.nprobes;
  refine_factor = a.refine_factor;
}

abbrev pub names_of : List Column → List String
names_of cs = map (λ c. c.name) cs

abbrev pub missing_column : Python → String → List Column → String
missing_column py column schema =
    ("Vector column " ++ (py.repr column ++ " "))
    ++ ("not found in dataset schema" ++ ("; available=" ++ py.repr_sorted (names_of schema)))

-- `ColumnNotFoundError`, `DimensionMismatchError`, an error of the dataset service, or another one.
pub data Searched : Type 0 where
  rows : List Fields → Searched
  column_not_found dimension_mismatch : String → Searched
  refused : Error → Searched
  broken : String → String → Searched

-- The `except` clause.
abbrev pub translated : Python → Executed (List Fields) → Searched
translated py (done found) = rows found
translated py (raised code message) =
    if py.is_value_error code
    then (if py.contains "not found in dataset schema" message
        then column_not_found message
        else if py.contains "dimension" (py.lower message)
        then dimension_mismatch message
        else broken code message)
    else broken code message

module _ {W D T : Type 0} (cfg : StorageSettings) (lance : Lance W D T) (py : Python) where
  abbrev pub ask : SearchArgs → D → Executed (List Fields)
  ask a ds =
      if has_column a.column (lance.schema ds)
      then lance.search ds (query_of a)
      else raised "ValueError" (missing_column py a.column (lance.schema ds))

  unfoldable pub vector_search : String → SearchArgs → Option Fields → Io W (List Fields)
  unfolding open_dataset has_column
  vector_search uri a opts =
      followed_by (open_dataset cfg lance uri opts) (λ ds. reading (ask a ds))

  abbrev pub search_at : String → SearchArgs → W → Searched × W
  search_at uri a w =
      let (found, w') = vector_search uri a (some (build_storage_options cfg)) w in
      (translated py found, w')

  abbrev pub search_in : Outcome Dataset → SearchArgs → W → Searched × W
  search_in (err e) a w = (refused e, w)
  search_in (ok d) a w = search_at d.storage_uri a w

  unfoldable pub search : Ctx → String → SearchArgs → Db → W → Searched × W
  unfolding vector_search get_dataset build_storage_options
  search c dataset_uuid a db w = search_in (get_dataset c dataset_uuid db) a w
