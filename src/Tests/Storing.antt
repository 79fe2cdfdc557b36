-- ===== src/Tests/Storing.antt =====
-- Witnesses on data_plane/lance_io.py and services/search_service.py: a lance whose one dataset is a
-- list of rows.
use lance_laker.Base.{
  String, ◌≡◌, ◌⊎◌, refl, Bool, true, false, not, none, some, List, [], ◌∷◌, str_eq, select_by,
  count_by,
}
use lance_laker.Outcome.{Error, err}
use lance_laker.Models.{Dataset}
use lance_laker.Paging.{length}
use lance_laker.Datasets.{get_dataset}
use lance_laker.Datasets.Isolation.{IsOwnDataset}
use lance_laker.Executors.{done}
use lance_laker.LanceIo.{
  StorageSettings, build_storage_options, Lance, delete_rows, optimize_indices,
}
use lance_laker.LanceIo.Counting.{IsLance, delete_rows-counts}
use lance_laker.LanceIo.Search.{Python, SearchArgs, refused, translated, vector_search, search}
use lance_laker.LanceIo.Searching.{search-IsOwnDataset}
use lance_laker.Embedding.{Udf}
use lance_laker.Tests.Fixtures.{request, ann}
use lance_laker.Tests.Indexing.{library}

abbrev pub storage : StorageSettings
storage = record {
  lance_storage_endpoint = "http://minio";
  lance_storage_access_key = "key";
  lance_storage_secret_key = "secret";
  lance_storage_region = "eu";
  lance_storage_allow_http = true;
  lance_storage_path_style = true;
}

abbrev rows_at : List String → String → List String
rows_at w uri = w

abbrev is_row : String → String → Bool
is_row predicate row = str_eq row predicate

abbrev without : String → List String → List String
without predicate w = select_by (λ r. not (is_row predicate r)) w

abbrev pub table : Lance (List String) (List String) Udf
table = record {
  is_installed = true;
  dataset = λ w uri options. done w;
  schema = λ ds. record { name = "title"; is_string = true } ∷ [];
  count_rows = λ ds. done (length ds);
  latest_version = λ ds. 8;
  delete = λ ds predicate w. (done tt, without predicate ds);
  compact_files = λ ds kwargs w. (done (λ _. none), w);
  optimize_indices = λ ds w. (done tt, w);
  create_index = λ ds column type replace params w. (done tt, w);
  add_columns = λ ds transforms columns w. (done tt, w);
  search = λ ds query. done [];
  list_indices = λ ds. some (done (some "vectors" ∷ []));
  index_statistics = λ ds. none;
}

table-IsLance : IsLance table rows_at is_row
table-IsLance = record {
  snapshot = λ w uri. w;
  installed = refl;
  opens = λ w uri options. refl;
  counts = λ w uri. refl;
  commit = λ w uri predicate. without predicate w;
  deletes = λ w uri predicate. refl;
  commits = λ w uri predicate. refl;
}

abbrev pub three : List String
three = "a" ∷ "b" ∷ "a" ∷ []

delete_rows-counts_example :
    (w' : List String) × (delete_rows storage table "s3://acme/photos" "a" none three
      ≡ (done (count_by (λ r. not (is_row "a" r)) three), w'))
    × (w' ≡ without "a" three)
delete_rows-counts_example =
    delete_rows-counts storage table rows_at is_row three "s3://acme/photos" "a" none table-IsLance

abbrev python : Python
python = record {
  contains = λ sub text. false;
  lower = λ s. s;
  repr = λ s. s;
  repr_sorted = λ names. "";
  is_value_error = λ code. true;
}

abbrev ask_title : SearchArgs
ask_title = record {
  vector = "1.0" ∷ [];
  column = "title";
  k = 10;
  filter_expr = none;
  select_columns = none;
  nprobes = none;
  refine_factor = none;
}

search-IsOwnDataset_example :
    ((e : Error) × (get_dataset request "d-1" library ≡ err e)
      × (search storage table python request "d-1" ask_title library three ≡ (refused e, three)))
    ⊎ ((d : Dataset) × IsOwnDataset ann "d-1" library d
        × (search storage table python request "d-1" ask_title library three ≡ (
          translated python
              (vector_search storage table python d.storage_uri ask_title
                (some (build_storage_options storage))
                three).0,
          three,
        )))
search-IsOwnDataset_example =
    search-IsOwnDataset storage table python request ann "d-1" ask_title library three refl refl
      refl
