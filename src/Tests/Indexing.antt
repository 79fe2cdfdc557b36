-- ===== src/Tests/Indexing.antt =====
-- Witnesses on services/index_service.py.
use lance_laker.Base.{◌≡◌, refl, true, false, none, [], ◌∷◌, All}
use lance_laker.Outcome.{err, dataset_not_found}
use lance_laker.Models.{Dataset, Index, active, building, ready, failed, Db}
use lance_laker.Format.{Format}
use lance_laker.Indexes.{
  IndexSpec, Stamp, create_index, get_index, list_indexes, drop_index, optimize_index, merge_index,
  merged, save_index, build_key, new_index,
}
use lance_laker.Indexes.Submitting.{IsPaired}
use lance_laker.Datasets.Isolation.{IsForeign}
use lance_laker.Indexes.Isolation.{index_operations-guarded}
use lance_laker.Indexes.Pairing.{create_index-IsPaired}
use lance_laker.Tests.Fixtures.{request, ann, site}

abbrev pub format : Format
format = record {
  str_int = λ _. "7";
  isoformat = λ _. "2025-01-01T00:00:00";
  str_exc = λ _. "refused";
  round_minutes = λ _. "1.5";
}

abbrev pub photos : Dataset
photos = record {
  dataset_uuid = "d-1";
  catalog = "main";
  db_schema = "media";
  table_name = "photos";
  storage_uri = "s3://acme/photos";
  tenant_id = "acme";
  owner = none;
  description = none;
  status = active;
  row_count = 0;
  fragment_count = 0;
  index_coverage = 0;
  latest_version = 0;
  extra = none;
  created_at = 1;
}

abbrev pub vectors : IndexSpec
vectors = record {
  dataset_uuid = "d-1";
  index_name = "vectors";
  column_name = "embedding";
  index_type = "IVF_PQ";
  params = none;
}

abbrev stamp : Stamp
stamp = record { task_uuid = "t-i"; now = 900 }

abbrev pub ready_index : Index
ready_index = record (new_index vectors 7 600) { status = ready }

abbrev pub library : Db
library = record site { datasets = photos ∷ []; indexes = ready_index ∷ [] }

abbrev pub foreign_library : Db
foreign_library = record library { datasets = record photos { tenant_id = "globex" } ∷ [] }

pub IsForeign-photos : All (IsForeign "acme" "d-1") foreign_library.datasets
IsForeign-photos = ((λ _ e. cc), tt)

index_operations-guarded_example :
    (create_index format request stamp 8 false vectors foreign_library
      ≡ (err dataset_not_found, foreign_library))
    × (get_index request "d-1" "vectors" foreign_library ≡ err dataset_not_found)
    × (list_indexes request "d-1" foreign_library ≡ err dataset_not_found)
    × (drop_index request "d-1" "vectors" foreign_library ≡ err dataset_not_found)
    × (optimize_index format request stamp 900 "d-1" "vectors" foreign_library
        ≡ (err dataset_not_found, foreign_library))
    × (merge_index request 900 "d-1" "vectors" foreign_library ≡ err dataset_not_found)
index_operations-guarded_example =
    index_operations-guarded format request ann stamp 8 900 false vectors "vectors" foreign_library
      refl refl refl IsForeign-photos

create_index-IsPaired_example :
    IsPaired ann
      (build_key format)
      building
      failed
      "d-1"
      "vectors"
      library
      (create_index format request stamp 8 true vectors library)
create_index-IsPaired_example =
    create_index-IsPaired format request ann stamp 8 true vectors library refl

abbrev merging_library : Db
merging_library = save_index (merged 900 ready_index) library
