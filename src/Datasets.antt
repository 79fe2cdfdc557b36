-- ===== src/Datasets.antt =====
-- services/dataset_service.py: registration, lookup, listing and soft deletion of a dataset. Every call is
-- one transaction.
pub mod Isolation
use lance_laker.Base.{
  ℕ, String, Bool, ◌&&◌, ◌||◌, Option, none, some, List, ◌∷◌, str_eq, find_by, select_by, count_by,
  put_by,
}
use lance_laker.Outcome.{Outcome, ok, err, ◌>>=◌, ◌>>◌, raise_if, dataset_exists, dataset_not_found}
use lance_laker.Tenant.{TenantPrincipal, Ctx, require_current_tenant}
use lance_laker.Paging.{agrees, page_of}
use lance_laker.Models.{Dataset, active, deleted, is_deleted, Db}
use lance_laker.Session.{visible, or_raise, dataset_at}

pub record DatasetRegisterRequest : Type 0 where
  pub catalog : String
  pub db_schema : String
  pub table_name : String
  pub storage_uri : String
  pub owner : Option String
  pub description : Option String

abbrev pub new_dataset : TenantPrincipal → DatasetRegisterRequest → String → ℕ → Dataset
new_dataset p r uuid now = record {
  dataset_uuid = uuid;
  catalog = r.catalog;
  db_schema = r.db_schema;
  table_name = r.table_name;
  storage_uri = r.storage_uri;
  tenant_id = p.tenant_id;
  owner = r.owner;
  description = r.description;
  status = active;
  row_count = 0;
  fragment_count = 0;
  index_coverage = 0;
  latest_version = 0;
  extra = none;
  created_at = now;
}

-- The two UNIQUE keys of the table `dataset`, of which no one names the tenant.
abbrev pub dataset_clashes : Dataset → Dataset → Bool
dataset_clashes new d =
    str_eq d.dataset_uuid new.dataset_uuid
    || (str_eq d.catalog new.catalog
        && (str_eq d.db_schema new.db_schema && str_eq d.table_name new.table_name))

unfoldable pub create_dataset :
    Ctx → String → ℕ → DatasetRegisterRequest → Db → Outcome (Dataset × Db)
create_dataset c uuid now r db = do
  p ← require_current_tenant c
  elim (find_by (dataset_clashes (new_dataset p r uuid now)) db.datasets) [
    | some _ ↦ err dataset_exists
    | none ↦
        ok (
          new_dataset p r uuid now,
          record db { datasets = new_dataset p r uuid now ∷ db.datasets },
        )
  ]

unfoldable pub get_dataset : Ctx → String → Db → Outcome Dataset
get_dataset c dataset_uuid db = do
  see ← visible c "dataset"
  d ← or_raise (find_by (dataset_at see dataset_uuid) db.datasets) dataset_not_found
  raise_if (is_deleted d.status) dataset_not_found
  ok d

-- `_apply_dataset_filters`, with the tenant predicate of the listener.
abbrev pub dataset_listed : (String → Bool) → Option String → Option String → Dataset → Bool
dataset_listed see catalog db_schema d =
    see d.tenant_id && (agrees catalog d.catalog && agrees db_schema d.db_schema)

-- `newest_first` is the database's `ORDER BY created_at DESC`.
unfoldable pub list_datasets :
    (List Dataset → List Dataset)
    → Ctx
    → Option String
    → Option String
    → ℕ
    → ℕ
    → Db
    → Outcome (List Dataset × ℕ)
list_datasets newest_first c catalog db_schema page page_size db = do
  see ← visible c "dataset"
  ok (
    page_of page page_size
        (newest_first (select_by (dataset_listed see catalog db_schema) db.datasets)),
    count_by (dataset_listed see catalog db_schema) db.datasets,
  )

unfoldable pub delete_dataset : Ctx → String → Db → Outcome Db
unfolding get_dataset
delete_dataset c dataset_uuid db = do
  d ← get_dataset c dataset_uuid db
  see ← visible c "dataset"
  ok (record db {
    datasets = put_by (dataset_at see dataset_uuid) (record d { status = deleted }) db.datasets;
  })
