-- ===== src/MetaSync.antt =====
-- services/meta_sync_service.py: datasets made from the filesets of Gravitino. Each schema is one
-- transaction. `existing` is written back as the row that the SELECT has returned; an INSERT is
-- checked where it is added, which the code does before its next SELECT or at the commit.
pub mod Steps
pub mod Converging
pub mod Tenancy
pub mod WriteBack
use lance_laker.Base.{
  ℕ, String, ◌++◌, ◌+◌, Bool, false, not, ◌&&◌, ◌||◌, Option, none, some, List, [], ◌∷◌, str_eq,
  holds_text, if◌then◌else◌, find_by, put_by,
}
use lance_laker.Outcome.{
  Outcome, ok, err, ◌>>=◌, integrity, gravitino_disabled, gravitino_unreachable,
}
use lance_laker.Tenant.{Ctx}
use lance_laker.Json.{Fields}
use lance_laker.Models.{Dataset, active, Db}
use lance_laker.Paging.{length}
use lance_laker.Session.{visible}
use lance_laker.Datasets.{dataset_clashes}

-- integrations/gravitino/client.py: a fileset, and what a call of the client returns: a value, or a
-- GravitinoAPIError or GravitinoDisabledError with its message, or another error.
pub record Fileset : Type 0 where
  pub name : String
  pub schema_name : String
  pub storage_location : String
  pub comment : Option String

pub data Fetched (A : Type 0) : Type 0 where
  fetched : A → Fetched A
  api_error : String → Fetched A
  disabled : String → Fetched A
  unreachable : Fetched A

pub record GravitinoClient : Type 0 where
  pub catalog : String
  pub enabled : Bool
  pub list_schemas : Fetched (List String)
  pub list_filesets : String → Fetched (List String)
  pub get_fileset : String → String → Fetched Fileset
  pub set_properties : String → String → Fields → Fetched (Unit {0})

pub record MetaSyncResult : Type 0 where
  pub schemas_scanned : ℕ
  pub filesets_discovered : ℕ
  pub datasets_created : ℕ
  pub datasets_updated : ℕ
  pub errors : List String  -- here the last first

unfoldable pub append : List String → List String → List String
append [] ys = ys
append (x ∷ xs) ys = x ∷ append xs ys

abbrev pub no_result : MetaSyncResult
no_result = record {
  schemas_scanned = 0;
  filesets_discovered = 0;
  datasets_created = 0;
  datasets_updated = 0;
  errors = [];
}

-- What a pass over one schema is given.
pub record SyncTarget : Type 0 where
  pub client : GravitinoClient
  pub schema : String
  pub tenant_id : String
  pub dry_run : Bool
  pub now : ℕ
  pub uuid_for : String → String

-- The WHERE on catalog, schema, table and tenant, with the predicate of the listener.
abbrev pub fileset_at : (String → Bool) → SyncTarget → String → Dataset → Bool
fileset_at see s name d =
    see d.tenant_id
    && (str_eq d.catalog s.client.catalog
        && (str_eq d.db_schema s.schema
            && (str_eq d.table_name name && str_eq d.tenant_id s.tenant_id)))

abbrev pub dataset_of : SyncTarget → String → Fileset → Dataset
dataset_of s name x = record {
  dataset_uuid = s.uuid_for name;
  catalog = s.client.catalog;
  db_schema = s.schema;
  table_name = name;
  storage_uri = x.storage_location;
  tenant_id = s.tenant_id;
  owner = none;
  description = x.comment;
  status = active;
  row_count = 0;
  fragment_count = 0;
  index_coverage = 0;
  latest_version = 0;
  extra = none;
  created_at = s.now;
}

-- `fileset.storage_location and existing.storage_uri != fileset.storage_location`.
abbrev pub has_moved : Fileset → Dataset → Bool
has_moved x d = not (str_eq x.storage_location "") && not (str_eq d.storage_uri x.storage_location)

-- `fileset.comment and existing.description != fileset.comment`.
abbrev pub has_new_comment : Option String → Dataset → Bool
has_new_comment none d = false
has_new_comment (some text) d = not (str_eq text "") && not (holds_text d.description text)

abbrev pub moved : Fileset → Dataset → Dataset
moved x d = if has_moved x d then record d { storage_uri = x.storage_location } else d

abbrev pub commented : Fileset → Dataset → Dataset
commented x d = if has_new_comment x.comment d then record d { description = x.comment } else d

abbrev pub created_one : MetaSyncResult → MetaSyncResult
created_one r = record r { datasets_created = r.datasets_created + 1 }

abbrev pub updated_one : MetaSyncResult → MetaSyncResult
updated_one r = record r { datasets_updated = r.datasets_updated + 1 }

abbrev pub fetch_failed : SyncTarget → String → String → MetaSyncResult → MetaSyncResult
fetch_failed s name message r = record r {
  errors = ("get_fileset(" ++ (s.schema ++ ("/" ++ (name ++ ("): " ++ message))))) ∷ r.errors;
}

-- The flush of a new dataset.
unfoldable pub insert_dataset : Dataset → Db → Outcome Db
insert_dataset d db = elim (find_by (dataset_clashes d) db.datasets) [
  | some _ ↦ err integrity
  | none ↦ ok (record db { datasets = d ∷ db.datasets })
]

abbrev pub create_from :
    SyncTarget → String → Fileset → MetaSyncResult × Db → Outcome (MetaSyncResult × Db)
create_from s name x (r, db) =
    if s.dry_run
    then ok (created_one r, db)
    else (insert_dataset (dataset_of s name x) db >>= λ db'. ok (created_one r, db'))

abbrev pub update_from :
    (String → Bool)
    → SyncTarget
    → String
    → Fileset
    → Dataset
    → MetaSyncResult × Db
    → MetaSyncResult × Db
update_from see s name x d (r, db) =
    if has_moved x d || has_new_comment x.comment d
    then (
      updated_one r,
      if s.dry_run then db else record db {
        datasets = put_by (fileset_at see s name) (commented x (moved x d)) db.datasets;
      },
    )
    else (r, db)

-- One turn of the loop. A GravitinoDisabledError is not caught there.
unfoldable pub reconcile_fileset :
    Ctx → SyncTarget → String → MetaSyncResult × Db → Outcome (MetaSyncResult × Db)
unfolding insert_dataset
reconcile_fileset c s name (r, db) = elim (s.client.get_fileset s.schema name) [
  | unreachable ↦ err gravitino_unreachable
  | disabled message ↦ err gravitino_disabled
  | api_error message ↦ ok (fetch_failed s name message r, db)
  | fetched x ↦ elim (visible c "dataset") [
    | err e ↦ err e
    | ok see ↦ elim (find_by (fileset_at see s name) db.datasets) [
      | none ↦ create_from s name x (r, db)
      | some d ↦ ok (update_from see s name x d (r, db))
    ]
  ]
]

unfoldable pub reconcile_filesets :
    Ctx → SyncTarget → List String → MetaSyncResult × Db → Outcome (MetaSyncResult × Db)
reconcile_filesets c s [] state = ok state
reconcile_filesets c s (name ∷ names) state =
    reconcile_fileset c s name state >>= λ next. reconcile_filesets c s names next

abbrev pub list_error : SyncTarget → String → MetaSyncResult
list_error s message = record no_result {
  errors = ("list_filesets(" ++ (s.schema ++ ("): " ++ message))) ∷ [];
}

unfoldable pub reconcile_schema : Ctx → SyncTarget → Db → Outcome (MetaSyncResult × Db)
unfolding reconcile_filesets
reconcile_schema c s db = elim (s.client.list_filesets s.schema) [
  | unreachable ↦ err gravitino_unreachable
  | disabled message ↦ ok (list_error s message, db)
  | api_error message ↦ ok (list_error s message, db)
  | fetched names ↦
      reconcile_filesets c s names (record no_result { filesets_discovered = length names }, db)
]

abbrev pub add_results : MetaSyncResult → MetaSyncResult → MetaSyncResult
add_results total part = record total {
  filesets_discovered = total.filesets_discovered + part.filesets_discovered;
  datasets_created = total.datasets_created + part.datasets_created;
  datasets_updated = total.datasets_updated + part.datasets_updated;
  errors = append part.errors total.errors;
}

-- Each schema commits: what a later one raises leaves the state of the earlier ones.
unfoldable pub reconcile_schemas :
    Ctx → (String → SyncTarget) → List String → MetaSyncResult → Db → Outcome MetaSyncResult × Db
reconcile_schemas c target [] total db = (ok total, db)
reconcile_schemas c target (schema ∷ schemas) total db =
    elim (reconcile_schema c (target schema) db) [
      | err e ↦ (err e, db)
      | ok part ↦ reconcile_schemas c target schemas (add_results total part.0) part.1
    ]

abbrev pub schemas_error : String → MetaSyncResult
schemas_error message = record no_result { errors = ("list_schemas: " ++ message) ∷ [] }

-- `target` gives each schema its pass.
unfoldable pub reconcile_all :
    Ctx → GravitinoClient → (String → SyncTarget) → Db → Outcome MetaSyncResult × Db
unfolding reconcile_schemas
reconcile_all c client target db = elim client.list_schemas [
  | unreachable ↦ (err gravitino_unreachable, db)
  | disabled message ↦ (ok (schemas_error message), db)
  | api_error message ↦ (ok (schemas_error message), db)
  | fetched schemas ↦
      reconcile_schemas c target schemas (record no_result { schemas_scanned = length schemas }) db
]
