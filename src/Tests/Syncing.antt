-- ===== src/Tests/Syncing.antt =====
-- Witnesses on services/meta_sync_service.py.
use lance_laker.Base.{◌≡◌, refl, true, false, some, [], ◌∷◌, find_by, put_by}
use lance_laker.Outcome.{ok}
use lance_laker.Models.{Db}
use lance_laker.Session.{visible}
use lance_laker.Rls.{before_execute}
use lance_laker.MetaSync.{
  Fileset, fetched, GravitinoClient, MetaSyncResult, no_result, SyncTarget, insert_dataset,
  reconcile_fileset, reconcile_filesets, reconcile_schema,
}
use lance_laker.MetaSync.Steps.{Writes}
use lance_laker.MetaSync.Converging.{reconcile_schema-converges}
use lance_laker.MetaSync.Tenancy.{rows_of, reconcile_schema-tenant}
use lance_laker.Paging.{length}
use lance_laker.Tests.Fixtures.{scheduler, site}
use lance_laker.Tests.Indexing.{photos}

abbrev photos_fileset : Fileset
photos_fileset = record {
  name = "photos";
  schema_name = "media";
  storage_location = "s3://acme/photos-2";
  comment = some "all photos";
}

abbrev gravitino : GravitinoClient
gravitino = record {
  catalog = "main";
  enabled = true;
  list_schemas = fetched ("media" ∷ []);
  list_filesets = λ _. fetched ("photos" ∷ []);
  get_fileset = λ _ _. fetched photos_fileset;
  set_properties = λ _ _ _. fetched tt;
}

abbrev target : SyncTarget
target = record {
  client = gravitino;
  schema = "media";
  tenant_id = "acme";
  dry_run = false;
  now = 40;
  uuid_for = λ name. name;
}

abbrev before_sync : Db
before_sync = record site { datasets = photos ∷ [] }

abbrev synced : Db
synced = record site {
  datasets =
      record photos { storage_uri = "s3://acme/photos-2"; description = some "all photos" } ∷ [];
}

abbrev report : MetaSyncResult
report = record no_result { filesets_discovered = 1; datasets_updated = 1 }

first_sync : reconcile_schema scheduler target before_sync ≡ ok (report, synced)
unfolding reconcile_schema reconcile_filesets reconcile_fileset insert_dataset visible
    before_execute find_by put_by length
first_sync = refl

writes : Writes scheduler target
writes = record { by_system = refl; not_dry = refl }

reconcile_schema-converges_example :
    (r' : MetaSyncResult) × (reconcile_schema scheduler target synced ≡ ok (r', synced))
    × (r'.datasets_created ≡ 0)
    × (r'.datasets_updated ≡ 0)
reconcile_schema-converges_example =
    reconcile_schema-converges scheduler target report before_sync synced writes first_sync

reconcile_schema-tenant_example : rows_of "globex" synced ≡ rows_of "globex" before_sync
reconcile_schema-tenant_example =
    reconcile_schema-tenant scheduler target "globex" report before_sync synced writes refl
      first_sync
