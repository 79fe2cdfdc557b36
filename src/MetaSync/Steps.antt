-- ===== src/MetaSync/Steps.antt =====
-- services/meta_sync_service.py: what one fileset does to the datasets.
use lance_laker.Base.{
  String, ◌≡◌, refl, sym, subst, ◌∙◌, inl, inr, Bool, true, false, ◌&&◌, ◌||◌, not, if◌then◌else◌,
  Option, none, some, ◌∷◌, arith, Option-cases, Bool-cases, str_eq, eq_refl, find_by, find_by_holds,
  find_by-put_by, put_by,
}
use lance_laker.Outcome.{ok, Outcome-split}
use lance_laker.Tenant.{Ctx, is_system_ctx}
use lance_laker.Models.{Dataset, Db}
use lance_laker.Session.{visible-system}
use lance_laker.Scheduler.Claim.{all_tenants}
use lance_laker.Datasets.{dataset_clashes}
use lance_laker.MetaSync.{
  Fileset, Fetched, fetched, api_error, disabled, unreachable, SyncTarget, MetaSyncResult,
  fileset_at, dataset_of, has_moved, has_new_comment, moved, commented, insert_dataset, create_from,
  update_from, reconcile_fileset,
}

-- The fileset's dataset is as Gravitino has it, or Gravitino does not return the fileset.
pub data Settled (s : SyncTarget) (name : String) (db : Db) : Type 0 where
  left_out :
      (message : String)
      → s.client.get_fileset s.schema name ≡ api_error message
      → Settled s name db
  current :
      (x : Fileset) (d : Dataset)
      → s.client.get_fileset s.schema name ≡ fetched x
      → find_by (fileset_at all_tenants s name) db.datasets ≡ some d
      → has_moved x d ≡ false
      → has_new_comment x.comment d ≡ false
      → Settled s name db

-- What became of the rows.
pub data Change (s : SyncTarget) (name : String) (db db' : Db) : Type 0 where
  kept : db' ≡ db → Change s name db db'
  added :
      (x : Fileset)
      → db' ≡ record db { datasets = dataset_of s name x ∷ db.datasets }
      → Change s name db db'
  rewritten :
      (d v : Dataset)
      → find_by (fileset_at all_tenants s name) db.datasets ≡ some d
      → v.table_name ≡ d.table_name
      → v.tenant_id ≡ d.tenant_id
      → db' ≡ record db { datasets = put_by (fileset_at all_tenants s name) v db.datasets }
      → Change s name db db'

-- The row after an update.
abbrev pub refreshed : Fileset → Dataset → Dataset
refreshed x d = commented x (moved x d)

chosen : (P : Dataset → Type 0) (b : Bool) (a d : Dataset) → P a → P d → P (if b then a else d)
chosen P true a d ha hd = ha
chosen P false a d ha hd = hd

-- The columns by which the SELECT finds the row.
abbrev pub IsSameTable : Dataset → Dataset → Type 0
IsSameTable d v =
    (v.catalog ≡ d.catalog)
    × (v.db_schema ≡ d.db_schema)
    × (v.table_name ≡ d.table_name)
    × (v.tenant_id ≡ d.tenant_id)

refreshed-IsSameTable : (x : Fileset) (d : Dataset) → IsSameTable d (refreshed x d)
refreshed-IsSameTable x d =
    let here : IsSameTable d (moved x d) =
      chosen (IsSameTable d) (has_moved x d) (record d { storage_uri = x.storage_location }) d
        (refl, refl, refl, refl) (refl, refl, refl, refl) in
    chosen (IsSameTable d) (has_new_comment x.comment (moved x d))
      (record (moved x d) { description = x.comment }) (moved x d) here here

moved-settles : (x : Fileset) (d : Dataset) → has_moved x (moved x d) ≡ false
moved-settles x d = elim (Bool-cases (has_moved x d)) [
  | inl goes ↦ ground (arith, eq_refl x.storage_location)
  | inr stays ↦ ground arith
]

-- Writing the comment leaves the place.
commented-storage : (x : Fileset) (d : Dataset) → (commented x d).storage_uri ≡ d.storage_uri
commented-storage x d =
    chosen (λ v. v.storage_uri ≡ d.storage_uri) (has_new_comment x.comment d)
      (record d { description = x.comment }) d refl refl

commented-settles :
    (x : Fileset) (d : Dataset) (comment : Option String)
    → x.comment ≡ comment
    → has_new_comment x.comment (commented x d) ≡ false
commented-settles x d none is_none = ground arith
commented-settles x d (some text) is_some = elim (Bool-cases (has_new_comment x.comment d)) [
  | inl new ↦ ground (arith, eq_refl text)
  | inr old ↦ ground arith
]

pub refreshed-current :
    (x : Fileset) (d : Dataset)
    → (has_moved x (refreshed x d) ≡ false) × (has_new_comment x.comment (refreshed x d) ≡ false)
refreshed-current x d = (
  subst (λ uri. not (str_eq x.storage_location "") && not (str_eq uri x.storage_location) ≡ false)
      (sym (commented-storage x (moved x d))) (moved-settles x d),
  commented-settles x (moved x d) x.comment refl,
)

-- A row that has these columns is found.
table_found :
    (s : SyncTarget) (name : String) (d v : Dataset)
    → IsSameTable d v
    → fileset_at all_tenants s name d ≡ fileset_at all_tenants s name v
table_found s name d v (catalog, schema, table, tenant) = rw (catalog, schema, table, tenant) refl

-- The new dataset is found, and is as Gravitino has it.
added-Settled :
    (s : SyncTarget) (name : String) (x : Fileset) (db : Db)
    → s.client.get_fileset s.schema name ≡ fetched x
    → Settled s name (record db { datasets = dataset_of s name x ∷ db.datasets })
unfolding find_by
added-Settled s name x db got =
    Settled.current x (dataset_of s name x) got
      (ground
        (arith, eq_refl s.client.catalog, eq_refl s.schema, eq_refl name, eq_refl s.tenant_id))
      (ground (arith, eq_refl x.storage_location)) (comment_settled x.comment)
  where
    comment_settled :
        (comment : Option String)
        → has_new_comment comment (record (dataset_of s name x) { description = comment }) ≡ false
    comment_settled none = refl
    comment_settled (some text) = ground (arith, eq_refl text)

updated-Settled :
    (s : SyncTarget) (name : String) (x : Fileset) (d : Dataset) (db : Db)
    → s.client.get_fileset s.schema name ≡ fetched x
    → find_by (fileset_at all_tenants s name) db.datasets ≡ some d
    → Settled s name (record db {
      datasets = put_by (fileset_at all_tenants s name) (refreshed x d) db.datasets;
    })
updated-Settled s name x d db got found =
    let at = fileset_at all_tenants s name in
    let hit : at (refreshed x d) ≡ true =
      sym (table_found s name d (refreshed x d) (refreshed-IsSameTable x d))
      ∙ find_by_holds at db.datasets d found in
    let (placed, described) = refreshed-current x d in
    Settled.current x (refreshed x d) got
      (find_by-put_by at (refreshed x d) db.datasets d found hit) placed described

inserted :
    (d : Dataset) (db db' : Db)
    → insert_dataset d db ≡ ok db'
    → db' ≡ record db { datasets = d ∷ db.datasets }
unfolding insert_dataset
inserted d db db' h = elim (Option-cases (find_by (dataset_clashes d) db.datasets)) [
  | inl free ↦ ground arith
  | inr (old, clash) ↦ absurd (ground arith)
]

-- A pass of a system principal that writes.
pub record Writes (c : Ctx) (s : SyncTarget) : Type 0 where
  pub by_system : is_system_ctx c ≡ true
  pub not_dry : s.dry_run ≡ false

create_from-Settled :
    (s : SyncTarget) (name : String) (x : Fileset) (r r' : MetaSyncResult) (db db' : Db)
    → s.dry_run ≡ false
    → s.client.get_fileset s.schema name ≡ fetched x
    → create_from s name x (r, db) ≡ ok (r', db')
    → Settled s name db' × Change s name db db'
create_from-Settled s name x r r' db db' wet got h =
    elim (Outcome-split (insert_dataset (dataset_of s name x) db)) [
      | inr (e, clash) ↦ absurd (ground arith)
      | inl (db1, stored) ↦
          let is_db : db1 ≡ db' = ground arith in
          let is_new = sym is_db ∙ inserted (dataset_of s name x) db db1 stored in
          (
            subst (Settled s name) (sym is_new) (added-Settled s name x db got),
            Change.added x is_new,
          )
    ]

update_from-Settled :
    (s : SyncTarget) (name : String) (x : Fileset) (d : Dataset) (r r' : MetaSyncResult)
    (db db' : Db)
    → s.dry_run ≡ false
    → s.client.get_fileset s.schema name ≡ fetched x
    → find_by (fileset_at all_tenants s name) db.datasets ≡ some d
    → update_from all_tenants s name x d (r, db) ≡ (r', db')
    → Settled s name db' × Change s name db db'
update_from-Settled s name x d r r' db db' wet got found h =
    elim (Bool-cases (has_moved x d || has_new_comment x.comment d)) [
      | inr same ↦
          let is_db : db ≡ db' = ground arith in
          (
            subst (Settled s name) is_db
                (Settled.current x d got found (ground arith) (ground arith)),
            Change.kept (sym is_db),
          )
      | inl differs ↦
          let is_db : record db {
            datasets = put_by (fileset_at all_tenants s name) (refreshed x d) db.datasets;
          }
              ≡ db' =
            ground arith in
          let (_, _, table, tenant) = refreshed-IsSameTable x d in
          (
            subst (Settled s name) is_db (updated-Settled s name x d db got found),
            Change.rewritten d (refreshed x d) found table tenant (sym is_db),
          )
    ]

-- A turn that does not raise settles its fileset.
pub reconcile_fileset-Settled :
    (c : Ctx) (s : SyncTarget) (name : String) (r r' : MetaSyncResult) (db db' : Db)
    → Writes c s
    → reconcile_fileset c s name (r, db) ≡ ok (r', db')
    → Settled s name db' × Change s name db db'
unfolding reconcile_fileset
reconcile_fileset-Settled c s name r r' db db' w h =
    settle (s.client.get_fileset s.schema name) refl
  where
    settle :
        (answer : Fetched Fileset)
        → s.client.get_fileset s.schema name ≡ answer
        → Settled s name db' × Change s name db db'
    settle unreachable got = absurd (ground arith)
    settle (disabled message) got = absurd (ground arith)
    settle (api_error message) got =
        let is_db : db ≡ db' = ground arith in
        (Settled.left_out message got, Change.kept (sym is_db))
    settle (fetched x) got =
        let seen = visible-system c "dataset" w.by_system in
        elim (Option-cases (find_by (fileset_at all_tenants s name) db.datasets)) [
          | inl absent ↦ create_from-Settled s name x r r' db db' w.not_dry got (ground arith)
          | inr (d, found) ↦
              update_from-Settled s name x d r r' db db' w.not_dry got found (ground arith)
        ]
