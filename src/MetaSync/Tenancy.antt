-- ===== src/MetaSync/Tenancy.antt =====
-- services/meta_sync_service.py: a pass writes rows of its tenant only.
use lance_laker.Base.{
  String, ◌≡◌, refl, sym, ap, ◌∙◌, inl, inr, false, true, List, [], ◌∷◌, arith, str_eq, eq_iff,
  find_by_holds, select_by, select_by-put_by_other,
}
use lance_laker.Outcome.{ok, Outcome-split}
use lance_laker.Tenant.{Ctx}
use lance_laker.Models.{Dataset, Db}
use lance_laker.Scheduler.Claim.{all_tenants}
use lance_laker.Paging.{length}
use lance_laker.MetaSync.{
  Fetched, fetched, api_error, disabled, unreachable, SyncTarget, MetaSyncResult, no_result,
  fileset_at, reconcile_fileset, reconcile_filesets, reconcile_schema,
}
use lance_laker.MetaSync.Steps.{Change, Writes, reconcile_fileset-Settled}

-- The rows of a tenant.
abbrev pub rows_of : String → Db → List Dataset
rows_of tenant db = select_by (λ d. str_eq d.tenant_id tenant) db.datasets

Change-tenant :
    (s : SyncTarget) (name tenant : String) (db db' : Db)
    → str_eq s.tenant_id tenant ≡ false
    → Change s name db db'
    → rows_of tenant db' ≡ rows_of tenant db
unfolding select_by
Change-tenant s name tenant db db' other (Change.kept same) = rw same refl
Change-tenant s name tenant db db' other (Change.added x is_db) = rw is_db (ground arith)
Change-tenant s name tenant db db' other (Change.rewritten d v found table same is_db) =
    let at : fileset_at all_tenants s name d ≡ true =
      find_by_holds (fileset_at all_tenants s name) db.datasets d found in
    let apart : str_eq d.tenant_id tenant ≡ false =
      ground (arith, eq_iff d.tenant_id s.tenant_id) in
    let apart' : str_eq v.tenant_id tenant ≡ false = ap (λ n. str_eq n tenant) same ∙ apart in
    rw is_db (
      select_by-put_by_other (λ x. str_eq x.tenant_id tenant) (fileset_at all_tenants s name) v
        db.datasets d found apart apart')

reconcile_filesets-tenant :
    (c : Ctx) (s : SyncTarget) (names : List String) (tenant : String) (r r' : MetaSyncResult)
    (db db' : Db)
    → Writes c s
    → str_eq s.tenant_id tenant ≡ false
    → reconcile_filesets c s names (r, db) ≡ ok (r', db')
    → rows_of tenant db' ≡ rows_of tenant db
unfolding reconcile_filesets
reconcile_filesets-tenant c s [] tenant r r' db db' w other h =
    let is_db : db ≡ db' = ground arith in ap (rows_of tenant) (sym is_db)
reconcile_filesets-tenant c s (name ∷ names) tenant r r' db db' w other h =
    elim (Outcome-split (reconcile_fileset c s name (r, db))) [
      | inr (e, failed) ↦ absurd (ground arith)
      | inl (next, turn) ↦
          let rest : reconcile_filesets c s names (next.0, next.1) ≡ ok (r', db') = ground arith in
          let (_, change) = reconcile_fileset-Settled c s name r next.0 db next.1 w turn in
          reconcile_filesets-tenant c s names tenant next.0 r' next.1 db' w other rest
          ∙ Change-tenant s name tenant db next.1 other change
    ]

-- A pass of a system principal over one schema, not dry, that does not raise leaves the rows of every
-- tenant but the one that it is for as they were, although the statements of a system principal
-- reach all rows.
pub reconcile_schema-tenant :
    (c : Ctx) (s : SyncTarget) (tenant : String) (r : MetaSyncResult) (db db' : Db)
    → Writes c s
    → str_eq s.tenant_id tenant ≡ false
    → reconcile_schema c s db ≡ ok (r, db')
    → rows_of tenant db' ≡ rows_of tenant db
unfolding reconcile_schema
reconcile_schema-tenant c s tenant r db db' w other h =
    listed (s.client.list_filesets s.schema) refl
  where
    listed :
        (answer : Fetched (List String))
        → s.client.list_filesets s.schema ≡ answer
        → rows_of tenant db' ≡ rows_of tenant db
    listed unreachable got = absurd (ground arith)
    listed (disabled message) got =
        let is_db : db ≡ db' = ground arith in ap (rows_of tenant) (sym is_db)
    listed (api_error message) got =
        let is_db : db ≡ db' = ground arith in ap (rows_of tenant) (sym is_db)
    listed (fetched names) got =
        reconcile_filesets-tenant c s names tenant
          (record no_result { filesets_discovered = length names }) r db db' w other (ground arith)
