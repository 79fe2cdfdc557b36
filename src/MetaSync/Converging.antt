-- ===== src/MetaSync/Converging.antt =====
-- services/meta_sync_service.py: a second pass finds nothing to do.
use lance_laker.Base.{
  String, ◌≡◌, refl, sym, ap, subst, ◌∙◌, inl, inr, true, false, List, [], ◌∷◌, All, All-map, arith,
  Bool-cases, str_eq, eq_iff, eq_refl, find_by, find_by_holds, find_by-put_by_other,
}
use lance_laker.Outcome.{ok, Outcome-split}
use lance_laker.Tenant.{Ctx}
use lance_laker.Models.{Db}
use lance_laker.Paging.{length}
use lance_laker.Session.{visible-system}
use lance_laker.Scheduler.Claim.{all_tenants}
use lance_laker.MetaSync.{
  Fetched, fetched, api_error, disabled, unreachable, SyncTarget, MetaSyncResult, no_result,
  fileset_at, fetch_failed, list_error, reconcile_fileset, reconcile_filesets, reconcile_schema,
}
use lance_laker.MetaSync.Steps.{Settled, Change, Writes, reconcile_fileset-Settled}

-- A change for one table leaves the lookup of another.
other_table :
    (s : SyncTarget) (name other : String) (db db' : Db)
    → str_eq name other ≡ false
    → Change s other db db'
    → find_by (fileset_at all_tenants s name) db'.datasets
      ≡ find_by (fileset_at all_tenants s name) db.datasets
unfolding find_by
other_table s name other db db' differs (Change.kept same) = rw same refl
other_table s name other db db' differs (Change.added x is_db) =
    rw is_db (ground (arith, eq_iff other name, eq_refl name))
other_table s name other db db' differs (Change.rewritten d v found table tenant is_db) =
    let at : fileset_at all_tenants s other d ≡ true =
      find_by_holds (fileset_at all_tenants s other) db.datasets d found in
    let elsewhere : str_eq d.table_name name ≡ false =
      ground (arith, eq_iff d.table_name other, eq_iff d.table_name name, eq_refl name) in
    let apart : fileset_at all_tenants s name d ≡ false = ground arith in
    let apart' : fileset_at all_tenants s name v ≡ false =
      ground (arith, ap (λ n. str_eq n name) table) in
    rw is_db (
      find_by-put_by_other (fileset_at all_tenants s name) (fileset_at all_tenants s other) v
        db.datasets d found apart apart')

-- A settled fileset stays so through the next one.
Settled-kept :
    (c : Ctx) (s : SyncTarget) (name other : String) (r r' : MetaSyncResult) (db db' : Db)
    → Writes c s
    → reconcile_fileset c s other (r, db) ≡ ok (r', db')
    → Settled s name db
    → Settled s name db'
Settled-kept c s name other r r' db db' w h (Settled.left_out message got) =
    Settled.left_out message got
Settled-kept c s name other r r' db db' w h (Settled.current x d got found placed described) =
    let (settled, change) = reconcile_fileset-Settled c s other r r' db db' w h in
    elim (Bool-cases (str_eq name other)) [
      | inl same ↦ subst (λ n. Settled s n db') (sym ((eq_iff name other).0 same)) settled
      | inr differs ↦
          Settled.current x d got (other_table s name other db db' differs change ∙ found) placed
            described
    ]

-- Filesets that are settled stay so, and the named ones are settled.
reconcile_filesets-Settled :
    (c : Ctx) (s : SyncTarget) (names before : List String) (r r' : MetaSyncResult) (db db' : Db)
    → Writes c s
    → All (λ n. Settled s n db) before
    → reconcile_filesets c s names (r, db) ≡ ok (r', db')
    → All (λ n. Settled s n db') before × All (λ n. Settled s n db') names
unfolding reconcile_filesets
reconcile_filesets-Settled c s [] before r r' db db' w settled h =
    let is_db : db ≡ db' = ground arith in
    (subst (λ x. All (λ n. Settled s n x) before) is_db settled, tt)
reconcile_filesets-Settled c s (name ∷ names) before r r' db db' w settled h =
    elim (Outcome-split (reconcile_fileset c s name (r, db))) [
      | inr (e, failed) ↦ absurd (ground arith)
      | inl (next, turn) ↦
          let rest : reconcile_filesets c s names (next.0, next.1) ≡ ok (r', db') = ground arith in
          let (here, _) = reconcile_fileset-Settled c s name r next.0 db next.1 w turn in
          let still =
            All-map (λ n. Settled s n db) (λ n. Settled s n next.1) before
              (λ n. Settled-kept c s n name r next.0 db next.1 w turn) settled in
          let (all, last) =
            reconcile_filesets-Settled c s names (name ∷ before) next.0 r' next.1 db' w
              (here, still) rest in
          (all.1, (all.0, last))
    ]

-- Settled filesets are neither created nor updated.
abbrev DoesNothing : MetaSyncResult → MetaSyncResult → Type 0
DoesNothing r r' =
    (r'.datasets_created ≡ r.datasets_created) × (r'.datasets_updated ≡ r.datasets_updated)

reconcile_fileset-idle :
    (c : Ctx) (s : SyncTarget) (name : String) (r : MetaSyncResult) (db : Db)
    → Writes c s
    → Settled s name db
    → (r' : MetaSyncResult) × (reconcile_fileset c s name (r, db) ≡ ok (r', db)) × DoesNothing r r'
unfolding reconcile_fileset
reconcile_fileset-idle c s name r db w (Settled.left_out message got) =
    (fetch_failed s name message r, ground arith, (refl, refl))
reconcile_fileset-idle c s name r db w (Settled.current x d got found placed described) =
    let seen = visible-system c "dataset" w.by_system in (r, ground arith, (refl, refl))

reconcile_filesets-idle :
    (c : Ctx) (s : SyncTarget) (names : List String) (r : MetaSyncResult) (db : Db)
    → Writes c s
    → All (λ n. Settled s n db) names
    → (r' : MetaSyncResult) × (reconcile_filesets c s names (r, db) ≡ ok (r', db))
      × DoesNothing r r'
unfolding reconcile_filesets
reconcile_filesets-idle c s [] r db w settled = (r, refl, (refl, refl))
reconcile_filesets-idle c s (name ∷ names) r db w (here, settled) =
    let (r1, turn, (same_created, same_updated)) = reconcile_fileset-idle c s name r db w here in
    let (r2, rest, (created, updated)) = reconcile_filesets-idle c s names r1 db w settled in
    (r2, rw turn rest, (created ∙ same_created, updated ∙ same_updated))

-- A pass of a system principal over one schema, not dry, that does not raise: if it is made again on
-- the state that it leaves, Gravitino answering as before, the second pass does not raise, creates
-- and updates no dataset, and changes nothing.
pub reconcile_schema-converges :
    (c : Ctx) (s : SyncTarget) (r : MetaSyncResult) (db db' : Db)
    → Writes c s
    → reconcile_schema c s db ≡ ok (r, db')
    → (r' : MetaSyncResult) × (reconcile_schema c s db' ≡ ok (r', db'))
      × (r'.datasets_created ≡ 0)
      × (r'.datasets_updated ≡ 0)
unfolding reconcile_schema
reconcile_schema-converges c s r db db' w h = again (s.client.list_filesets s.schema) refl
  where
    again :
        (answer : Fetched (List String))
        → s.client.list_filesets s.schema ≡ answer
        → (r' : MetaSyncResult) × (reconcile_schema c s db' ≡ ok (r', db'))
          × (r'.datasets_created ≡ 0)
          × (r'.datasets_updated ≡ 0)
    again unreachable got = absurd (ground arith)
    again (disabled message) got = (list_error s message, ground arith, refl, refl)
    again (api_error message) got = (list_error s message, ground arith, refl, refl)
    again (fetched names) got =
        let start = record no_result { filesets_discovered = length names } in
        let (_, settled) =
          reconcile_filesets-Settled c s names [] start r db db' w tt (ground arith) in
        let (r', ran, (created, updated)) = reconcile_filesets-idle c s names start db' w settled in
        (r', ground arith, created, updated)
