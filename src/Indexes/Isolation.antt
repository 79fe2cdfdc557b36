-- ===== src/Indexes/Isolation.antt =====
-- services/index_service.py: the tenant guard, although `vector_index` has no column `tenant_id`.
use lance_laker.Base.{ℕ, String, ◌≡◌, refl, Bool, true, false, some, All}
use lance_laker.Outcome.{err, dataset_not_found}
use lance_laker.Tenant.{TenantPrincipal, Ctx}
use lance_laker.Models.{Db}
use lance_laker.Format.{Format}
use lance_laker.Datasets.Isolation.{IsForeign, get_dataset-foreign}
use lance_laker.Indexes.{
  IndexSpec, Stamp, get_index, create_index, list_indexes, drop_index, optimize_index, merge_index,
}

-- For a request of a tenant, under the setting `enforce_tenant_rls`, on a dataset uuid of which the
-- tenant has no dataset that is not deleted, each of the six operations on indexes raises
-- DatasetNotFoundError and writes nothing, whatever indexes the dataset has.
pub index_operations-guarded :
    (f : Format) (c : Ctx) (p : TenantPrincipal) (stamp : Stamp) (id at : ℕ) (replace : Bool)
    (s : IndexSpec) (name : String) (db : Db)
    → c.enforce_tenant_rls ≡ true
    → c.principal ≡ some p
    → p.is_system ≡ false
    → All (IsForeign p.tenant_id s.dataset_uuid) db.datasets
    → (create_index f c stamp id replace s db ≡ (err dataset_not_found, db))
      × (get_index c s.dataset_uuid name db ≡ err dataset_not_found)
      × (list_indexes c s.dataset_uuid db ≡ err dataset_not_found)
      × (drop_index c s.dataset_uuid name db ≡ err dataset_not_found)
      × (optimize_index f c stamp at s.dataset_uuid name db ≡ (err dataset_not_found, db))
      × (merge_index c at s.dataset_uuid name db ≡ err dataset_not_found)
unfolding create_index get_index list_indexes drop_index optimize_index merge_index
index_operations-guarded f c p stamp id at replace s name db on bound user foreign =
    let denied = get_dataset-foreign c p s.dataset_uuid db on bound user foreign in
    (
      rw (denied, create_index) refl,
      rw denied refl,
      rw denied refl,
      rw denied refl,
      rw (denied, optimize_index, get_index) refl,
      rw denied refl,
    )
