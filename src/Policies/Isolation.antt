-- ===== src/Policies/Isolation.antt =====
-- services/lifecycle_service.py: the tenant guard, although `lifecycle_policy` has no column `tenant_id`.
use lance_laker.Base.{ℕ, String, ◌≡◌, refl, Bool, true, false, some, List, All}
use lance_laker.Outcome.{err, dataset_not_found}
use lance_laker.Tenant.{TenantPrincipal, Ctx}
use lance_laker.Models.{LifecyclePolicy, Db}
use lance_laker.Datasets.Isolation.{IsForeign, get_dataset-foreign}
use lance_laker.Policies.{
  PolicyCreateRequest, PolicyUpdateRequest, create_policy, get_policy, list_policies, update_policy,
  delete_policy, set_enabled,
}

-- For a request of a tenant, under the setting `enforce_tenant_rls`, on a dataset uuid of which the
-- tenant has no dataset that is not deleted, each of the six operations on policies raises
-- DatasetNotFoundError, whatever policies the dataset has.
policy_operations-guarded :
    (c : Ctx) (p : TenantPrincipal) (newest_first : List LifecyclePolicy → List LifecyclePolicy)
    (id now : ℕ) (uuid name : String) (r : PolicyCreateRequest) (u : PolicyUpdateRequest)
    (enabled : Bool) (db : Db)
    → c.enforce_tenant_rls ≡ true
    → c.principal ≡ some p
    → p.is_system ≡ false
    → All (IsForeign p.tenant_id uuid) db.datasets
    → (create_policy c id now uuid r db ≡ err dataset_not_found)
      × (get_policy c uuid name db ≡ err dataset_not_found)
      × (list_policies newest_first c uuid db ≡ err dataset_not_found)
      × (update_policy c uuid name u db ≡ err dataset_not_found)
      × (delete_policy c uuid name db ≡ err dataset_not_found)
      × (set_enabled c uuid name enabled db ≡ err dataset_not_found)
unfolding create_policy get_policy list_policies update_policy delete_policy set_enabled
policy_operations-guarded c p newest id now uuid name r u enabled db on bound user foreign =
    let denied = get_dataset-foreign c p uuid db on bound user foreign in
    (rw denied refl, rw denied refl, rw denied refl, rw denied refl, rw denied refl, rw denied refl)
