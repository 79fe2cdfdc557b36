-- ===== src/Rules/Isolation.antt =====
-- services/vectorization_service.py: the tenant guard, although `vectorization_rule` has no column
-- `tenant_id`.
use lance_laker.Base.{ℕ, String, ◌≡◌, refl, Bool, true, false, some, List, All}
use lance_laker.Outcome.{err, dataset_not_found}
use lance_laker.Tenant.{TenantPrincipal, Ctx}
use lance_laker.Models.{VectorizationRule, Db}
use lance_laker.Format.{Format}
use lance_laker.Datasets.Isolation.{IsForeign, get_dataset-foreign}
use lance_laker.Rules.{
  RuleCreateRequest, RuleUpdateRequest, create_rule, get_rule, list_rules, update_rule, delete_rule,
  set_enabled, submit_vectorize_task,
}

-- For a request of a tenant, under the setting `enforce_tenant_rls`, on a dataset uuid of which the
-- tenant has no dataset that is not deleted, each of the six operations on vectorization rules, and
-- `submit_vectorize_task`, raises DatasetNotFoundError, whatever rules the dataset has.
pub rule_operations-guarded :
    (f : Format) (c : Ctx) (p : TenantPrincipal)
    (newest_first : List VectorizationRule → List VectorizationRule) (meanwhile : Db → Db)
    (id now : ℕ) (uuid column task_uuid : String) (r : RuleCreateRequest) (u : RuleUpdateRequest)
    (enabled : Bool) (db : Db)
    → c.enforce_tenant_rls ≡ true
    → c.principal ≡ some p
    → p.is_system ≡ false
    → All (IsForeign p.tenant_id uuid) db.datasets
    → (create_rule c id now uuid r db ≡ err dataset_not_found)
      × (get_rule c uuid column db ≡ err dataset_not_found)
      × (list_rules newest_first c uuid db ≡ err dataset_not_found)
      × (update_rule c uuid column u db ≡ err dataset_not_found)
      × (delete_rule c uuid column db ≡ err dataset_not_found)
      × (set_enabled c uuid column enabled db ≡ err dataset_not_found)
      × (submit_vectorize_task f c meanwhile task_uuid now uuid column db ≡ err dataset_not_found)
unfolding create_rule get_rule list_rules update_rule delete_rule set_enabled submit_vectorize_task
rule_operations-guarded f c p newest meanwhile id now uuid column task_uuid r u enabled db on bound
      user foreign =
    let denied = get_dataset-foreign c p uuid db on bound user foreign in
    (
      rw denied refl,
      rw denied refl,
      rw denied refl,
      rw denied refl,
      rw denied refl,
      rw denied refl,
      rw denied refl,
    )
