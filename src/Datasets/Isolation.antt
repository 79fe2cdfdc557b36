-- ===== src/Datasets/Isolation.antt =====
-- services/dataset_service.py: `get_dataset` as the guard of the tables without a column `tenant_id`.
use lance_laker.Base.{
  String, ◌≡◌, refl, inl, inr, Bool, true, false, ◌&&◌, some, List, [], ◌∷◌, arith, All, Bool-cases,
  str_eq, eq_iff, find_by, Option-cases, Memᴰ, subst, find_by_holds, find_by-Memᴰ,
}
use lance_laker.Outcome.{ok, err, dataset_not_found}
use lance_laker.Tenant.{TenantPrincipal, Ctx}
use lance_laker.Rls.{is_protected}
use lance_laker.Models.{Dataset, Db, is_deleted}
use lance_laker.Session.{visible, visible-user, dataset_at}
use lance_laker.Datasets.{get_dataset}

-- No dataset with this uuid that is not deleted belongs to the tenant.
abbrev pub IsForeign : String → String → Dataset → Type 0
IsForeign tenant dataset_uuid d =
    d.dataset_uuid ≡ dataset_uuid → d.tenant_id ≡ tenant → is_deleted d.status ≡ true

dataset_protected : is_protected "dataset" ≡ true
unfolding is_protected
dataset_protected = refl

foreign_found :
    (see : String → Bool) (tenant uuid : String) (ds : List Dataset) (d : Dataset)
    → ((t : String) → see t ≡ true → t ≡ tenant)
    → All (IsForeign tenant uuid) ds
    → find_by (dataset_at see uuid) ds ≡ some d
    → is_deleted d.status ≡ true
unfolding find_by
foreign_found see tenant uuid [] d own h e = absurd (cc)
foreign_found see tenant uuid (x ∷ xs) d own h e = elim (Bool-cases (dataset_at see uuid x)) [
  | inl hit ↦
      let is_x : x ≡ d = ground arith in
      let gone : is_deleted x.status ≡ true =
        h.0 (ground (arith, eq_iff x.dataset_uuid uuid)) (own x.tenant_id (ground arith)) in
      ground arith
  | inr miss ↦ foreign_found see tenant uuid xs d own h.1 (ground arith)
]

unfoldable pub own_only : String → String → Bool
own_only tenant owner = str_eq owner tenant && true

pub own_only-owner : (tenant owner : String) → own_only tenant owner ≡ true → owner ≡ tenant
unfolding own_only
own_only-owner tenant owner h = ground (arith, eq_iff owner tenant)

pub reaches_own :
    (c : Ctx) (p : TenantPrincipal)
    → c.enforce_tenant_rls ≡ true
    → c.principal ≡ some p
    → p.is_system ≡ false
    → visible c "dataset" ≡ ok (own_only p.tenant_id)
unfolding own_only
reaches_own c p on bound user = visible-user c p "dataset" on bound user dataset_protected

pub get_dataset-foreign :
    (c : Ctx) (p : TenantPrincipal) (uuid : String) (db : Db)
    → c.enforce_tenant_rls ≡ true
    → c.principal ≡ some p
    → p.is_system ≡ false
    → All (IsForeign p.tenant_id uuid) db.datasets
    → get_dataset c uuid db ≡ err dataset_not_found
unfolding get_dataset
get_dataset-foreign c p uuid db on bound user foreign =
    rw (reaches_own c p on bound user)
      (elim (Option-cases (find_by (dataset_at (own_only p.tenant_id) uuid) db.datasets)) [
        | inl absent ↦ rw absent refl
        | inr (d, found) ↦ rw found (
            rw
              (foreign_found (own_only p.tenant_id) p.tenant_id uuid db.datasets d
                (own_only-owner p.tenant_id) foreign found)
              refl)
      ])

-- A dataset that `get_dataset` gives to a tenant is a row of the tenant's that is not deleted.
abbrev pub IsOwnDataset : TenantPrincipal → String → Db → Dataset → Type 0
IsOwnDataset p uuid db d =
    Memᴰ d db.datasets
    × (d.tenant_id ≡ p.tenant_id)
    × (d.dataset_uuid ≡ uuid)
    × (is_deleted d.status ≡ false)

pub get_dataset-IsOwnDataset :
    (c : Ctx) (p : TenantPrincipal) (uuid : String) (db : Db) (d : Dataset)
    → c.enforce_tenant_rls ≡ true
    → c.principal ≡ some p
    → p.is_system ≡ false
    → get_dataset c uuid db ≡ ok d
    → IsOwnDataset p uuid db d
unfolding get_dataset
get_dataset-IsOwnDataset c p uuid db d on bound user h =
    let own = reaches_own c p on bound user in
    elim (Option-cases (find_by (dataset_at (own_only p.tenant_id) uuid) db.datasets)) [
      | inl absent ↦ absurd (ground arith)
      | inr (x, found) ↦
          let hit : dataset_at (own_only p.tenant_id) uuid x ≡ true =
            find_by_holds (dataset_at (own_only p.tenant_id) uuid) db.datasets x found in
          let same : x ≡ d = ground arith in
          let mine : own_only p.tenant_id x.tenant_id ≡ true = ground arith in
          subst (IsOwnDataset p uuid db) same (
            find_by-Memᴰ (dataset_at (own_only p.tenant_id) uuid) db.datasets x found,
            own_only-owner p.tenant_id x.tenant_id mine,
            ground (arith, eq_iff x.dataset_uuid uuid),
            ground arith,
          )
    ]
