-- ===== src/TaskService/Listing.antt =====
-- services/task_service.py and services/dataset_service.py: what a tenant is shown by a listing.
use lance_laker.Base.{
  ℕ, String, ◌≤◌, ◌≡◌, refl, Bool, true, false, ◌&&◌, Option, some, List, Memᴰ, arith, str_eq,
  eq_iff, select_by, select_by-Memᴰ, count_by,
}
use lance_laker.Outcome.{ok}
use lance_laker.Tenant.{TenantPrincipal, Ctx}
use lance_laker.Rls.{is_protected}
use lance_laker.Models.{Task, Dataset, Db}
use lance_laker.Session.{visible-user}
use lance_laker.Paging.{length, page_of, page_of-Mem, length-page_of}
use lance_laker.TaskService.{TaskFilters, task_listed, list_tasks}
use lance_laker.Datasets.{dataset_listed, list_datasets}

abbrev pub is_own : String → String → Bool
is_own tenant owner = str_eq owner tenant && true

task_protected : is_protected "task" ≡ true
unfolding is_protected
task_protected = refl

dataset_protected : is_protected "dataset" ≡ true
unfolding is_protected
dataset_protected = refl

-- For a request of a tenant, under the setting `enforce_tenant_rls`, `list_tasks` returns at most 200
-- rows, each a stored task of the tenant that meets the filters, and as the total the number of
-- the tenant's tasks that meet them, if the database's ordering invents no row.
pub list_tasks-IsOwn :
    (newest_first : List Task → List Task)
    → ((ts : List Task) (t : Task) → Memᴰ t (newest_first ts) → Memᴰ t ts)
    → (c : Ctx) (p : TenantPrincipal) (f : TaskFilters) (page size : ℕ) (db : Db)
    → c.enforce_tenant_rls ≡ true
    → c.principal ≡ some p
    → p.is_system ≡ false
    → (items : List Task) × (total : ℕ) × (list_tasks newest_first c f page size db
        ≡ ok (items, total))
      × (length items ≤ 200)
      × ((t : Task)
          → Memᴰ t items
          → Memᴰ t db.tasks × (t.tenant_id ≡ p.tenant_id) × (task_listed (λ _. true) f t ≡ true))
      × (total ≡ count_by (task_listed (is_own p.tenant_id) f) db.tasks)
unfolding list_tasks
list_tasks-IsOwn newest_first invents_none c p f page size db on bound user =
    let listed = task_listed (is_own p.tenant_id) f in
    let items = page_of page size (newest_first (select_by listed db.tasks)) in
    (
      items,
      count_by listed db.tasks,
      rw (visible-user c p "task" on bound user task_protected) refl,
      length-page_of page size (newest_first (select_by listed db.tasks)),
      (λ t m.
          let stored =
            select_by-Memᴰ listed db.tasks t
              (invents_none (select_by listed db.tasks) t (page_of-Mem page size _ t m)) in
          (
            stored.0,
            ground (arith, stored.1, eq_iff t.tenant_id p.tenant_id),
            ground (arith, stored.1),
          )),
      refl,
    )

-- For a request of a tenant, under the setting `enforce_tenant_rls`, `list_datasets` returns at most 200
-- rows, each a stored dataset of the tenant that meets the filters, and as the total the number of
-- the tenant's datasets that meet them, if the database's ordering invents no row.
list_datasets-IsOwn :
    (newest_first : List Dataset → List Dataset)
    → ((ts : List Dataset) (t : Dataset) → Memᴰ t (newest_first ts) → Memᴰ t ts)
    → (c : Ctx) (p : TenantPrincipal) (catalog db_schema : Option String) (page size : ℕ) (db : Db)
    → c.enforce_tenant_rls ≡ true
    → c.principal ≡ some p
    → p.is_system ≡ false
    → (items : List Dataset) × (total : ℕ) × (list_datasets newest_first c catalog db_schema page
          size db
        ≡ ok (items, total))
      × (length items ≤ 200)
      × ((t : Dataset)
          → Memᴰ t items
          → Memᴰ t db.datasets
            × (t.tenant_id ≡ p.tenant_id)
            × (dataset_listed (λ _. true) catalog db_schema t ≡ true))
      × (total ≡ count_by (dataset_listed (is_own p.tenant_id) catalog db_schema) db.datasets)
unfolding list_datasets
list_datasets-IsOwn newest_first invents_none c p catalog db_schema page size db on bound user =
    let listed = dataset_listed (is_own p.tenant_id) catalog db_schema in
    let items = page_of page size (newest_first (select_by listed db.datasets)) in
    (
      items,
      count_by listed db.datasets,
      rw (visible-user c p "dataset" on bound user dataset_protected) refl,
      length-page_of page size (newest_first (select_by listed db.datasets)),
      (λ t m.
          let stored =
            select_by-Memᴰ listed db.datasets t
              (invents_none (select_by listed db.datasets) t (page_of-Mem page size _ t m)) in
          (
            stored.0,
            ground (arith, stored.1, eq_iff t.tenant_id p.tenant_id),
            ground (arith, stored.1),
          )),
      refl,
    )
