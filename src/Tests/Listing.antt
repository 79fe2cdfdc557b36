-- ===== src/Tests/Listing.antt =====
-- Witnesses on the listings.
use lance_laker.Base.{ℕ, ◌≤◌, ◌≡◌, refl, true, List, Memᴰ, count_by}
use lance_laker.Outcome.{ok}
use lance_laker.Models.{Task}
use lance_laker.Paging.{length}
use lance_laker.TaskService.{task_listed, list_tasks}
use lance_laker.TaskService.Listing.{is_own, list_tasks-IsOwn}
use lance_laker.Tests.Fixtures.{request, ann, site, any_task}

list_tasks-IsOwn_example :
    (items : List Task) × (total : ℕ) × (list_tasks (λ ts. ts) request any_task 1 500 site
      ≡ ok (items, total))
    × (length items ≤ 200)
    × ((t : Task)
        → Memᴰ t items
        → Memᴰ t site.tasks × (t.tenant_id ≡ "acme") × (task_listed (λ _. true) any_task t ≡ true))
    × (total ≡ count_by (task_listed (is_own "acme") any_task) site.tasks)
list_tasks-IsOwn_example =
    list_tasks-IsOwn (λ ts. ts) (λ ts t m. m) request ann any_task 1 500 site refl refl refl
