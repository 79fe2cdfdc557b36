-- ===== src/Watcher/Candidates.antt =====
-- services/index_watcher_service.py: the query for the indexes to visit.
use lance_laker.Base.{◌&&◌, List, [], ◌∷◌, str_eq, if◌then◌else◌}
use mathlib.Core.List.{◌++◌}
use lance_laker.Models.{Dataset, Index, is_ready, LifecyclePolicy, Db}

-- A row of `_fetch_candidates`.
pub record Candidate : Type 0 where
  pub index : Index
  pub dataset : Dataset
  pub policy : LifecyclePolicy

with_policies : Index → Dataset → List LifecyclePolicy → List Candidate
with_policies x d [] = []
with_policies x d (p ∷ ps) =
    let rest = with_policies x d ps in
    if str_eq p.dataset_uuid x.dataset_uuid && (p.enabled && p.index_watch_enabled)
    then record { index = x; dataset = d; policy = p } ∷ rest
    else rest

with_datasets : Index → List Dataset → List LifecyclePolicy → List Candidate
with_datasets x [] ps = []
with_datasets x (d ∷ ds) ps =
    let rest = with_datasets x ds ps in
    if str_eq d.dataset_uuid x.dataset_uuid then with_policies x d ps ++ rest else rest

all_candidates : List Index → List Dataset → List LifecyclePolicy → List Candidate
all_candidates [] ds ps = []
all_candidates (x ∷ xs) ds ps =
    let rest = all_candidates xs ds ps in
    if is_ready x.status then with_datasets x ds ps ++ rest else rest

-- `by_name` is the database's `ORDER BY dataset_uuid, index_name`.
unfoldable pub fetch_candidates : (List Candidate → List Candidate) → Db → List Candidate
unfolding all_candidates with_datasets with_policies
fetch_candidates by_name db = by_name (all_candidates db.indexes db.datasets db.policies)
