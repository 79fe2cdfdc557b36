-- ===== src/Indexes/Merging.antt =====
-- services/index_service.py: the state MERGING.
use lance_laker.Base.{String, ◌≡◌, inl, inr, true, some, arith, Option-cases, find_by_holds, eq_iff}
use lance_laker.Outcome.{ok, Outcome-split}
use lance_laker.Tenant.{Ctx}
use lance_laker.Models.{Index, Db}
use lance_laker.Format.{Format}
use lance_laker.Datasets.{get_dataset}
use lance_laker.Indexes.{index_at, maybe_get_index, get_index}

pub get_index-inv :
    (c : Ctx) (uuid name : String) (db : Db) (x : Index)
    → get_index c uuid name db ≡ ok x
    → (maybe_get_index uuid name db ≡ some x) × (uuid ≡ x.dataset_uuid) × (name ≡ x.index_name)
unfolding get_index
get_index-inv c uuid name db x h = elim (Outcome-split (get_dataset c uuid db)) [
  | inr (e, denied) ↦ absurd (ground arith)
  | inl (d, allowed) ↦ elim (Option-cases (maybe_get_index uuid name db)) [
    | inl absent ↦ absurd (ground arith)
    | inr (y, found) ↦
        let same : y ≡ x = ground arith in
        let stored : maybe_get_index uuid name db ≡ some x = ground arith in
        let hit : index_at uuid name x ≡ true =
          find_by_holds (index_at uuid name) db.indexes x stored in
        (
          stored,
          ground (arith, eq_iff x.dataset_uuid uuid),
          ground (arith, eq_iff x.index_name name, eq_iff x.dataset_uuid uuid),
        )
  ]
]
