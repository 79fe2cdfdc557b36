-- ===== src/Policies/Roundtrip.antt =====
-- services/lifecycle_service.py: what a policy that was written reads back as.
use lance_laker.Base.{
  ℕ, String, ◌≡◌, sym, ap, ap₂, subst, ◌∙◌, inl, inr, not, none, some, List, ◌∷◌, arith,
  Option-cases, eq_iff, eq_refl, find_by, find_by_holds, find_by-select_by, select_by,
}
use lance_laker.Outcome.{ok, err, Outcome-split, policy_not_found}
use lance_laker.Tenant.{Ctx}
use lance_laker.Models.{Dataset, LifecyclePolicy, Db}
use lance_laker.Datasets.{get_dataset}
use lance_laker.Policies.{
  PolicyCreateRequest, policy_at, new_policy, maybe_get_policy, insert_policy, create_policy,
  get_policy, delete_policy,
}

-- What `get_policy` has found.
get_policy-inv :
    (c : Ctx) (uuid name : String) (db : Db) (p : LifecyclePolicy)
    → get_policy c uuid name db ≡ ok p
    → (d : Dataset) × (get_dataset c uuid db ≡ ok d)
      × (maybe_get_policy uuid name db ≡ some p)
      × (p.dataset_uuid ≡ uuid)
      × (p.policy_name ≡ name)
unfolding get_policy
get_policy-inv c uuid name db p h = elim (Outcome-split (get_dataset c uuid db)) [
  | inr (e, denied) ↦ absurd (ground arith)
  | inl (d, seen) ↦ elim (Option-cases (maybe_get_policy uuid name db)) [
    | inl missing ↦ absurd (ground arith)
    | inr (q, found) ↦
        let same : q ≡ p = ground arith in
        let stored : maybe_get_policy uuid name db ≡ some p = found ∙ ap some same in
        let hit = find_by_holds (policy_at uuid name) db.policies p stored in
        (
          d,
          seen,
          stored,
          ground (arith, eq_iff p.dataset_uuid uuid, eq_iff p.policy_name name),
          ground (arith, eq_iff p.dataset_uuid uuid, eq_iff p.policy_name name),
        )
  ]
]

-- A policy that `create_policy` returns is the request's, with the given id, and `get_policy` then
-- returns it.
create_policy-get_policy :
    (c : Ctx) (id now : ℕ) (uuid : String) (r : PolicyCreateRequest) (db db' : Db)
    (p : LifecyclePolicy)
    → create_policy c id now uuid r db ≡ ok (p, db')
    → (p ≡ new_policy uuid r id now) × (get_policy c uuid r.policy_name db' ≡ ok p)
unfolding create_policy insert_policy get_policy find_by get_dataset
create_policy-get_policy c id now uuid r db db' p h =
    let new = new_policy uuid r id now in
    elim (Outcome-split (get_dataset c uuid db)) [
      | inr (e, denied) ↦ absurd (ground arith)
      | inl (d, seen) ↦ elim (Option-cases (maybe_get_policy uuid r.policy_name db)) [
        | inr (q, taken) ↦ absurd (ground arith)
        | inl free ↦
            let is_p : new ≡ p = ground arith in
            let is_db : record db { policies = new ∷ db.policies } ≡ db' = ground arith in
            let stored : maybe_get_policy uuid r.policy_name
                  (record db { policies = new ∷ db.policies })
                ≡ some new =
              ground (arith, eq_refl uuid, eq_refl r.policy_name) in
            let seen' : get_dataset c uuid (record db { policies = new ∷ db.policies }) ≡ ok d =
              seen in
            (sym is_p, subst (λ x. get_policy c uuid r.policy_name x ≡ ok p) is_db (ground arith))
      ]
    ]

absent_policy :
    (c : Ctx) (uuid : String) (r : PolicyCreateRequest) (id now : ℕ) (db : Db)
    (ps : List LifecyclePolicy) (d : Dataset)
    → get_dataset c uuid db ≡ ok d
    → find_by (policy_at uuid r.policy_name) ps ≡ none
    → (get_policy c uuid r.policy_name (record db { policies = ps }) ≡ err policy_not_found)
      × ((db' : Db) × (create_policy c id now uuid r (record db { policies = ps })
            ≡ ok (new_policy uuid r id now, db')))
unfolding get_policy create_policy insert_policy get_dataset
absent_policy c uuid r id now db ps d seen free =
    (ground arith, (record db { policies = new_policy uuid r id now ∷ ps }, ground arith))

-- After `delete_policy`, `get_policy` raises PolicyNotFoundError, and `create_policy` with this name
-- returns the new policy.
delete_policy-get_policy :
    (c : Ctx) (uuid : String) (r : PolicyCreateRequest) (id now : ℕ) (db db' : Db)
    → delete_policy c uuid r.policy_name db ≡ ok db'
    → (get_policy c uuid r.policy_name db' ≡ err policy_not_found)
      × ((db'' : Db) × (create_policy c id now uuid r db' ≡ ok (new_policy uuid r id now, db'')))
unfolding delete_policy
delete_policy-get_policy c uuid r id now db db' h =
    elim (Outcome-split (get_policy c uuid r.policy_name db)) [
      | inr (e, missing) ↦ absurd (ground arith)
      | inl (p, got) ↦
          let (d, seen, stored, own, named) = get_policy-inv c uuid r.policy_name db p got in
          let rest = select_by (λ q. not (policy_at p.dataset_uuid p.policy_name q)) db.policies in
          let is_db : record db { policies = rest } ≡ db' = ground arith in
          let gone : maybe_get_policy uuid r.policy_name (record db { policies = rest }) ≡ none =
            subst (λ a. find_by a rest ≡ none) (ap₂ policy_at own named)
              (find_by-select_by (policy_at p.dataset_uuid p.policy_name) db.policies) in
          subst
            (λ x.
              (get_policy c uuid r.policy_name x ≡ err policy_not_found)
              × ((db'' : Db) × (create_policy c id now uuid r x
                    ≡ ok (new_policy uuid r id now, db''))))
            is_db (absent_policy c uuid r id now db rest d seen gone)
    ]
