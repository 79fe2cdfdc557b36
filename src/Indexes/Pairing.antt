-- ===== src/Indexes/Pairing.antt =====
-- services/index_service.py: an index in a transient state has a task that will end it.
use lance_laker.Base.{
  ℕ, String, ◌≡◌, refl, sym, ap₂, ◌∙◌, inl, inr, Bool, true, false, some, ◌∷◌, arith, Bool-cases,
  Option-cases, find_by, find_by-put_by, subst,
}
use lance_laker.Outcome.{err, Outcome-split, index_exists, index_transition}
use lance_laker.Tenant.{TenantPrincipal, Ctx}
use lance_laker.Models.{Index, building, ready, optimizing, failed, is_ready, Db}
use lance_laker.Format.{Format}
use lance_laker.Datasets.{get_dataset}
use lance_laker.Indexes.{
  IndexSpec, Stamp, index_at, save_index, maybe_get_index, get_index, new_index, make_room,
  insert_index, build_key, build_task, submit_or_fall_back, create_index, optimize_key,
  optimize_task, optimized, optimize_index,
}
use lance_laker.Indexes.Submitting.{IsPaired, index_at_self, fall_back-IsPaired}
use lance_laker.Indexes.Merging.{get_index-inv}

make_room-tasks :
    (replace : Bool) (uuid name : String) (db : Db)
    → (make_room replace uuid name db).tasks ≡ db.tasks
unfolding make_room
make_room-tasks true uuid name db = refl
make_room-tasks false uuid name db = refl

pub insert_index-inv :
    (x : Index) (db db' : Db)
    → insert_index x db ≡ some db'
    → (maybe_get_index x.dataset_uuid x.index_name db' ≡ some x) × (db'.tasks ≡ db.tasks)
unfolding insert_index find_by
insert_index-inv x db db' h = elim (Option-cases (maybe_get_index x.dataset_uuid x.index_name db)) [
  | inr (old, clash) ↦ absurd (ground arith)
  | inl free ↦
      let is_db : record db { indexes = x ∷ db.indexes } ≡ db' = ground arith in
      rw (← is_db) (rw (index_at_self x) refl, refl)
]

-- For a bound principal, `create_index` either returns the index, which is stored as BUILDING while
-- a task is stored under the key of its build; or it raises, and either nothing has changed, or
-- the index is stored as FAILED and no task is new.
pub create_index-IsPaired :
    (f : Format) (c : Ctx) (p : TenantPrincipal) (stamp : Stamp) (id : ℕ) (replace : Bool)
    (s : IndexSpec) (db : Db)
    → c.principal ≡ some p
    → IsPaired p
        (build_key f)
        building
        failed
        s.dataset_uuid
        s.index_name
        db
        (create_index f c stamp id replace s db)
unfolding create_index
create_index-IsPaired f c p stamp id replace s db bound =
    let room = make_room replace s.dataset_uuid s.index_name db in
    let x = new_index s id stamp.now in
    let goal = IsPaired p (build_key f) building failed s.dataset_uuid s.index_name db in
    elim (Outcome-split (get_dataset c s.dataset_uuid db)) [
      | inr (e, denied) ↦
          let out : create_index f c stamp id replace s db ≡ (err e, db) = ground arith in
          subst goal (sym out) (inr (e, refl, inl refl))
      | inl (d, allowed) ↦ elim (Option-cases (insert_index x room)) [
        | inl clash ↦
            let out : create_index f c stamp id replace s db ≡ (err index_exists, db) =
              ground arith in
            subst goal (sym out) (inr (index_exists, refl, inl refl))
        | inr (db1, stored) ↦
            let out : create_index f c stamp id replace s db
                ≡ submit_or_fall_back f c stamp (build_task f x) failed x db1 =
              ground arith in
            subst goal (sym out) (
              fall_back-IsPaired f c p stamp (build_task f x) (build_key f) failed x db db1 bound
                refl (insert_index-inv x room db1 stored).0
                ((insert_index-inv x room db1 stored).1
                  ∙ make_room-tasks replace s.dataset_uuid s.index_name db))
      ]
    ]

-- For a bound principal, `optimize_index` either returns the index, which is stored as OPTIMIZING
-- while a task is stored under the key of this optimization; or it raises, and either nothing
-- has changed, or the index is stored as READY and no task is new.
optimize_index-IsPaired :
    (f : Format) (c : Ctx) (p : TenantPrincipal) (stamp : Stamp) (at : ℕ) (uuid name : String)
    (db : Db)
    → c.principal ≡ some p
    → IsPaired p
        (optimize_key f at)
        optimizing
        ready
        uuid
        name
        db
        (optimize_index f c stamp at uuid name db)
unfolding optimize_index
optimize_index-IsPaired f c p stamp at uuid name db bound =
    let goal = IsPaired p (optimize_key f at) optimizing ready uuid name db in
    elim (Outcome-split (get_index c uuid name db)) [
      | inr (e, denied) ↦
          let out : optimize_index f c stamp at uuid name db ≡ (err e, db) = ground arith in
          subst goal (sym out) (inr (e, refl, inl refl))
      | inl (x, allowed) ↦ elim (Bool-cases (is_ready x.status)) [
        | inr busy ↦
            let out : optimize_index f c stamp at uuid name db ≡ (err index_transition, db) =
              ground arith in
            subst goal (sym out) (inr (index_transition, refl, inl refl))
        | inl free ↦
            let (stored, is_uuid, is_name) = get_index-inv c uuid name db x allowed in
            let y = optimized at x in
            let db1 = save_index y db in
            let out : optimize_index f c stamp at uuid name db
                ≡ submit_or_fall_back f c stamp (optimize_task f at x) ready y db1 =
              ground arith in
            subst goal (sym out) (
              rw is_uuid (
                rw is_name (
                  fall_back-IsPaired f c p stamp (optimize_task f at x) (optimize_key f at) ready y
                    db db1 bound refl
                    (find_by-put_by (index_at x.dataset_uuid x.index_name) y db.indexes x
                      (sym (ap₂ (λ u n. maybe_get_index u n db) is_uuid is_name) ∙ stored)
                      (index_at_self x))
                    refl)))
      ]
    ]
