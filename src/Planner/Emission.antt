-- ===== src/Planner/Emission.antt =====
-- services/lifecycle_planner_service.py: how many tasks the dues of one key give.
use lance_laker.Base.{
  String, ◌+◌, ◌≤◌, ◌≡◌, ◌⊎◌, refl, sym, ap, subst, inl, inr, some, List, [], ◌∷◌, All, arith,
  Option-cases, eq_refl, find_by,
}
use lance_laker.Models.{LifecyclePolicy, Dataset, VectorizationRule, Task, Db}
use lance_laker.Paging.{length}
use lance_laker.TaskService.{insert_task}
use lance_laker.Accounting.Requests.{insert-inv}
use lance_laker.Format.{Format}
use lance_laker.Due.{Surroundings, Due, idempotency_key, rule_dues}
use lance_laker.Planner.{Progress, planned_task, keyed_with, emitted, skipped, emit, emit_all}

-- A task with this key is stored.
abbrev pub HasKey : String → Db → Type 0
HasKey key db = (t : Task) × (find_by (keyed_with key) db.tasks ≡ some t)

pub emit-HasKey :
    (env : Surroundings) (base : Db) (d : Dataset) (due : Due) (r : Progress) (db : Db)
    → HasKey due.key db
    → emit env base d due (r, db) ≡ (skipped r, db)
unfolding emit
emit-HasKey env base d due r db (t, known) = ground arith

pub planned-HasKey :
    (env : Surroundings) (d : Dataset) (due : Due) (db : Db)
    → HasKey due.key (record db { tasks = planned_task env d due ∷ db.tasks })
unfolding find_by
planned-HasKey env d due db = (planned_task env d due, ground (arith, eq_refl due.key))

-- An emission adds a task, whose key is stored then, or none.
emit-cases :
    (env : Surroundings) (base : Db) (d : Dataset) (due : Due) (r : Progress) (db : Db)
    → ((emit env base d due (r, db)).0.emitted_tasks ≡ r.emitted_tasks)
      ⊎ (((emit env base d due (r, db)).0.emitted_tasks ≡ env.uuid_for due.key ∷ r.emitted_tasks)
          × HasKey due.key (emit env base d due (r, db)).1)
unfolding emit
emit-cases env base d due r db = elim (Option-cases (find_by (keyed_with due.key) db.tasks)) [
  | inr (t, known) ↦ inl (ground arith)
  | inl unknown ↦ elim (Option-cases (env.rival due.key)) [
    | inr (committed, raced) ↦ inl (ground arith)
    | inl alone ↦ elim (Option-cases (insert_task (planned_task env d due) db)) [
      | inl refused ↦ inl (ground arith)
      | inr (db1, stored) ↦
          let (_, is_db) = insert-inv (planned_task env d due) db db1 stored in
          let out : emit env base d due (r, db) ≡ (
            emitted (env.uuid_for due.key) r,
            record db { tasks = planned_task env d due ∷ db.tasks },
          ) =
            ground arith in
          inr (
            ap (λ s. s.0.emitted_tasks) out,
            subst (λ s. HasKey due.key s.1) (sym out) (planned-HasKey env d due db),
          )
    ]
  ]
]

-- All the dues have this key.
abbrev Share : String → List Due → Type 0
Share key = All (λ due. due.key ≡ key)

emit_all-HasKey :
    (env : Surroundings) (base : Db) (d : Dataset) (key : String) (dues : List Due) (r : Progress)
    (db : Db)
    → Share key dues
    → HasKey key db
    → (emit_all env base d dues (r, db)).0.emitted_tasks ≡ r.emitted_tasks
unfolding emit_all
emit_all-HasKey env base d key [] r db same known = refl
emit_all-HasKey env base d key (due ∷ dues) r db (this, same) known =
    let seen : HasKey due.key db = subst (λ k. HasKey k db) (sym this) known in
    let r' : Progress = skipped r in
    subst (λ s. (emit_all env base d dues s).0.emitted_tasks ≡ r.emitted_tasks)
      (sym (emit-HasKey env base d due r db seen))
      (emit_all-HasKey env base d key dues r' db same known)

emit_all-Share :
    (env : Surroundings) (base : Db) (d : Dataset) (key : String) (dues : List Due) (r : Progress)
    (db : Db)
    → Share key dues
    → length (emit_all env base d dues (r, db)).0.emitted_tasks ≤ length r.emitted_tasks + 1
unfolding emit_all length
emit_all-Share env base d key [] r db same = omega arith
emit_all-Share env base d key (due ∷ dues) r db (this, same) =
    let next = emit env base d due (r, db) in
    elim (emit-cases env base d due r db) [
      | inl none_added ↦
          let rest = emit_all-Share env base d key dues next.0 next.1 same in
          omega (arith, rest, ap length none_added)
      | inr (added, stored) ↦
          let known : HasKey key next.1 = subst (λ k. HasKey k next.1) this stored in
          let rest = emit_all-HasKey env base d key dues next.0 next.1 same known in
          omega (arith, ap length rest, ap length added)
    ]

rule_dues-Share :
    (f : Format) (env : Surroundings) (p : LifecyclePolicy) (d : Dataset)
    (rs : List VectorizationRule)
    → Share
        (idempotency_key f p.id "VECTORIZE" env.hour_bucket d.tenant_id)
        (rule_dues f env p d rs)
unfolding rule_dues
rule_dues-Share f env p d [] = tt
rule_dues-Share f env p d (r ∷ rs) = (refl, rule_dues-Share f env p d rs)

-- A policy emits at most one VECTORIZE task for all the rules of its dataset, however many they are:
-- their dues have one key, in which the rule does not occur.
rule_dues-emit_once :
    (f : Format) (env : Surroundings) (base : Db) (p : LifecyclePolicy) (d : Dataset)
    (rs : List VectorizationRule) (r : Progress) (db : Db)
    → length (emit_all env base d (rule_dues f env p d rs) (r, db)).0.emitted_tasks
      ≤ length r.emitted_tasks + 1
rule_dues-emit_once f env base p d rs r db =
    emit_all-Share env base d (idempotency_key f p.id "VECTORIZE" env.hour_bucket d.tenant_id)
      (rule_dues f env p d rs) r db (rule_dues-Share f env p d rs)
