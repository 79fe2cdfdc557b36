-- ===== src/Accounting/Planning.antt =====
-- A tick of the planner, services/lifecycle_planner_service.py, in the accounts: it starts no task.
use lance_laker.Base.{
  ℕ, String, ◌≡◌, refl, sym, subst, inl, inr, some, List, [], ◌∷◌, arith, Bool-cases, Option-cases,
  find_by, select_by,
}
use lance_laker.Outcome.{ok}
use lance_laker.Tenant.{Ctx}
use lance_laker.Models.{Dataset, LifecyclePolicy, Db}
use lance_laker.Format.{Format}
use lance_laker.TaskService.{insert_task}
use lance_laker.Due.{
  Surroundings, Due, ttl_due, compaction_due, cron_due, index_dues, rule_dues, is_rule_of,
}
use lance_laker.Planner.{
  PlannerTick, Progress, stamp, is_dataset, has_acted, planned_task, keyed_with, emitted, skipped,
  emit, emit_all, plan_for_policy, plan_all, plan_once,
}
use lance_laker.Accounting.Idle.{IsIdle, insert_task-IsIdle}

-- What other planners commit before this one leaves the worker idle.
abbrev pub AreIdle : String → Surroundings → Type 0
AreIdle k env = (key : String) (db : Db) → env.rival key ≡ some db → IsIdle k db

emit-IsIdle :
    (k : String) (env : Surroundings) (base : Db) (d : Dataset) (due : Due) (state : Progress × Db)
    → AreIdle k env
    → IsIdle k base
    → IsIdle k state.1
    → IsIdle k (emit env base d due state).1
unfolding emit
emit-IsIdle k env base d due (r, db) rivals b h =
    let out : Progress × Db = emit env base d due (r, db) in
    elim (Option-cases (find_by (keyed_with due.key) db.tasks)) [
      | inr (old, known) ↦
          let is_out : out ≡ (skipped r, db) = ground arith in
          subst (λ x. IsIdle k x.1) (sym is_out) h
      | inl new ↦ elim (Option-cases (env.rival due.key)) [
        | inr (other, raced) ↦
            let is_out : out ≡ (skipped r, other) = ground arith in
            subst (λ x. IsIdle k x.1) (sym is_out) (rivals due.key other raced)
        | inl alone ↦ elim (Option-cases (insert_task (planned_task env d due) db)) [
          | inl clash ↦
              let is_out : out ≡ (skipped r, base) = ground arith in
              subst (λ x. IsIdle k x.1) (sym is_out) b
          | inr (db', stored) ↦
              let is_out : out ≡ (emitted (env.uuid_for due.key) r, db') = ground arith in
              subst (λ x. IsIdle k x.1) (sym is_out)
                (insert_task-IsIdle k (planned_task env d due) db db' refl refl stored h)
        ]
      ]
    ]

emit_all-IsIdle :
    (k : String) (env : Surroundings) (base : Db) (d : Dataset) (dues : List Due)
    (state : Progress × Db)
    → AreIdle k env
    → IsIdle k base
    → IsIdle k state.1
    → IsIdle k (emit_all env base d dues state).1
unfolding emit_all
emit_all-IsIdle k env base d [] state rivals b h = h
emit_all-IsIdle k env base d (due ∷ dues) state rivals b h =
    emit_all-IsIdle k env base d dues (emit env base d due state) rivals b
      (emit-IsIdle k env base d due state rivals b h)

stamp-IsIdle : (k : String) (now id : ℕ) (db : Db) → IsIdle k db → IsIdle k (stamp now id db)
stamp-IsIdle k now id db (s, idle) = (
  record { tasks_unique = s.tasks_unique; workers_unique = s.workers_unique; counted = s.counted },
  idle,
)

plan_for_policy-IsIdle :
    (k : String) (f : Format) (env : Surroundings) (base : Db) (p : LifecyclePolicy) (d : Dataset)
    (state : Progress × Db)
    → AreIdle k env
    → IsIdle k base
    → IsIdle k state.1
    → IsIdle k (plan_for_policy f env base p d state).1
unfolding plan_for_policy
plan_for_policy-IsIdle k f env base p d state rivals b h =
    let s1 = emit_all env base d (ttl_due f env p d) state in
    let s2 = emit_all env base d (compaction_due f env p d) s1 in
    let s3 = emit_all env base d (cron_due f env p d) s2 in
    let s4 = emit_all env base d (index_dues env p d s3.1) s3 in
    let dues = rule_dues f env p d (select_by (is_rule_of d) s4.1.rules) in
    let i1 = emit_all-IsIdle k env base d (ttl_due f env p d) state rivals b h in
    let i2 = emit_all-IsIdle k env base d (compaction_due f env p d) s1 rivals b i1 in
    let i3 = emit_all-IsIdle k env base d (cron_due f env p d) s2 rivals b i2 in
    let i4 = emit_all-IsIdle k env base d (index_dues env p d s3.1) s3 rivals b i3 in
    let i5 = emit_all-IsIdle k env base d dues s4 rivals b i4 in
    stamp-IsIdle k env.now p.id (emit_all env base d dues s4).1 i5

plan_all-IsIdle :
    (k : String) (f : Format) (env : Surroundings) (base : Db) (ps : List LifecyclePolicy)
    (state : Progress × Db)
    → AreIdle k env
    → IsIdle k base
    → IsIdle k state.1
    → IsIdle k (plan_all f env base ps state).1
unfolding plan_all
plan_all-IsIdle k f env base [] state rivals b h = h
plan_all-IsIdle k f env base (p ∷ ps) state rivals b h =
    elim (Option-cases (find_by (is_dataset p.dataset_uuid) state.1.datasets)) [
      | inl missing ↦
          let out : plan_all f env base (p ∷ ps) state ≡ plan_all f env base ps state =
            ground arith in
          subst (λ x. IsIdle k x.1) (sym out) (plan_all-IsIdle k f env base ps state rivals b h)
      | inr (d, found) ↦
          let next = plan_for_policy f env base p d state in
          let out : plan_all f env base (p ∷ ps) state ≡ plan_all f env base ps next =
            ground arith in
          subst (λ x. IsIdle k x.1) (sym out)
            (plan_all-IsIdle k f env base ps next rivals b
              (plan_for_policy-IsIdle k f env base p d state rivals b h))
    ]

-- A tick of the planner starts no task.
pub plan_once-IsIdle :
    (k : String) (f : Format) (env : Surroundings)
    (by_id : List LifecyclePolicy → List LifecyclePolicy) (c : Ctx) (db db' : Db) (t : PlannerTick)
    → AreIdle k env
    → plan_once f env by_id c db ≡ ok (t, db')
    → IsIdle k db
    → IsIdle k db'
unfolding plan_once
plan_once-IsIdle k f env by_id c db db' t rivals h i =
    let policies = by_id (select_by (λ p. p.enabled) db.policies) in
    let start : Progress × Db = (record { emitted_tasks = []; skipped_duplicates = 0 }, db) in
    let state : Progress × Db = plan_all f env db policies start in
    let planned = plan_all-IsIdle k f env db policies start rivals i i in
    elim (Bool-cases (has_acted state.0)) [
      | inl acted ↦ let same : db' ≡ state.1 = ground arith in subst (IsIdle k) (sym same) planned
      | inr quiet ↦ let same : db' ≡ db = ground arith in subst (IsIdle k) (sym same) i
    ]
