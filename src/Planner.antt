-- ===== src/Planner.antt =====
-- services/lifecycle_planner_service.py: the emission of the tasks that are due, and a tick.
pub mod Emission
pub mod Growth
pub mod Again
use lance_laker.Base.{
  ℕ, String, ◌+◌, Bool, true, none, some, List, [], ◌∷◌, ltb, nat_eq, str_eq, holds_text,
  if◌then◌else◌, find_by, select_by, update_by,
}
use lance_laker.Outcome.{Outcome, ok, ◌>>◌}
use lance_laker.Tenant.{Ctx, require_system_context}
use lance_laker.Models.{Dataset, LifecyclePolicy, Task, pending, Db}
use lance_laker.TaskService.{insert_task}
use lance_laker.Paging.{length}
use lance_laker.Format.{Format}
use lance_laker.Due.{
  Surroundings, Due, ttl_due, compaction_due, cron_due, hot_dues, index_dues, rule_dues, is_rule_of,
}

-- What a tick returns.
pub record PlannerTick : Type 0 where
  pub scanned_policies : ℕ
  pub emitted_tasks : List String  -- here the last first
  pub skipped_duplicates : ℕ

-- What a tick has done so far.
pub record Progress : Type 0 where
  pub emitted_tasks : List String
  pub skipped_duplicates : ℕ

abbrev pub planned_task : Surroundings → Dataset → Due → Task
planned_task env d due = record {
  task_uuid = env.uuid_for due.key;
  task_type = due.task_type;
  dataset_uuid = d.dataset_uuid;
  tenant_id = d.tenant_id;
  status = pending;
  priority = 5;
  progress = 0;
  attempt = 0;
  max_attempts = 3;
  worker_id = none;
  idempotency_key = some due.key;
  params = some due.params;
  result = none;
  error_code = none;
  error_message = none;
  scheduled_at = none;
  started_at = none;
  finished_at = none;
  created_at = env.now;
}

abbrev pub keyed_with : String → Task → Bool
keyed_with key t = holds_text t.idempotency_key key

abbrev pub emitted : String → Progress → Progress
emitted uuid r = record r { emitted_tasks = uuid ∷ r.emitted_tasks }

abbrev pub skipped : Progress → Progress
skipped r = record r { skipped_duplicates = r.skipped_duplicates + 1 }

-- `_try_emit_task`, and the emission for a hot index. `base` is the committed state, to which a
-- rollback returns. The list of uuids is kept last first.
unfoldable pub emit : Surroundings → Db → Dataset → Due → Progress × Db → Progress × Db
emit env base d due (r, db) = elim (find_by (keyed_with due.key) db.tasks) [
  | some _ ↦ (skipped r, db)
  | none ↦ elim (env.rival due.key) [
    | some committed ↦ (skipped r, committed)
    | none ↦ elim (insert_task (planned_task env d due) db) [
      | some db' ↦ (emitted (env.uuid_for due.key) r, db')
      | none ↦ (skipped r, base)
    ]
  ]
]

unfoldable pub emit_all : Surroundings → Db → Dataset → List Due → Progress × Db → Progress × Db
emit_all env base d [] state = state
emit_all env base d (due ∷ dues) state = emit_all env base d dues (emit env base d due state)

abbrev pub stamp : ℕ → ℕ → Db → Db
stamp now policy_id db = record db {
  policies =
      update_by (λ p. nat_eq p.id policy_id) (λ p. record p { last_run_at = some now }) db.policies;
}

-- `_plan_for_policy`: the rules and the indexes are read when their turn comes.
unfoldable pub plan_for_policy :
    Format → Surroundings → Db → LifecyclePolicy → Dataset → Progress × Db → Progress × Db
unfolding emit_all rule_dues hot_dues
plan_for_policy f env base p d state =
    let s1 = emit_all env base d (ttl_due f env p d) state in
    let s2 = emit_all env base d (compaction_due f env p d) s1 in
    let s3 = emit_all env base d (cron_due f env p d) s2 in
    let s4 = emit_all env base d (index_dues env p d s3.1) s3 in
    let s5 = emit_all env base d (rule_dues f env p d (select_by (is_rule_of d) s4.1.rules)) s4 in
    (s5.0, stamp env.now p.id s5.1)

abbrev pub is_dataset : String → Dataset → Bool
is_dataset dataset_uuid d = str_eq d.dataset_uuid dataset_uuid

unfoldable pub plan_all :
    Format → Surroundings → Db → List LifecyclePolicy → Progress × Db → Progress × Db
unfolding plan_for_policy
plan_all f env base [] state = state
plan_all f env base (p ∷ ps) state = elim (find_by (is_dataset p.dataset_uuid) state.1.datasets) [
  | none ↦ plan_all f env base ps state
  | some d ↦ plan_all f env base ps (plan_for_policy f env base p d state)
]

abbrev pub has_acted : Progress → Bool
has_acted r = elim r.emitted_tasks [ [] ↦ ltb 0 r.skipped_duplicates | _ ∷ _ ↦ true ]

-- `by_id` is `ORDER BY id`. Without a task emitted or skipped nothing is committed.
unfoldable pub plan_once :
    Format
    → Surroundings
    → (List LifecyclePolicy → List LifecyclePolicy)
    → Ctx
    → Db
    → Outcome (PlannerTick × Db)
plan_once f env by_id c db = do
  require_system_context c
  let policies = by_id (select_by (λ p. p.enabled) db.policies)
  let state = plan_all f env db policies (record { emitted_tasks = []; skipped_duplicates = 0 }, db)
  ok (
    record {
      scanned_policies = length policies;
      emitted_tasks = state.0.emitted_tasks;
      skipped_duplicates = state.0.skipped_duplicates;
    },
    if has_acted state.0 then state.1 else db,
  )
