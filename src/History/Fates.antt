-- ===== src/History/Fates.antt =====
-- Consequences of the state machine for a task in any history.
use lance_laker.Base.{
  String, ◌≤◌, ◌≡◌, ◌⊎◌, refl, sym, ap, subst, ◌∙◌, inl, inr, some, List, arith, IsUnique, has_key,
  find_by, put_by, put_by-IsUnique, find_by-put_by, eq_refl, find_by_unique, find_by-Memᴰ,
  put_by-agree,
}
use lance_laker.Outcome.{ok}
use lance_laker.Tenant.{Ctx}
use lance_laker.Models.{Task, pending, succeeded, cancelled, Db}
use lance_laker.Session.{task_at}
use lance_laker.Scheduler.Dispatch.{Engine}
use lance_laker.TaskService.{retry_task, retried}
use lance_laker.Accounting.Moves.{uuid_of}
use lance_laker.Accounting.Requests.{retry-inv}
use lance_laker.Accounting.Operations.{found_by_own}
use lance_laker.History.Calls.{Call, run}
use lance_laker.History.Steps.{Step}
use lance_laker.History.Reach.{Reach, here, next, run-Reach}

-- What no call changes of a task.
pub record IsSameTask (t t' : Task) : Type 0 where
  pub same_uuid : t'.task_uuid ≡ t.task_uuid
  pub same_tenant : t'.tenant_id ≡ t.tenant_id
  pub same_dataset : t'.dataset_uuid ≡ t.dataset_uuid
  pub same_type : t'.task_type ≡ t.task_type
  pub same_key : t'.idempotency_key ≡ t.idempotency_key
  pub same_params : t'.params ≡ t.params
  pub same_priority : t'.priority ≡ t.priority
  pub same_limit : t'.max_attempts ≡ t.max_attempts
  pub same_creation : t'.created_at ≡ t.created_at

Step-IsSameTask : {t t' : Task} → Step t t' → IsSameTask t t'
Step-IsSameTask Step.stays = ground arith
Step-IsSameTask (Step.starts _ _ _ _) = ground arith
Step-IsSameTask (Step.completes _ _ _) = ground arith
Step-IsSameTask (Step.breaks _ _ _ _) = ground arith
Step-IsSameTask (Step.requeues _) = ground arith
Step-IsSameTask (Step.cancels _ _) = ground arith
Step-IsSameTask (Step.retries _ _) = ground arith

IsSameTask-trans : (a b c : Task) → IsSameTask a b → IsSameTask b c → IsSameTask a c
IsSameTask-trans a b c h k = ground arith

pub Reach-IsSameTask : {t t' : Task} → Reach t t' → IsSameTask t t'
Reach-IsSameTask here = ground arith
Reach-IsSameTask {t} {t'} (next {u = u} r st) =
    IsSameTask-trans t u t' (Reach-IsSameTask r) (Step-IsSameTask st)

-- The attempts stay within the limit and never fall.
abbrev pub Spends : Task → Task → Type 0
Spends t t' = (t'.attempt ≤ t'.max_attempts) × (t.attempt ≤ t'.attempt)

abbrev pub IsTerminal : Task → Type 0
IsTerminal t = (t.status ≡ succeeded) ⊎ (t.status ≡ cancelled)

Step-terminal : {t t' : Task} → Step t t' → IsTerminal t → t' ≡ t
Step-terminal Step.stays h = refl
Step-terminal (Step.starts _ _ waits _) h = absurd (ground arith)
Step-terminal (Step.completes _ _ ran) h = absurd (ground arith)
Step-terminal (Step.breaks _ _ _ ran) h = absurd (ground arith)
Step-terminal (Step.requeues ran) h = absurd (ground arith)
Step-terminal (Step.cancels _ may) h = absurd (ground arith)
Step-terminal (Step.retries broke _) h = absurd (ground arith)

Reach-terminal : {t t' : Task} → Reach t t' → IsTerminal t → t' ≡ t
Reach-terminal here h = refl
Reach-terminal (next r st) h =
    let same = Reach-terminal r h in Step-terminal st (subst IsTerminal (sym same) h) ∙ same

-- PENDING with no attempt left.
abbrev pub IsSpent : Task → Type 0
IsSpent t = (t.status ≡ pending) × (t.max_attempts ≤ t.attempt)

Step-spent : {t t' : Task} → Step t t' → IsSpent t → (t' ≡ t) ⊎ (t'.status ≡ cancelled)
Step-spent Step.stays h = inl refl
Step-spent (Step.starts _ _ _ left) h = absurd (omega arith)
Step-spent (Step.completes _ _ ran) h = absurd (ground arith)
Step-spent (Step.breaks _ _ _ ran) h = absurd (ground arith)
Step-spent (Step.requeues ran) h = absurd (ground arith)
Step-spent (Step.cancels _ may) h = inr refl
Step-spent (Step.retries broke _) h = absurd (ground arith)

Reach-spent : {t t' : Task} → Reach t t' → IsSpent t → (t' ≡ t) ⊎ (t'.status ≡ cancelled)
Reach-spent here h = inl refl
Reach-spent (next r st) h = elim (Reach-spent r h) [
  | inl same ↦ elim (Step-spent st (subst IsSpent (sym same) h)) [
    | inl still ↦ inl (still ∙ same)
    | inr off ↦ inr off
  ]
  | inr off ↦ inr (ap (λ t. t.status) (Step-terminal st (inr off)) ∙ off)
]

-- Uuids being unique, a SUCCEEDED or CANCELLED task keeps its row through any history of calls.
pub run-terminal :
    (e : Engine) (calls : List Call) (db : Db) (uuid : String) (t : Task)
    → IsUnique uuid_of db.tasks
    → find_by (has_key uuid_of uuid) db.tasks ≡ some t
    → IsTerminal t
    → find_by (has_key uuid_of uuid) (run e calls db).tasks ≡ some t
run-terminal e calls db uuid t u found final =
    let (t', found', reach) = run-Reach e calls db uuid t u found in
    found' ∙ ap some (Reach-terminal reach final)

-- The last retry that `retry_task` grants, the one that raises `attempt` to `max_attempts`, leaves
-- a task that never runs again: uuids being unique, after any history its row is the PENDING row
-- that the retry stored, or is CANCELLED.
pub retry-last_stuck :
    (e : Engine) (c : Ctx) (calls : List Call) (db db' : Db) (uuid : String) (t' : Task)
    → IsUnique uuid_of db.tasks
    → retry_task c uuid db ≡ ok (t', db')
    → t'.attempt ≡ t'.max_attempts
    → (t'' : Task) × (find_by (has_key uuid_of t'.task_uuid) (run e calls db').tasks ≡ some t'')
      × ((t'' ≡ t') ⊎ (t''.status ≡ cancelled))
retry-last_stuck e c calls db db' uuid t' u h last =
    let (see, t, _, found, _, _, is_t, is_db) = retry-inv c uuid db db' t' h in
    let at : find_by (task_at see t.task_uuid) db.tasks ≡ some t =
      found_by_own see uuid db.tasks t found in
    let owns : find_by (has_key uuid_of t.task_uuid) db.tasks ≡ some t =
      find_by_unique uuid_of db.tasks t u (find_by-Memᴰ (task_at see t.task_uuid) db.tasks t at) in
    let rows : db'.tasks ≡ put_by (has_key uuid_of t.task_uuid) (retried t) db.tasks =
      ap (λ d. d.tasks) is_db
      ∙ put_by-agree (task_at see t.task_uuid) (has_key uuid_of t.task_uuid) (retried t) db.tasks t
          (λ x seen. ground arith) at owns in
    let stored : find_by (has_key uuid_of t.task_uuid) db'.tasks ≡ some (retried t) = rw rows (
      find_by-put_by (has_key uuid_of t.task_uuid) (retried t) db.tasks t owns
        (eq_refl t.task_uuid)) in
    let unique : IsUnique uuid_of db'.tasks =
      rw rows (
        put_by-IsUnique uuid_of (has_key uuid_of t.task_uuid) (retried t) db.tasks t owns refl u) in
    let (t'', found'', reach) = run-Reach e calls db' t.task_uuid (retried t) unique stored in
    let stuck =
      Reach-spent reach
        (refl, omega (arith, last, ap (λ x. x.attempt) is_t, ap (λ x. x.max_attempts) is_t)) in
    rw is_t (t'', found'', stuck)
