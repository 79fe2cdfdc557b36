-- ===== src/History/Evolution.antt =====
-- What one call does to the table `task`: each stored row makes one step of the state machine or
-- stays, or one new row is stored and nothing else changes.
use lance_laker.Base.{
  ℕ, String, ◌≡◌, ◌⊎◌, sym, ap, subst, ◌∙◌, inl, inr, Bool, Option, none, some, List, ◌∷◌, arith,
  IsUnique, find_by, put_by, find_by_unique,
}
use mathlib.Core.Option.{some-injective}
use lance_laker.Outcome.{ok}
use lance_laker.Tenant.{Ctx}
use lance_laker.Models.{Task, running, pending, Db}
use lance_laker.Session.{task_at}
use lance_laker.Scheduler.Workers.{decrement_in_flight}
use lance_laker.Scheduler.Dispatch.{Engine, claim_next_task, finish}
use lance_laker.Scheduler.Claim.{claim_sound, claim-none, all_tenants}
use lance_laker.TaskService.{
  Submission, clashes, submit_task, cancel_task, called_off, release_slot, retry_task, retried,
}
use lance_laker.Accounting.Moves.{uuid_of}
use lance_laker.Accounting.Operations.{found_by_own, finish-inv}
use lance_laker.Accounting.Requests.{retry-inv, cancel-inv, submit-inv, insert-inv}
use lance_laker.History.Steps.{Step, Rowwise, Rowwise-refl, Rowwise-put_by}

-- A new row, PENDING with no attempt made, whose uuid and key no stored row has.
abbrev pub Adds : List Task → List Task → Type 0
Adds ts ts' =
    (t : Task) × (t.status ≡ pending)
    × (t.attempt ≡ 0)
    × (find_by (clashes t) ts ≡ none)
    × (ts' ≡ t ∷ ts)

abbrev pub Evolves : List Task → List Task → Type 0
Evolves ts ts' = Rowwise Step ts ts' ⊎ Adds ts ts'

abbrev pub Keeps : Db → Db → Type 0
Keeps db d = Evolves db.tasks d.tasks

pub unchanged : (ts : List Task) → Evolves ts ts
unchanged ts = inl (Rowwise-refl Step (λ t. Step.stays) ts)

pub same_tasks : (db db' : Db) → db'.tasks ≡ db.tasks → Keeps db db'
same_tasks db db' e = rw e (unchanged db.tasks)

-- The row that `find_by` sees is the row that the step is about.
Step-found :
    (p : Task → Bool) (v t : Task) (ts : List Task)
    → find_by p ts ≡ some t
    → Step t v
    → Evolves ts (put_by p v ts)
Step-found p v t ts found step = inl (
    Rowwise-put_by Step (λ x. Step.stays) p v ts
      (λ x at. subst (λ y. Step y v) (some-injective t x (sym found ∙ at)) step))

pub claim-Evolves :
    (e : Engine) (c : Ctx) (locked : Task → Bool) (now : ℕ) (worker_id lease_id : String)
    (task_type : Option String) (db db' : Db) (r : Option Task)
    → IsUnique uuid_of db.tasks
    → claim_next_task e c locked now worker_id lease_id task_type db ≡ ok (r, db')
    → Keeps db db'
claim-Evolves e c locked now wid lease type db db' none u h =
    let (_, _, _, same) = claim-none e c locked now wid lease type db db' h in
    same_tasks db db' (ap (λ d. d.tasks) same)
claim-Evolves e c locked now wid lease type db db' (some t') u h =
    let (_, dispatch) = claim_sound e c locked now wid lease type db db' t' h in
    let (w, t, _, _, _, _, stored, fits, _, _, is_t, is_db) = dispatch in
    let found : find_by (task_at all_tenants t'.task_uuid) db.tasks ≡ some t =
      rw is_t (find_by_unique uuid_of db.tasks t u stored) in
    let step : Step t t' = rw is_t (Step.starts wid now (ground arith) (ground arith)) in
    rw is_db (Step-found (task_at all_tenants t'.task_uuid) t' t db.tasks found step)

pub finish-Evolves :
    (c : Ctx) (worker_id uuid : String) (change : Task → Task) (db db' : Db) (t' : Task)
    → ((t : Task) → (change t).task_uuid ≡ t.task_uuid)
    → ((t : Task) → t.status ≡ running → Step t (change t))
    → finish c worker_id uuid change db ≡ ok (t', db')
    → Keeps db db'
unfolding decrement_in_flight
finish-Evolves c wid uuid change db db' t' same step h =
    let (t, _, found, _, ran, _, is_db) = finish-inv c wid uuid change db db' t' h in
    rw is_db (
      Step-found (task_at all_tenants (change t).task_uuid) (change t) t db.tasks
        (rw (same t) (found_by_own all_tenants uuid db.tasks t found)) (step t ran))

pub retry-Evolves :
    (c : Ctx) (uuid : String) (db db' : Db) (t' : Task)
    → retry_task c uuid db ≡ ok (t', db')
    → Keeps db db'
retry-Evolves c uuid db db' t' h =
    let (see, t, _, found, broke, left, _, is_db) = retry-inv c uuid db db' t' h in
    rw is_db (
      Step-found (task_at see t.task_uuid) (retried t) t db.tasks
        (found_by_own see uuid db.tasks t found) (Step.retries broke left))

release-tasks : (t : Task) (db : Db) → (release_slot t db).tasks ≡ db.tasks
unfolding decrement_in_flight
release-tasks t db = ground arith

pub cancel-Evolves :
    (c : Ctx) (now : ℕ) (uuid : String) (db db' : Db) (t' : Task)
    → cancel_task c now uuid db ≡ ok (t', db')
    → Keeps db db'
cancel-Evolves c now uuid db db' t' h =
    let (see, t, _, found, how) = cancel-inv c now uuid db db' t' h in
    elim how [
      | inl (_, _, same) ↦ same_tasks db db' (ap (λ d. d.tasks) same)
      | inr (may, _, is_db) ↦ rw is_db (
          rw (release-tasks t db) (
            Step-found (task_at see t.task_uuid) (called_off now t) t db.tasks
              (found_by_own see uuid db.tasks t found) (Step.cancels now may)))
    ]

pub submit-Evolves :
    (c : Ctx) (uuid : String) (now : ℕ) (sub : Submission) (db db' : Db) (t' : Task)
    (created : Bool)
    → submit_task c (λ d. d) uuid now sub db ≡ ok (t', created, db')
    → Keeps db db'
submit-Evolves c uuid now sub db db' t' created h =
    let (p, see, _, _, how) = submit-inv c (λ d. d) uuid now sub db db' t' created h in
    elim how [
      | inl (_, same, _) ↦ same_tasks db db' (ap (λ d. d.tasks) same)
      | inr (_, inl (_, same, _)) ↦ same_tasks db db' (ap (λ d. d.tasks) same)
      | inr (_, inr (_, is_new, stored)) ↦
          let (fresh, is_db) = insert-inv t' db db' stored in
          inr (
            t',
            ap (λ x. x.status) is_new,
            ap (λ x. x.attempt) is_new,
            fresh,
            ap (λ d. d.tasks) is_db,
          )
    ]
