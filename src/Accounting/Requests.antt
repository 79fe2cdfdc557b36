-- ===== src/Accounting/Requests.antt =====
-- The task service's part in the accounts: submission, cancellation and retry.
use lance_laker.Base.{
  ℕ, String, ◌<◌, ◌≡◌, ◌⊎◌, refl, sym, subst, inl, inr, Bool, true, false, ◌&&◌, not, Option, none,
  some, ◌∷◌, str_eq, eq_iff, arith, Bool-cases, Option-cases, has_key, find_by, find_by-none,
}
use lance_laker.Outcome.{ok, Outcome-split}
use lance_laker.Tenant.{TenantPrincipal, Ctx}
use lance_laker.Models.{Task, failed, is_running, is_cancelled, cancelled, Db}
use lance_laker.Session.{visible, task_at, save_task}
use lance_laker.Scheduler.Workers.{decrement_in_flight}
use lance_laker.TaskService.{
  Submission, scoped_key, find_keyed, new_task, clashes, insert_task, submit_task, cancel_task,
  called_off, release_slot, is_cancellable, retry_task, retried,
}
use lance_laker.Accounting.Invariant.{IsSound}
use lance_laker.Accounting.Moves.{uuid_of, keep_task, stop_task, add_task}
use lance_laker.Accounting.Operations.{found_by_own}

-- What a lookup that does not raise has found.
pub retry-inv :
    (c : Ctx) (uuid : String) (db db' : Db) (t' : Task)
    → retry_task c uuid db ≡ ok (t', db')
    → (see : String → Bool) × (t : Task) × (visible c "task" ≡ ok see)
      × (find_by (task_at see uuid) db.tasks ≡ some t)
      × (t.status ≡ failed)
      × (t.attempt < t.max_attempts)
      × (t' ≡ retried t)
      × (db' ≡ save_task see (retried t) db)
unfolding retry_task
retry-inv c uuid db db' t' h = elim (Outcome-split (visible c "task")) [
  | inr (e, denied) ↦ absurd (ground arith)
  | inl (see, seen) ↦ elim (Option-cases (find_by (task_at see uuid) db.tasks)) [
    | inl missing ↦ absurd (ground arith)
    | inr (t, found) ↦ (see, t, seen, found, ground arith, ground arith, ground arith, ground arith)
  ]
]

pub retry-IsSound :
    (c : Ctx) (uuid : String) (db db' : Db) (t' : Task)
    → retry_task c uuid db ≡ ok (t', db')
    → IsSound db
    → IsSound db'
retry-IsSound c uuid db db' t' h s =
    let (see, t, _, found, failed', _, _, is_db) = retry-inv c uuid db db' t' h in
    rw is_db (
      keep_task db (task_at see t.task_uuid) (retried t) t (found_by_own see uuid db.tasks t found)
        refl (λ k _. ground arith) s)

pub cancel-inv :
    (c : Ctx) (now : ℕ) (uuid : String) (db db' : Db) (t' : Task)
    → cancel_task c now uuid db ≡ ok (t', db')
    → (see : String → Bool) × (t : Task) × (visible c "task" ≡ ok see)
      × (find_by (task_at see uuid) db.tasks ≡ some t)
      × (((t.status ≡ cancelled) × (t' ≡ t) × (db' ≡ db))
          ⊎ ((is_cancellable t.status ≡ true)
              × (t' ≡ called_off now t)
              × (db' ≡ save_task see (called_off now t) (release_slot t db))))
unfolding cancel_task
cancel-inv c now uuid db db' t' h = elim (Outcome-split (visible c "task")) [
  | inr (e, denied) ↦ absurd (ground arith)
  | inl (see, seen) ↦ elim (Option-cases (find_by (task_at see uuid) db.tasks)) [
    | inl missing ↦ absurd (ground arith)
    | inr (t, found) ↦ elim (Bool-cases (is_cancelled t.status)) [
      | inl before ↦ (see, t, seen, found, inl (ground arith, ground arith, ground arith))
      | inr open_yet ↦ (see, t, seen, found, inr (ground arith, ground arith, ground arith))
    ]
  ]
]

cancel_open-IsSound :
    (now : ℕ) (see : String → Bool) (db : Db) (t : Task) (owner : Option String)
    → t.worker_id ≡ owner
    → find_by (task_at see t.task_uuid) db.tasks ≡ some t
    → IsSound db
    → IsSound (save_task see (called_off now t) (release_slot t db))
unfolding decrement_in_flight
cancel_open-IsSound now see db t none nobody found s =
    let kept : release_slot t db ≡ db = ground arith in
    subst (λ d. IsSound (save_task see (called_off now t) d)) (sym kept)
      (keep_task db (task_at see t.task_uuid) (called_off now t) t found refl (λ k _. ground arith)
        s)
cancel_open-IsSound now see db t (some w) owner found s =
    elim (Bool-cases (is_running t.status && not (str_eq w ""))) [
      | inl runs ↦
          let released : release_slot t db ≡ decrement_in_flight w db = ground arith in
          subst (λ d. IsSound (save_task see (called_off now t) d)) (sym released)
            (stop_task db (task_at see t.task_uuid) (called_off now t) t w found refl (ground arith)
              owner refl s)
      | inr idle ↦
          let kept : release_slot t db ≡ db = ground arith in
          subst (λ d. IsSound (save_task see (called_off now t) d)) (sym kept)
            (keep_task db (task_at see t.task_uuid) (called_off now t) t found refl
              (λ k named. ground (arith, eq_iff w "", eq_iff w k)) s)
    ]

pub cancel-IsSound :
    (c : Ctx) (now : ℕ) (uuid : String) (db db' : Db) (t' : Task)
    → cancel_task c now uuid db ≡ ok (t', db')
    → IsSound db
    → IsSound db'
cancel-IsSound c now uuid db db' t' h s =
    let (see, t, _, found, how) = cancel-inv c now uuid db db' t' h in
    elim how [
      | inl (_, _, same) ↦ rw same s
      | inr (_, _, is_db) ↦ rw is_db (
          cancel_open-IsSound now see db t t.worker_id refl (found_by_own see uuid db.tasks t found)
            s)
    ]

pub insert-inv :
    (t : Task) (db db' : Db)
    → insert_task t db ≡ some db'
    → (find_by (clashes t) db.tasks ≡ none) × (db' ≡ record db { tasks = t ∷ db.tasks })
unfolding insert_task
insert-inv t db db' h = elim (Option-cases (find_by (clashes t) db.tasks)) [
  | inl fresh ↦ (fresh, ground arith)
  | inr (old, clash) ↦ absurd (ground arith)
]

-- A submission returns a stored row, or stores and returns a new one that clashes with none.
pub submit-inv :
    (c : Ctx) (meanwhile : Db → Db) (uuid : String) (now : ℕ) (sub : Submission) (db db' : Db)
    (t' : Task) (created : Bool)
    → submit_task c meanwhile uuid now sub db ≡ ok (t', created, db')
    → (p : TenantPrincipal) × (see : String → Bool) × (c.principal ≡ some p)
      × (visible c "task" ≡ ok see)
      × (((created ≡ false) × (db' ≡ db) × (find_keyed see (scoped_key p sub) db ≡ some t'))
          ⊎ ((find_keyed see (scoped_key p sub) db ≡ none)
              × (((created ≡ false)
                    × (db' ≡ meanwhile db)
                    × (find_keyed see (scoped_key p sub) (meanwhile db) ≡ some t'))
                  ⊎ ((created ≡ true)
                      × (t' ≡ new_task p sub uuid now)
                      × (insert_task t' (meanwhile db) ≡ some db')))))
unfolding submit_task
submit-inv c meanwhile uuid now sub db db' t' created h = elim (Option-cases c.principal) [
  | inl unbound ↦ absurd (ground arith)
  | inr (p, bound) ↦ elim (Outcome-split (visible c "task")) [
    | inr (e, denied) ↦ absurd (ground arith)
    | inl (see, seen) ↦ elim (Option-cases (find_keyed see (scoped_key p sub) db)) [
      | inr (old, known) ↦ (p, see, bound, seen, inl (ground arith, ground arith, ground arith))
      | inl new_key ↦ elim (Option-cases (insert_task (new_task p sub uuid now) (meanwhile db))) [
        | inr (d, stored) ↦
            (p, see, bound, seen, inr (new_key, inr (ground arith, ground arith, ground arith)))
        | inl clash ↦ elim (Option-cases (find_keyed see (scoped_key p sub) (meanwhile db))) [
          | inl nobody ↦ absurd (ground arith)
          | inr (winner, won) ↦
              (p, see, bound, seen, inr (new_key, inl (ground arith, ground arith, ground arith)))
        ]
      ]
    ]
  ]
]

pub submit-IsSound :
    (c : Ctx) (meanwhile : Db → Db) (uuid : String) (now : ℕ) (sub : Submission) (db db' : Db)
    (t' : Task) (created : Bool)
    → ((d : Db) → IsSound d → IsSound (meanwhile d))
    → submit_task c meanwhile uuid now sub db ≡ ok (t', created, db')
    → IsSound db
    → IsSound db'
unfolding insert_task
submit-IsSound c meanwhile uuid now sub db db' t' created others h s =
    let (p, see, _, _, how) = submit-inv c meanwhile uuid now sub db db' t' created h in
    elim how [
      | inl (_, same, _) ↦ rw same s
      | inr (_, inl (_, same, _)) ↦ rw same (others db s)
      | inr (_, inr (_, is_new, stored)) ↦
          let (fresh, is_db) = insert-inv t' (meanwhile db) db' stored in
          rw is_db (
            add_task (meanwhile db) t'
              (find_by-none (clashes t') (has_key uuid_of t'.task_uuid) (meanwhile db).tasks
                (λ x same. ground arith) fresh)
              (ground arith) (others db s))
    ]
