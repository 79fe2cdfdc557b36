-- ===== src/History/Accounts.antt =====
-- Over any history the slots of the workers are accounted for.
use lance_laker.Base.{
  String, ◌≤◌, ◌≡◌, ◌≢◌, refl, subst, Bool, some, List, [], ◌∷◌, arith, find_by, All-find_by,
  eq_iff, find_by_holds,
}
use lance_laker.Outcome.{Outcome, ok, err}
use lance_laker.Models.{Task, WorkerRegistry, Db}
use lance_laker.Session.{worker_at}
use lance_laker.Scheduler.Workers.{register_worker, heartbeat, drain_worker}
use lance_laker.Scheduler.Dispatch.{
  Engine, claim_next_task, complete_task, fail_task, reap_dead_workers,
}
use lance_laker.TaskService.{submit_task, cancel_task, retry_task}
use lance_laker.Accounting.Invariant.{running_on, IsCounted, IsSound}
use lance_laker.Accounting.Operations.{
  claim-IsSound, complete-IsSound, fail-IsSound, heartbeat-IsSound, drain-IsSound,
}
use lance_laker.Accounting.Requests.{submit-IsSound, cancel-IsSound, retry-IsSound}
use lance_laker.Accounting.Reaping.{reap-IsSound}
use lance_laker.Accounting.Registration.{register-IsSound}
use lance_laker.History.Calls.{
  Call, registers, beats, drains, claims, completes, fails, reaps, submits, cancels, retries, after,
  after_submit, undisturbed, perform, run,
}

-- A worker registers under an id that is not empty and while none of its tasks is RUNNING.
abbrev pub IsOrderly : Call → Db → Type 0
IsOrderly (registers c lease now w r) db = (w ≢ "") × (running_on w db.tasks ≡ 0)
IsOrderly call db = Unit

abbrev pub AreOrderly : Engine → List Call → Db → Type 0
AreOrderly e [] db = Unit
AreOrderly e (call ∷ calls) db = IsOrderly call db × AreOrderly e calls (perform e call db)

-- A call that raises keeps every property of the state.
pub after_ok {ℓ} :
    {A : Type 0} (P : Db → Type ℓ) (db : Db) (o : Outcome (A × Db))
    → ((a : A) (db' : Db) → o ≡ ok (a, db') → P db')
    → P db
    → P (after db o)
after_ok P db (ok (a, db')) step h = step a db' refl
after_ok P db (err x) step h = h

pub after_submit_ok {ℓ} :
    (P : Db → Type ℓ) (db : Db) (o : Outcome (Task × Bool × Db))
    → ((t : Task) (b : Bool) (db' : Db) → o ≡ ok (t, b, db') → P db')
    → P db
    → P (after_submit db o)
after_submit_ok P db (ok (t, b, db')) step h = step t b db' refl
after_submit_ok P db (err x) step h = h

perform-IsSound :
    (e : Engine) (call : Call) (db : Db)
    → IsOrderly call db
    → IsSound db
    → IsSound (perform e call db)
unfolding perform
perform-IsSound e (registers c lease now w r) db (named, idle) s =
    after_ok IsSound db (register_worker c (undisturbed lease now) w r db)
      (λ a db' h.
        register-IsSound c (undisturbed lease now) w r db db' a named (λ i d k. k) idle h s)
      s
perform-IsSound e (beats c now w lease) db _ s =
    after_ok IsSound db (heartbeat c now w lease db)
      (λ a db' h. heartbeat-IsSound c now w lease db db' a h s) s
perform-IsSound e (drains c w) db _ s =
    after_ok IsSound db (drain_worker c w db) (λ a db' h. drain-IsSound c w db db' a h s) s
perform-IsSound e (claims c locked now w lease type) db _ s =
    after_ok IsSound db (claim_next_task e c locked now w lease type db)
      (λ a db' h. claim-IsSound e c locked now w lease type db db' a h s) s
perform-IsSound e (completes c now w uuid result) db _ s =
    after_ok IsSound db (complete_task c now w uuid result db)
      (λ a db' h. complete-IsSound c now w uuid result db db' a h s) s
perform-IsSound e (fails c now w uuid code message) db _ s =
    after_ok IsSound db (fail_task c now w uuid code message db)
      (λ a db' h. fail-IsSound c now w uuid code message db db' a h s) s
perform-IsSound e (reaps c now timeout locked) db _ s =
    after_ok IsSound db (reap_dead_workers c now timeout locked db)
      (λ a db' h. reap-IsSound c now timeout locked db db' a h s) s
perform-IsSound e (submits c uuid now sub) db _ s =
    after_submit_ok IsSound db (submit_task c (λ d. d) uuid now sub db)
      (λ t b db' h. submit-IsSound c (λ d. d) uuid now sub db db' t b (λ d k. k) h s) s
perform-IsSound e (cancels c now uuid) db _ s =
    after_ok IsSound db (cancel_task c now uuid db)
      (λ a db' h. cancel-IsSound c now uuid db db' a h s) s
perform-IsSound e (retries c uuid) db _ s =
    after_ok IsSound db (retry_task c uuid db) (λ a db' h. retry-IsSound c uuid db db' a h s) s

run-IsSound :
    (e : Engine) (calls : List Call) (db : Db)
    → AreOrderly e calls db
    → IsSound db
    → IsSound (run e calls db)
unfolding run
run-IsSound e [] db ordered s = s
run-IsSound e (call ∷ calls) db ordered s =
    run-IsSound e calls (perform e call db) ordered.1 (perform-IsSound e call db ordered.0 s)

-- From a sound state, after any history of calls in which workers register only under an id that is
-- not empty and while none of their tasks is RUNNING: uuids and worker ids are unique, and every
-- registered worker's `in_flight` is the number of its RUNNING tasks, which is at most its
-- capacity.
pub run-accounts :
    (e : Engine) (calls : List Call) (db : Db) (worker_id : String) (w : WorkerRegistry)
    → AreOrderly e calls db
    → IsSound db
    → find_by (worker_at worker_id) (run e calls db).workers ≡ some w
    → IsSound (run e calls db)
      × (w.in_flight ≡ running_on worker_id (run e calls db).tasks)
      × (running_on worker_id (run e calls db).tasks ≤ w.capacity)
run-accounts e calls db wid w ordered s found =
    let sound = run-IsSound e calls db ordered s in
    let own : w.worker_id ≡ wid = ground (
      arith,
      find_by_holds (worker_at wid) (run e calls db).workers w found,
      eq_iff w.worker_id wid,
    ) in
    let h =
      All-find_by (IsCounted (run e calls db).tasks) (worker_at wid) (run e calls db).workers w
        sound.counted found in
    let exact : w.in_flight ≡ running_on wid (run e calls db).tasks =
      subst (λ k. w.in_flight ≡ running_on k (run e calls db).tasks) own h.0 in
    (sound, exact, omega (arith, exact, h.1))
