-- ===== src/Worker/Idleness.antt =====
-- workers/lifecycle_worker.py: no task is left RUNNING on the process that exits.
use lance_laker.Base.{
  ℕ, zero, suc, String, ◌+◌, ◌≡◌, ◌≢◌, refl, sym, ap, subst, ◌∙◌, inl, inr, Bool, some, List, [],
  ◌∷◌, All, All-find_by, arith, Bool-cases, find_by, find_by_holds, eq_iff,
}
use lance_laker.Outcome.{Outcome, ok, err}
use lance_laker.Tenant.{Ctx}
use lance_laker.Models.{Task, WorkerRegistry, Db}
use lance_laker.Session.{worker_at}
use lance_laker.Scheduler.Workers.{Attempt, register_worker, heartbeat}
use lance_laker.Scheduler.Dispatch.{Engine}
use lance_laker.Accounting.Invariant.{running_on, IsCounted, IsSound}
use lance_laker.Accounting.Operations.{heartbeat-inv, heartbeat-IsSound}
use lance_laker.Accounting.Registration.{IsHarmless}
use lance_laker.Accounting.Idle.{IsIdle, register-IsIdle}
use lance_laker.Accounting.Planning.{AreIdle, plan_once-IsIdle}
use lance_laker.Planner.{plan_once}
use lance_laker.History.Accounts.{after_ok}
use lance_laker.Executors.{Environment}
use lance_laker.Executors.Registry.{default_registry}
use lance_laker.Worker.{WorkerConfig, TickOutcome, Tick, run_iteration}
use lance_laker.Worker.Finalizing.{IsEnd}
use lance_laker.Worker.Iteration.{run_iteration-IsEnd}
use lance_laker.Worker.Sound.{run_iteration-IsSound}
use lance_laker.Worker.Daemon.{
  Args, Background, beats, plans, others, Turn, Exit, Process, has_planner, happen, happen_all,
  is_last, next_turn, iterate, drain_loop, lifecycle, own_id, config_of, serve, run_worker,
}

worker_named :
    (k : String) (db : Db) (w : WorkerRegistry)
    → find_by (worker_at k) db.workers ≡ some w
    → w.worker_id ≡ k
worker_named k db w found =
    ground (arith, find_by_holds (worker_at k) db.workers w found, eq_iff w.worker_id k)

-- A worker whose row is in the accounts and has no slot taken runs nothing.
free-idle :
    (k : String) (db : Db) (w : WorkerRegistry)
    → IsSound db
    → find_by (worker_at k) db.workers ≡ some w
    → w.in_flight ≡ running_on k db.tasks
free-idle k db w s found =
    let h = All-find_by (IsCounted db.tasks) (worker_at k) db.workers w s.counted found in
    h.0 ∙ ap (λ x. running_on x db.tasks) (worker_named k db w found)

ended_free :
    (config : WorkerConfig) (w : WorkerRegistry) (t : Task) (db1 : Db)
    (run : Outcome TickOutcome × Db)
    → IsSound run.1
    → w.worker_id ≡ config.worker_id
    → IsEnd w t db1 run
    → w.in_flight ≡ running_on config.worker_id run.1.tasks
ended_free config w t db1 (r, db') s own (inl (code, is_failed, (t', stored, status, row), same)) =
    free-idle w.worker_id db' w s row ∙ ap (λ x. running_on x db'.tasks) own
ended_free config w t db1 (r, db') s own (inr (is_done, (t', stored, status, row))) =
    free-idle w.worker_id db' w s row ∙ ap (λ x. running_on x db'.tasks) own

run_iteration-IsIdle :
    (e : Engine) (env : Environment) (c : Ctx) (locked : Task → Bool) (tick : Tick)
    (config : WorkerConfig) (db : Db)
    → IsIdle config.worker_id db
    → IsIdle config.worker_id (run_iteration e (default_registry env) c locked tick config db).1
run_iteration-IsIdle e env c locked tick config db (s, none_runs) =
    let run = run_iteration e (default_registry env) c locked tick config db in
    let s' = run_iteration-IsSound e env c locked tick config db s in
    elim (run_iteration-IsEnd e env c locked tick config db s.tasks_unique) [
      | inl (e', out) ↦ (
        s',
        ap {A = Outcome TickOutcome × Db} (λ x. running_on config.worker_id x.1.tasks) out
            ∙ none_runs,
      )
      | inr (inl out) ↦ (
        s',
        ap {A = Outcome TickOutcome × Db} (λ x. running_on config.worker_id x.1.tasks) out
            ∙ none_runs,
      )
      | inr (inr (w, t, db1, found, claimed, indexes, end)) ↦ (
        s',
        sym (ended_free config w t db1 run s' (worker_named config.worker_id db w found) end)
            ∙ free-idle config.worker_id db w s found
            ∙ none_runs,
      )
    ]

-- What the other transactions of a turn leave: other processes, and what the planner's rivals
-- commit, keep the worker idle.
abbrev pub IsPolite : String → Background → Type 0
IsPolite k (beats now) = Unit {0}
IsPolite k (plans env) = AreIdle k env
IsPolite k (others change) = (db : Db) → IsIdle k db → IsIdle k (change db)

heartbeat-IsIdle :
    (c : Ctx) (now : ℕ) (config : WorkerConfig) (db db' : Db) (w' : WorkerRegistry)
    → heartbeat c now config.worker_id config.lease_id db ≡ ok (w', db')
    → IsIdle config.worker_id db
    → IsIdle config.worker_id db'
heartbeat-IsIdle c now config db db' w' h (s, none_runs) =
    let (w, sys, found, lease, same, is_db) =
      heartbeat-inv c now config.worker_id config.lease_id db db' w' h in
    (
      heartbeat-IsSound c now config.worker_id config.lease_id db db' w' h s,
      ap (λ d. running_on config.worker_id d.tasks) is_db ∙ none_runs,
    )

happen-IsIdle :
    (s : Process) (config : WorkerConfig) (b : Background) (db : Db)
    → IsPolite config.worker_id b
    → IsIdle config.worker_id db
    → IsIdle config.worker_id (happen s config b db)
unfolding happen
happen-IsIdle s config (beats now) db polite i =
    after_ok (IsIdle config.worker_id) db (heartbeat s.ctx now config.worker_id config.lease_id db)
      (λ w db' h. heartbeat-IsIdle s.ctx now config db db' w h i) i
happen-IsIdle s config (plans env) db polite i = elim (Bool-cases (has_planner s.args)) [
  | inl on ↦ rw on (
      after_ok (IsIdle config.worker_id) db (plan_once s.format env s.by_id s.ctx db)
        (λ t db' h.
          plan_once-IsIdle config.worker_id s.format env s.by_id s.ctx db db' t polite h i)
        i)
  | inr off ↦ rw off i
]
happen-IsIdle s config (others change) db polite i = polite db i

happen_all-IsIdle :
    (s : Process) (config : WorkerConfig) (bs : List Background) (db : Db)
    → All (IsPolite config.worker_id) bs
    → IsIdle config.worker_id db
    → IsIdle config.worker_id (happen_all s config bs db)
unfolding happen_all
happen_all-IsIdle s config [] db polite i = i
happen_all-IsIdle s config (b ∷ bs) db (here, polite) i =
    happen_all-IsIdle s config bs (happen s config b db) polite (happen-IsIdle s config b db here i)

next_turn-IsIdle :
    (a : Args) (k : ℕ) (worker_id : String) (x : Outcome TickOutcome × Db) (rest : Db → Exit × Db)
    → IsIdle worker_id x.1
    → ((db : Db) → IsIdle worker_id db → IsIdle worker_id (rest db).1)
    → IsIdle worker_id (next_turn a k x rest).1
next_turn-IsIdle a k wid (err e, db) rest i later = i
next_turn-IsIdle a k wid (ok outcome, db) rest i later = elim (Bool-cases (is_last a (k + 1))) [
  | inl last ↦ rw last i
  | inr more ↦ rw more (later db i)
]

drain_loop-IsIdle :
    (fuel : ℕ) (s : Process) (config : WorkerConfig) (turns : ℕ → Turn) (k : ℕ) (db : Db)
    → ((n : ℕ) → All (IsPolite config.worker_id) (turns n).meanwhile)
    → IsIdle config.worker_id db
    → IsIdle config.worker_id (drain_loop fuel s config turns k db).1
unfolding drain_loop
drain_loop-IsIdle zero s config turns k db polite i = i
drain_loop-IsIdle (suc fuel) s config turns k db polite i =
    let before = happen_all s config (turns k).meanwhile db in
    let i' = happen_all-IsIdle s config (turns k).meanwhile db (polite k) i in
    elim (Bool-cases (turns k).stops) [
      | inl stopped ↦ rw stopped i'
      | inr on ↦ rw on (
          next_turn-IsIdle s.args k config.worker_id (iterate s config (turns k) before)
            (drain_loop fuel s config turns (k + 1))
            (run_iteration-IsIdle s.engine s.environment s.ctx (turns k).locked (turns k).tick
              config before i')
            (λ db' h. drain_loop-IsIdle fuel s config turns (k + 1) db' polite h))
    ]

serve-IsIdle :
    (fuel : ℕ) (s : Process) (worker_id : String) (turns : ℕ → Turn) (db : Db)
    (o : Outcome (WorkerRegistry × Db))
    → ((n : ℕ) → All (IsPolite worker_id) (turns n).meanwhile)
    → ((w : WorkerRegistry) (db' : Db)
        → o ≡ ok (w, db')
        → (w.worker_id ≡ worker_id) × IsIdle worker_id db')
    → IsIdle worker_id db
    → IsIdle worker_id (serve fuel s turns db o).1
unfolding serve
serve-IsIdle fuel s wid turns db (err e) polite registered i = i
serve-IsIdle fuel s wid turns db (ok (w, db')) polite registered i =
    let (own, i') = registered w db' refl in
    let fits : (x : String)
        → x ≡ wid
        → ((n : ℕ) → All (IsPolite x) (turns n).meanwhile) × IsIdle x db' =
      λ x e.
        subst (λ y. ((n : ℕ) → All (IsPolite y) (turns n).meanwhile) × IsIdle y db') (sym e)
          (polite, i') in
    subst (λ x. IsIdle x (drain_loop fuel s (config_of s.args w) turns 0 db').1) own
      (drain_loop-IsIdle fuel s (config_of s.args w) turns 0 db' (fits w.worker_id own).0
        (fits w.worker_id own).1)

-- The process of a worker whose id is not empty, whatever lance and Gravitino do, where at its start the accounts of tasks and workers
-- hold and none of its tasks is RUNNING, and where what other processes commit while it sleeps keeps both so:
-- after any number of its turns, however it then stands or has ended, by the bound, the shutdown event or
-- an exception, the accounts hold and none of its tasks is RUNNING.
pub run_worker-IsIdle :
    (fuel : ℕ) (s : Process) (default_id : String) (tries : ℕ → Attempt) (turns : ℕ → Turn)
    (db : Db)
    → own_id s.args default_id ≢ ""
    → IsHarmless tries (own_id s.args default_id)
    → ((n : ℕ) → All (IsPolite (own_id s.args default_id)) (turns n).meanwhile)
    → IsIdle (own_id s.args default_id) db
    → IsIdle (own_id s.args default_id) (run_worker fuel s default_id tries turns db).1
unfolding run_worker
run_worker-IsIdle fuel s default_id tries turns db named harmless polite i =
    let wid = own_id s.args default_id in
    serve-IsIdle fuel s wid turns db (register_worker s.ctx tries wid lifecycle db) polite
      (λ w db' h. register-IsIdle s.ctx tries wid lifecycle db db' w named harmless h i) i
