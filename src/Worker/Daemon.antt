-- ===== src/Worker/Daemon.antt =====
-- workers/lifecycle_worker.py: the daemon, from its registration to its exit. Its heartbeat and its
-- planner run between the iterations, as other processes do.
use lance_laker.Base.{
  ℕ, zero, suc, String, ◌+◌, Bool, ◌&&◌, not, Option, none, some, List, [], ◌∷◌, ltb, leb, str_eq,
  if◌then◌else◌,
}
use lance_laker.Outcome.{Error, Outcome, ok, err}
use lance_laker.Tenant.{Ctx}
use lance_laker.Models.{Task, WorkerRegistry, LifecyclePolicy, Db}
use lance_laker.Format.{Format}
use lance_laker.Due.{Surroundings}
use lance_laker.Planner.{plan_once}
use lance_laker.Scheduler.Workers.{Registration, Attempt, register_worker, heartbeat}
use lance_laker.Scheduler.Dispatch.{Engine}
use lance_laker.Executors.{Environment}
use lance_laker.Executors.Registry.{default_registry}
use lance_laker.History.Calls.{after}
use lance_laker.Worker.{WorkerConfig, TickOutcome, Tick, run_iteration}

-- The parsed command line; the planner's interval is in milliseconds.
pub record Args : Type 0 where
  pub task_type : Option String
  pub max_iterations : ℕ
  pub worker_id : Option String
  pub planner_seconds : ℕ
  pub disable_planner : Bool

-- A transaction that commits while the drain loop sleeps.
pub data Background : Type 0 where
  beats : ℕ → Background
  plans : Surroundings → Background
  others : (Db → Db) → Background

-- One turn of the drain loop: what commits before it, whether the shutdown event is set by then, and
-- what its iteration is given.
pub record Turn : Type 0 where
  pub meanwhile : List Background
  pub stops : Bool
  pub locked : Task → Bool
  pub tick : Tick

-- How the process ends: after so many iterations, or by an exception; `unfinished` is a loop that is
-- cut for want of fuel.
pub data Exit : Type 0 where
  exited : ℕ → Exit
  crashed : Error → ℕ → Exit
  unfinished : Exit

-- What a process is made of.
pub record Process : Type 0 where
  pub engine : Engine
  pub format : Format
  pub by_id : List LifecyclePolicy → List LifecyclePolicy
  pub environment : Environment
  pub ctx : Ctx
  pub args : Args

abbrev pub has_planner : Args → Bool
has_planner a = not a.disable_planner && ltb 0 a.planner_seconds

-- A tick of `_heartbeat_loop` or of `_planner_loop`, whose errors are swallowed, or another's commit.
unfoldable pub happen : Process → WorkerConfig → Background → Db → Db
happen s config (beats now) db = after db (heartbeat s.ctx now config.worker_id config.lease_id db)
happen s config (plans env) db =
    if has_planner s.args then after db (plan_once s.format env s.by_id s.ctx db) else db
happen s config (others change) db = change db

unfoldable pub happen_all : Process → WorkerConfig → List Background → Db → Db
unfolding happen
happen_all s config [] db = db
happen_all s config (b ∷ bs) db = happen_all s config bs (happen s config b db)

-- `args.max_iterations and iteration >= args.max_iterations`.
abbrev pub is_last : Args → ℕ → Bool
is_last a iteration = ltb 0 a.max_iterations && leb a.max_iterations iteration

-- What follows an iteration: the exception, the exit at the last one, or the rest of the loop.
abbrev pub next_turn : Args → ℕ → Outcome TickOutcome × Db → (Db → Exit × Db) → Exit × Db
next_turn a k (err e, db) rest = (crashed e k, db)
next_turn a k (ok outcome, db) rest = if is_last a (k + 1) then (exited (k + 1), db) else rest db

abbrev pub iterate : Process → WorkerConfig → Turn → Db → Outcome TickOutcome × Db
iterate s config turn db =
    run_iteration s.engine (default_registry s.environment) s.ctx turn.locked turn.tick config db

-- The drain loop, from iteration `k` on.
unfoldable pub drain_loop : ℕ → Process → WorkerConfig → (ℕ → Turn) → ℕ → Db → Exit × Db
unfolding happen_all
drain_loop zero s config turns k db = (unfinished, db)
drain_loop (suc fuel) s config turns k db =
    let before = happen_all s config (turns k).meanwhile db in
    let rest = drain_loop fuel s config turns (k + 1) in
    if (turns k).stops
    then (exited k, before)
    else next_turn s.args k (iterate s config (turns k) before) rest

abbrev pub lifecycle : Registration
lifecycle = record { worker_type = "lifecycle"; host = none; capacity = 1; labels = none }

-- `args.worker_id or _default_worker_id()`.
abbrev pub own_id : Args → String → String
own_id a default_id = elim a.worker_id [
  | none ↦ default_id
  | some given ↦ if str_eq given "" then default_id else given
]

abbrev pub config_of : Args → WorkerRegistry → WorkerConfig
config_of a w = record { worker_id = w.worker_id; lease_id = w.lease_id; task_type = a.task_type }

-- What follows the registration.
unfoldable pub serve : ℕ → Process → (ℕ → Turn) → Db → Outcome (WorkerRegistry × Db) → Exit × Db
unfolding drain_loop
serve fuel s turns db (err e) = (crashed e 0, db)
serve fuel s turns db (ok (w, db')) = drain_loop fuel s (config_of s.args w) turns 0 db'

-- `_run`.
unfoldable pub run_worker : ℕ → Process → String → (ℕ → Attempt) → (ℕ → Turn) → Db → Exit × Db
unfolding serve
run_worker fuel s default_id tries turns db =
    serve fuel s turns db (register_worker s.ctx tries (own_id s.args default_id) lifecycle db)
