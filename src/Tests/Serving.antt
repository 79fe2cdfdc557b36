-- ===== src/Tests/Serving.antt =====
-- Witnesses on workers/lifecycle_worker.py.
use lance_laker.Base.{ℕ, ◌+◌, ◌≡◌, refl, inr, false, none, some, [], ◌∷◌, arith, eq_iff, count_by}
use lance_laker.Scheduler.Workers.{Attempt}
use lance_laker.Accounting.Invariant.{running_on}
use lance_laker.Accounting.Idle.{IsIdle}
use lance_laker.Worker.Daemon.{Args, beats, plans, Turn, Process, run_worker}
use lance_laker.Worker.Looping.{HasEndedBy, run_worker-terminates}
use lance_laker.Worker.Idleness.{run_worker-IsIdle}
use lance_laker.Tests.Fixtures.{engine, scheduler, site}
use lance_laker.Tests.Dispatching.{site-IsSound}
use lance_laker.Tests.Indexing.{format}
use lance_laker.Tests.Planning.{morning}
use lance_laker.Tests.Working.{lance}

abbrev args : Args
args = record {
  task_type = none;
  max_iterations = 3;
  worker_id = some "w-9";
  planner_seconds = 60000;
  disable_planner = false;
}

abbrev process : Process
process = record {
  engine = engine;
  format = format;
  by_id = λ ps. ps;
  environment = lance;
  ctx = scheduler;
  args = args;
}

-- Before each iteration a heartbeat and a tick of the planner.
abbrev turn : ℕ → Turn
turn k = record {
  meanwhile = beats (1000 + k) ∷ plans morning ∷ [];
  stops = false;
  locked = λ _. false;
  tick = record { claimed_at = 2000 + k; ended_at = 3000 + k; first_2048 = λ s. s; repr = λ s. s };
}

abbrev first_try : ℕ → Attempt
first_try k = record { lease = "lease-9"; now = 900; meanwhile = λ d. d }

run_worker-terminates_example : HasEndedBy 3 (run_worker 4 process "host-1" first_try turn site).0
run_worker-terminates_example =
    run_worker-terminates 4 process "host-1" first_try turn 3 site (inr (omega arith, refl))
      (omega arith)

runs_nothing : running_on "w-9" site.tasks ≡ 0
unfolding count_by
runs_nothing = refl

run_worker-IsIdle_example : IsIdle "w-9" (run_worker 4 process "host-1" first_try turn site).1
run_worker-IsIdle_example =
    run_worker-IsIdle 4 process "host-1" first_try turn site (ground (arith, eq_iff "w-9" ""))
      (λ i d h. h) (λ n. (tt, ((λ key db raced. absurd (cc)), tt))) (site-IsSound, runs_nothing)
