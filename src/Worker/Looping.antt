-- ===== src/Worker/Looping.antt =====
-- workers/lifecycle_worker.py: the drain loop ends.
use lance_laker.Base.{
  ℕ, zero, suc, String, ◌+◌, ◌≤◌, ◌<◌, ◌≡◌, ◌⊎◌, sym, ap, ◌∙◌, inl, inr, true, false, arith,
  Bool-cases, ltb,
}
use lance_laker.Outcome.{Outcome, ok, err}
use lance_laker.Models.{WorkerRegistry, Db}
use lance_laker.Scheduler.Workers.{Attempt, register_worker}
use lance_laker.Worker.{WorkerConfig, TickOutcome}
use lance_laker.Worker.Daemon.{
  Args, Turn, Exit, exited, crashed, unfinished, Process, is_last, next_turn, drain_loop, lifecycle,
  own_id, config_of, serve, run_worker,
}

-- What ends the loop before its iteration number `limit + 1`: the shutdown event, or the bound on the
-- iterations.
abbrev pub IsLimit : Args → (ℕ → Turn) → ℕ → Type 0
IsLimit a turns limit = ((turns limit).stops ≡ true) ⊎ ((0 < limit) × (a.max_iterations ≡ limit))

-- The loop has come to iteration `k`.
abbrev IsAhead : Args → (ℕ → Turn) → ℕ → ℕ → Type 0
IsAhead a turns limit k =
    (((turns limit).stops ≡ true) × (k ≤ limit)) ⊎ ((a.max_iterations ≡ limit) × (k < limit))

abbrev pub HasEndedBy : ℕ → Exit → Type 0
HasEndedBy limit (exited n) = n ≤ limit
HasEndedBy limit (crashed e n) = n ≤ limit
HasEndedBy limit unfinished = ⊥

IsAhead-far : (a : Args) (turns : ℕ → Turn) (limit k : ℕ) → IsAhead a turns limit k → k ≤ limit
IsAhead-far a turns limit k (inl (stop, far)) = far
IsAhead-far a turns limit k (inr (max, far)) = omega arith

IsLimit-start :
    (a : Args) (turns : ℕ → Turn) (limit : ℕ) → IsLimit a turns limit → IsAhead a turns limit 0
IsLimit-start a turns limit (inl stop) = inl (stop, omega arith)
IsLimit-start a turns limit (inr (some_bound, max)) = inr (max, some_bound)

true-false : true ≡ false → ⊥
true-false h = cc

-- A loop that has not been stopped has not come to its limit.
IsAhead-before :
    (a : Args) (turns : ℕ → Turn) (limit k : ℕ)
    → (turns k).stops ≡ false
    → IsAhead a turns limit k
    → k < limit
IsAhead-before a turns limit k on (inr (max, far)) = far
IsAhead-before a turns limit k on (inl (stop, far)) = elim (Bool-cases (ltb k limit)) [
  | inl less ↦ ground arith
  | inr not_less ↦
      let here : k ≡ limit = ground arith in
      absurd (true-false (sym stop ∙ ap (λ n. (turns n).stops) (sym here) ∙ on))
]

IsAhead-next :
    (a : Args) (turns : ℕ → Turn) (limit k : ℕ)
    → k < limit
    → is_last a (k + 1) ≡ false
    → IsAhead a turns limit k
    → IsAhead a turns limit (k + 1)
IsAhead-next a turns limit k less more (inl (stop, far)) = inl (stop, omega arith)
IsAhead-next a turns limit k less more (inr (max, far)) = inr (max, ground arith)

next_turn-HasEndedBy :
    (a : Args) (limit k : ℕ) (x : Outcome TickOutcome × Db) (rest : Db → Exit × Db)
    → k < limit
    → (is_last a (k + 1) ≡ false → (db : Db) → HasEndedBy limit (rest db).0)
    → HasEndedBy limit (next_turn a k x rest).0
next_turn-HasEndedBy a limit k (err e, db) rest less later = omega arith
next_turn-HasEndedBy a limit k (ok outcome, db) rest less later =
    elim (Bool-cases (is_last a (k + 1))) [
      | inl last ↦ rw last (omega arith)
      | inr more ↦ rw more (later more db)
    ]

drain_loop-HasEndedBy :
    (fuel : ℕ) (s : Process) (config : WorkerConfig) (turns : ℕ → Turn) (limit k : ℕ) (db : Db)
    → IsAhead s.args turns limit k
    → limit < fuel + k
    → HasEndedBy limit (drain_loop fuel s config turns k db).0
unfolding drain_loop
drain_loop-HasEndedBy zero s config turns limit k db (inl (stop, far)) enough = absurd (omega arith)
drain_loop-HasEndedBy zero s config turns limit k db (inr (max, far)) enough = absurd (omega arith)
drain_loop-HasEndedBy (suc fuel) s config turns limit k db ahead enough =
    elim (Bool-cases (turns k).stops) [
      | inl stopped ↦ rw stopped (IsAhead-far s.args turns limit k ahead)
      | inr on ↦
          let less = IsAhead-before s.args turns limit k on ahead in
          rw on (
            next_turn-HasEndedBy s.args limit k _ (drain_loop fuel s config turns (k + 1)) less
              (λ more db'.
                drain_loop-HasEndedBy fuel s config turns limit (k + 1) db'
                  (IsAhead-next s.args turns limit k less more ahead) (omega arith)))
    ]

serve-HasEndedBy :
    (fuel : ℕ) (s : Process) (turns : ℕ → Turn) (limit : ℕ) (db : Db)
    (o : Outcome (WorkerRegistry × Db))
    → IsLimit s.args turns limit
    → limit < fuel
    → HasEndedBy limit (serve fuel s turns db o).0
unfolding serve
serve-HasEndedBy fuel s turns limit db (err e) ends enough = omega arith
serve-HasEndedBy fuel s turns limit db (ok (w, db')) ends enough =
    drain_loop-HasEndedBy fuel s (config_of s.args w) turns limit 0 db'
      (IsLimit-start s.args turns limit ends) (omega arith)

-- Whatever the iterations do, raise or find: where the shutdown event is set by the turn that
-- follows `limit` iterations, or `limit` is above 0 and is `max_iterations`, a process with fuel for more
-- turns than `limit` ends, by its exit or by an exception, within `limit` iterations.
pub run_worker-terminates :
    (fuel : ℕ) (s : Process) (default_id : String) (tries : ℕ → Attempt) (turns : ℕ → Turn)
    (limit : ℕ) (db : Db)
    → IsLimit s.args turns limit
    → limit < fuel
    → HasEndedBy limit (run_worker fuel s default_id tries turns db).0
unfolding run_worker
run_worker-terminates fuel s default_id tries turns limit db ends enough =
    serve-HasEndedBy fuel s turns limit db
      (register_worker s.ctx tries (own_id s.args default_id) lifecycle db) ends enough
