-- ===== src/Watcher.antt =====
-- services/index_watcher_service.py: the trigger and the pass over the watched indexes. What lance
-- reports on an index is a parameter, `lance_io.read_index_stats`.
pub mod Trigger
pub mod Candidates
pub mod Passes
pub mod Report
use lance_laker.Base.{
  ℕ, String, ◌++◌, ◌+◌, ◌-◌, ◌*◌, Bool, true, false, ◌&&◌, Option, none, some, List, [], ◌∷◌, leb,
  str_eq, holds_text, if◌then◌else◌, find_by, select_by,
}
use mathlib.Core.List.{◌++◌ as ◌⧺◌}
use lance_laker.Outcome.{Outcome, ok, ◌>>=◌, ◌>>◌}
use lance_laker.Tenant.{Ctx, require_system_context}
use lance_laker.Json.{Json, null, num, str, Fields, field, end}
use lance_laker.Models.{Dataset, Index, optimizing, is_ready, LifecyclePolicy, Task, pending, Db}
use lance_laker.TaskService.{insert_task}
use lance_laker.Format.{Format}
use lance_laker.Indexes.{maybe_get_index, save_index, optimized}

pub data TriggerReason : Type 0 where
  unindexed_rows version_drift stale : TriggerReason

-- `now - last_optimized_at` in milliseconds, which is negative where the clock is behind.
pub data Elapsed : Type 0 where
  past : ℕ → Elapsed
  ahead : ℕ → Elapsed

abbrev pub elapsed : ℕ → Option ℕ → Elapsed
elapsed now none = past 0
elapsed now (some last) = if leb last now then past (now - last) else ahead (last - now)

-- `stale_minutes >= float(threshold)`.
abbrev pub reached : ℕ → Elapsed → Bool
reached minutes (past ms) = leb (minutes * 60000) ms
reached minutes (ahead ms) = false

pub record TriggerDecision : Type 0 where
  pub reason : Option TriggerReason
  pub unindexed_rows : Option ℕ
  pub version_drift : ℕ
  pub stale_for : Elapsed

-- What `decide_trigger` is given beside the policy.
pub record Signals : Type 0 where
  pub unindexed_rows : Option ℕ
  pub latest_version : ℕ
  pub last_seen_version : Option ℕ
  pub last_optimized_at : Option ℕ
  pub now : ℕ

-- `max(0, latest - seen)`, with 0 for a version that was never seen.
abbrev pub drift : Signals → ℕ
drift s = elim s.last_seen_version [ none ↦ s.latest_version | some seen ↦ s.latest_version - seen ]

-- A signal with its threshold: off where either is missing.
abbrev pub rows_crossed : Option ℕ → Option ℕ → Bool
rows_crossed none threshold = false
rows_crossed (some rows) none = false
rows_crossed (some rows) (some threshold) = leb threshold rows

abbrev pub drift_crossed : ℕ → Option ℕ → Bool
drift_crossed versions none = false
drift_crossed versions (some threshold) = leb threshold versions

abbrev pub stale_crossed : ℕ → Option ℕ → Option ℕ → Bool
stale_crossed now last none = false
stale_crossed now none (some threshold) = false
stale_crossed now (some last) (some threshold) = reached threshold (elapsed now (some last))

abbrev pub because : Signals → Option TriggerReason → TriggerDecision
because s reason = record {
  reason = reason;
  unindexed_rows = s.unindexed_rows;
  version_drift = drift s;
  stale_for = elapsed s.now s.last_optimized_at;
}

unfoldable pub decide_trigger : Signals → LifecyclePolicy → TriggerDecision
decide_trigger s p =
    if rows_crossed s.unindexed_rows p.index_watch_min_unindexed_rows
    then because s (some TriggerReason.unindexed_rows)
    else if drift_crossed (drift s) p.index_watch_min_version_drift
    then because s (some TriggerReason.version_drift)
    else if stale_crossed s.now s.last_optimized_at p.index_watch_stale_minutes
    then because s (some stale)
    else because s none
