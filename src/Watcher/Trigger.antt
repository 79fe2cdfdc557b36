-- ===== src/Watcher/Trigger.antt =====
-- services/index_watcher_service.py: `decide_trigger` against its three signals.
use lance_laker.Base.{
  ℕ, ◌+◌, ◌*◌, ◌≤◌, ◌≡◌, ◌⊎◌, refl, inl, inr, true, false, none, some, arith, Bool-cases,
  Option-cases,
}
use lance_laker.Models.{LifecyclePolicy}
use lance_laker.Watcher.{
  TriggerReason, unindexed_rows, version_drift, stale, Signals, drift, rows_crossed, drift_crossed,
  stale_crossed, decide_trigger,
}

-- A signal that has reached its threshold: both are known, and a version never seen counts as 0.
abbrev pub Crosses : TriggerReason → Signals → LifecyclePolicy → Type 0
Crosses unindexed_rows s p =
    (rows : ℕ) × (threshold : ℕ) × (s.unindexed_rows ≡ some rows)
    × (p.index_watch_min_unindexed_rows ≡ some threshold)
    × (threshold ≤ rows)
Crosses version_drift s p =
    (threshold : ℕ) × (p.index_watch_min_version_drift ≡ some threshold) × (threshold ≤ drift s)
Crosses stale s p =
    (last : ℕ) × (threshold : ℕ) × (s.last_optimized_at ≡ some last)
    × (p.index_watch_stale_minutes ≡ some threshold)
    × (last + threshold * 60000 ≤ s.now)

rows_crossed-Crosses :
    (s : Signals) (p : LifecyclePolicy)
    → rows_crossed s.unindexed_rows p.index_watch_min_unindexed_rows ≡ true
    → Crosses unindexed_rows s p
rows_crossed-Crosses s p h = elim (Option-cases s.unindexed_rows) [
  | inl no_rows ↦ absurd (ground arith)
  | inr (rows, known) ↦ elim (Option-cases p.index_watch_min_unindexed_rows) [
    | inl off ↦ absurd (ground arith)
    | inr (threshold, on) ↦ (rows, threshold, known, on, ground arith)
  ]
]

drift_crossed-Crosses :
    (s : Signals) (p : LifecyclePolicy)
    → drift_crossed (drift s) p.index_watch_min_version_drift ≡ true
    → Crosses version_drift s p
drift_crossed-Crosses s p h = elim (Option-cases p.index_watch_min_version_drift) [
  | inl off ↦ absurd (ground arith)
  | inr (threshold, on) ↦ (threshold, on, ground arith)
]

stale_crossed-Crosses :
    (s : Signals) (p : LifecyclePolicy)
    → stale_crossed s.now s.last_optimized_at p.index_watch_stale_minutes ≡ true
    → Crosses stale s p
stale_crossed-Crosses s p h = elim (Option-cases s.last_optimized_at) [
  | inl never ↦ absurd (ground arith)
  | inr (last, known) ↦ elim (Option-cases p.index_watch_stale_minutes) [
    | inl off ↦ absurd (ground arith)
    | inr (threshold, on) ↦ (last, threshold, known, on, ground arith)
  ]
]

not-rows_crossed :
    (s : Signals) (p : LifecyclePolicy)
    → rows_crossed s.unindexed_rows p.index_watch_min_unindexed_rows ≡ false
    → Crosses unindexed_rows s p
    → ⊥
not-rows_crossed s p h (rows, threshold, known, on, enough) = ground arith

not-drift_crossed :
    (s : Signals) (p : LifecyclePolicy)
    → drift_crossed (drift s) p.index_watch_min_version_drift ≡ false
    → Crosses version_drift s p
    → ⊥
not-drift_crossed s p h (threshold, on, enough) = ground arith

not-stale_crossed :
    (s : Signals) (p : LifecyclePolicy)
    → stale_crossed s.now s.last_optimized_at p.index_watch_stale_minutes ≡ false
    → Crosses stale s p
    → ⊥
not-stale_crossed s p h (last, threshold, known, on, enough) = ground arith

-- `decide_trigger` gives the first signal, in the order unindexed rows, version drift, staleness,
-- that has reached its threshold, and no reason only if none of the three has.
pub decide_trigger_lem :
    (s : Signals) (p : LifecyclePolicy)
    → (((decide_trigger s p).reason ≡ some unindexed_rows) × Crosses unindexed_rows s p)
      ⊎ ((((decide_trigger s p).reason ≡ some version_drift)
            × Crosses version_drift s p
            × (Crosses unindexed_rows s p → ⊥))
          ⊎ ((((decide_trigger s p).reason ≡ some stale)
                × Crosses stale s p
                × (Crosses unindexed_rows s p → ⊥)
                × (Crosses version_drift s p → ⊥))
              ⊎ (((decide_trigger s p).reason ≡ none)
                  × (Crosses unindexed_rows s p → ⊥)
                  × (Crosses version_drift s p → ⊥)
                  × (Crosses stale s p → ⊥))))
unfolding decide_trigger
decide_trigger_lem s p =
    elim (Bool-cases (rows_crossed s.unindexed_rows p.index_watch_min_unindexed_rows)) [
      | inl rows ↦ inl (rw rows refl, rows_crossed-Crosses s p rows)
      | inr few ↦ elim (Bool-cases (drift_crossed (drift s) p.index_watch_min_version_drift)) [
        | inl far ↦
            inr
              (inl (rw few (rw far refl), drift_crossed-Crosses s p far, not-rows_crossed s p few))
        | inr near ↦
            elim (Bool-cases
              (stale_crossed s.now s.last_optimized_at p.index_watch_stale_minutes)) [
                | inl old ↦ inr (
                    inr (
                      inl (
                        rw few (rw near (rw old refl)),
                        stale_crossed-Crosses s p old,
                        not-rows_crossed s p few,
                        not-drift_crossed s p near,
                      )))
                | inr fresh ↦ inr (
                    inr (
                      inr (
                        rw few (rw near (rw fresh refl)),
                        not-rows_crossed s p few,
                        not-drift_crossed s p near,
                        not-stale_crossed s p fresh,
                      )))
              ]
      ]
    ]
