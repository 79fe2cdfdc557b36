-- ===== src/LanceIo/Quiet.antt =====
-- data_plane/lance_io.py with services/index_watcher_service.py: an optimization does not trigger the
-- next one by the version that it has itself committed.
use lance_laker.Base.{ℕ, Option, some}
use lance_laker.Executors.{Executed, done, raised}
use lance_laker.Watcher.{Signals}
use lance_laker.LanceIo.Stats.{IndexLiveStats}

-- What the watcher is given once the version `seen` has been recorded.
abbrev pub signals_of : IndexLiveStats → ℕ → Option ℕ → ℕ → Signals
signals_of st seen last now = record {
  unindexed_rows = st.num_unindexed_rows;
  latest_version = st.latest_version;
  last_seen_version = some seen;
  last_optimized_at = last;
  now = now;
}

abbrev version_of : Executed (ℕ × ℕ) → ℕ
version_of (done (count, version)) = version
version_of (raised code message) = 0
