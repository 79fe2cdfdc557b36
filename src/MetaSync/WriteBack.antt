-- ===== src/MetaSync/WriteBack.antt =====
-- services/meta_sync_service.py: the statistics that are written back to Gravitino.
use lance_laker.Base.{ℕ, String, Bool, true, false, not, none, some, if◌then◌else◌, find_by}
use lance_laker.Outcome.{Outcome, ok, err, ◌>>=◌, gravitino_unreachable}
use lance_laker.Tenant.{Ctx}
use lance_laker.Json.{str, Fields, field, end}
use lance_laker.Models.{Dataset, DatasetStatus, active, paused, archived, deleted, Db}
use lance_laker.Format.{Format}
use lance_laker.Session.{visible, dataset_at}
use lance_laker.MetaSync.{Fetched, fetched, api_error, disabled, unreachable, GravitinoClient}

abbrev pub status_text : DatasetStatus → String
status_text active = "ACTIVE"
status_text paused = "PAUSED"
status_text archived = "ARCHIVED"
status_text deleted = "DELETED"

-- `str` of the coverage is `coverage_text`.
abbrev pub stats_of : Format → (ℕ → String) → ℕ → Dataset → Fields
stats_of f coverage_text now d = field "lcp.row_count" (str (f.str_int d.row_count)) (
    field "lcp.fragment_count" (str (f.str_int d.fragment_count)) (
      field "lcp.index_coverage" (str (coverage_text d.index_coverage)) (
        field "lcp.status" (str (status_text d.status)) (
          field "lcp.latest_version" (str (f.str_int d.latest_version))
            (field "lcp.synced_at" (str (f.isoformat now)) end)))))

abbrev pub is_pushed : Fetched (Unit {0}) → Outcome Bool
is_pushed (fetched _) = ok true
is_pushed (api_error _) = ok false
is_pushed (disabled _) = ok false
is_pushed unreachable = err gravitino_unreachable

unfoldable pub write_back_stats :
    Format → (ℕ → String) → ℕ → Ctx → GravitinoClient → String → Db → Outcome Bool
write_back_stats f coverage_text now c client uuid db =
    if not client.enabled
    then ok false
    else (visible c "dataset" >>= λ see. elim (find_by (dataset_at see uuid) db.datasets) [
      | none ↦ ok false
      | some d ↦
          is_pushed
            (client.set_properties d.db_schema d.table_name (stats_of f coverage_text now d))
    ])
