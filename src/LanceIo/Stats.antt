-- ===== src/LanceIo/Stats.antt =====
-- data_plane/lance_io.py: `read_index_stats`.
use lance_laker.Base.{
  ℕ, String, Bool, true, false, ◌||◌, Option, none, some, List, [], ◌∷◌, holds_text, if◌then◌else◌,
}
use lance_laker.Json.{get_field, Json, truth, num, str, Fields}
use lance_laker.Executors.{Executed, done, raised}
use lance_laker.LanceIo.{StorageSettings, Lance, Io, followed_by, reading, open_dataset}

pub record IndexLiveStats : Type 0 where
  pub latest_version : ℕ
  pub num_indexed_rows : Option ℕ
  pub num_unindexed_rows : Option ℕ
  pub num_indexed_fragments : Option ℕ
  pub num_unindexed_fragments : Option ℕ
  pub updated_at_timestamp_ms : Option ℕ

-- `_maybe_int`; `int_of` is `int` of a text, none where it raises.
abbrev pub maybe_int : (String → Option ℕ) → Option Json → Option ℕ
maybe_int int_of none = none
maybe_int int_of (some (num n)) = some n
maybe_int int_of (some (truth true)) = some 1
maybe_int int_of (some (truth false)) = some 0
maybe_int int_of (some (str s)) = int_of s
maybe_int int_of (some other) = none

-- `index_name in names`.
unfoldable pub is_listed : String → List (Option String) → Bool
is_listed index_name [] = false
is_listed index_name (name ∷ names) = holds_text name index_name || is_listed index_name names

-- `raw`: none where the method is missing, raises or has none.
abbrev pub statistics_of : Option (String → Executed (Option Fields)) → String → Option Fields
statistics_of none index_name = none
statistics_of (some ask) index_name = elim (ask index_name) [
  | raised code message ↦ none
  | done raw ↦ raw
]

abbrev pub bare_stats : ℕ → IndexLiveStats
bare_stats version = record {
  latest_version = version;
  num_indexed_rows = none;
  num_unindexed_rows = none;
  num_indexed_fragments = none;
  num_unindexed_fragments = none;
  updated_at_timestamp_ms = none;
}

abbrev pub full_stats : (String → Option ℕ) → ℕ → Fields → IndexLiveStats
full_stats int_of version raw = record {
  latest_version = version;
  num_indexed_rows = maybe_int int_of (get_field "num_indexed_rows" raw);
  num_unindexed_rows = maybe_int int_of (get_field "num_unindexed_rows" raw);
  num_indexed_fragments = maybe_int int_of (get_field "num_indexed_fragments" raw);
  num_unindexed_fragments = maybe_int int_of (get_field "num_unindexed_fragments" raw);
  updated_at_timestamp_ms = maybe_int int_of (get_field "updated_at_timestamp_ms" raw);
}

-- Without statistics: is the index listed at all?
abbrev pub listed_stats :
    ℕ → String → Option (Executed (List (Option String))) → Executed (Option IndexLiveStats)
listed_stats version index_name none = raised "AttributeError" "no attribute 'list_indices'"
listed_stats version index_name (some (raised code message)) = raised code message
listed_stats version index_name (some (done names)) =
    done (if is_listed index_name names then some (bare_stats version) else none)

abbrev pub stats_from :
    (String → Option ℕ)
    → ℕ
    → String
    → Option (Executed (List (Option String)))
    → Option Fields
    → Executed (Option IndexLiveStats)
stats_from int_of version index_name listing none = listed_stats version index_name listing
stats_from int_of version index_name listing (some raw) =
    done (some (full_stats int_of version raw))

module _ {W D T : Type 0} (cfg : StorageSettings) (lance : Lance W D T)
    (int_of : String → Option ℕ) where
  abbrev pub live_stats_of : D → String → Executed (Option IndexLiveStats)
  live_stats_of ds index_name =
      stats_from int_of (lance.latest_version ds) index_name (lance.list_indices ds)
        (statistics_of (lance.index_statistics ds) index_name)

  unfoldable pub read_index_stats : String → String → Option Fields → Io W (Option IndexLiveStats)
  unfolding is_listed
  read_index_stats uri index_name opts =
      followed_by (open_dataset cfg lance uri opts) (λ ds. reading (live_stats_of ds index_name))
