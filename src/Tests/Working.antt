-- ===== src/Tests/Working.antt =====
-- Witnesses on workers/lifecycle_worker_service.py.
use lance_laker.Base.{String, map, Bool, true, false, none, some, [], ◌∷◌}
use lance_laker.Json.{str}
use lance_laker.Models.{Task, Db}
use lance_laker.Session.{save_task, save_worker}
use lance_laker.Scheduler.Dispatch.{dispatched, loaded}
use lance_laker.Scheduler.Claim.{all_tenants}
use lance_laker.Indexes.{build_fields}
use lance_laker.Executors.{done, CompactionStats, Environment, Embedder, Vector}
use lance_laker.Worker.{WorkerConfig, Tick}
use lance_laker.Tests.Fixtures.{task_a, worker_1}
use lance_laker.Tests.Indexing.{ready_index, library}

abbrev no_stats : CompactionStats
no_stats = record { fragments_removed = 0; fragments_added = 0; files_removed = 0; files_added = 0 }

-- Each text is its own vector's one number.
abbrev pub own_vector : String → Vector
own_vector text = text ∷ []

abbrev pub embedding_service : Embedder
embedding_service = record {
  default_endpoint = "http://embed";
  api_key = "";
  api_key_header = "Authorization";
  open_dataset = λ _. done tt;
  null_rows = λ _ _ _. done ((some "a" ∷ none ∷ []) ∷ (some "b" ∷ some "c" ∷ []) ∷ []);
  all_rows = λ _ _. done [];
  post = λ _ _ _ texts. done (map own_vector texts);
  lower = λ s. s;
}

-- Lance does all that it is asked to, and no Gravitino is configured.
abbrev pub lance : Environment
lance = record {
  now = 800;
  has_endpoint = true;
  create_index = λ _ _ _ _. done (str "descriptor");
  optimize_indices = λ _. done (1, 2);
  delete_rows = λ _ _. done 0;
  compact_files = λ _ _. done no_stats;
  push_index_properties = λ _ _ _ _ _. false;
  embedder = embedding_service;
  int_of = λ _. none;
  bound_text = λ _. "";
  str_json = λ _. "";
  isoformat = λ _. "2025-01-01T00:00:00";
  iso_days_before = λ _ _. some "2024-12-02T00:00:00";
}

abbrev config : WorkerConfig
config = record { worker_id = "w-1"; lease_id = "lease-1"; task_type = none }

abbrev tick : Tick
tick = record { claimed_at = 200; ended_at = 300; first_2048 = λ s. s; repr = λ s. s }

abbrev unlocked : Task → Bool
unlocked _ = false

-- What `create_index` submits.
abbrev build : Task
build = record task_a { task_type = "INDEX_BUILD"; params = some (build_fields ready_index) }

abbrev waiting : Db
waiting = record library { tasks = build ∷ [] }

abbrev started : Task
started = dispatched "w-1" 200 build

abbrev claimed_db : Db
claimed_db = save_worker (loaded worker_1) (save_task all_tenants started waiting)
