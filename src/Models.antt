-- ===== src/Models.antt =====
-- db/models.py: the rows of the six tables, and the state that the services read and write, the
-- rows of each table in no order that the code may rely on. A status column holds one of the
-- texts that the services write. Times are counted in milliseconds (DATETIME(3)); counts are not
-- negative. The columns `id` of `dataset`, `task` and `worker_registry` and `updated_at` of all
-- tables are left out: the database fills them and no service reads them.
use lance_laker.Base.{ℕ, String, Bool, true, false, Option, List}
use lance_laker.Json.{Fields}

pub data DatasetStatus : Type 0 where
  active paused archived deleted : DatasetStatus

pub record Dataset : Type 0 where
  pub dataset_uuid : String
  pub catalog : String
  pub db_schema : String
  pub table_name : String
  pub storage_uri : String
  pub tenant_id : String
  pub owner : Option String
  pub description : Option String
  pub status : DatasetStatus
  pub row_count : ℕ
  pub fragment_count : ℕ
  pub index_coverage : ℕ  -- Numeric(5, 4), in ten-thousandths
  pub latest_version : ℕ
  pub extra : Option Fields
  pub created_at : ℕ

pub data TaskStatus : Type 0 where
  pending queued running succeeded failed cancelled : TaskStatus

pub record Task : Type 0 where
  pub task_uuid : String
  pub task_type : String
  pub dataset_uuid : String
  pub tenant_id : String
  pub status : TaskStatus
  pub priority : ℕ
  pub progress : ℕ  -- Numeric(5, 4), in ten-thousandths
  pub attempt : ℕ
  pub max_attempts : ℕ
  pub worker_id : Option String
  pub idempotency_key : Option String
  pub params : Option Fields
  pub result : Option Fields
  pub error_code : Option String
  pub error_message : Option String
  pub scheduled_at : Option ℕ
  pub started_at : Option ℕ
  pub finished_at : Option ℕ
  pub created_at : ℕ

pub data IndexStatus : Type 0 where
  building ready optimizing merging failed dropped : IndexStatus

pub record Index : Type 0 where
  pub id : ℕ
  pub dataset_uuid : String
  pub index_name : String
  pub column_name : String
  pub index_type : String
  pub params : Option Fields
  pub status : IndexStatus
  pub coverage : ℕ  -- Numeric(5, 4), in ten-thousandths
  pub fragment_count : ℕ
  pub delta_count : ℕ
  pub last_optimized_at : Option ℕ
  pub last_merged_at : Option ℕ
  pub last_seen_version : Option ℕ
  pub error_message : Option String
  pub created_at : ℕ

pub record LifecyclePolicy : Type 0 where
  pub id : ℕ
  pub dataset_uuid : String
  pub policy_name : String
  pub tier_rules : Option Fields
  pub ttl_days : Option ℕ
  pub compaction_threshold : Option Fields
  pub index_optimize_cron : Option String
  pub index_watch_enabled : Bool
  pub index_watch_min_unindexed_rows : Option ℕ
  pub index_watch_min_version_drift : Option ℕ
  pub index_watch_stale_minutes : Option ℕ
  pub enabled : Bool
  pub last_run_at : Option ℕ
  pub created_at : ℕ

pub record VectorizationRule : Type 0 where
  pub id : ℕ
  pub dataset_uuid : String
  pub target_column : String
  pub source_columns : Option (List String)  -- `none` is JSON's null
  pub model_name : String
  pub model_version : String
  pub model_endpoint : Option String
  pub batch_size : ℕ
  pub trigger_type : String
  pub cron_expr : Option String
  pub enabled : Bool
  pub extra : Option Fields
  pub created_at : ℕ

pub data WorkerStatus : Type 0 where
  alive draining dead : WorkerStatus

pub record WorkerRegistry : Type 0 where
  pub worker_id : String
  pub worker_type : String
  pub host : Option String
  pub lease_id : String
  pub capacity : ℕ
  pub in_flight : ℕ
  pub labels : Option Fields
  pub status : WorkerStatus
  pub last_heartbeat_at : ℕ
  pub created_at : ℕ

pub record Db : Type 0 where
  pub datasets : List Dataset
  pub tasks : List Task
  pub indexes : List Index
  pub policies : List LifecyclePolicy
  pub rules : List VectorizationRule
  pub workers : List WorkerRegistry

abbrev pub is_pending : TaskStatus → Bool
is_pending pending = true
is_pending _ = false

abbrev pub is_queued : TaskStatus → Bool
is_queued queued = true
is_queued _ = false

abbrev pub is_running : TaskStatus → Bool
is_running running = true
is_running _ = false

abbrev pub is_succeeded : TaskStatus → Bool
is_succeeded succeeded = true
is_succeeded _ = false

abbrev pub is_failed : TaskStatus → Bool
is_failed failed = true
is_failed _ = false

abbrev pub is_cancelled : TaskStatus → Bool
is_cancelled cancelled = true
is_cancelled _ = false

-- `PENDING` or `QUEUED`: the states that a worker may claim from.
abbrev pub is_waiting : TaskStatus → Bool
is_waiting pending = true
is_waiting queued = true
is_waiting _ = false

abbrev pub is_alive : WorkerStatus → Bool
is_alive alive = true
is_alive _ = false

abbrev pub is_dead : WorkerStatus → Bool
is_dead dead = true
is_dead _ = false

abbrev pub is_deleted : DatasetStatus → Bool
is_deleted deleted = true
is_deleted _ = false

abbrev pub is_ready : IndexStatus → Bool
is_ready ready = true
is_ready _ = false

abbrev pub is_dropped : IndexStatus → Bool
is_dropped dropped = true
is_dropped _ = false

-- Equality of two status texts.
abbrev pub same_status : TaskStatus → TaskStatus → Bool
same_status pending s = is_pending s
same_status queued s = is_queued s
same_status running s = is_running s
same_status succeeded s = is_succeeded s
same_status failed s = is_failed s
same_status cancelled s = is_cancelled s

abbrev pub is_optimizing : IndexStatus → Bool
is_optimizing optimizing = true
is_optimizing _ = false
