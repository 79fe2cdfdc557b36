-- ===== src/Due.antt =====
-- services/lifecycle_planner_service.py: the tasks that are due for a policy, with their keys and
-- parameters.
use lance_laker.Base.{
  ℕ, String, ◌++◌, Bool, false, not, ◌&&◌, Option, none, some, List, [], ◌∷◌, leb, str_eq,
  if◌then◌else◌, select_by,
}
use lance_laker.Json.{Json, null, num, str, arr, obj, Items, nil, cons, Fields, field, end}
use lance_laker.Models.{Dataset, Index, is_ready, LifecyclePolicy, VectorizationRule, Db}
use lance_laker.Format.{Format}

-- What a pass meets: the time with its two buckets (`strftime`), the uuids that it draws, and, for a
-- key that another planner commits between this one's SELECT and its INSERT, the committed state that
-- the rollback then shows.
pub record Surroundings : Type 0 where
  pub now : ℕ
  pub day_bucket : String
  pub hour_bucket : String
  pub uuid_for : String → String
  pub rival : String → Option Db

-- A task that is due.
pub record Due : Type 0 where
  pub key : String
  pub task_type : String
  pub params : Fields

abbrev pub idempotency_key : Format → ℕ → String → String → String → String
idempotency_key f policy_id task_type bucket tenant_id =
    tenant_id ++ (":lifecycle:" ++ (f.str_int policy_id ++ (":" ++ (task_type ++ (":" ++ bucket)))))

abbrev pub due_for : Format → LifecyclePolicy → Dataset → String → String → Fields → Due
due_for f p d task_type bucket params = record {
  key = idempotency_key f p.id task_type bucket d.tenant_id;
  task_type = task_type;
  params = params;
}

abbrev pub ttl_due : Format → Surroundings → LifecyclePolicy → Dataset → List Due
ttl_due f env p d = elim p.ttl_days [
  | none ↦ []
  | some days ↦
      due_for f p d "TTL_DELETE" env.day_bucket
        (field "ttl_days" (num days) (field "policy_name" (str p.policy_name) end))
      ∷ []
]

-- `if policy.compaction_threshold`: a dict that is not empty.
abbrev pub compaction_due : Format → Surroundings → LifecyclePolicy → Dataset → List Due
compaction_due f env p d = elim p.compaction_threshold [
  | none ↦ []
  | some end ↦ []
  | some (field k v rest) ↦
      due_for f p d "COMPACTION" env.day_bucket
        (field "threshold" (obj (field k v rest)) (field "policy_name" (str p.policy_name) end))
      ∷ []
]

-- `if policy.index_optimize_cron`: a text that is not empty.
abbrev pub has_cron : LifecyclePolicy → Bool
has_cron p = elim p.index_optimize_cron [ none ↦ false | some cron ↦ not (str_eq cron "") ]

abbrev pub cron_text : LifecyclePolicy → String
cron_text p = elim p.index_optimize_cron [ none ↦ "" | some cron ↦ cron ]

abbrev pub cron_due : Format → Surroundings → LifecyclePolicy → Dataset → List Due
cron_due f env p d =
    if has_cron p
    then due_for f p d "INDEX_OPTIMIZE" env.hour_bucket
        (field "cron" (str (cron_text p)) (field "policy_name" (str p.policy_name) end))
      ∷ []
    else []

-- `_DEFAULT_DELTA_THRESHOLD`.
abbrev pub delta_threshold : ℕ
delta_threshold = 10

abbrev pub is_hot : Dataset → Index → Bool
is_hot d x =
    str_eq x.dataset_uuid d.dataset_uuid && (is_ready x.status && leb delta_threshold x.delta_count)

abbrev pub hot_due : Surroundings → LifecyclePolicy → Dataset → Index → Due
hot_due env p d x = record {
  key =
      d.tenant_id
      ++ (":auto-optimize:"
          ++ (d.dataset_uuid ++ ("/" ++ (x.index_name ++ (":" ++ env.hour_bucket)))));
  task_type = "INDEX_OPTIMIZE";
  params = field "index_name" (str x.index_name) (
      field "policy_name" (str p.policy_name)
        (field "trigger" (str "delta_threshold") (field "delta_count" (num x.delta_count) end)));
}

unfoldable pub hot_dues : Surroundings → LifecyclePolicy → Dataset → List Index → List Due
hot_dues env p d [] = []
hot_dues env p d (x ∷ xs) = hot_due env p d x ∷ hot_dues env p d xs

abbrev pub index_dues : Surroundings → LifecyclePolicy → Dataset → Db → List Due
index_dues env p d db =
    if has_cron p then [] else hot_dues env p d (select_by (is_hot d) db.indexes)

abbrev pub texts : List String → Items
texts [] = nil
texts (s ∷ ss) = cons (str s) (texts ss)

abbrev pub columns_json : Option (List String) → Json
columns_json none = null
columns_json (some columns) = arr (texts columns)

-- `rule.model_endpoint or ""`.
abbrev pub endpoint_text : Option String → String
endpoint_text none = ""
endpoint_text (some endpoint) = endpoint

abbrev pub rule_due : Format → Surroundings → LifecyclePolicy → Dataset → VectorizationRule → Due
rule_due f env p d r = due_for f p d "VECTORIZE" env.hour_bucket (
    field "target_column" (str r.target_column) (
      field "source_columns" (columns_json r.source_columns) (
        field "model_name" (str r.model_name) (
          field "model_version" (str r.model_version) (
            field "model_endpoint" (str (endpoint_text r.model_endpoint)) (
              field "batch_size" (num r.batch_size)
                (field "policy_name" (str p.policy_name) (field "rule_id" (num r.id) end))))))))

unfoldable pub rule_dues :
    Format → Surroundings → LifecyclePolicy → Dataset → List VectorizationRule → List Due
rule_dues f env p d [] = []
rule_dues f env p d (r ∷ rs) = rule_due f env p d r ∷ rule_dues f env p d rs

abbrev pub is_rule_of : Dataset → VectorizationRule → Bool
is_rule_of d r = str_eq r.dataset_uuid d.dataset_uuid && r.enabled
