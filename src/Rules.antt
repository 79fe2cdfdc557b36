-- ===== src/Rules.antt =====
-- services/vectorization_service.py: the vectorization rules of a dataset, and `vectorize-now`. Every
-- call is one transaction; a row that a call writes is the row that its SELECT has returned.
pub mod Isolation
pub mod Runnable
pub mod Steps
pub mod Vectorizing
use lance_laker.Base.{
  ℕ, String, ◌++◌, Bool, true, false, not, ◌&&◌, Option, none, some, List, [], ◌∷◌, str_eq,
  holds_text, same_flag, if◌then◌else◌, find_by, select_by, put_by,
}
use lance_laker.Outcome.{
  Outcome, ok, err, ◌>>=◌, ◌>>◌, raise_if, integrity, rule_not_found, rule_exists, rule_invalid,
  rule_disabled,
}
use lance_laker.Tenant.{Ctx}
use lance_laker.Json.{num, Fields, field, end}
use lance_laker.Models.{VectorizationRule, Task, Db}
use lance_laker.Paging.{length}
use lance_laker.Session.{or_raise}
use lance_laker.Format.{Format}
use lance_laker.Datasets.{get_dataset}
use lance_laker.TaskService.{Submission, submit_task}
use lance_laker.Patch.{Patch, patched, patched_required}

pub record RuleCreateRequest : Type 0 where
  pub target_column : String
  pub source_columns : List String
  pub model_name : String
  pub model_version : String
  pub model_endpoint : Option String
  pub batch_size : ℕ
  pub trigger_type : String
  pub cron_expr : Option String
  pub enabled : Bool
  pub extra : Option Fields

pub record RuleUpdateRequest : Type 0 where
  pub source_columns : Patch (List String)
  pub model_name : Patch String
  pub model_version : Patch String
  pub model_endpoint : Patch String
  pub batch_size : Patch ℕ
  pub trigger_type : Patch String
  pub cron_expr : Patch String
  pub extra : Patch Fields

-- `not cron_expr`: null or the empty text.
abbrev pub lacks_cron : Option String → Bool
lacks_cron none = true
lacks_cron (some cron) = str_eq cron ""

-- The `ValueError` of `_validate_cron_required_when_scheduled`.
abbrev pub needs_cron : Option String → Option String → Bool
needs_cron trigger_type cron_expr = holds_text trigger_type "SCHEDULED" && lacks_cron cron_expr

abbrev pub has_blank : (String → Bool) → List String → Bool
has_blank is_blank [] = false
has_blank is_blank (s ∷ ss) = if is_blank s then true else has_blank is_blank ss

-- `RuleCreateRequest._check_cron`; `is_blank` is `not s.strip()`.
abbrev pub check_cron : (String → Bool) → RuleCreateRequest → Bool
check_cron is_blank r =
    not (needs_cron (some r.trigger_type) r.cron_expr) && not (has_blank is_blank r.source_columns)

abbrev pub rule_at : String → String → VectorizationRule → Bool
rule_at dataset_uuid column r = str_eq r.dataset_uuid dataset_uuid && str_eq r.target_column column

abbrev pub save_rule : VectorizationRule → Db → Db
save_rule r db = record db { rules = put_by (rule_at r.dataset_uuid r.target_column) r db.rules }

-- `id` is the next of the column's AUTO_INCREMENT.
abbrev pub new_rule : String → RuleCreateRequest → ℕ → ℕ → VectorizationRule
new_rule dataset_uuid r id now = record {
  id = id;
  dataset_uuid = dataset_uuid;
  target_column = r.target_column;
  source_columns = some r.source_columns;
  model_name = r.model_name;
  model_version = r.model_version;
  model_endpoint = r.model_endpoint;
  batch_size = r.batch_size;
  trigger_type = r.trigger_type;
  cron_expr = r.cron_expr;
  enabled = r.enabled;
  extra = r.extra;
  created_at = now;
}

abbrev pub maybe_get_rule : String → String → Db → Option VectorizationRule
maybe_get_rule dataset_uuid column db = find_by (rule_at dataset_uuid column) db.rules

-- The flush of a new row: `(dataset_uuid, target_column)` is UNIQUE.
unfoldable pub insert_rule : VectorizationRule → Db → Outcome Db
insert_rule r db = elim (maybe_get_rule r.dataset_uuid r.target_column db) [
  | some _ ↦ err rule_exists
  | none ↦ ok (record db { rules = r ∷ db.rules })
]

unfoldable pub create_rule :
    Ctx → ℕ → ℕ → String → RuleCreateRequest → Db → Outcome (VectorizationRule × Db)
create_rule c id now dataset_uuid r db = do
  get_dataset c dataset_uuid db
  db' ← insert_rule (new_rule dataset_uuid r id now) db
  ok (new_rule dataset_uuid r id now, db')

unfoldable pub get_rule : Ctx → String → String → Db → Outcome VectorizationRule
get_rule c dataset_uuid column db = do
  get_dataset c dataset_uuid db
  or_raise (maybe_get_rule dataset_uuid column db) rule_not_found

-- `newest_first` is the database's `ORDER BY created_at DESC`.
unfoldable pub list_rules :
    (List VectorizationRule → List VectorizationRule)
    → Ctx
    → String
    → Db
    → Outcome (List VectorizationRule × ℕ)
list_rules newest_first c dataset_uuid db = do
  get_dataset c dataset_uuid db
  let items = newest_first (select_by (λ r. str_eq r.dataset_uuid dataset_uuid) db.rules)
  ok (items, length items)

-- The row after the `setattr`s; `none` where a NOT NULL column is null. The JSON column
-- `source_columns` takes None as JSON's null.
abbrev pub apply_rule_update : RuleUpdateRequest → VectorizationRule → Option VectorizationRule
apply_rule_update u r = elim (patched_required u.model_name r.model_name) [
  | none ↦ none
  | some name ↦ elim (patched_required u.model_version r.model_version) [
    | none ↦ none
    | some version ↦ elim (patched_required u.batch_size r.batch_size) [
      | none ↦ none
      | some size ↦ elim (patched_required u.trigger_type r.trigger_type) [
        | none ↦ none
        | some trigger ↦ some (record r {
          source_columns = patched u.source_columns r.source_columns;
          model_name = name;
          model_version = version;
          model_endpoint = patched u.model_endpoint r.model_endpoint;
          batch_size = size;
          trigger_type = trigger;
          cron_expr = patched u.cron_expr r.cron_expr;
          extra = patched u.extra r.extra;
        })
      ]
    ]
  ]
]

-- The merged row is checked before the commit.
unfoldable pub update_rule :
    Ctx → String → String → RuleUpdateRequest → Db → Outcome (VectorizationRule × Db)
update_rule c dataset_uuid column u db = do
  r ← get_rule c dataset_uuid column db
  raise_if
      (needs_cron (patched_required u.trigger_type r.trigger_type)
        (patched u.cron_expr r.cron_expr))
      rule_invalid
  r' ← or_raise (apply_rule_update u r) integrity
  ok (r', save_rule r' db)

unfoldable pub delete_rule : Ctx → String → String → Db → Outcome Db
delete_rule c dataset_uuid column db = do
  r ← get_rule c dataset_uuid column db
  ok (record db {
    rules = select_by (λ q. not (rule_at r.dataset_uuid r.target_column q)) db.rules;
  })

unfoldable pub set_enabled : Ctx → String → String → Bool → Db → Outcome (VectorizationRule × Db)
set_enabled c dataset_uuid column enabled db = do
  r ← get_rule c dataset_uuid column db
  let r' = record r { enabled = enabled }
  if same_flag r.enabled enabled then ok (r, db) else ok (r', save_rule r' db)

abbrev pub vectorize_key : Format → String → String → VectorizationRule → String
vectorize_key f dataset_uuid column r =
    "vectorize:" ++ (dataset_uuid ++ ("/" ++ (column ++ (":" ++ f.str_int r.id))))

abbrev pub vectorize_submission : Format → String → String → VectorizationRule → Submission
vectorize_submission f dataset_uuid column r = record {
  task_type = "VECTORIZE";
  dataset_uuid = dataset_uuid;
  priority = 5;
  params = some (field "vectorization_rule_id" (num r.id) end);
  idempotency_key = some (vectorize_key f dataset_uuid column r);
  max_attempts = 3;
}

-- `meanwhile`, `uuid` and `now` are those of the submission.
unfoldable pub submit_vectorize_task :
    Format → Ctx → (Db → Db) → String → ℕ → String → String → Db → Outcome (Task × Bool × Db)
submit_vectorize_task f c meanwhile uuid now dataset_uuid column db = do
  r ← get_rule c dataset_uuid column db
  raise_if (not r.enabled) rule_disabled
  submit_task c meanwhile uuid now (vectorize_submission f dataset_uuid column r) db
