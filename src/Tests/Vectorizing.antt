-- ===== src/Tests/Vectorizing.antt =====
-- Witnesses on services/vectorization_service.py.
use lance_laker.Base.{
  String, ◌≡◌, refl, Bool, true, false, none, some, [], ◌∷◌, find_by, put_by, str_eq, IsUnique,
  List,
}
use lance_laker.Outcome.{ok, err, dataset_not_found}
use lance_laker.Models.{VectorizationRule, Task, Db}
use lance_laker.Session.{visible}
use lance_laker.Rls.{before_execute}
use lance_laker.Datasets.{get_dataset}
use lance_laker.Patch.{unset, given}
use lance_laker.TaskService.{scope_key, submit_task, insert_task, new_task, cancel_task}
use lance_laker.Accounting.Moves.{uuid_of}
use lance_laker.History.Calls.{Call, cancels, perform, run}
use lance_laker.Rules.{
  RuleCreateRequest, RuleUpdateRequest, new_rule, insert_rule, create_rule, get_rule, list_rules,
  update_rule, delete_rule, set_enabled, save_rule, vectorize_key, vectorize_submission,
  submit_vectorize_task,
}
use lance_laker.Rules.Isolation.{rule_operations-guarded}
use lance_laker.Rules.Runnable.{AreRunnable}
use lance_laker.Rules.Steps.{RuleStep, RuleHistory, RuleHistory-AreRunnable}
use lance_laker.Rules.Vectorizing.{submit_vectorize-once}
use lance_laker.Tests.Fixtures.{request, ann, engine}
use lance_laker.Tests.Indexing.{format, library, foreign_library, IsForeign-photos}

abbrev embed : RuleCreateRequest
embed = record {
  target_column = "embedding";
  source_columns = "title" ∷ [];
  model_name = "bge";
  model_version = "1";
  model_endpoint = none;
  batch_size = 64;
  trigger_type = "ON_INSERT";
  cron_expr = none;
  enabled = true;
  extra = none;
}

-- Onto a schedule.
abbrev schedule : RuleUpdateRequest
schedule = record {
  source_columns = unset;
  model_name = unset;
  model_version = unset;
  model_endpoint = unset;
  batch_size = unset;
  trigger_type = given (some "SCHEDULED");
  cron_expr = given (some "0 * * * *");
  extra = unset;
}

abbrev is_empty : String → Bool
is_empty s = str_eq s ""

abbrev pub rule : VectorizationRule
rule = new_rule "d-1" embed 4 50

abbrev pub with_rule : Db
with_rule = record library { rules = rule ∷ [] }

creates_rule : create_rule request 4 50 "d-1" embed library ≡ ok (rule, with_rule)
unfolding create_rule insert_rule get_dataset visible before_execute find_by
creates_rule = refl

abbrev scheduled : VectorizationRule
scheduled = record rule { trigger_type = "SCHEDULED"; cron_expr = some "0 * * * *" }

schedules_rule :
    update_rule request "d-1" "embedding" schedule with_rule
    ≡ ok (scheduled, save_rule scheduled with_rule)
unfolding update_rule get_rule get_dataset visible before_execute find_by
schedules_rule = refl

abbrev two_calls : RuleHistory is_empty library (save_rule scheduled with_rule)
two_calls =
    RuleHistory.then
      (RuleHistory.then RuleHistory.start
        (RuleStep.creates request 4 50 "d-1" embed rule refl creates_rule))
      (RuleStep.updates request "d-1" "embedding" schedule scheduled schedules_rule)

RuleHistory-AreRunnable_example : AreRunnable (save_rule scheduled with_rule)
RuleHistory-AreRunnable_example = RuleHistory-AreRunnable two_calls tt

rule_operations-guarded_example :
    (create_rule request 4 50 "d-1" embed foreign_library ≡ err dataset_not_found)
    × (get_rule request "d-1" "embedding" foreign_library ≡ err dataset_not_found)
    × (list_rules (λ rs. rs) request "d-1" foreign_library ≡ err dataset_not_found)
    × (update_rule request "d-1" "embedding" schedule foreign_library ≡ err dataset_not_found)
    × (delete_rule request "d-1" "embedding" foreign_library ≡ err dataset_not_found)
    × (set_enabled request "d-1" "embedding" false foreign_library ≡ err dataset_not_found)
    × (submit_vectorize_task format request (λ d. d) "t-v" 50 "d-1" "embedding" foreign_library
        ≡ err dataset_not_found)
rule_operations-guarded_example =
    rule_operations-guarded format request ann (λ rs. rs) (λ d. d) 4 50 "d-1" "embedding" "t-v"
      embed schedule false foreign_library refl refl refl IsForeign-photos

abbrev quiet : Db
quiet = record with_rule { tasks = [] }

abbrev first_task : Task
first_task = new_task ann (vectorize_submission format "d-1" "embedding" rule) "t-v" 70

abbrev submitted : Db
submitted = record quiet { tasks = first_task ∷ [] }

first_vectorize :
    submit_vectorize_task format request (λ d. d) "t-v" 70 "d-1" "embedding" quiet
    ≡ ok (first_task, true, submitted)
unfolding submit_vectorize_task get_rule get_dataset submit_task insert_task scope_key visible
    before_execute find_by
first_vectorize = refl

got : get_rule request "d-1" "embedding" quiet ≡ ok rule
unfolding get_rule get_dataset visible before_execute find_by
got = refl

-- The task is cancelled.
abbrev calls : List Call
calls = cancels request 80 "t-v" ∷ []

got_again : get_rule request "d-1" "embedding" (run engine calls submitted) ≡ ok rule
unfolding get_rule get_dataset visible before_execute find_by put_by run perform cancel_task
got_again = refl

unique : IsUnique uuid_of submitted.tasks
unfolding find_by
unique = (refl, tt)

submit_vectorize-once_example :
    (t' : Task) × (t'.idempotency_key
      ≡ some (scope_key "acme" (vectorize_key format "d-1" "embedding" rule)))
    × (submit_vectorize_task format request
          (λ d. d)
          "t-w"
          90
          "d-1"
          "embedding"
          (run engine calls submitted)
        ≡ ok (t', false, run engine calls submitted))
submit_vectorize-once_example =
    submit_vectorize-once format engine request ann calls (λ d. d) (λ d. d) "t-v" "t-w" 70 90 "d-1"
      "embedding" quiet submitted rule rule first_task true refl got first_vectorize unique
      got_again refl refl
