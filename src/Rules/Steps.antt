-- ===== src/Rules/Steps.antt =====
-- services/vectorization_service.py: sequences of calls that write the rules.
use lance_laker.Base.{ℕ, String, ◌≡◌, Bool, true}
use lance_laker.Outcome.{ok}
use lance_laker.Tenant.{Ctx}
use lance_laker.Models.{VectorizationRule, Db}
use lance_laker.Rules.{
  RuleCreateRequest, RuleUpdateRequest, check_cron, create_rule, update_rule, delete_rule,
  set_enabled,
}
use lance_laker.Rules.Runnable.{
  AreRunnable, create_rule-AreRunnable, update_rule-AreRunnable, set_enabled-AreRunnable,
  delete_rule-AreRunnable,
}

-- A call that writes a rule and does not raise; a request to create one has passed its validator.
pub data RuleStep (is_blank : String → Bool) (db db' : Db) : Type 0 where
  creates :
      (c : Ctx) (id now : ℕ) (uuid : String) (r : RuleCreateRequest) (x : VectorizationRule)
      → check_cron is_blank r ≡ true
      → create_rule c id now uuid r db ≡ ok (x, db')
      → RuleStep is_blank db db'
  updates :
      (c : Ctx) (uuid column : String) (u : RuleUpdateRequest) (x : VectorizationRule)
      → update_rule c uuid column u db ≡ ok (x, db')
      → RuleStep is_blank db db'
  toggles :
      (c : Ctx) (uuid column : String) (enabled : Bool) (x : VectorizationRule)
      → set_enabled c uuid column enabled db ≡ ok (x, db')
      → RuleStep is_blank db db'
  deletes :
      (c : Ctx) (uuid column : String)
      → delete_rule c uuid column db ≡ ok db'
      → RuleStep is_blank db db'

-- A sequence of such calls.
pub data RuleHistory (is_blank : String → Bool) (db : Db) : Db → Type 0 where
  start : RuleHistory is_blank db db
  then :
      {db1 db2 : Db}
      → RuleHistory is_blank db db1
      → RuleStep is_blank db1 db2
      → RuleHistory is_blank db db2

RuleStep-AreRunnable :
    {is_blank : String → Bool} {db db' : Db}
    → RuleStep is_blank db db'
    → AreRunnable db
    → AreRunnable db'
RuleStep-AreRunnable {is_blank} {db} {db'} (RuleStep.creates c id now uuid r x valid h) all =
    create_rule-AreRunnable c is_blank id now uuid r db db' x valid h all
RuleStep-AreRunnable {db = db} {db' = db'} (RuleStep.updates c uuid column u x h) all =
    update_rule-AreRunnable c uuid column u db db' x h all
RuleStep-AreRunnable {db = db} {db' = db'} (RuleStep.toggles c uuid column enabled x h) all =
    set_enabled-AreRunnable c uuid column enabled db db' x h all
RuleStep-AreRunnable {db = db} {db' = db'} (RuleStep.deletes c uuid column h) all =
    delete_rule-AreRunnable c uuid column db db' h all

-- Where each stored rule with the trigger SCHEDULED has a cron expression that is not empty, so it is
-- after any sequence of `create_rule`, with requests that their validator admits, and of
-- `update_rule`, `set_enabled` and `delete_rule`, none of which raises.
pub RuleHistory-AreRunnable :
    {is_blank : String → Bool} {db db' : Db}
    → RuleHistory is_blank db db'
    → AreRunnable db
    → AreRunnable db'
RuleHistory-AreRunnable RuleHistory.start all = all
RuleHistory-AreRunnable (RuleHistory.then history step) all =
    RuleStep-AreRunnable step (RuleHistory-AreRunnable history all)
