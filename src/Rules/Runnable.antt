-- ===== src/Rules/Runnable.antt =====
-- services/vectorization_service.py: a rule that runs on a schedule has one.
use lance_laker.Base.{
  ℕ, String, ◌≡◌, sym, ap, subst, ◌∙◌, inl, inr, Bool, true, false, not, some, ◌∷◌, All,
  All-find_by, All-put_by, All-select_by, same_flag, arith, Option-cases, Bool-cases, select_by,
}
use lance_laker.Outcome.{ok, Outcome-split}
use lance_laker.Tenant.{Ctx}
use lance_laker.Models.{VectorizationRule, Db}
use lance_laker.Patch.{patched, patched_required}
use lance_laker.Datasets.{get_dataset}
use lance_laker.Rules.{
  RuleCreateRequest, RuleUpdateRequest, needs_cron, check_cron, rule_at, new_rule, save_rule,
  maybe_get_rule, insert_rule, create_rule, get_rule, apply_rule_update, update_rule, delete_rule,
  set_enabled,
}

-- A stored rule with the trigger SCHEDULED has a cron expression, not empty.
abbrev pub IsRunnable : VectorizationRule → Type 0
IsRunnable r = needs_cron (some r.trigger_type) r.cron_expr ≡ false

abbrev pub AreRunnable : Db → Type 0
AreRunnable db = All IsRunnable db.rules

-- What `get_rule` has found.
pub get_rule-inv :
    (c : Ctx) (uuid column : String) (db : Db) (r : VectorizationRule)
    → get_rule c uuid column db ≡ ok r
    → maybe_get_rule uuid column db ≡ some r
unfolding get_rule
get_rule-inv c uuid column db r h = elim (Outcome-split (get_dataset c uuid db)) [
  | inr (e, denied) ↦ absurd (ground arith)
  | inl (d, seen) ↦ elim (Option-cases (maybe_get_rule uuid column db)) [
    | inl missing ↦ absurd (ground arith)
    | inr (q, found) ↦ found ∙ ap some (ground arith)
  ]
]

pub create_rule-AreRunnable :
    (c : Ctx) (is_blank : String → Bool) (id now : ℕ) (uuid : String) (r : RuleCreateRequest)
    (db db' : Db) (x : VectorizationRule)
    → check_cron is_blank r ≡ true
    → create_rule c id now uuid r db ≡ ok (x, db')
    → AreRunnable db
    → AreRunnable db'
unfolding create_rule insert_rule
create_rule-AreRunnable c is_blank id now uuid r db db' x valid h all =
    elim (Outcome-split (get_dataset c uuid db)) [
      | inr (e, denied) ↦ absurd (ground arith)
      | inl (d, seen) ↦ elim (Option-cases (maybe_get_rule uuid r.target_column db)) [
        | inr (q, taken) ↦ absurd (ground arith)
        | inl free ↦
            let is_db : record db { rules = new_rule uuid r id now ∷ db.rules } ≡ db' =
              ground arith in
            let runnable : IsRunnable (new_rule uuid r id now) = ground arith in
            subst AreRunnable is_db (runnable, all)
      ]
    ]

-- The checked merge of two columns is that of the stored row.
apply_rule_update-IsRunnable :
    (u : RuleUpdateRequest) (r r' : VectorizationRule)
    → needs_cron (patched_required u.trigger_type r.trigger_type) (patched u.cron_expr r.cron_expr)
      ≡ false
    → apply_rule_update u r ≡ some r'
    → IsRunnable r'
apply_rule_update-IsRunnable u r r' checked h =
    elim (Option-cases (patched_required u.model_name r.model_name)) [
      | inl null ↦ absurd (ground arith)
      | inr (name, e1) ↦ elim (Option-cases (patched_required u.model_version r.model_version)) [
        | inl null ↦ absurd (ground arith)
        | inr (version, e2) ↦ elim (Option-cases (patched_required u.batch_size r.batch_size)) [
          | inl null ↦ absurd (ground arith)
          | inr (size, e3) ↦ elim (Option-cases (patched_required u.trigger_type r.trigger_type)) [
            | inl null ↦ absurd (ground arith)
            | inr (trigger, e4) ↦
                let is_trigger : r'.trigger_type ≡ trigger = ground arith in
                let is_cron : r'.cron_expr ≡ patched u.cron_expr r.cron_expr = ground arith in
                let merged : needs_cron (some trigger) (patched u.cron_expr r.cron_expr) ≡ false =
                  subst (λ o. needs_cron o (patched u.cron_expr r.cron_expr) ≡ false) e4 checked in
                subst (λ o. needs_cron (some r'.trigger_type) o ≡ false) (sym is_cron)
                  (subst (λ o. needs_cron (some o) (patched u.cron_expr r.cron_expr) ≡ false)
                    (sym is_trigger) merged)
          ]
        ]
      ]
    ]

save_rule-AreRunnable :
    (x : VectorizationRule) (db : Db) → IsRunnable x → AreRunnable db → AreRunnable (save_rule x db)
save_rule-AreRunnable x db runnable all =
    All-put_by IsRunnable (rule_at x.dataset_uuid x.target_column) x db.rules all runnable

pub update_rule-AreRunnable :
    (c : Ctx) (uuid column : String) (u : RuleUpdateRequest) (db db' : Db) (x : VectorizationRule)
    → update_rule c uuid column u db ≡ ok (x, db')
    → AreRunnable db
    → AreRunnable db'
unfolding update_rule
update_rule-AreRunnable c uuid column u db db' x h all =
    elim (Outcome-split (get_rule c uuid column db)) [
      | inr (e, missing) ↦ absurd (ground arith)
      | inl (r, got) ↦
          elim (Bool-cases (
            needs_cron (patched_required u.trigger_type r.trigger_type)
              (patched u.cron_expr r.cron_expr))) [
                | inl lacking ↦ absurd (ground arith)
                | inr checked ↦ elim (Option-cases (apply_rule_update u r)) [
                  | inl null ↦ absurd (ground arith)
                  | inr (q, merged) ↦
                      let is_db : save_rule q db ≡ db' = ground arith in
                      subst AreRunnable is_db (
                        save_rule-AreRunnable q db
                          (apply_rule_update-IsRunnable u r q checked merged) all)
                ]
              ]
    ]

pub set_enabled-AreRunnable :
    (c : Ctx) (uuid column : String) (enabled : Bool) (db db' : Db) (x : VectorizationRule)
    → set_enabled c uuid column enabled db ≡ ok (x, db')
    → AreRunnable db
    → AreRunnable db'
unfolding set_enabled
set_enabled-AreRunnable c uuid column enabled db db' x h all =
    elim (Outcome-split (get_rule c uuid column db)) [
      | inr (e, missing) ↦ absurd (ground arith)
      | inl (r, got) ↦
          let runnable : IsRunnable r =
            All-find_by IsRunnable (rule_at uuid column) db.rules r all
              (get_rule-inv c uuid column db r got) in
          elim (Bool-cases (same_flag r.enabled enabled)) [
            | inl same ↦ let is_db : db ≡ db' = ground arith in subst AreRunnable is_db all
            | inr other ↦
                let is_db : save_rule (record r { enabled = enabled }) db ≡ db' = ground arith in
                subst AreRunnable is_db
                  (save_rule-AreRunnable (record r { enabled = enabled }) db runnable all)
          ]
    ]

pub delete_rule-AreRunnable :
    (c : Ctx) (uuid column : String) (db db' : Db)
    → delete_rule c uuid column db ≡ ok db'
    → AreRunnable db
    → AreRunnable db'
unfolding delete_rule
delete_rule-AreRunnable c uuid column db db' h all =
    elim (Outcome-split (get_rule c uuid column db)) [
      | inr (e, missing) ↦ absurd (ground arith)
      | inl (r, got) ↦
          let gone : VectorizationRule → Bool =
            λ q. not (rule_at r.dataset_uuid r.target_column q) in
          let is_db : record db { rules = select_by gone db.rules } ≡ db' = ground arith in
          subst AreRunnable is_db (All-select_by IsRunnable gone db.rules all)
    ]
