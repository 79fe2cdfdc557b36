-- ===== src/Planner/Again.antt =====
-- services/lifecycle_planner_service.py: a policy that is planned again within its buckets.
use lance_laker.Base.{
  ℕ, String, ◌≡◌, refl, sym, ap, subst, ◌∙◌, if◌then◌else◌, Option, List, [], ◌∷◌, select_by,
}
use lance_laker.Models.{LifecyclePolicy, Dataset, Index, VectorizationRule, Db}
use lance_laker.Format.{Format}
use lance_laker.Due.{
  Surroundings, Due, ttl_due, compaction_due, cron_due, has_cron, hot_due, hot_dues, index_dues,
  is_hot, rule_due, rule_dues, is_rule_of,
}
use lance_laker.Planner.{Progress, emit_all, stamp, plan_for_policy}
use lance_laker.Planner.Growth.{
  IsAlone, IsFresh, IsGrowth, IsGrowth-trans, ArePlanned, ArePlanned-growth, emit_all-IsGrowth,
  emit_all-ArePlanned,
}

-- All that a pass for the policy emits when it starts on this state.
abbrev pub AllPlanned : Format → Surroundings → LifecyclePolicy → Dataset → Db → Db → Type 0
AllPlanned f env p d db db' =
    ArePlanned (ttl_due f env p d) db'
    × ArePlanned (compaction_due f env p d) db'
    × ArePlanned (cron_due f env p d) db'
    × ArePlanned (index_dues env p d db) db'
    × ArePlanned (rule_dues f env p d (select_by (is_rule_of d) db.rules)) db'

plan_for_policy-AllPlanned :
    (f : Format) (env : Surroundings) (base : Db) (p : LifecyclePolicy) (d : Dataset) (r : Progress)
    (db : Db)
    → IsAlone env
    → IsFresh env db
    → IsGrowth env db (plan_for_policy f env base p d (r, db)).1
      × AllPlanned f env p d db (plan_for_policy f env base p d (r, db)).1
unfolding plan_for_policy
plan_for_policy-AllPlanned f env base p d r db alone fresh =
    let s1 = emit_all env base d (ttl_due f env p d) (r, db) in
    let (g1, k1) = emit_all-IsGrowth env base d (ttl_due f env p d) r db alone fresh in
    let s2 = emit_all env base d (compaction_due f env p d) s1 in
    let (g2, k2) =
      emit_all-IsGrowth env base d (compaction_due f env p d) s1.0 s1.1 alone g1.fresh in
    let s3 = emit_all env base d (cron_due f env p d) s2 in
    let (g3, k3) = emit_all-IsGrowth env base d (cron_due f env p d) s2.0 s2.1 alone g2.fresh in
    let hot = index_dues env p d s3.1 in
    let s4 = emit_all env base d hot s3 in
    let (g4, k4) = emit_all-IsGrowth env base d hot s3.0 s3.1 alone g3.fresh in
    let rules = rule_dues f env p d (select_by (is_rule_of d) s4.1.rules) in
    let s5 = emit_all env base d rules s4 in
    let (g5, k5) = emit_all-IsGrowth env base d rules s4.0 s4.1 alone g4.fresh in
    let g45 = IsGrowth-trans env s3.1 s4.1 s5.1 g4 g5 in
    let g35 = IsGrowth-trans env s2.1 s3.1 s5.1 g3 g45 in
    let g25 = IsGrowth-trans env s1.1 s2.1 s5.1 g2 g35 in
    let g13 = IsGrowth-trans env db s2.1 s3.1 (IsGrowth-trans env db s1.1 s2.1 g1 g2) g3 in
    let g14 = IsGrowth-trans env db s3.1 s4.1 g13 g4 in
    let g15 = IsGrowth-trans env db s1.1 s5.1 g1 g25 in
    let final : IsGrowth env db (stamp env.now p.id s5.1) = record {
      keys = g15.keys;
      rules_same = g15.rules_same;
      indexes_same = g15.indexes_same;
      fresh = g15.fresh;
    } in
    (
      final,
      (
        ArePlanned-growth env (ttl_due f env p d) s1.1 s5.1 g25 k1,
        ArePlanned-growth env (compaction_due f env p d) s2.1 s5.1 g35 k2,
        ArePlanned-growth env (cron_due f env p d) s3.1 s5.1 g45 k3,
        subst
            (λ xs.
              ArePlanned (if has_cron p then [] else hot_dues env p d (select_by (is_hot d) xs))
                s5.1)
            g13.indexes_same (ArePlanned-growth env hot s4.1 s5.1 g5 k4),
        subst (λ rs. ArePlanned (rule_dues f env p d (select_by (is_rule_of d) rs)) s5.1)
            g14.rules_same k5,
      ),
    )

-- Another pass in the same day and hour.
abbrev pub later : Surroundings → ℕ → (String → String) → (String → Option Db) → Surroundings
later env now uuid_for rival = record env { now = now; uuid_for = uuid_for; rival = rival }

abbrev pub stamped : Option ℕ → LifecyclePolicy → LifecyclePolicy
stamped at p = record p { last_run_at = at }

module _ (f : Format) (env : Surroundings) (now : ℕ) (uuid_for : String → String)
    (rival : String → Option Db) (at : Option ℕ) (p : LifecyclePolicy) (d : Dataset) where
  abbrev env' : Surroundings
  env' = later env now uuid_for rival

  hot_dues-later : (xs : List Index) → hot_dues env' (stamped at p) d xs ≡ hot_dues env p d xs
  unfolding hot_dues
  hot_dues-later [] = refl
  hot_dues-later (x ∷ xs) = ap (λ dues. hot_due env p d x ∷ dues) (hot_dues-later xs)

  rule_dues-later :
      (rs : List VectorizationRule) → rule_dues f env' (stamped at p) d rs ≡ rule_dues f env p d rs
  unfolding rule_dues
  rule_dues-later [] = refl
  rule_dues-later (r ∷ rs) = ap (λ dues. rule_due f env p d r ∷ dues) (rule_dues-later rs)

  AllPlanned-later :
      (a b db : Db)
      → a.indexes ≡ b.indexes
      → a.rules ≡ b.rules
      → AllPlanned f env p d a db
      → AllPlanned f env' (stamped at p) d b db
  AllPlanned-later a b db indexes rules (ttl, compaction, cron, hot, ruled) = (
    ttl,
    compaction,
    cron,
    subst (λ dues. ArePlanned (if has_cron p then [] else dues) db)
        (sym (hot_dues-later (select_by (is_hot d) b.indexes)))
        (subst
          (λ xs.
            ArePlanned (if has_cron p then [] else hot_dues env p d (select_by (is_hot d) xs)) db)
          indexes hot),
    subst (λ dues. ArePlanned dues db) (sym (rule_dues-later (select_by (is_rule_of d) b.rules)))
        (subst (λ rs. ArePlanned (rule_dues f env p d (select_by (is_rule_of d) rs)) db) rules
          ruled),
  )

-- What is planned is not planned again.
plan_for_policy-planned :
    (f : Format) (env : Surroundings) (base : Db) (p : LifecyclePolicy) (d : Dataset) (r : Progress)
    (db : Db)
    → AllPlanned f env p d db db
    → ((plan_for_policy f env base p d (r, db)).0.emitted_tasks ≡ r.emitted_tasks)
      × ((plan_for_policy f env base p d (r, db)).1 ≡ stamp env.now p.id db)
unfolding plan_for_policy
plan_for_policy-planned f env base p d r db (ttl, compaction, cron, hot, ruled) =
    let again = emit_all-ArePlanned env base d in
    let s1 = emit_all env base d (ttl_due f env p d) (r, db) in
    let (e1, d1) = again (ttl_due f env p d) r db ttl in
    let s2 = emit_all env base d (compaction_due f env p d) s1 in
    let (e2, d2) = again (compaction_due f env p d) s1.0 s1.1 (rw d1 compaction) in
    let s3 = emit_all env base d (cron_due f env p d) s2 in
    let d12 : s2.1 ≡ db = d2 ∙ d1 in
    let (e3, d3) = again (cron_due f env p d) s2.0 s2.1 (rw d12 cron) in
    let d13 : s3.1 ≡ db = d3 ∙ d12 in
    let s4 = emit_all env base d (index_dues env p d s3.1) s3 in
    let (e4, d4) =
      again (index_dues env p d s3.1) s3.0 s3.1
        (subst (λ x. ArePlanned (index_dues env p d x) x) (sym d13) hot) in
    let d14 : s4.1 ≡ db = d4 ∙ d13 in
    let rules_of : Db → List Due = λ x. rule_dues f env p d (select_by (is_rule_of d) x.rules) in
    let (e5, d5) =
      again (rules_of s4.1) s4.0 s4.1 (subst (λ x. ArePlanned (rules_of x) x) (sym d14) ruled) in
    (e5 ∙ (e4 ∙ (e3 ∙ (e2 ∙ e1))), ap (stamp env.now p.id) (d5 ∙ d14))

-- One planner plans a policy for its dataset, no uuid that it draws being in use. If the policy is
-- planned again on the state that this leaves, in the same day and hour, with any clock, uuids and
-- rivals, the second pass emits no task and changes nothing but the policy's `last_run_at`.
pub plan_for_policy-again :
    (f : Format) (env : Surroundings) (base base' : Db) (p : LifecyclePolicy) (d : Dataset)
    (r r1 r' : Progress) (db db1 : Db) (now : ℕ) (uuid_for : String → String)
    (rival : String → Option Db) (at : Option ℕ)
    → IsAlone env
    → IsFresh env db
    → plan_for_policy f env base p d (r, db) ≡ (r1, db1)
    → (second : Progress) × (plan_for_policy f
          (later env now uuid_for rival)
          base'
          (stamped at p)
          d
          (r', db1)
        ≡ (second, stamp now p.id db1))
      × (second.emitted_tasks ≡ r'.emitted_tasks)
plan_for_policy-again f env base base' p d r r1 r' db db1 now uuid_for rival at alone fresh ran =
    let first = plan_for_policy-AllPlanned f env base p d r db alone fresh in
    let g : IsGrowth env db db1 = subst (λ s. IsGrowth env db s.1) ran first.0 in
    let all : AllPlanned f env p d db db1 = subst (λ s. AllPlanned f env p d db s.1) ran first.1 in
    let out = plan_for_policy f (later env now uuid_for rival) base' (stamped at p) d (r', db1) in
    let (none_more, same) =
      plan_for_policy-planned f (later env now uuid_for rival) base' (stamped at p) d r' db1 (
        AllPlanned-later f env now uuid_for rival at p d db db1 db1 (sym g.indexes_same)
          (sym g.rules_same) all) in
    (out.0, ap (λ x. (out.0, x)) same, none_more)
