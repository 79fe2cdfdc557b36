-- ===== src/Planner/Growth.antt =====
-- services/lifecycle_planner_service.py: what the emissions of one planner, without rivals, do to
-- the state.
use lance_laker.Base.{
  String, ◌≡◌, refl, sym, ap, subst, ◌∙◌, inl, inr, true, none, some, List, [], ◌∷◌, All, All-map,
  arith, Bool-cases, Option-cases, eq_refl, str_eq, find_by,
}
use lance_laker.Models.{Dataset, Task, Db}
use lance_laker.TaskService.{clashes, insert_task}
use lance_laker.Due.{Surroundings, Due}
use lance_laker.Planner.{Progress, planned_task, keyed_with, emitted, skipped, emit, emit_all}
use lance_laker.Planner.Emission.{HasKey, emit-HasKey, planned-HasKey}

-- The uuid drawn for a key belongs to no task, unless it was drawn for this key before.
abbrev pub IsFresh : Surroundings → Db → Type 0
IsFresh env db =
    All
      (λ t.
        (key : String)
        → str_eq t.task_uuid (env.uuid_for key) ≡ true
        → t.idempotency_key ≡ some key)
      db.tasks

-- Nobody else plans, and no uuid is drawn for two keys.
pub record IsAlone (env : Surroundings) : Type 0 where
  pub no_rival : (key : String) → env.rival key ≡ none
  pub distinct : (j k : String) → str_eq (env.uuid_for j) (env.uuid_for k) ≡ true → j ≡ k

-- What emissions do to the state.
pub record IsGrowth (env : Surroundings) (db db' : Db) : Type 0 where
  pub keys : (key : String) → HasKey key db → HasKey key db'
  pub rules_same : db'.rules ≡ db.rules
  pub indexes_same : db'.indexes ≡ db.indexes
  pub fresh : IsFresh env db'

pub IsGrowth-refl : (env : Surroundings) (db : Db) → IsFresh env db → IsGrowth env db db
IsGrowth-refl env db fresh = record {
  keys = λ k h. h;
  rules_same = refl;
  indexes_same = refl;
  fresh = fresh;
}

pub IsGrowth-trans :
    (env : Surroundings) (a b c : Db) → IsGrowth env a b → IsGrowth env b c → IsGrowth env a c
IsGrowth-trans env a b c g h = record {
  keys = λ k known. h.keys k (g.keys k known);
  rules_same = h.rules_same ∙ g.rules_same;
  indexes_same = h.indexes_same ∙ g.indexes_same;
  fresh = h.fresh;
}

no_clash :
    (env : Surroundings) (d : Dataset) (due : Due) (ts : List Task)
    → All
        (λ t.
          (key : String)
          → str_eq t.task_uuid (env.uuid_for key) ≡ true
          → t.idempotency_key ≡ some key)
        ts
    → find_by (keyed_with due.key) ts ≡ none
    → find_by (clashes (planned_task env d due)) ts ≡ none
unfolding find_by
no_clash env d due [] fresh unknown = refl
no_clash env d due (t ∷ ts) (this, fresh) unknown =
    elim (Bool-cases (str_eq t.task_uuid (env.uuid_for due.key))) [
      | inl drawn ↦ absurd (ground (arith, this due.key drawn, eq_refl due.key))
      | inr other ↦ let rest = no_clash env d due ts fresh (ground arith) in ground arith
    ]

-- Where nobody else plans, the emission of a new key adds its task.
emit-new :
    (env : Surroundings) (base : Db) (d : Dataset) (due : Due) (r : Progress) (db : Db)
    → IsAlone env
    → IsFresh env db
    → find_by (keyed_with due.key) db.tasks ≡ none
    → emit env base d due (r, db)
      ≡ (emitted (env.uuid_for due.key) r, record db { tasks = planned_task env d due ∷ db.tasks })
unfolding emit insert_task
emit-new env base d due r db alone fresh unknown =
    let no_rival = alone.no_rival due.key in
    let free = no_clash env d due db.tasks fresh unknown in ground arith

add-IsGrowth :
    (env : Surroundings) (d : Dataset) (due : Due) (db : Db)
    → IsAlone env
    → IsFresh env db
    → IsGrowth env db (record db { tasks = planned_task env d due ∷ db.tasks })
unfolding find_by
add-IsGrowth env d due db alone fresh = record {
  keys = λ k known. elim (Bool-cases (str_eq due.key k)) [
    | inl hit ↦ (planned_task env d due, ground arith)
    | inr miss ↦ (known.0, ground (arith, known.1))
  ];
  rules_same = refl;
  indexes_same = refl;
  fresh = (λ k drawn. ap some (alone.distinct due.key k drawn), fresh);
}

emit-IsGrowth :
    (env : Surroundings) (base : Db) (d : Dataset) (due : Due) (r : Progress) (db : Db)
    → IsAlone env
    → IsFresh env db
    → IsGrowth env db (emit env base d due (r, db)).1
      × HasKey due.key (emit env base d due (r, db)).1
emit-IsGrowth env base d due r db alone fresh =
    elim (Option-cases (find_by (keyed_with due.key) db.tasks)) [
      | inr (t, known) ↦
          subst (λ s. IsGrowth env db s.1 × HasKey due.key s.1)
            (sym (emit-HasKey env base d due r db (t, known)))
            (IsGrowth-refl env db fresh, (t, known))
      | inl unknown ↦
          subst (λ s. IsGrowth env db s.1 × HasKey due.key s.1)
            (sym (emit-new env base d due r db alone fresh unknown))
            (add-IsGrowth env d due db alone fresh, planned-HasKey env d due db)
    ]

-- All of these dues are planned.
abbrev pub ArePlanned : List Due → Db → Type 0
ArePlanned dues db = All (λ due. HasKey due.key db) dues

pub ArePlanned-growth :
    (env : Surroundings) (dues : List Due) (a b : Db)
    → IsGrowth env a b
    → ArePlanned dues a
    → ArePlanned dues b
ArePlanned-growth env dues a b g =
    All-map (λ due. HasKey due.key a) (λ due. HasKey due.key b) dues
      (λ due known. g.keys due.key known)

pub emit_all-IsGrowth :
    (env : Surroundings) (base : Db) (d : Dataset) (dues : List Due) (r : Progress) (db : Db)
    → IsAlone env
    → IsFresh env db
    → IsGrowth env db (emit_all env base d dues (r, db)).1
      × ArePlanned dues (emit_all env base d dues (r, db)).1
unfolding emit_all
emit_all-IsGrowth env base d [] r db alone fresh = (IsGrowth-refl env db fresh, tt)
emit_all-IsGrowth env base d (due ∷ dues) r db alone fresh =
    let next = emit env base d due (r, db) in
    let (g, known) = emit-IsGrowth env base d due r db alone fresh in
    let (h, rest) = emit_all-IsGrowth env base d dues next.0 next.1 alone g.fresh in
    (IsGrowth-trans env db next.1 _ g h, (h.keys due.key known, rest))

-- Dues that are planned are skipped.
pub emit_all-ArePlanned :
    (env : Surroundings) (base : Db) (d : Dataset) (dues : List Due) (r : Progress) (db : Db)
    → ArePlanned dues db
    → ((emit_all env base d dues (r, db)).0.emitted_tasks ≡ r.emitted_tasks)
      × ((emit_all env base d dues (r, db)).1 ≡ db)
unfolding emit_all
emit_all-ArePlanned env base d [] r db planned = (refl, refl)
emit_all-ArePlanned env base d (due ∷ dues) r db (known, planned) =
    subst
      (λ s.
        ((emit_all env base d dues s).0.emitted_tasks ≡ r.emitted_tasks)
        × ((emit_all env base d dues s).1 ≡ db))
      (sym (emit-HasKey env base d due r db known))
      (emit_all-ArePlanned env base d dues (skipped r) db planned)
