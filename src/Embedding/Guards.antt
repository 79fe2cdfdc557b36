-- ===== src/Embedding/Guards.antt =====
-- workers/executors/embedding.py: what stands between a task and a write to lance.
use lance_laker.Base.{
  String, ◌≡◌, ◌≢◌, ◌⊎◌, refl, sym, ap, subst, ◌∙◌, inl, inr, Bool, true, Option, none, some, List,
  [], ◌∷◌, All, Memᴰ, arith, Bool-cases, Option-cases, eq_iff, find_by, find_by_holds, find_by-Memᴰ,
}
use lance_laker.Json.{Fields}
use lance_laker.Models.{Task, Dataset, VectorizationRule, Db}
use lance_laker.Executors.{Executed, done, as_int}
use lance_laker.Executors.Effects.{Executed-split}
use lance_laker.LanceIo.{
  StorageSettings, Column, Lance, continue, open_dataset, read_dataset_schema,
}
use lance_laker.LanceIo.Search.{has_column}
use lance_laker.LanceIo.Calls.{
  continue-done, continue-split, done-injective, continue-reading, open_dataset-reads,
}
use lance_laker.Embedding.{
  Outside, Udf, is_text_column, all_names, check_columns, rule_of, rule_id_of, usable_columns,
  find_rule,
}
use lance_laker.Embedding.Execute.{
  stored, validate_source_columns, write_vectors, SessionState, embed_rule, execute,
}

-- A rule of the dataset that the executor may run, with its source columns.
abbrev pub IsUsable : Dataset → Db → VectorizationRule → List String → Type 0
IsUsable d db r names =
    Memᴰ r db.rules
    × (r.dataset_uuid ≡ d.dataset_uuid)
    × (r.enabled ≡ true)
    × (r.source_columns ≡ some names)
    × (names ≢ [])

usable_columns-inv :
    (r x : VectorizationRule) (names : List String) (columns : Option (List String))
    → r.source_columns ≡ columns
    → usable_columns r ≡ done (x, names)
    → (x ≡ r) × (r.source_columns ≡ some names) × (names ≢ [])
usable_columns-inv r x names none e h = absurd (ground arith)
usable_columns-inv r x names (some []) e h = absurd (ground arith)
usable_columns-inv r x names (some (c ∷ cs)) e h =
    let is_x : x ≡ r = ground arith in
    let is_names : names ≡ c ∷ cs = ground arith in
    (is_x, e ∙ ap some (sym is_names), λ empty. absurd (ground arith))

find_rule-IsUsable :
    (o : Outside) (t : Task) (d : Dataset) (db : Db) (r : VectorizationRule) (names : List String)
    → find_rule o t d db ≡ done (r, names)
    → IsUsable d db r names
unfolding find_rule
find_rule-IsUsable o t d db r names h = elim (Option-cases (rule_id_of t)) [
  | inl no_id ↦ absurd (ground arith)
  | inr (id_json, given) ↦ elim (Option-cases (as_int o.env id_json)) [
    | inl bad ↦ absurd (ground arith)
    | inr (id, parsed) ↦ elim (Option-cases (find_by (rule_of id d.dataset_uuid) db.rules)) [
      | inl missing ↦ absurd (ground arith)
      | inr (x, found) ↦ elim (Bool-cases x.enabled) [
        | inr off ↦ absurd (ground arith)
        | inl on ↦
            let columns : usable_columns x ≡ done (r, names) = ground arith in
            let (same, source, nonempty) =
              usable_columns-inv x r names x.source_columns refl columns in
            let hit = find_by_holds (rule_of id d.dataset_uuid) db.rules x found in
            subst (λ y. IsUsable d db y names) (sym same)
              (
                find_by-Memᴰ (rule_of id d.dataset_uuid) db.rules x found,
                ground (arith, eq_iff x.dataset_uuid d.dataset_uuid),
                on,
                source,
                nonempty,
              )
      ]
    ]
  ]
]

all_names-All :
    (p : String → Bool) (names : List String)
    → all_names p names ≡ true
    → All (λ n. p n ≡ true) names
unfolding all_names
all_names-All p [] h = tt
all_names-All p (n ∷ ns) h = (ground arith, all_names-All p ns (ground arith))

check_columns-All :
    (names : List String) (schema : List Column)
    → check_columns names schema ≡ done tt
    → All (λ n. is_text_column schema n ≡ true) names
unfolding check_columns
check_columns-All names schema h = elim (Bool-cases (all_names (is_text_column schema) names)) [
  | inl all ↦ all_names-All (is_text_column schema) names all
  | inr some_other ↦ elim (Bool-cases (all_names (λ name. has_column name schema) names)) [
    | inl present ↦ absurd (ground arith)
    | inr missing ↦ absurd (ground arith)
  ]
]

module _ {W D : Type 0} (cfg : StorageSettings) (lance : Lance W D Udf) (o : Outside) where
  validate-reads :
      (uri : String) (names : List String) (w : W)
      → (validate_source_columns cfg lance o uri names w).1 ≡ w
  unfolding validate_source_columns read_dataset_schema
  validate-reads uri names w =
      continue-reading (read_dataset_schema cfg lance uri (stored cfg lance o) w)
        (check_columns names)
      ∙ continue-reading (open_dataset cfg lance uri (stored cfg lance o) w)
          (λ ds. done (lance.schema ds))
      ∙ open_dataset-reads cfg lance uri (stored cfg lance o) w

  -- Where the validation passes, the dataset that opens has each column as a column of texts.
  validate-All :
      (uri : String) (names : List String) (w w' : W) (u : Unit {0})
      → validate_source_columns cfg lance o uri names w ≡ (done u, w')
      → (ds : D) × (open_dataset cfg lance uri (stored cfg lance o) w ≡ (done ds, w))
        × All (λ n. is_text_column (lance.schema ds) n ≡ true) names
  unfolding validate_source_columns read_dataset_schema
  validate-All uri names w w' u h =
      let (schema, w1, read, checked) =
        continue-done (read_dataset_schema cfg lance uri (stored cfg lance o) w) _ u w' h in
      let (ds, w2, opened, is_schema) =
        continue-done (open_dataset cfg lance uri (stored cfg lance o) w) _ schema w1 read in
      let at_w : w2 ≡ w =
        sym (ap {A = Executed D × W} (λ s. s.1) opened)
        ∙ open_dataset-reads cfg lance uri (stored cfg lance o) w in
      let same : lance.schema ds ≡ schema =
        done-injective (lance.schema ds) schema
          (ap {A = Executed (List Column) × W} (λ s. s.0) is_schema) in
      let passed : check_columns names schema ≡ done u =
        ap {A = Executed (Unit {0}) × W} (λ s. s.0) checked in
      (
        ds,
        opened ∙ ap (λ x. (done ds, x)) at_w,
        subst (λ x. All (λ n. is_text_column x n ≡ true) names) (sym same)
            (check_columns-All names schema passed),
      )

  -- Whatever lance and the model do: a run of the executor leaves lance's state as it was, or the task
  -- names a rule of the task's dataset, enabled and with source columns, and at its start the dataset
  -- opened and had every source column as a column of texts.
  pub execute-guarded :
      (t : Task) (d : Dataset) (db : Db) (w : W)
      → ((execute cfg lance o t d db w).1 ≡ w)
        ⊎ ((r : VectorizationRule) × (names : List String) × (ds : D) × IsUsable d db r names
            × (open_dataset cfg lance d.storage_uri (stored cfg lance o) w ≡ (done ds, w))
            × All (λ n. is_text_column (lance.schema ds) n ≡ true) names)
  unfolding execute embed_rule
  execute-guarded t d db w = elim (Executed-split (find_rule o t d db)) [
    | inr (code, message, refused) ↦
        inl (ap (λ x. (continue (x, w) (embed_rule cfg lance o d db)).1) refused)
    | inl ((r, names), found) ↦
        let run : execute cfg lance o t d db w ≡ embed_rule cfg lance o d db (r, names) w =
          ap (λ x. continue (x, w) (embed_rule cfg lance o d db)) found in
        elim (continue-split (validate_source_columns cfg lance o d.storage_uri names w)
          (λ valid. write_vectors cfg lance o d db r names)) [
            | inl broke ↦ inl (
                ap {A = Executed (Fields × SessionState) × W} (λ s. s.1) run
                ∙ broke
                ∙ validate-reads d.storage_uri names w)
            | inr (u, w', valid) ↦
                let (ds, opened, texts) = validate-All d.storage_uri names w w' u valid in
                inr (r, names, ds, find_rule-IsUsable o t d db r names found, opened, texts)
          ]
  ]
