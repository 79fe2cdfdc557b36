-- ===== src/Embedding/Execute.antt =====
-- workers/executors/embedding.py: `EmbeddingExecutor.execute`, over lance_io.py.
use lance_laker.Base.{ℕ, String, true, false, Option, some, List, [], ◌∷◌, str_eq, if◌then◌else◌}
use lance_laker.Json.{Json, null, truth, num, str, arr, Items, nil, cons, Fields, end, field}
use lance_laker.Models.{Task, Dataset, VectorizationRule, Db}
use lance_laker.Executors.{Executed, done, ◌>>=◌}
use lance_laker.LanceIo.{
  StorageSettings, build_storage_options, Lance, Io, followed_by, reading, add_columns_from_func,
  read_dataset_schema,
}
use lance_laker.Embedding.{
  Outside, embed_texts, Udf, build_batch_transform, check_columns, find_rule, vector_dim_of,
  extra_of, separator_of,
}
use lance_laker.Embedding.AutoIndex.{
  Submitted, not_configured, exists, submitted, flush_failed, maybe_submit_index_build,
}

-- The executor's session: with a state, or refusing every statement until it is rolled back.
pub data SessionState : Type 0 where
  live : Db → SessionState
  inactive : SessionState

abbrev pub session_after : Db → Submitted → SessionState
session_after db not_configured = live db
session_after db exists = live db
session_after db (submitted db') = live db'
session_after db flush_failed = inactive

abbrev pub submitted_json : Submitted → Json
submitted_json not_configured = null
submitted_json exists = truth false
submitted_json (submitted db) = truth true
submitted_json flush_failed = null

unfoldable pub columns_items : List String → Items
columns_items [] = nil
columns_items (name ∷ names) = cons (str name) (columns_items names)

abbrev pub mode_of : VectorizationRule → String
mode_of r = if str_eq r.model_name "mock" then "mock" else "real-model"

unfoldable pub embedding_payload :
    Outside → Dataset → VectorizationRule → List String → ℕ → ℕ → Submitted → Fields
unfolding columns_items
embedding_payload o d r source_columns vector_dim rows_after sent =
    field "executor" (str "EmbeddingExecutor") (
      field "mode" (str (mode_of r)) (
        field "dataset_uuid" (str d.dataset_uuid) (
          field "storage_uri" (str d.storage_uri) (
            field "vectorization_rule_id" (num r.id) (
              field "model_name" (str r.model_name) (
                field "model_version" (str r.model_version) (
                  field "target_column" (str r.target_column) (
                    field "source_columns" (arr (columns_items source_columns)) (
                      field "concat_separator" (str (separator_of o (extra_of r))) (
                        field "batch_size" (num r.batch_size) (
                          field "vector_dim" (num vector_dim) (
                            field "vector_count" (num rows_after) (
                              field "index_build_submitted" (submitted_json sent) (
                                field "executed_at" (str (o.env.isoformat o.env.now))
                                  end))))))))))))))

module _ {W D : Type 0} (cfg : StorageSettings) (lance : Lance W D Udf) (o : Outside) where
  abbrev pub stored : Option Fields
  stored = some (build_storage_options cfg)

  -- `_validate_source_columns`.
  unfoldable pub validate_source_columns : String → List String → Io W (Unit {0})
  unfolding check_columns read_dataset_schema build_storage_options
  validate_source_columns uri source_columns =
      followed_by (read_dataset_schema cfg lance uri stored)
        (λ schema. reading (check_columns source_columns schema))

  abbrev pub udf_for : VectorizationRule → ℕ → Udf
  udf_for r vector_dim =
      build_batch_transform o r.target_column r.model_name vector_dim (separator_of o (extra_of r))

  abbrev pub report :
      Dataset → Db → VectorizationRule → List String → ℕ → ℕ → Executed (Fields × SessionState)
  report d db r source_columns vector_dim rows_after =
      maybe_submit_index_build o d r.target_column (extra_of r) db >>= λ sent.
      done
        (embedding_payload o d r source_columns vector_dim rows_after sent, session_after db sent)

  -- From the probe of the model on.
  unfoldable pub write_vectors :
      Dataset → Db → VectorizationRule → List String → Io W (Fields × SessionState)
  unfolding add_columns_from_func build_storage_options build_batch_transform
      maybe_submit_index_build embedding_payload
  write_vectors d db r source_columns =
      followed_by (reading (embed_texts o r.model_name ("__lcp_probe__" ∷ []))) (λ probe.
        followed_by
          (add_columns_from_func cfg lance d.storage_uri (udf_for r (vector_dim_of probe))
            (some source_columns) stored)
          (λ rows_after. reading (report d db r source_columns (vector_dim_of probe) rows_after)))

  -- From the validation on.
  unfoldable pub embed_rule :
      Dataset → Db → VectorizationRule × List String → Io W (Fields × SessionState)
  unfolding validate_source_columns write_vectors
  embed_rule d db (r, source_columns) =
      followed_by (validate_source_columns d.storage_uri source_columns)
        (λ valid. write_vectors d db r source_columns)

  unfoldable pub execute : Task → Dataset → Db → Io W (Fields × SessionState)
  unfolding find_rule embed_rule
  execute t d db = followed_by (reading (find_rule o t d db)) (embed_rule d db)
