-- ===== src/Embedding.antt =====
-- workers/executors/embedding.py: the executor that computes the vectors of a vectorization rule. It is
-- not in the default registry.
pub mod AutoIndex
pub mod Execute
pub mod Guards
pub mod Vectors
pub mod Indexing
use lance_laker.Base.{
  ℕ, String, ◌++◌, Bool, true, false, ◌&&◌, not, Option, none, some, List, [], ◌∷◌, str_eq, nat_eq,
  if◌then◌else◌, find_by,
}
use lance_laker.Json.{get_field, Json, null, str, obj, Fields, end}
use lance_laker.Models.{Task, Dataset, VectorizationRule, Db}
use lance_laker.Paging.{length}
use lance_laker.Executors.{Executed, done, raised, ◌>>=◌, Vector, Environment, params_of, as_int}
use lance_laker.Executors.Retention.{int_error}
use lance_laker.Executors.Vectorize.{join}
use lance_laker.MockModel.{Hashing, texts_of, hash_embedding}
use lance_laker.LanceIo.{Column}
use lance_laker.LanceIo.Search.{has_column}

-- What the executor meets outside the database and lance: sentence-transformers, pyarrow's arrays of
-- vectors of one size, `str` of a JSON value, and the id and the uuid that new rows get.
pub record Outside : Type 0 where
  pub env : Environment
  pub hashing : Hashing
  pub st_embedding : List String → String → Executed (List Vector)
  pub fixed_size : ℕ → List Vector → Executed (List Vector)
  pub text_of : Json → String
  pub next_id : ℕ
  pub task_uuid : String
  pub str_int : ℕ → String

-- The values of a row that are texts.
unfoldable pub texts_in : List Json → List String
texts_in [] = []
texts_in (str s ∷ rest) = s ∷ texts_in rest
texts_in (other ∷ rest) = texts_in rest

unfoldable pub materialised : String → List (List Json) → List String
unfolding texts_in join
materialised separator [] = []
materialised separator (row ∷ rows) = join separator (texts_in row) ∷ materialised separator rows

-- `hash_embedding` with its default dimension; its loop has fuel enough.
abbrev pub mock_embedding : Hashing → List String → Executed (List Vector)
mock_embedding h texts = elim (hash_embedding h (texts_of texts) 384) [
  | none ↦ raised "RuntimeError" "the loop goes on"
  | some out ↦ out
]

abbrev pub embed_texts : Outside → String → List String → Executed (List Vector)
embed_texts o model_name texts =
    if str_eq model_name "mock"
    then mock_embedding o.hashing texts
    else o.st_embedding texts model_name

-- What is handed to `lance.batch_udf`: the output schema and the transform of a batch, row by row.
pub record Udf : Type 0 where
  pub target_column : String
  pub vector_dim : ℕ
  pub transform : List (List Json) → Executed (List Vector)

unfoldable pub build_batch_transform : Outside → String → String → ℕ → String → Udf
unfolding materialised
build_batch_transform o target_column model_name vector_dim separator = record {
  target_column = target_column;
  vector_dim = vector_dim;
  transform = λ rows. embed_texts o model_name (materialised separator rows) >>= λ vectors.
      o.fixed_size vector_dim vectors;
}

-- `schema.field(name).type` is utf8.
abbrev pub is_named : String → Column → Bool
is_named name c = str_eq c.name name

abbrev pub is_text_column : List Column → String → Bool
is_text_column schema name = elim (find_by (is_named name) schema) [
  | none ↦ false
  | some c ↦ c.is_string
]

unfoldable pub all_names : (String → Bool) → List String → Bool
all_names p [] = true
all_names p (name ∷ names) = p name && all_names p names

-- The two checks of `_validate_source_columns`.
unfoldable pub check_columns : List String → List Column → Executed (Unit {0})
unfolding all_names has_column
check_columns source_columns schema =
    if not (all_names (λ name. has_column name schema) source_columns)
    then raised "ValueError" "VECTORIZE source_columns not found in dataset schema"
    else if not (all_names (is_text_column schema) source_columns)
    then raised "ValueError" "VECTORIZE source_columns must be utf8 string type"
    else done tt

abbrev pub rule_of : ℕ → String → VectorizationRule → Bool
rule_of id dataset_uuid r = nat_eq r.id id && str_eq r.dataset_uuid dataset_uuid

abbrev pub usable_columns : VectorizationRule → Executed (VectorizationRule × List String)
usable_columns r = elim r.source_columns [
  | none ↦ raised "TypeError" "'NoneType' object is not iterable"
  | some [] ↦ raised "ValueError" "VECTORIZE rule has empty source_columns"
  | some (name ∷ names) ↦ done (r, name ∷ names)
]

-- `params.get("vectorization_rule_id")`, where it is not None.
abbrev pub rule_id_of : Task → Option Json
rule_id_of t = elim (get_field "vectorization_rule_id" (params_of t)) [
  | none ↦ none
  | some null ↦ none
  | some id ↦ some id
]

abbrev pub rule_usable : Option VectorizationRule → Executed (VectorizationRule × List String)
rule_usable none = raised "ValueError" "VECTORIZE target vectorization_rule not found"
rule_usable (some r) =
    if r.enabled
    then usable_columns r
    else raised "ValueError" "VECTORIZE vectorization_rule is disabled"

-- The rule, with its source columns.
unfoldable pub find_rule :
    Outside → Task → Dataset → Db → Executed (VectorizationRule × List String)
find_rule o t d db = elim (rule_id_of t) [
  | none ↦ raised "ValueError" "VECTORIZE task is missing 'vectorization_rule_id' in params"
  | some id_json ↦ elim (as_int o.env id_json) [
    | none ↦ raised (int_error id_json) "vectorization_rule_id is no integer"
    | some id ↦ rule_usable (find_by (rule_of id d.dataset_uuid) db.rules)
  ]
]

abbrev pub vector_dim_of : List Vector → ℕ
vector_dim_of [] = 0
vector_dim_of (v ∷ vs) = length v

abbrev pub extra_of : VectorizationRule → Fields
extra_of r = elim r.extra [ none ↦ end | some fields ↦ fields ]

-- `str(extra.get("concat_separator", " "))`.
abbrev pub separator_of : Outside → Fields → String
separator_of o extra = elim (get_field "concat_separator" extra) [
  | none ↦ " "
  | some (str s) ↦ s
  | some other ↦ o.text_of other
]
