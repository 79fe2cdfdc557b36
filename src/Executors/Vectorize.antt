-- ===== src/Executors/Vectorize.antt =====
-- workers/executors/vectorize.py: `VectorizationExecutor`.
use lance_laker.Base.{
  ℕ, zero, suc, String, ◌++◌, ◌+◌, Bool, true, false, not, Option, none, some, List, [], ◌∷◌,
  nat_eq, str_eq, if◌then◌else◌, count_by,
}
use lance_laker.Json.{get_field, Json, null, num, str, arr, Items, nil, cons, Fields, end, field}
use lance_laker.Models.{Task, Dataset}
use lance_laker.Paging.{length, take, skip}
use lance_laker.Executors.Retention.{int_error}
use lance_laker.Executors.{
  Executed, done, raised, ◌>>=◌, Executor, Environment, Vector, is_truthy, params_of, dict_or_empty,
  as_int,
}

-- `params.get(key, default)`.
abbrev pub get_or : String → Json → Fields → Json
get_or key default params = elim (get_field key params) [ none ↦ default | some value ↦ value ]

-- `value or default`.
abbrev pub truthy_or : Json → Json → Json
truthy_or value default = if is_truthy value then value else default

abbrev pub get_or_null : String → Fields → Json
get_or_null key params = get_or key null params

-- The values of a row that are not None.
unfoldable pub parts_of : List (Option String) → List String
parts_of [] = []
parts_of (none ∷ rest) = parts_of rest
parts_of (some text ∷ rest) = text ∷ parts_of rest

-- `separator.join(parts)`.
unfoldable pub join : String → List String → String
join separator [] = ""
join separator (text ∷ []) = text
join separator (text ∷ next ∷ rest) = text ++ (separator ++ join separator (next ∷ rest))

unfoldable pub row_texts : List (List (Option String)) → List String
unfolding parts_of join
row_texts [] = []
row_texts (row ∷ rows) = join " " (parts_of row) ∷ row_texts rows

-- `texts[start : start + batch_size]` for each start of `range(0, len(texts), batch_size)`; the fuel is
-- the number of texts.
unfoldable pub batches_of : ℕ → ℕ → List String → List (List String)
batches_of zero size texts = []
batches_of (suc fuel) size [] = []
batches_of (suc fuel) size (text ∷ texts) =
    take size (text ∷ texts) ∷ batches_of fuel size (skip size (text ∷ texts))

-- `all_embeddings`, `batches_sent` and `errors`, the last first.
pub record Sent : Type 0 where
  pub embeddings : List Vector
  pub batches : ℕ
  pub errors : List String

abbrev pub nothing_sent : Sent
nothing_sent = record { embeddings = []; batches = 0; errors = [] }

unfoldable pub append_vectors : List Vector → List Vector → List Vector
append_vectors [] vs = vs
append_vectors (u ∷ us) vs = u ∷ append_vectors us vs

-- `[[] for _ in batch_texts]`.
unfoldable pub padding : List String → List Vector
padding [] = []
padding (text ∷ texts) = [] ∷ padding texts

abbrev pub answered : List Vector → Sent → Sent
answered vectors r = record r {
  embeddings = append_vectors r.embeddings vectors;
  batches = r.batches + 1;
}

abbrev pub failed_batch : Environment → List String → String → Sent → Sent
failed_batch env texts message r = record r {
  embeddings = append_vectors r.embeddings (padding texts);
  batches = r.batches + 1;
  errors = ("batch " ++ (env.str_json (num r.batches) ++ (": " ++ message))) ∷ r.errors;
}

-- What comes of the answer to a batch.
abbrev pub received : Environment → List String → Sent → Executed (List Vector) → Sent
received env texts r (done vectors) = answered vectors r
received env texts r (raised code message) = failed_batch env texts message r

unfoldable pub send_batch :
    Environment → (List String → Executed (List Vector)) → List String → Sent → Sent
send_batch env post texts r = received env texts r (post texts)

unfoldable pub send_all :
    Environment → (List String → Executed (List Vector)) → List (List String) → Sent → Sent
send_all env post [] r = r
send_all env post (texts ∷ rest) r = send_all env post rest (send_batch env post texts r)

abbrev pub has_numbers : Vector → Bool
has_numbers [] = false
has_numbers (x ∷ xs) = true

-- The texts of a list, the last first.
unfoldable pub texts_json : List String → Items → Items
texts_json [] items = items
texts_json (text ∷ texts) items = texts_json texts (cons (str text) items)

abbrev pub errors_json : List String → Json
errors_json [] = null
errors_json (e ∷ es) = arr (texts_json (e ∷ es) nil)

-- `rows_written`; no row is written.
abbrev pub rows_written : Sent → ℕ
rows_written r = count_by has_numbers r.embeddings

abbrev pub completed_payload : ℕ → Sent → Fields
completed_payload total r = field "rows_processed" (num (rows_written r)) (
    field "total_unvectorized" (num total) (
      field "batches" (num r.batches)
        (field "errors" (errors_json r.errors) (field "status" (str "completed") end))))

abbrev pub error_payload : String → Fields
error_payload message = field "error" (str message) (field "rows_processed" (num 0) end)

abbrev pub no_rows_payload : Fields
no_rows_payload =
    field "rows_processed" (num 0)
      (field "batches" (num 0) (field "status" (str "no_new_rows") end))

-- `req_headers`; a header's name that is no text has no `lower`.
abbrev pub headers_of : Environment → Json → Json → Executed Fields
headers_of env api_key header =
    let plain = field "Content-Type" (str "application/json") in
    if not (is_truthy api_key) then done (plain end) else (elim header [
      | str name ↦
          if str_eq (env.embedder.lower name) "authorization"
          then done (plain (field "Authorization" (str ("Bearer " ++ env.str_json api_key)) end))
          else done (plain (field name api_key end))
      | _ ↦ raised "AttributeError" "the header's name has no attribute 'lower'"
    ])

-- The two attempts to read.
abbrev pub read_rows : Environment → String → Json → Json → Executed (List (List (Option String)))
read_rows env uri target columns = elim (env.embedder.null_rows uri target columns) [
  | done rows ↦ done rows
  | raised code message ↦ env.embedder.all_rows uri columns
]

-- What the service is asked with.
pub record Asking : Type 0 where
  pub target_column : Json
  pub source_columns : Json
  pub model_name : Json
  pub endpoint : Json
  pub batch_size : ℕ
  pub api_key : Json
  pub api_key_header : Json

-- The batches, once the headers are made: `range` refuses a step of 0.
unfoldable pub embed_with :
    Environment → Asking → List (List (Option String)) → Fields → Executed Fields
unfolding row_texts batches_of send_all
embed_with env a rows headers =
    let texts = row_texts rows in
    if nat_eq a.batch_size 0
    then raised "ValueError" "range() arg 3 must not be zero"
    else done (
        completed_payload (length rows) (
          send_all env (env.embedder.post a.endpoint a.model_name headers)
            (batches_of (length texts) a.batch_size texts) nothing_sent))

-- Once the rows are read.
unfoldable pub embed_rows : Environment → Asking → List (List (Option String)) → Executed Fields
unfolding embed_with
embed_rows env a rows = headers_of env a.api_key a.api_key_header >>= embed_with env a rows

-- `_vectorize_sync`.
unfoldable pub vectorize_sync : Environment → String → Asking → Executed Fields
unfolding embed_rows
vectorize_sync env uri a = env.embedder.open_dataset uri >>= λ opened.
    elim (read_rows env uri a.target_column a.source_columns) [
      | raised code message ↦ done (error_payload ("Failed to read dataset: " ++ message))
      | done [] ↦ done no_rows_payload
      | done (row ∷ rows) ↦ embed_rows env a (row ∷ rows)
    ]

abbrev pub asking : Environment → Fields → ℕ → Json → Asking
asking env params size endpoint =
    let extra = dict_or_empty (get_field "extra" params) in
    record {
      target_column = get_or "target_column" (str "vector") params;
      source_columns = get_or "source_columns" (arr nil) params;
      model_name = get_or "model_name" (str "default") params;
      endpoint = endpoint;
      batch_size = size;
      api_key = truthy_or (get_or_null "api_key" extra) (str env.embedder.api_key);
      api_key_header =
          truthy_or (get_or_null "api_key_header" extra) (str env.embedder.api_key_header);
    }

-- `int(params.get("batch_size", 64))` comes first.
unfoldable pub vectorize : Environment → Task → Dataset → Executed Fields
unfolding vectorize_sync
vectorize env t d =
    let params = params_of t in
    let endpoint =
      truthy_or (get_or "model_endpoint" (str "") params) (str env.embedder.default_endpoint) in
    let size_param = get_or "batch_size" (num 64) params in
    elim (as_int env size_param) [
      | none ↦ raised (int_error size_param) "batch_size is no integer"
      | some size ↦
          if not (is_truthy (get_or "source_columns" (arr nil) params))
          then done (error_payload "no source_columns specified")
          else if not (is_truthy endpoint)
          then done (error_payload "no embedding endpoint configured")
          else vectorize_sync env d.storage_uri (asking env params size endpoint)
    ]

unfoldable pub vectorization : Environment → Executor
unfolding vectorize
vectorization env t d db = vectorize env t d >>= λ payload. done (payload, db)
