-- ===== src/Executors.antt =====
-- workers/executors/base.py: what an executor is, and what the executors share: how they read a
-- task's params, and the calls of lance and of Gravitino, which are parameters.
pub mod Indexing
pub mod Retention
pub mod Vectorize
pub mod Batches
pub mod Answers
pub mod Registry
pub mod Effects
use lance_laker.Base.{
  ℕ, String, Bool, true, false, not, Option, none, some, List, ltb, str_eq, if◌then◌else◌,
}
use lance_laker.Json.{Json, null, truth, num, str, arr, obj, Items, nil, cons, Fields, end, field}
use lance_laker.Models.{Task, Dataset, Db}

-- `execute` returns the payload, with the session's state, or raises: the class of the exception and
-- its message.
pub data Executed {ℓ} (A : Type ℓ) : Type ℓ where
  done : A → Executed A
  raised : String → String → Executed A

infixl 5 ◌>>=◌
abbrev pub ◌>>=◌ {ℓ κ} : {A : Type ℓ} {B : Type κ} → Executed A → (A → Executed B) → Executed B
done a >>= f = f a
raised code message >>= f = raised code message

abbrev pub Executor : Type 0
Executor = Task → Dataset → Db → Executed (Fields × Db)

pub record CompactionStats : Type 0 where
  pub fragments_removed : ℕ
  pub fragments_added : ℕ
  pub files_removed : ℕ
  pub files_added : ℕ

-- A vector, each number kept by its text.
abbrev pub Vector : Type 0
Vector = List String

-- What the vectorize executor meets: the settings of the embedding service; lance, which opens a
-- dataset and reads the texts of some columns, row by row, of the rows without a target value or of
-- all; the service's answer to a batch, which may raise; and `str.lower`.
pub record Embedder : Type 0 where
  pub default_endpoint : String
  pub api_key : String
  pub api_key_header : String
  pub open_dataset : String → Executed (Unit {0})
  pub null_rows : String → Json → Json → Executed (List (List (Option String)))
  pub all_rows : String → Json → Executed (List (List (Option String)))
  pub post : Json → Json → Fields → List String → Executed (List Vector)
  pub lower : String → String

-- What an executor meets outside the database: the time, whether a storage endpoint is configured,
-- the functions of data_plane/lance_io.py that call lance, the push of properties to Gravitino, which
-- never raises and tells whether it happened, and what Python and the driver make of values: `int` of
-- a text (none where it raises), the text that a bound value of another JSON type is compared by,
-- an ISO time, and the ISO time so many days before a time (none where it overflows).
pub record Environment : Type 0 where
  pub now : ℕ
  pub has_endpoint : Bool
  pub create_index : String → String → String → Fields → Executed Json
  pub optimize_indices : String → Executed (ℕ × ℕ)
  pub delete_rows : String → String → Executed ℕ
  pub compact_files : String → Fields → Executed CompactionStats
  pub push_index_properties : Dataset → String → String → String → ℕ → Bool
  pub embedder : Embedder
  pub int_of : String → Option ℕ
  pub bound_text : Json → String
  pub str_json : Json → String
  pub isoformat : ℕ → String
  pub iso_days_before : ℕ → ℕ → Option String

-- Truth of a JSON value. A float is kept as its text, and those that are used here are not zero.
abbrev pub is_truthy : Json → Bool
is_truthy null = false
is_truthy (truth b) = b
is_truthy (num n) = ltb 0 n
is_truthy (str s) = not (str_eq s "")
is_truthy (arr nil) = false
is_truthy (arr (cons x xs)) = true
is_truthy (obj end) = false
is_truthy (obj (field k value rest)) = true

-- `task.params or {}`.
abbrev pub params_of : Task → Fields
params_of t = elim t.params [ none ↦ end | some fields ↦ fields ]

-- `params.get(key) or {}`, where the value is a dict.
abbrev pub dict_or_empty : Option Json → Fields
dict_or_empty (some (obj fields)) = fields
dict_or_empty _ = end

-- `int(value)`, where it does not raise.
abbrev pub as_int : Environment → Json → Option ℕ
as_int env null = none
as_int env (truth true) = some 1
as_int env (truth false) = some 0
as_int env (num n) = some n
as_int env (str s) = env.int_of s
as_int env (arr items) = none
as_int env (obj fields) = none

abbrev pub bound : Environment → Json → String
bound env (str s) = s
bound env other = env.bound_text other
