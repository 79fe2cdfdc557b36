-- ===== src/Executors/Effects.antt =====
-- What the executors of the default registry leave alone.
use lance_laker.Base.{
  String, ◌⊎◌, ◌≡◌, refl, ap, subst, inl, inr, Option, none, some, arith, Bool-cases, Option-cases,
  str_eq,
}
use mathlib.Core.Option.{some-injective}
use lance_laker.Json.{get_field, Fields}
use lance_laker.Models.{Task, Dataset, Db}
use lance_laker.Indexes.{maybe_get_index}
use lance_laker.Executors.{
  Executed, done, raised, ◌>>=◌, Executor, Environment, params_of, dict_or_empty, as_int,
}
use lance_laker.Executors.Indexing.{
  read_build_params, build_on_disk, index_build, optimize_on_disk, index_optimize,
}
use lance_laker.Executors.Retention.{
  delete_on_disk, ttl_days_of, ttl_delete, compact_kwargs, compaction,
}
use lance_laker.Executors.Vectorize.{vectorize, vectorization}
use lance_laker.Executors.Registry.{default_registry}

-- What an executor that returns leaves alone: tasks, workers, datasets, policies and rules.
pub record LeavesQueue (db db' : Db) : Type 0 where
  pub same_tasks : db'.tasks ≡ db.tasks
  pub same_workers : db'.workers ≡ db.workers
  pub same_datasets : db'.datasets ≡ db.datasets

abbrev pub KeepsQueue : Executor → Type 0
KeepsQueue execute =
    (t : Task) (d : Dataset) (db db' : Db) (payload : Fields)
    → execute t d db ≡ done (payload, db')
    → LeavesQueue db db'

pub Executed-split {ℓ} :
    {A : Type ℓ} (x : Executed A)
    → ((a : A) × (x ≡ done a)) ⊎ ((code : String) × (message : String) × (x ≡ raised code message))
Executed-split (done a) = inl (a, refl)
Executed-split (raised code message) = inr (code, message, refl)

index_build-KeepsQueue : (env : Environment) → KeepsQueue (index_build env)
unfolding index_build
index_build-KeepsQueue env t d db db' payload h =
    elim (Executed-split (read_build_params env (params_of t))) [
      | inr (code, message, bad) ↦ absurd (ground arith)
      | inl (p, good) ↦ elim (Option-cases (maybe_get_index d.dataset_uuid p.index_name db)) [
        | inl missing ↦ absurd (ground arith)
        | inr (x, found) ↦ elim (Executed-split (build_on_disk env d p)) [
          | inr (code, message, broke) ↦ absurd (ground arith)
          | inl (descriptor, built) ↦ record {
            same_tasks = ground arith;
            same_workers = ground arith;
            same_datasets = ground arith;
          }
        ]
      ]
    ]

index_optimize-KeepsQueue : (env : Environment) → KeepsQueue (index_optimize env)
unfolding index_optimize
index_optimize-KeepsQueue env t d db db' payload h =
    elim (Executed-split (optimize_on_disk env d)) [
      | inr (code, message, broke) ↦ absurd (ground arith)
      | inl (found, optimized) ↦ record {
        same_tasks = ground arith;
        same_workers = ground arith;
        same_datasets = ground arith;
      }
    ]

same_state : (db db' : Db) → db' ≡ db → LeavesQueue db db'
same_state db db' e = record {
  same_tasks = ap (λ d. d.tasks) e;
  same_workers = ap (λ d. d.workers) e;
  same_datasets = ap (λ d. d.datasets) e;
}

-- Where an executor's payload comes from `run`, and the state from before.
same_if_done :
    (db db' : Db) (payload : Fields) (run : Executed Fields)
    → ◌>>=◌ {B = Fields × Db} run (λ fields. done (fields, db)) ≡ done (payload, db')
    → db' ≡ db
same_if_done db db' payload (done fields) h = ground arith
same_if_done db db' payload (raised code message) h = absurd (cc)

ttl_delete-KeepsQueue : (env : Environment) → KeepsQueue (ttl_delete env)
unfolding ttl_delete
ttl_delete-KeepsQueue env t d db db' payload h = elim (Option-cases (ttl_days_of t)) [
  | inl absent ↦ absurd (ground arith)
  | inr (ttl, given) ↦ elim (Option-cases (as_int env ttl)) [
    | inl no_number ↦ absurd (ground arith)
    | inr (days, number) ↦ elim (Option-cases (env.iso_days_before env.now days)) [
      | inl overflow ↦ absurd (ground arith)
      | inr (cutoff, text) ↦
          same_state db db'
            (same_if_done db db' payload (delete_on_disk env d ttl cutoff) (ground arith))
    ]
  ]
]

compaction-KeepsQueue : (env : Environment) → KeepsQueue (compaction env)
unfolding compaction
compaction-KeepsQueue env t d db db' payload h =
    let kwargs = compact_kwargs (dict_or_empty (get_field "threshold" (params_of t))) in
    elim (Executed-split (env.compact_files d.storage_uri kwargs)) [
      | inr (code, message, broke) ↦ same_state db db' (ground arith)
      | inl (stats, ran) ↦ same_state db db' (ground arith)
    ]

vectorization-KeepsQueue : (env : Environment) → KeepsQueue (vectorization env)
unfolding vectorization
vectorization-KeepsQueue env t d db db' payload h =
    same_state db db' (same_if_done db db' payload (vectorize env t d) h)

-- Every executor of the default registry, for whatever lance and Gravitino return.
pub default_registry-KeepsQueue :
    (env : Environment) (task_type : String) (execute : Executor)
    → default_registry env task_type ≡ some execute
    → KeepsQueue execute
unfolding default_registry
default_registry-KeepsQueue env type execute h = elim (Bool-cases (str_eq type "TTL_DELETE")) [
  | inl is ↦ registered (ttl_delete env) (ttl_delete-KeepsQueue env) (rw is at h)
  | inr a ↦ elim (Bool-cases (str_eq type "COMPACTION")) [
    | inl is ↦ registered (compaction env) (compaction-KeepsQueue env) (rw (a, is) at h)
    | inr b ↦ elim (Bool-cases (str_eq type "INDEX_BUILD")) [
      | inl is ↦ registered (index_build env) (index_build-KeepsQueue env) (rw (a, b, is) at h)
      | inr c ↦ elim (Bool-cases (str_eq type "INDEX_OPTIMIZE")) [
        | inl is ↦
            registered (index_optimize env) (index_optimize-KeepsQueue env) (rw (a, b, c, is) at h)
        | inr d ↦ elim (Bool-cases (str_eq type "VECTORIZE")) [
          | inl is ↦
              registered (vectorization env) (vectorization-KeepsQueue env)
                (rw (a, b, c, d, is) at h)
          | inr unknown ↦ unregistered (rw (a, b, c, d, unknown) at h)
        ]
      ]
    ]
  ]
]
  where
    unregistered : Path (Option Executor) none (some execute) → KeepsQueue execute
    unregistered e = absurd (cc)

    registered :
        (x : Executor)
        → KeepsQueue x
        → Path (Option Executor) (some x) (some execute)
        → KeepsQueue execute
    registered x keeps same = subst KeepsQueue (some-injective x execute same) keeps
