-- ===== src/Lib.antt =====
-- The control plane of Lance datasets in src/lcp: a multi-tenant service that keeps rows on
-- datasets, tasks, indexes, policies, rules and workers in one database, and hands tasks to
-- workers.
--
-- The program's parts and how they interact:
-- - src/lcp/core/tenant.py binds a principal to the running call; src/lcp/db/rls.py listens to every
--   statement and confines it to the principal's tenant. All services below rely on the two.
-- - src/lcp/services/task_service.py stores tasks, cancels and retries them;
--   src/lcp/services/scheduler_service.py registers workers, hands them tasks under a lease,
--   records how a task ended, and takes the tasks of silent workers back.
-- - src/lcp/services/dataset_service.py keeps the datasets, and is the guard through which
--   src/lcp/services/index_service.py reaches its indexes; the latter submits tasks.
-- - src/lcp/services/lifecycle_service.py and src/lcp/services/vectorization_service.py keep the policies and
--   the rules of a dataset behind the same guard; the latter submits tasks too.
-- - src/lcp/services/index_watcher_service.py polls the indexes and emits the tasks that optimize them;
--   src/lcp/services/lifecycle_planner_service.py emits the tasks that policies and rules ask for.
-- - src/lcp/services/meta_sync_service.py makes datasets of the filesets of Gravitino.
-- - src/lcp/core/security.py validates the token of a request, and src/lcp/api/rest/auth.py binds its
--   principal.
-- - src/lcp/workers/lifecycle_worker_service.py claims a task from the scheduler, runs the executor of its
--   type (src/lcp/workers/executors), and reports to the scheduler how it ended;
--   src/lcp/workers/lifecycle_worker.py is the process that registers, repeats this, and lets a
--   heartbeat and the planner run beside it.
-- - src/lcp/data_plane/lance_io.py makes every call of lance; src/lcp/services/search_service.py searches a
--   dataset through it, and src/lcp/workers/executors/embedding.py writes the vectors of a rule
--   through it, of a model or of src/lcp/embeddings/mock_model.py.
--
-- The files:
-- - Base: shared names, tests on values, and tables as lists of rows (Base.Rows, with its laws in
--   Base.RowLaws and those of UNIQUE columns in Base.Unique).
-- - Outcome: exceptions as values. Json: the JSON columns. Format: how Python writes a value as text.
-- - Tenant: src/lcp/core/tenant.py. A `Ctx` is the bound principal and the setting
--   `enforce_tenant_rls`.
-- - Rls: src/lcp/db/rls.py, function by function. `Rls.Isolation` gives statements a meaning on rows;
--   `Rls.Confinement` states what the listener achieves.
-- - Models: src/lcp/db/models.py. A `Db` is the contents of the six tables.
-- - Session: a service's SELECT and UPDATE on a table as they pass the listener. Paging: listings.
-- - Scheduler: src/lcp/services/scheduler_service.py, in Scheduler.Workers and Scheduler.Dispatch;
--   Scheduler.Claim is about `claim_next_task`, Scheduler.Leases about leases.
-- - TaskService: src/lcp/services/task_service.py; TaskService.Keys and TaskService.Idempotency are
--   about its idempotency keys, TaskService.Listing about the listings.
-- - Datasets: src/lcp/services/dataset_service.py. Indexes: src/lcp/services/index_service.py;
--   Indexes.Isolation is about its guard, Indexes.Submitting, Indexes.Pairing and Indexes.Merging
--   about the tasks that it submits.
-- - Watcher: src/lcp/services/index_watcher_service.py: its trigger in Watcher and Watcher.Trigger, the
--   pass in Watcher.Candidates, Watcher.Passes and Watcher.Report.
-- - Patch: a field of a PATCH body. Policies: src/lcp/services/lifecycle_service.py; Policies.Isolation is
--   about its guard, Policies.Roundtrip about reading back. Rules:
--   src/lcp/services/vectorization_service.py; Rules.Isolation is about its guard, Rules.Runnable and
--   Rules.Steps about schedules, Rules.Vectorizing about `vectorize-now`.
-- - Due: what the planner finds due, with its keys. Planner: the emission and the tick;
--   Planner.Emission is about one key, Planner.Growth and Planner.Again about a second pass.
-- - MetaSync: src/lcp/services/meta_sync_service.py; MetaSync.Steps is about one fileset,
--   MetaSync.Converging about a second pass, MetaSync.Tenancy about other tenants' rows;
--   MetaSync.WriteBack writes statistics back.
-- - Mapping: src/lcp/integrations/gravitino/mapping.py.
-- - Security: src/lcp/core/security.py, and src/lcp/api/rest/auth.py in Security.Middleware;
--   Security.Freshness is about the age of the keys, Security.Replay about a token that comes again.
-- - Executors: src/lcp/workers/executors, in Executors.Indexing (index_build.py, index_optimize.py) and
--   Executors.Retention (ttl_delete.py, compaction.py) and Executors.Vectorize (vectorize.py);
--   Executors.Registry is the default registry, Executors.Effects what no executor writes,
--   Executors.Batches and Executors.Answers are about the batches of texts.
-- - LanceIo: src/lcp/data_plane/lance_io.py, with the statistics of an index in LanceIo.Stats;
--   LanceIo.Search adds src/lcp/services/search_service.py. LanceIo.Calls is about calls in sequence,
--   LanceIo.Counting about counts, LanceIo.Quiet about the watcher after an optimization,
--   LanceIo.Searching about a tenant's search.
-- - MockModel: src/lcp/embeddings/mock_model.py; MockModel.Sizes is about its loop.
-- - Embedding: src/lcp/workers/executors/embedding.py, its index in Embedding.AutoIndex and its run in
--   Embedding.Execute; Embedding.Guards is about its guards, Embedding.Vectors about a batch,
--   Embedding.Indexing about the index that it asks for.
-- - Worker: src/lcp/workers/lifecycle_worker_service.py; Worker.Finalizing is about the end of a task,
--   Worker.Iteration and Worker.Sound about an iteration, Worker.Building about the build of an
--   index. Worker.Daemon: src/lcp/workers/lifecycle_worker.py; Worker.Looping is about its end,
--   Worker.Idleness about the tasks that it leaves.
-- - Accounting: an invariant of tasks and workers, and every operation on it. History: sequences of
--   calls, the state machine of a task, and what follows for any sequence.
-- - Tests: concrete states and inputs.
--
-- How the code is read. A call is one transaction on `Db`: its result is `ok` with the new state, or
-- `err` with the exception, and the state is then rolled back; index_service commits before it
-- raises, so its calls return a state in both cases. Times, new uuids and ids are arguments. What
-- other transactions commit inside a call is an argument (`meanwhile`) of the two calls that answer
-- for such a race, `submit_task` and `register_worker`. `FOR UPDATE SKIP LOCKED` is the set of rows
-- locked elsewhere, and `ORDER BY ... LIMIT 1` any choice that the order allows (`Engine`). Counts
-- are natural numbers, unbounded as Python's are; `in_flight - 1` is taken only above 0. The one
-- recursion that is not on data, the retry of `register_worker`, has the code's own bound of two.
-- A WHERE on a unique column finds at most one row; UNIQUE is checked by each INSERT.
--
-- The worker's iteration, which commits its claim before the executor runs, returns a state with what
-- it returns or raises, too. What lance, Gravitino and the embedding service do is a parameter
-- (`Environment`, `Embedder`), and may fail at every call. The executors of the registry take the
-- functions of lance_io.py from `Environment`; LanceIo gives these functions themselves, over a
-- record of lance's own calls (`Lance`) and a state of lance's. A planner's tick that loses a race
-- goes on from the state that its rollback shows, and reads its policy again.
--
-- The worker's process is a function of its turns: what commits before an iteration, and whether the
-- shutdown event is set by then. Its fuel is a number of turns, and one more than the iterations
-- allowed is enough. The loop of the mock model, which adds 32 bytes at a time, has a byte's fuel for
-- each byte that it needs; the batches of texts have a fuel of one for each text.
--
-- Not modelled: the tenants of SPIFFE ids and certificates; signals, log lines and metrics; the
-- HTTP calls of the embedding clients and sentence-transformers; the gRPC layer, the routers, the
-- command lines and settings (glue and I/O); lance and pyarrow, which are libraries.
pub mod Base
pub mod Outcome
pub mod Tenant
pub mod Rls
pub mod Json
pub mod MockModel
pub mod Embedding
pub mod LanceIo
pub mod Models
pub mod Session
pub mod Paging
pub mod Scheduler
pub mod TaskService
pub mod Format
pub mod Datasets
pub mod Indexes
pub mod Watcher
pub mod Patch
pub mod Policies
pub mod Rules
pub mod MetaSync
pub mod Security
pub mod Mapping
pub mod Due
pub mod Planner
pub mod Executors
pub mod Worker
pub mod Accounting
pub mod History
mod Tests
