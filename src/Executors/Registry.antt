-- ===== src/Executors/Registry.antt =====
-- workers/executors/base.py: `build_default_registry`.
use lance_laker.Base.{String, Option, none, some, str_eq, if◌then◌else◌}
use lance_laker.Executors.{Executor, Environment}
use lance_laker.Executors.Indexing.{index_build, index_optimize}
use lance_laker.Executors.Retention.{ttl_delete, compaction}
use lance_laker.Executors.Vectorize.{vectorization}

-- `{task_type: executor}.get(task_type)`.
unfoldable pub default_registry : Environment → String → Option Executor
default_registry env task_type =
    if str_eq task_type "TTL_DELETE"
    then some (ttl_delete env)
    else if str_eq task_type "COMPACTION"
    then some (compaction env)
    else if str_eq task_type "INDEX_BUILD"
    then some (index_build env)
    else if str_eq task_type "INDEX_OPTIMIZE"
    then some (index_optimize env)
    else if str_eq task_type "VECTORIZE"
    then some (vectorization env)
    else none
