-- ===== src/Worker/Building.antt =====
-- workers/lifecycle_worker_service.py and workers/executors/index_build.py: the build of an index, from
-- the task that services/index_service.py has submitted.
use lance_laker.Base.{◌≡◌, false, arith, str_eq}
use lance_laker.Json.{get_field, Json}
use lance_laker.Models.{Index}
use lance_laker.Indexes.{params_or_empty, build_fields}
use lance_laker.Executors.{done, Environment}
use lance_laker.Executors.Indexing.{BuildParams, read_build_params}

-- What `read_build_params` finds in the params of `create_index`.
abbrev pub build_params_of : Index → BuildParams
build_params_of x = record {
  index_name = x.index_name;
  column_name = x.column_name;
  index_type = x.index_type;
  index_params = params_or_empty x.params;
}

pub read_build_params-build_fields :
    (env : Environment) (x : Index)
    → str_eq x.index_name "" ≡ false
    → str_eq x.column_name "" ≡ false
    → str_eq x.index_type "" ≡ false
    → read_build_params env (build_fields x) ≡ done (build_params_of x)
unfolding read_build_params get_field
read_build_params-build_fields env x named column type = ground arith
