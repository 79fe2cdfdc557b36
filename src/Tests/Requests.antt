-- ===== src/Tests/Requests.antt =====
-- Witnesses on the listener of db/rls.py and on submission.
use lance_laker.Base.{inl, inr, String, ◌≡◌, refl, true, none, [], ◌∷◌}
use lance_laker.Outcome.{ok, err, rls_denied}
use lance_laker.Tenant.{Ctx}
use lance_laker.Rls.{is_protected, Statement, leaf, join, select, before_execute}
use lance_laker.Rls.Confinement.{IsConfined, before_execute-isolates, before_execute-fails_closed}
use lance_laker.Models.{Task, Db}
use lance_laker.TaskService.{new_task}
use lance_laker.TaskService.Keys.{IsPlain, scope_key_injective}
use lance_laker.Tests.Fixtures.{request, ann, site, nightly}

-- Policies joined with their datasets.
abbrev joined : Statement
joined = select (join (leaf 0 "lifecycle_policy" true) (leaf 1 "dataset" true) ∷ []) []

before_execute-isolates_example :
    (stmt : Statement) × (before_execute request joined ≡ ok stmt) × IsConfined joined stmt "acme"
before_execute-isolates_example = before_execute-isolates request ann joined refl refl refl

dataset_protected : is_protected "dataset" ≡ true
unfolding is_protected
dataset_protected = refl

abbrev nobody : Ctx
nobody = record { principal = none; enforce_tenant_rls = true }

before_execute-fails_closed_example : before_execute nobody joined ≡ err rls_denied
before_execute-fails_closed_example =
    before_execute-fails_closed nobody joined 1 "dataset" refl refl (inl (inr (refl, refl, refl)))
      dataset_protected

abbrev empty : Db
empty = record site { tasks = [] }

abbrev nightly_task : Task
nightly_task = new_task ann nightly "t-n" 500

acme-IsPlain : IsPlain "acme"
acme-IsPlain = ((λ e. cc), ((λ e. cc), ((λ e. cc), ((λ e. cc), tt))))

scope_key_injective_example :
    (◌≡◌ {A = String} "acme" "acme") × (◌≡◌ {A = String} "nightly" "nightly")
scope_key_injective_example =
    scope_key_injective "acme" "acme" "nightly" "nightly" acme-IsPlain acme-IsPlain refl
