-- ===== src/Outcome.antt =====
-- The exceptions that the services raise, as values, and what a call returns. Each error is one
-- exception class; its message is left out.
use lance_laker.Base.{Bool, true, false, ◌≡◌, ◌⊎◌, inl, inr, refl}

pub data Error : Type 0 where
  -- core/tenant.py: RuntimeError, NotSystemPrincipalError; db/rls.py: PermissionError
  no_principal not_system rls_denied : Error
  -- sqlalchemy.exc.IntegrityError, where a service lets it through
  integrity : Error
  -- scheduler_service.py
  worker_not_found lease_mismatch bad_transition : Error
  -- task_service.py
  task_not_found task_transition : Error
  -- dataset_service.py
  dataset_exists dataset_not_found : Error
  -- index_service.py
  index_not_found index_exists index_transition : Error
  -- lifecycle_service.py
  policy_not_found policy_exists : Error
  -- vectorization_service.py
  rule_not_found rule_exists rule_invalid rule_disabled : Error
  -- integrations/gravitino/client.py: GravitinoDisabledError, and an error of httpx
  gravitino_disabled gravitino_unreachable : Error

pub data Outcome {ℓ} (A : Type ℓ) : Type ℓ where
  ok : A → Outcome A
  err : Error → Outcome A

infixl 5 ◌>>=◌ ◌>>◌
abbrev pub ◌>>=◌ {ℓ κ} : {A : Type ℓ} {B : Type κ} → Outcome A → (A → Outcome B) → Outcome B
ok a >>= f = f a
err e >>= f = err e

abbrev pub ◌>>◌ {ℓ κ} : {A : Type ℓ} {B : Type κ} → Outcome A → Outcome B → Outcome B
m >> k = m >>= λ _. k

-- `if test: raise e`.
abbrev pub raise_if : Bool → Error → Outcome (Unit {0})
raise_if true e = err e
raise_if false e = ok tt

pub Outcome-split {ℓ} :
    {A : Type ℓ} (o : Outcome A) → ((a : A) × (o ≡ ok a)) ⊎ ((e : Error) × (o ≡ err e))
Outcome-split (ok a) = inl (a, refl)
Outcome-split (err e) = inr (e, refl)
