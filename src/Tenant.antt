-- ===== src/Tenant.antt =====
-- core/tenant.py: the principal bound to the current task, and the guards on it. The `ContextVar`
-- is explicit: `Ctx` is what the code reads of its surroundings, the bound principal and the
-- setting `enforce_tenant_rls` of core/config.py.
use lance_laker.Base.{String, Bool, true, false, Option, none, some}
use lance_laker.Outcome.{Outcome, ok, err, no_principal, not_system}

pub data AuthMethod : Type 0 where
  oidc mtls system : AuthMethod

pub record TenantPrincipal : Type 0 where
  pub tenant_id : String
  pub subject : String
  pub auth_method : AuthMethod
  pub is_system : Bool

pub record Ctx : Type 0 where
  pub principal : Option TenantPrincipal
  pub enforce_tenant_rls : Bool

abbrev pub system_tenant_id : String
system_tenant_id = "__system__"

abbrev pub system_principal : String → TenantPrincipal
system_principal subject = record {
  tenant_id = system_tenant_id;
  subject = subject;
  auth_method = system;
  is_system = true;
}

-- Binds a principal and gives the token, which holds the binding before.
abbrev pub set_current_tenant : TenantPrincipal → Ctx → Option TenantPrincipal × Ctx
set_current_tenant p c = (c.principal, record c { principal = some p })

abbrev pub reset_current_tenant : Option TenantPrincipal → Ctx → Ctx
reset_current_tenant token c = record c { principal = token }

-- What a body sees under `with with_system_context(subject)`; the binding ends with the body.
unfoldable pub with_system_context {ℓ} : {A : Type ℓ} → String → (Ctx → A) → Ctx → A
with_system_context subject body c = body (set_current_tenant (system_principal subject) c).1

-- `require_current_tenant` raises a RuntimeError where no principal is bound.
abbrev pub require_current_tenant : Ctx → Outcome TenantPrincipal
require_current_tenant c = elim c.principal [ none ↦ err no_principal | some p ↦ ok p ]

-- `principal is not None and principal.is_system`.
abbrev pub is_system_ctx : Ctx → Bool
is_system_ctx c = elim c.principal [ none ↦ false | some p ↦ p.is_system ]

abbrev pub require_system_context : Ctx → Outcome (Unit {0})
require_system_context c = elim (is_system_ctx c) [ true ↦ ok tt | false ↦ err not_system ]
