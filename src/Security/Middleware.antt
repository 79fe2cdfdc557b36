-- ===== src/Security/Middleware.antt =====
-- core/security.py and api/rest/auth.py: the tenant of a token, and the middleware that binds it.
use lance_laker.Base.{ℕ, String, Bool, false, not, ◌||◌, Option, none, some, if◌then◌else◌}
use lance_laker.Json.{Fields}
use lance_laker.Tenant.{TenantPrincipal, oidc}
use lance_laker.Security.{
  AuthenticationError, no_tenant, Checked, good, bad, Refresh, Jwt, Denylist, text_claim, AuthState,
  validate_oidc_jwt,
}

abbrev pub or_else : Option String → Option String → Option String
or_else none other = other
or_else (some text) other = some text

unfoldable pub extract_tenant_from_claims : Fields → Checked String
extract_tenant_from_claims claims =
    elim (or_else (text_claim "tenant_id" claims)
      (or_else (text_claim "https://lance.dev/tenant" claims) (text_claim "org" claims))) [
        | some tenant ↦ good tenant
        | none ↦ bad no_tenant
      ]

-- What the middleware does with a request: it hands it on, with or without a principal, or answers
-- with status 401.
pub data Access : Type 0 where
  anonymous : Access
  bound : TenantPrincipal → Access
  missing_token : Access
  refused : AuthenticationError → Access

-- A request as the middleware reads it: whether it is HTTP, whether its path is public, and its
-- Bearer token.
pub record Request : Type 0 where
  pub is_http : Bool
  pub is_public : Bool
  pub token : Option String

-- `text_of` is `str(claims.get("sub", ""))`.
unfoldable pub authenticate :
    (l : Denylist)
    → Jwt
    → (Fields → String)
    → ℕ
    → Refresh
    → Refresh
    → Request
    → AuthState l
    → Access × AuthState l
unfolding validate_oidc_jwt
authenticate l jwt text_of ttl first second q s =
    if not q.is_http || q.is_public then (anonymous, s) else (elim q.token [
      | none ↦ (missing_token, s)
      | some token ↦
          let (checked, s') = validate_oidc_jwt l jwt ttl first second token s in
          elim checked [
            | bad e ↦ (refused e, s')
            | good claims ↦ elim (extract_tenant_from_claims claims) [
              | bad e ↦ (refused e, s')
              | good tenant ↦ (
                bound (record {
                  tenant_id = tenant;
                  subject = text_of claims;
                  auth_method = oidc;
                  is_system = false;
                }),
                s',
              )
            ]
          ]
    ])
