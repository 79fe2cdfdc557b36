-- ===== src/Security.antt =====
-- core/security.py: the signing keys of the identity provider, and the validation of a token. What the
-- JWT library does with a token is a parameter (`Jwt`), and so is the store of used token ids
-- (`Denylist`).
pub mod Freshness
pub mod Replay
pub mod Middleware
use lance_laker.Base.{
  ℕ, String, ◌+◌, ◌*◌, Bool, true, false, not, ◌&&◌, Option, none, some, List, [], ◌∷◌, ltb, str_eq,
  if◌then◌else◌,
}
use lance_laker.Json.{Json, str, Fields, get_field}

-- The causes of an AuthenticationError.
pub data AuthenticationError : Type 0 where
  malformed_header bad_algorithm no_kid unknown_key bad_key invalid_token replayed :
      AuthenticationError
  keys_unavailable no_tenant : AuthenticationError

pub data Checked {ℓ} (A : Type ℓ) : Type ℓ where
  good : A → Checked A
  bad : AuthenticationError → Checked A

-- `keys_by_kid`, the last entry of a kid first, and the time of the fetch.
pub record JwksCache : Type 0 where
  pub keys_by_kid : List (String × Fields)
  pub fetched_at : ℕ

abbrev pub kid_of : Fields → Option String
kid_of key = elim (get_field "kid" key) [ some (str kid) ↦ some kid | _ ↦ none ]

unfoldable pub index_keys : List Fields → List (String × Fields) → List (String × Fields)
index_keys [] indexed = indexed
index_keys (key ∷ keys) indexed = elim (kid_of key) [
  | none ↦ index_keys keys indexed
  | some kid ↦ index_keys keys ((kid, key) ∷ indexed)
]

abbrev pub build_cache : ℕ → List Fields → JwksCache
build_cache now keys = record { keys_by_kid = index_keys keys []; fetched_at = now }

-- What a call of `_get_jwks` meets: the monotonic clock when it starts, when it holds the lock and when
-- the fetch has ended; the cache that other coroutines have left when it gets the lock; and what the
-- fetch returns, none where it raises HTTPError or AuthenticationError.
pub record Refresh : Type 0 where
  pub started : ℕ
  pub locked : ℕ
  pub ended : ℕ
  pub meanwhile : Option JwksCache → Option JwksCache
  pub fetch : Option (List Fields)

-- `now - fetched_at < ttl`, of which no difference is negative.
abbrev pub is_younger : ℕ → ℕ → JwksCache → Bool
is_younger ttl now cache = ltb now (cache.fetched_at + ttl)

abbrev pub usable : Bool → ℕ → ℕ → Option JwksCache → Option JwksCache
usable force ttl now none = none
usable force ttl now (some cache) =
    if not force && is_younger ttl now cache then some cache else none

-- The fetch under the lock; where it fails, the cache serves up to twice its time.
abbrev pub refresh_keys : ℕ → Refresh → Option JwksCache → Checked JwksCache × Option JwksCache
refresh_keys ttl at cache = elim at.fetch [
  | some keys ↦ (good (build_cache at.ended keys), some (build_cache at.ended keys))
  | none ↦ elim (usable false (2 * ttl) at.ended cache) [
    | some stale ↦ (good stale, cache)
    | none ↦ (bad keys_unavailable, cache)
  ]
]

unfoldable pub get_jwks :
    ℕ → Bool → Refresh → Option JwksCache → Checked JwksCache × Option JwksCache
get_jwks ttl force at cache = elim (usable force ttl at.started cache) [
  | some fresh ↦ (good fresh, cache)
  | none ↦
      let shared = at.meanwhile cache in
      elim (usable force ttl at.locked shared) [
        | some fresh ↦ (good fresh, shared)
        | none ↦ refresh_keys ttl at shared
      ]
]

unfoldable pub find_key : String → List (String × Fields) → Option Fields
find_key kid [] = none
find_key kid ((k, key) ∷ rest) = if str_eq k kid then some key else find_key kid rest

-- The JWT library: the header of a token, the key of a JWK, and the checked claims of a token (its
-- signature, algorithm, issuer, audience, times and required claims); none where it raises.
pub record Jwt : Type 1 where
  pub Key : Type 0
  pub header : String → Option Fields
  pub load_key : Fields → Option Key
  pub decode : String → Key → Option Fields
  pub is_allowed : Option Json → Bool
  pub expiry_of : Option Json → ℕ

-- `JtiDenylist`, with the store that it keeps.
pub record Denylist : Type 1 where
  pub Store : Type 0
  pub is_denied : Store → String → Bool
  pub deny : Store → String → ℕ → Store

-- A claim that is a text and not empty.
unfoldable pub text_claim : String → Fields → Option String
text_claim key claims = elim (get_field key claims) [
  | some (str text) ↦ (if str_eq text "" then none else some text)
  | _ ↦ none
]

-- The replay check and the record of the token's id.
unfoldable pub check_jti : (l : Denylist) → Jwt → Fields → l.Store → Checked Fields × l.Store
check_jti l jwt claims store = elim (text_claim "jti" claims) [
  | none ↦ (good claims, store)
  | some jti ↦
      if l.is_denied store jti
      then (bad replayed, store)
      else (good claims, l.deny store jti (jwt.expiry_of (get_field "exp" claims)))
]

-- The claims of a token under a key of the cache, before the replay check.
abbrev pub decode_with : Jwt → String → Fields → Checked Fields
decode_with jwt token jwk = elim (jwt.load_key jwk) [
  | none ↦ bad bad_key
  | some key ↦ elim (jwt.decode token key) [ none ↦ bad invalid_token | some claims ↦ good claims ]
]

-- The key of a kid, after at most one forced refresh.
unfoldable pub signing_key :
    ℕ → Refresh → Refresh → String → Option JwksCache → Checked Fields × Option JwksCache
unfolding get_jwks
signing_key ttl first second kid cache =
    let (got, cache1) = get_jwks ttl false first cache in
    elim got [
      | bad e ↦ (bad e, cache1)
      | good keys ↦ elim (find_key kid keys.keys_by_kid) [
        | some jwk ↦ (good jwk, cache1)
        | none ↦
            let (again, cache2) = get_jwks ttl true second cache1 in
            elim again [
              | bad e ↦ (bad e, cache2)
              | good keys' ↦ elim (find_key kid keys'.keys_by_kid) [
                | some jwk ↦ (good jwk, cache2)
                | none ↦ (bad unknown_key, cache2)
              ]
            ]
      ]
    ]

-- `alg` and `kid` of the header.
unfoldable pub checked_kid : Jwt → String → Checked String
checked_kid jwt token = elim (jwt.header token) [
  | none ↦ bad malformed_header
  | some header ↦
      if not (jwt.is_allowed (get_field "alg" header))
      then bad bad_algorithm
      else (elim (text_claim "kid" header) [ none ↦ bad no_kid | some kid ↦ good kid ])
]

-- What the process keeps: the cached keys and the store of token ids.
pub record AuthState (l : Denylist) : Type 0 where
  pub cache : Option JwksCache
  pub store : l.Store

unfoldable pub validate_oidc_jwt :
    (l : Denylist)
    → Jwt
    → ℕ
    → Refresh
    → Refresh
    → String
    → AuthState l
    → Checked Fields × AuthState l
unfolding checked_kid signing_key check_jti
validate_oidc_jwt l jwt ttl first second token s = elim (checked_kid jwt token) [
  | bad e ↦ (bad e, s)
  | good kid ↦
      let (jwk, cache) = signing_key ttl first second kid s.cache in
      elim jwk [
        | bad e ↦ (bad e, record { cache = cache; store = s.store })
        | good key ↦ elim (decode_with jwt token key) [
          | bad e ↦ (bad e, record { cache = cache; store = s.store })
          | good claims ↦
              let (checked, store) = check_jti l jwt claims s.store in
              (checked, record { cache = cache; store = store })
        ]
      ]
]
