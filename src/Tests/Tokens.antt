-- ===== src/Tests/Tokens.antt =====
-- Witnesses on core/security.py.
use lance_laker.Base.{
  String, List, [], ◌∷◌, ◌+◌, ◌*◌, ◌<◌, ◌≡◌, refl, Bool, true, false, none, some, arith, str_eq,
  if◌then◌else◌,
}
use lance_laker.Json.{str, Fields, field, end}
use lance_laker.Security.{good, JwksCache, Refresh, Jwt, Denylist, AuthState, get_jwks}
use lance_laker.Security.Freshness.{get_jwks-young}

-- A key set that is fetched when there is none, and one that is not to be had.
abbrev signing : Fields
signing = field "kid" (str "k1") end

abbrev first_call : Refresh
first_call = record {
  started = 100;
  locked = 101;
  ended = 105;
  meanwhile = λ cache. cache;
  fetch = some (signing ∷ []);
}

abbrev outage : Refresh
outage = record {
  started = 150;
  locked = 151;
  ended = 155;
  meanwhile = λ cache. cache;
  fetch = none;
}

abbrev fetched_keys : JwksCache
fetched_keys = record { keys_by_kid = ("k1", signing) ∷ []; fetched_at = 105 }

-- With a time to live of 30, the keys of 105 have expired at 150 and still serve.
stale_keys : get_jwks 30 false outage (some fetched_keys) ≡ (good fetched_keys, some fetched_keys)
unfolding get_jwks
stale_keys = refl

get_jwks-young_example : 150 < 105 + 2 * 30
get_jwks-young_example =
    get_jwks-young 30 false outage (some fetched_keys) (some fetched_keys) fetched_keys
      (omega arith) (omega arith) (omega arith) stale_keys

abbrev listed : String → List String → Bool
listed jti [] = false
listed jti (x ∷ xs) = if str_eq x jti then true else listed jti xs

-- A denylist in memory.
abbrev seen_ids : Denylist
seen_ids = record {
  Store = List String;
  is_denied = λ store jti. listed jti store;
  deny = λ store jti _. jti ∷ store;
}

abbrev claims : Fields
claims = field "sub" (str "ann") (field "jti" (str "id-1") end)

abbrev library : Jwt
library = record {
  Key = Unit {0};
  header = λ _. some (field "alg" (str "RS256") (field "kid" (str "k1") end));
  load_key = λ _. some tt;
  decode = λ _ _. some claims;
  is_allowed = λ _. true;
  expiry_of = λ _. 0;
}

abbrev nothing_kept : AuthState seen_ids
nothing_kept = record { cache = none; store = [] }

abbrev one_kept : AuthState seen_ids
one_kept = record { cache = some fetched_keys; store = "id-1" ∷ [] }
