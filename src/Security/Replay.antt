-- ===== src/Security/Replay.antt =====
-- core/security.py: a token that carries an id is accepted once.
use lance_laker.Base.{ℕ, String, ◌≡◌, true, some}
use lance_laker.Json.{Fields}
use lance_laker.Security.{Jwt, Denylist}

-- The store remembers what it was told, and the claims of a token do not depend on the key that its
-- signature is checked with.
pub record Remembers (l : Denylist) (jwt : Jwt) : Type 0 where
  pub remembered :
      (store : l.Store) (jti : String) (expiry : ℕ)
      → l.is_denied (l.deny store jti expiry) jti ≡ true
  pub one_payload :
      (token : String) (k j : jwt.Key) (a b : Fields)
      → jwt.decode token k ≡ some a
      → jwt.decode token j ≡ some b
      → a ≡ b
