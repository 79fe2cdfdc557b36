-- ===== src/Security/Freshness.antt =====
-- core/security.py: how old the keys are that a token is checked with.
use lance_laker.Base.{
  ℕ, ◌+◌, ◌*◌, ◌≤◌, ◌<◌, ◌≡◌, ap, subst, inl, inr, Bool, true, false, Option, none, some, arith,
  Option-cases, Bool-cases,
}
use lance_laker.Security.{
  good, JwksCache, Refresh, is_younger, usable, refresh_keys, build_cache, get_jwks,
}

usable-is_younger :
    (force : Bool) (ttl now : ℕ) (cache : Option JwksCache) (keys : JwksCache)
    → usable force ttl now cache ≡ some keys
    → now < keys.fetched_at + ttl
usable-is_younger force ttl now none keys h = absurd (cc)
usable-is_younger true ttl now (some cache) keys h = absurd (cc)
usable-is_younger false ttl now (some cache) keys h = elim (Bool-cases (is_younger ttl now cache)) [
  | inl young ↦ let same : cache ≡ keys = ground arith in ground arith
  | inr old ↦ absurd (ground arith)
]

refresh_keys-young :
    (ttl : ℕ) (at : Refresh) (cache cache' : Option JwksCache) (keys : JwksCache)
    → 0 < ttl
    → refresh_keys ttl at cache ≡ (good keys, cache')
    → at.ended < keys.fetched_at + 2 * ttl
refresh_keys-young ttl at cache cache' keys pos h = elim (Option-cases at.fetch) [
  | inr (fetched, got) ↦
      let same : build_cache at.ended fetched ≡ keys = ground arith in
      let now : at.ended ≡ keys.fetched_at = ap (λ k. k.fetched_at) same in omega (arith, now, pos)
  | inl failed ↦ elim (Option-cases (usable false (2 * ttl) at.ended cache)) [
    | inl gone ↦ absurd (ground arith)
    | inr (stale, kept) ↦
        let same : stale ≡ keys = ground arith in
        let young = usable-is_younger false (2 * ttl) at.ended cache stale kept in
        subst (λ k. at.ended < k.fetched_at + 2 * ttl) same young
  ]
]

-- With a positive time to live, and a clock that does not go back during the call, the keys that
-- `_get_jwks` returns were fetched less than twice the time to live before the call began, whatever
-- the identity provider answers and other coroutines store meanwhile.
pub get_jwks-young :
    (ttl : ℕ) (force : Bool) (at : Refresh) (cache cache' : Option JwksCache) (keys : JwksCache)
    → 0 < ttl
    → at.started ≤ at.locked
    → at.locked ≤ at.ended
    → get_jwks ttl force at cache ≡ (good keys, cache')
    → at.started < keys.fetched_at + 2 * ttl
unfolding get_jwks
get_jwks-young ttl force at cache cache' keys pos first second h =
    elim (Option-cases (usable force ttl at.started cache)) [
      | inr (fresh, hit) ↦
          let same : fresh ≡ keys = ground arith in
          let young = usable-is_younger force ttl at.started cache fresh hit in
          subst (λ k. at.started < k.fetched_at + 2 * ttl) same (omega (arith, young))
      | inl expired ↦ elim (Option-cases (usable force ttl at.locked (at.meanwhile cache))) [
        | inr (fresh, hit) ↦
            let same : fresh ≡ keys = ground arith in
            let young = usable-is_younger force ttl at.locked (at.meanwhile cache) fresh hit in
            subst (λ k. at.started < k.fetched_at + 2 * ttl) same (omega (arith, young, first))
        | inl expired' ↦
            let young =
              refresh_keys-young ttl at (at.meanwhile cache) cache' keys pos (ground arith) in
            omega (arith, young, first, second)
      ]
    ]
