-- ===== src/TaskService/Keys.antt =====
-- services/task_service.py: how far `f"{tenant_id}:{idempotency_key}"` keeps the keys of two
-- tenants apart.
use Prim.Native.Char.{Char}
use text.Mathlib.TextLemmas.{
  nil-append, cons-append, append_assoc, head-eq_of_cons-eq, tail-eq_of_cons-eq,
}
use lance_laker.Base.{String, ◌++◌, ap₂, ◌≡◌, ◌≢◌, refl, sym, ap, ◌∙◌}
use lance_laker.TaskService.{scope_key}

abbrev colon : Char
colon = ":"

-- A text without a colon.
abbrev pub IsPlain : String → Type 0
IsPlain String.[] = Unit
IsPlain (String.◌∷◌ c s) = (c ≢ colon) × IsPlain s

colon-cons : (k : String) → ":" ++ k ≡ String.◌∷◌ colon k
colon-cons k = cons-append colon String.[] k ∙ ap (String.◌∷◌ colon) (nil-append k)

plain_split :
    (s t k j : String)
    → IsPlain s
    → IsPlain t
    → s ++ String.◌∷◌ colon k ≡ t ++ String.◌∷◌ colon j
    → (s ≡ t) × (k ≡ j)
plain_split String.[] String.[] k j hs ht e =
    (refl, tail-eq_of_cons-eq (sym (nil-append _) ∙ e ∙ nil-append _))
plain_split String.[] (String.◌∷◌ d t) k j hs ht e =
    absurd (ht.0 (sym (head-eq_of_cons-eq (sym (nil-append _) ∙ e ∙ cons-append d t _))))
plain_split (String.◌∷◌ c s) String.[] k j hs ht e =
    absurd (hs.0 (head-eq_of_cons-eq (sym (cons-append c s _) ∙ e ∙ nil-append _)))
plain_split (String.◌∷◌ c s) (String.◌∷◌ d t) k j hs ht e =
    let both : String.◌∷◌ c (s ++ String.◌∷◌ colon k) ≡ String.◌∷◌ d (t ++ String.◌∷◌ colon j) =
      sym (cons-append c s _) ∙ e ∙ cons-append d t _ in
    let (rest, keys) = plain_split s t k j hs.1 ht.1 (tail-eq_of_cons-eq both) in
    (ap₂ String.◌∷◌ (head-eq_of_cons-eq both) rest, keys)

-- Two tenants whose ids hold no colon have no scoped key in common: equal scoped keys come from
-- the same tenant and the same key.
pub scope_key_injective :
    (tenant tenant' key key' : String)
    → IsPlain tenant
    → IsPlain tenant'
    → scope_key tenant key ≡ scope_key tenant' key'
    → (tenant ≡ tenant') × (key ≡ key')
unfolding scope_key
scope_key_injective tenant tenant' key key' h h' e =
    plain_split tenant tenant' key key' h h'
      (ap (λ k. tenant ++ k) (sym (colon-cons key)) ∙ e ∙ ap (λ k. tenant' ++ k) (colon-cons key'))

-- With a colon in a tenant id they may have: the tenant `t:a` with the key `b`, and the tenant `t`
-- with the key `a:b`.
scope_key_collides :
    (t a b : String) → scope_key (t ++ (":" ++ a)) b ≡ scope_key t (a ++ (":" ++ b))
unfolding scope_key
scope_key_collides t a b =
    append_assoc t (":" ++ a) (":" ++ b) ∙ ap (λ k. t ++ k) (append_assoc ":" a (":" ++ b))
