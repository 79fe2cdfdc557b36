-- ===== src/Base/Rows.antt =====
-- A table as the list of its rows: what a SELECT, an UPDATE and a COUNT with a WHERE do to it.
use Prim.Native.Nat.{ℕ, ◌+◌}
use mathlib.Core.Bool.{Bool}
use mathlib.Core.Option.{Option, none, some}
use mathlib.Core.List.{List, [], ◌∷◌}
use lance_laker.Base.Tests.{if◌then◌else◌}

-- A predicate that every row meets.
abbrev pub All {ℓ κ} : {A : Type ℓ} → (A → Type κ) → List A → Type κ
All P [] = Unit
All P (x ∷ xs) = P x × All P xs

abbrev pub bit : Bool → ℕ
bit b = if b then 1 else 0

module _ {ℓ} {A : Type ℓ} where
  -- `scalar_one_or_none()` of a SELECT whose WHERE names a unique column.
  unfoldable pub find_by : (A → Bool) → List A → Option A
  find_by p [] = none
  find_by p (x ∷ xs) = if p x then some x else find_by p xs

  -- The rows that a WHERE keeps, in their order.
  unfoldable pub select_by : (A → Bool) → List A → List A
  select_by p [] = []
  select_by p (x ∷ xs) = let rest = select_by p xs in if p x then x ∷ rest else rest

  -- `SELECT count(*)` with a WHERE.
  unfoldable pub count_by : (A → Bool) → List A → ℕ
  count_by p [] = 0
  count_by p (x ∷ xs) = bit (p x) + count_by p xs

  -- Writes back the first row that `p` finds.
  unfoldable pub put_by : (A → Bool) → A → List A → List A
  put_by p v [] = []
  put_by p v (x ∷ xs) = let rest = put_by p v xs in if p x then v ∷ xs else x ∷ rest

  -- An UPDATE with a WHERE.
  unfoldable pub update_by : (A → Bool) → (A → A) → List A → List A
  update_by p f [] = []
  update_by p f (x ∷ xs) = (if p x then f x else x) ∷ update_by p f xs
