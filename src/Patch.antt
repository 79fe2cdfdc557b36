-- ===== src/Patch.antt =====
-- A field of a PATCH body under `model_dump(exclude_unset=True)`: left out, or given, perhaps as null.
use lance_laker.Base.{Option, some}

pub data Patch {ℓ} (A : Type ℓ) : Type ℓ where
  unset : Patch A
  given : Option A → Patch A

-- The column after `setattr`, where it may be NULL.
abbrev pub patched {ℓ} : {A : Type ℓ} → Patch A → Option A → Option A
patched unset old = old
patched (given new) old = new

-- The column after `setattr`, where it is NOT NULL: `none` is a value that the commit refuses.
abbrev pub patched_required {ℓ} : {A : Type ℓ} → Patch A → A → Option A
patched_required p old = patched p (some old)
