-- ===== src/LanceIo/Calls.antt =====
-- data_plane/lance_io.py: how its calls follow one another.
use lance_laker.Base.{
  String, ◌≡◌, ◌⊎◌, inl, inr, refl, ap, Bool, true, false, Option, if◌then◌else◌,
}
use lance_laker.Json.{Fields}
use lance_laker.Executors.{Executed, done, raised}
use lance_laker.LanceIo.{StorageSettings, Lance, Io, continue, reading, open_dataset}

pub continue-reading :
    {W A B : Type 0} (x : Executed A × W) (f : A → Executed B)
    → (continue x (λ a. reading (f a))).1 ≡ x.1
continue-reading (done a, w) f = refl
continue-reading (raised code message, w) f = refl

pub if_true : {A : Type 0} (b : Bool) (x y : A) → b ≡ true → (if b then x else y) ≡ x
if_true true x y h = refl
if_true false x y h = absurd (cc)

pub if_false : {A : Type 0} (b : Bool) (x y : A) → b ≡ false → (if b then x else y) ≡ y
if_false false x y h = refl
if_false true x y h = absurd (cc)

-- A call of two parts that returns: both have.
pub continue-done :
    {W A B : Type 0} (x : Executed A × W) (f : A → Io W B) (b : B) (w' : W)
    → continue x f ≡ (done b, w')
    → (a : A) × (w : W) × (x ≡ (done a, w)) × (f a w ≡ (done b, w'))
continue-done (done a, w) f b w' h = (a, w, refl, h)
continue-done (raised code message, w) f b w' h = absurd (cc)

-- A call of two parts: the first raises, or it returns.
pub continue-split :
    {W A B : Type 0} (x : Executed A × W) (f : A → Io W B)
    → ((continue x f).1 ≡ x.1) ⊎ ((a : A) × (w : W) × (x ≡ (done a, w)))
continue-split (done a, w) f = inr (a, w, refl)
continue-split (raised code message, w) f = inl refl

pub done-injective : {A : Type 0} (a b : A) → done a ≡ done b → a ≡ b
done-injective a b h = cc

module _ {W D T : Type 0} (cfg : StorageSettings) (lance : Lance W D T) where
  open_dataset-if :
      (uri : String) (opts : Option Fields) (w : W) (b : Bool)
      → lance.is_installed ≡ b
      → (x : Executed D) × (open_dataset cfg lance uri opts w ≡ (x, w))
  unfolding open_dataset
  open_dataset-if uri opts w true h = (_, if_true lance.is_installed _ _ h)
  open_dataset-if uri opts w false h = (_, if_false lance.is_installed _ _ h)

  -- Opening changes nothing.
  pub open_dataset-reads :
      (uri : String) (opts : Option Fields) (w : W) → (open_dataset cfg lance uri opts w).1 ≡ w
  open_dataset-reads uri opts w =
      let (x, e) = open_dataset-if uri opts w lance.is_installed refl in
      ap {A = Executed D × W} (λ s. s.1) e
