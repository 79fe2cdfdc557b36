-- ===== src/Base/Unique.antt =====
-- A column that is UNIQUE: no two rows have the same text in it.
use Prim.Native.String.{String}
use mathlib.Core.Path.{◌≡◌, refl, ap, subst, ◌∙◌}
use mathlib.Core.Logic.{inl, inr}
use mathlib.Core.Bool.{Bool, true, false}
use mathlib.Core.Option.{none, some}
use mathlib.Core.List.{List, [], ◌∷◌, Memᴰ}
use native.Mathlib.Omega.{arith}
use text.Mathlib.TextEquality.{eq_iff}
use lance_laker.Base.Tests.{str_eq, Bool-cases}
use lance_laker.Base.Rows.{All, find_by, put_by, update_by}

module _ {ℓ} {A : Type ℓ} where
  abbrev pub has_key : (A → String) → String → A → Bool
  has_key key k x = str_eq (key x) k

  abbrev pub IsUnique : (A → String) → List A → Type ℓ
  IsUnique key [] = Unit
  IsUnique key (x ∷ xs) = (find_by (has_key key (key x)) xs ≡ none) × IsUnique key xs

  no_key-Memᴰ :
      (key : A → String) (k : String) (xs : List A) (t : A)
      → find_by (has_key key k) xs ≡ none
      → Memᴰ t xs
      → str_eq (key t) k ≡ false
  unfolding find_by
  no_key-Memᴰ key k [] t h m = elim m [ ]
  no_key-Memᴰ key k (x ∷ xs) t h (Memᴰ.head e) = rw e (ground arith)
  no_key-Memᴰ key k (x ∷ xs) t h (Memᴰ.tail m) = no_key-Memᴰ key k xs t (ground arith) m

  -- A stored row is the one that its key finds.
  pub find_by_unique :
      (key : A → String) (xs : List A) (t : A)
      → IsUnique key xs
      → Memᴰ t xs
      → find_by (has_key key (key t)) xs ≡ some t
  unfolding find_by
  find_by_unique key [] t u m = elim m [ ]
  find_by_unique key (x ∷ xs) t u (Memᴰ.head e) = ground (arith, eq_iff (key x) (key t))
  find_by_unique key (x ∷ xs) t u (Memᴰ.tail m) = ground (
    arith,
    find_by_unique key xs t u.1 m,
    eq_iff (key x) (key t),
    eq_iff (key t) (key x),
    no_key-Memᴰ key (key x) xs t u.0 m,
  )

  no_key-put_by :
      (key : A → String) (k : String) (p : A → Bool) (v : A) (xs : List A) (t : A)
      → find_by p xs ≡ some t
      → key v ≡ key t
      → find_by (has_key key k) xs ≡ none
      → find_by (has_key key k) (put_by p v xs) ≡ none
  unfolding find_by put_by
  no_key-put_by key k p v [] t e same h = refl
  no_key-put_by key k p v (x ∷ xs) t e same h =
      ground
        (arith, no_key-put_by key k p v xs t, eq_iff (key v) k, eq_iff (key x) k, eq_iff (key t) k)

  head_found :
      (x : A) (p : A → Bool) (xs : List A) (t : A)
      → p x ≡ true
      → find_by p (x ∷ xs) ≡ some t
      → t ≡ x
  unfolding find_by
  head_found x p xs t hit e = ground arith

  pub put_by-IsUnique :
      (key : A → String) (p : A → Bool) (v : A) (xs : List A) (t : A)
      → find_by p xs ≡ some t
      → key v ≡ key t
      → IsUnique key xs
      → IsUnique key (put_by p v xs)
  unfolding find_by put_by
  put_by-IsUnique key p v [] t e same u = tt
  put_by-IsUnique key p v (x ∷ xs) t e same u = elim (Bool-cases (p x)) [
    | inl hit ↦ rw hit (rw (same ∙ ap key (head_found x p xs t hit e)) u.0, u.1)
    | inr miss ↦ rw miss (
      no_key-put_by key (key x) p v xs t (ground arith) same u.0,
      put_by-IsUnique key p v xs t (ground arith) same u.1,
    )
  ]

  no_key-update_by :
      (key : A → String) (k : String) (p : A → Bool) (f : A → A) (xs : List A)
      → ((x : A) → key (f x) ≡ key x)
      → find_by (has_key key k) xs ≡ none
      → find_by (has_key key k) (update_by p f xs) ≡ none
  unfolding find_by update_by
  no_key-update_by key k p f [] same h = refl
  no_key-update_by key k p f (x ∷ xs) same h =
      ground
        (arith, no_key-update_by key k p f xs same, same x, eq_iff (key x) k, eq_iff (key (f x)) k)

  pub update_by-IsUnique :
      (key : A → String) (p : A → Bool) (f : A → A) (xs : List A)
      → ((x : A) → key (f x) ≡ key x)
      → IsUnique key xs
      → IsUnique key (update_by p f xs)
  unfolding update_by
  update_by-IsUnique key p f [] same u = tt
  update_by-IsUnique key p f (x ∷ xs) same u = elim (Bool-cases (p x)) [
    | inl hit ↦ rw hit (
      rw (same x) (no_key-update_by key (key x) p f xs same u.0),
      update_by-IsUnique key p f xs same u.1,
    )
    | inr miss ↦
        rw miss
          (no_key-update_by key (key x) p f xs same u.0, update_by-IsUnique key p f xs same u.1)
  ]

  absent_head :
      (p : A → Bool) (x : A) (xs : List A)
      → find_by p (x ∷ xs) ≡ none
      → (p x ≡ false) × (find_by p xs ≡ none)
  unfolding find_by
  absent_head p x xs e = (ground arith, ground arith)

  pub absent-All {κ μ} :
      (P : A → Type κ) (Q : A → Type μ) (p : A → Bool) (xs : List A)
      → ((x : A) → p x ≡ false → P x → Q x)
      → find_by p xs ≡ none
      → All P xs
      → All Q xs
  absent-All P Q p [] others e h = tt
  absent-All P Q p (x ∷ xs) others e h =
      let (miss, rest) = absent_head p x xs e in
      (others x miss h.0, absent-All P Q p xs others rest h.1)

  -- Where a key is unique, writing back its row leaves every other row, and only those, as it was.
  pub put_by-All {κ μ} :
      (P : A → Type κ) (Q : A → Type μ) (key : A → String) (k : String) (v : A) (xs : List A)
      → IsUnique key xs
      → ((x : A) → str_eq (key x) k ≡ false → P x → Q x)
      → Q v
      → All P xs
      → All Q (put_by (has_key key k) v xs)
  unfolding put_by
  put_by-All P Q key k v [] u others qv h = tt
  put_by-All P Q key k v (x ∷ xs) u others qv h = elim (Bool-cases (str_eq (key x) k)) [
    | inl hit ↦ rw hit (qv, others_kept x xs hit u.0 h.1)
    | inr miss ↦ rw miss (others x miss h.0, put_by-All P Q key k v xs u.1 others qv h.1)
  ]
    where
      others_kept :
          (y : A) (ys : List A)
          → str_eq (key y) k ≡ true
          → find_by (has_key key (key y)) ys ≡ none
          → All P ys
          → All Q ys
      others_kept y ys hit e =
          absent-All P Q (has_key key k) ys others
            (subst (λ j. find_by (has_key key j) ys ≡ none) ((eq_iff (key y) k).0 hit) e)
