-- ===== src/Base/RowLaws.antt =====
-- How finding, counting and writing rows act on one another.
use Prim.Native.Nat.{◌+◌}
use mathlib.Core.Path.{◌≡◌, refl, sym, subst}
use mathlib.Core.Logic.{◌≢◌, ◌⊎◌, inl, inr}
use mathlib.Core.Bool.{Bool, true, false, not}
use mathlib.Core.Option.{none, some}
use mathlib.Core.List.{List, [], ◌∷◌, Memᴰ}
use native.Mathlib.Omega.{arith}
use lance_laker.Base.Tests.{Bool-cases, Option-cases, if◌then◌else◌}
use lance_laker.Base.Rows.{All, bit, find_by, select_by, count_by, put_by, update_by}

module _ {ℓ} {A : Type ℓ} where
  pub find_by_holds : (p : A → Bool) (xs : List A) (t : A) → find_by p xs ≡ some t → p t ≡ true
  unfolding find_by
  find_by_holds p [] t h = cc
  find_by_holds p (x ∷ xs) t h = ground (arith, find_by_holds p xs t)

  pub put_by_absent :
      (p : A → Bool) (v : A) (xs : List A) → find_by p xs ≡ none → put_by p v xs ≡ xs
  unfolding find_by put_by
  put_by_absent p v [] h = refl
  put_by_absent p v (x ∷ xs) h = ground (arith, put_by_absent p v xs)

  pub find_by-put_by :
      (p : A → Bool) (v : A) (xs : List A) (t : A)
      → find_by p xs ≡ some t
      → p v ≡ true
      → find_by p (put_by p v xs) ≡ some v
  unfolding find_by put_by
  find_by-put_by p v [] t h hv = cc
  find_by-put_by p v (x ∷ xs) t h hv = ground (arith, find_by-put_by p v xs t)

  -- A row that another WHERE does not see, before and after, does not change what it finds.
  pub find_by-put_by_other :
      (q p : A → Bool) (v : A) (xs : List A) (t : A)
      → find_by p xs ≡ some t
      → q t ≡ false
      → q v ≡ false
      → find_by q (put_by p v xs) ≡ find_by q xs
  unfolding find_by put_by
  find_by-put_by_other q p v [] t h ht hv = refl
  find_by-put_by_other q p v (x ∷ xs) t h ht hv = ground (arith, find_by-put_by_other q p v xs t)

  pub count_by-put_by :
      (q p : A → Bool) (v : A) (xs : List A) (t : A)
      → find_by p xs ≡ some t
      → count_by q (put_by p v xs) + bit (q t) ≡ count_by q xs + bit (q v)
  unfolding find_by put_by count_by
  count_by-put_by q p v [] t h = cc
  count_by-put_by q p v (x ∷ xs) t h = ground (arith, count_by-put_by q p v xs t)

  pub select_by-put_by_other :
      (q p : A → Bool) (v : A) (xs : List A) (t : A)
      → find_by p xs ≡ some t
      → q t ≡ false
      → q v ≡ false
      → select_by q (put_by p v xs) ≡ select_by q xs
  unfolding find_by put_by select_by
  select_by-put_by_other q p v [] t h ht hv = refl
  select_by-put_by_other q p v (x ∷ xs) t h ht hv =
      ground (arith, select_by-put_by_other q p v xs t)

  pub All-find_by {κ} :
      (P : A → Type κ) (p : A → Bool) (xs : List A) (t : A) → All P xs → find_by p xs ≡ some t → P t
  unfolding find_by
  All-find_by P p [] t h e = absurd (cc)
  All-find_by P p (x ∷ xs) t h e = elim (Bool-cases (p x)) [
    | inl hit ↦ subst P (cc) h.0
    | inr miss ↦ All-find_by P p xs t h.1 (ground arith)
  ]

  pub All-put_by {κ} :
      (P : A → Type κ) (p : A → Bool) (v : A) (xs : List A) → All P xs → P v → All P (put_by p v xs)
  unfolding put_by
  All-put_by P p v [] h hv = tt
  All-put_by P p v (x ∷ xs) h hv = elim (Bool-cases (p x)) [
    | inl hit ↦ rw hit (hv, h.1)
    | inr miss ↦ rw miss (h.0, All-put_by P p v xs h.1 hv)
  ]

  pub select_by-Memᴰ :
      (p : A → Bool) (xs : List A) (t : A) → Memᴰ t (select_by p xs) → Memᴰ t xs × (p t ≡ true)
  unfolding select_by
  select_by-Memᴰ p [] t m = elim m [ ]
  select_by-Memᴰ p (x ∷ xs) t m = kept-Memᴰ (p x) refl (select_by-Memᴰ p xs t) m
    where
      kept-Memᴰ :
          (b : Bool)
          → p x ≡ b
          → (Memᴰ t (select_by p xs) → Memᴰ t xs × (p t ≡ true))
          → Memᴰ t (if b then x ∷ select_by p xs else select_by p xs)
          → Memᴰ t (x ∷ xs) × (p t ≡ true)
      kept-Memᴰ true e rec (Memᴰ.head h) = (Memᴰ.head h, rw h e)
      kept-Memᴰ true e rec (Memᴰ.tail n) = (Memᴰ.tail (rec n).0, (rec n).1)
      kept-Memᴰ false e rec n = (Memᴰ.tail (rec n).0, (rec n).1)

  pub Memᴰ-find_by :
      (p : A → Bool) (xs : List A) (t : A) → Memᴰ t xs → p t ≡ true → find_by p xs ≢ none
  unfolding find_by
  Memᴰ-find_by p [] t m h = elim m [ ]
  Memᴰ-find_by p (x ∷ xs) t (Memᴰ.head e) h = rw (← e) (rw h (λ n. cc))
  Memᴰ-find_by p (x ∷ xs) t (Memᴰ.tail m) h = ground (arith, Memᴰ-find_by p xs t m h)

  pub update_by-All {κ μ} :
      (P : A → Type κ) (Q : A → Type μ) (p : A → Bool) (f : A → A) (xs : List A)
      → ((x : A) → P x → Q (if p x then f x else x))
      → All P xs
      → All Q (update_by p f xs)
  unfolding update_by
  update_by-All P Q p f [] each h = tt
  update_by-All P Q p f (x ∷ xs) each h = (each x h.0, update_by-All P Q p f xs each h.1)

  pub All-map {κ μ} :
      (P : A → Type κ) (Q : A → Type μ) (xs : List A) → ((x : A) → P x → Q x) → All P xs → All Q xs
  All-map P Q [] each h = tt
  All-map P Q (x ∷ xs) each h = (each x h.0, All-map P Q xs each h.1)

  -- An UPDATE after which `q` holds of a row as `q'` did before.
  pub count_by-update_by :
      (q q' p : A → Bool) (f : A → A) (xs : List A)
      → ((x : A) → q (if p x then f x else x) ≡ q' x)
      → count_by q (update_by p f xs) ≡ count_by q' xs
  unfolding update_by count_by
  count_by-update_by q q' p f [] each = refl
  count_by-update_by q q' p f (x ∷ xs) each = rw (each x, count_by-update_by q q' p f xs each)

  pub count_by-none : (q : A → Bool) (xs : List A) → ((x : A) → q x ≡ false) → count_by q xs ≡ 0
  unfolding count_by
  count_by-none q [] none' = refl
  count_by-none q (x ∷ xs) none' = rw (none' x) (omega (arith, count_by-none q xs none'))

  pub put_by-cases :
      (p : A → Bool) (v : A) (xs : List A)
      → (put_by p v xs ≡ xs) ⊎ ((t : A) × (find_by p xs ≡ some t))
  put_by-cases p v xs = elim (Option-cases (find_by p xs)) [
    | inl absent ↦ inl (put_by_absent p v xs absent)
    | inr found ↦ inr found
  ]

  -- What a wider WHERE does not find, a narrower one does not find.
  pub find_by-none :
      (p q : A → Bool) (xs : List A)
      → ((x : A) → q x ≡ true → p x ≡ true)
      → find_by p xs ≡ none
      → find_by q xs ≡ none
  unfolding find_by
  find_by-none p q [] wider h = refl
  find_by-none p q (x ∷ xs) wider h = ground (arith, wider x, find_by-none p q xs wider)

  pub All-select_by {κ} :
      (P : A → Type κ) (p : A → Bool) (xs : List A) → All P xs → All P (select_by p xs)
  unfolding select_by
  All-select_by P p [] h = tt
  All-select_by P p (x ∷ xs) h = elim (Bool-cases (p x)) [
    | inl kept ↦ rw kept (h.0, All-select_by P p xs h.1)
    | inr dropped ↦ rw dropped (All-select_by P p xs h.1)
  ]

  pub find_by-Memᴰ : (p : A → Bool) (xs : List A) (t : A) → find_by p xs ≡ some t → Memᴰ t xs
  unfolding find_by
  find_by-Memᴰ p [] t h = absurd (cc)
  find_by-Memᴰ p (x ∷ xs) t h = elim (Bool-cases (p x)) [
    | inl hit ↦ Memᴰ.head (ground arith)
    | inr miss ↦ Memᴰ.tail (find_by-Memᴰ p xs t (ground arith))
  ]

  -- Two WHEREs that find the same row write back the same one.
  pub put_by-agree :
      (p q : A → Bool) (v : A) (xs : List A) (t : A)
      → ((x : A) → p x ≡ true → q x ≡ true)
      → find_by p xs ≡ some t
      → find_by q xs ≡ some t
      → put_by p v xs ≡ put_by q v xs
  unfolding find_by put_by
  put_by-agree p q v [] t wider hp hq = refl
  put_by-agree p q v (x ∷ xs) t wider hp hq =
      ground (arith, wider x, find_by_holds p (x ∷ xs) t hp, put_by-agree p q v xs t wider)

  pub find_by-update_by :
      (p : A → Bool) (f : A → A) (xs : List A) (t : A)
      → find_by p xs ≡ some t
      → p (f t) ≡ true
      → find_by p (update_by p f xs) ≡ some (f t)
  unfolding find_by update_by
  find_by-update_by p f [] t h hit = absurd (cc)
  find_by-update_by p f (x ∷ xs) t h hit = elim (Bool-cases (p x)) [
    | inl found ↦
        let is_t : x ≡ t = ground arith in
        rw found
          (subst (λ y. find_by p (f y ∷ update_by p f xs) ≡ some (f t)) (sym is_t) (rw hit refl))
    | inr missed ↦ rw missed (rw missed (find_by-update_by p f xs t (ground arith) hit))
  ]

  -- A row that a DELETE takes is not found again.
  pub find_by-select_by :
      (p : A → Bool) (xs : List A) → find_by p (select_by (λ x. not (p x)) xs) ≡ none
  unfolding find_by select_by
  find_by-select_by p [] = refl
  find_by-select_by p (x ∷ xs) = elim (Bool-cases (p x)) [
    | inl hit ↦ rw hit (find_by-select_by p xs)
    | inr miss ↦ rw miss (rw miss (find_by-select_by p xs))
  ]
