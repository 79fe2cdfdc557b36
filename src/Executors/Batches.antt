-- ===== src/Executors/Batches.antt =====
-- workers/executors/vectorize.py: the batches of texts, and what comes back for them.
use lance_laker.Base.{
  ℕ, zero, suc, String, ◌+◌, ◌≤◌, ◌<◌, ◌≡◌, refl, ap, ◌∙◌, List, [], ◌∷◌, All, arith,
}
use lance_laker.Paging.{length, take, skip, length-take}
use lance_laker.Executors.Vectorize.{batches_of}

abbrev pub append_texts : List String → List String → List String
append_texts [] ys = ys
append_texts (x ∷ xs) ys = x ∷ append_texts xs ys

-- The batches one after another.
abbrev pub concat : List (List String) → List String
concat [] = []
concat (xs ∷ rest) = append_texts xs (concat rest)

append_texts-take-skip : (n : ℕ) (xs : List String) → append_texts (take n xs) (skip n xs) ≡ xs
unfolding take skip
append_texts-take-skip n [] = refl
append_texts-take-skip zero (x ∷ xs) = refl
append_texts-take-skip (suc n) (x ∷ xs) = ap (λ ys. x ∷ ys) (append_texts-take-skip n xs)

length-skip : (n : ℕ) (xs : List String) → length (skip n xs) ≤ length xs
unfolding skip length
length-skip n [] = omega arith
length-skip zero (x ∷ xs) = omega arith
length-skip (suc n) (x ∷ xs) = omega (arith, length-skip n xs)

-- A batch is not empty and no longer than the size.
abbrev pub Fits : ℕ → List String → Type 0
Fits size batch = (0 < length batch) × (length batch ≤ size)

take-Fits : (n : ℕ) (x : String) (xs : List String) → Fits (suc n) (take (suc n) (x ∷ xs))
unfolding take length
take-Fits n x xs = (omega arith, omega (arith, length-take n xs))

-- What is taken and what is left.
length-take-skip : (n : ℕ) (xs : List String) → length (take n xs) + length (skip n xs) ≡ length xs
unfolding take skip length
length-take-skip n [] = refl
length-take-skip zero (x ∷ xs) = omega arith
length-take-skip (suc n) (x ∷ xs) = omega (arith, length-take-skip n xs)

batches_of-concat :
    (fuel size : ℕ) (texts : List String)
    → length texts ≤ fuel
    → concat (batches_of fuel (suc size) texts) ≡ texts
unfolding batches_of skip length
batches_of-concat zero size [] h = refl
batches_of-concat zero size (t ∷ ts) h = absurd (omega arith)
batches_of-concat (suc fuel) size [] h = refl
batches_of-concat (suc fuel) size (t ∷ ts) h =
    let rest =
      batches_of-concat fuel size (skip (suc size) (t ∷ ts)) (omega (arith, length-skip size ts)) in
    ap (append_texts (take (suc size) (t ∷ ts))) rest ∙ append_texts-take-skip (suc size) (t ∷ ts)

batches_of-Fits :
    (fuel size : ℕ) (texts : List String) → All (Fits (suc size)) (batches_of fuel (suc size) texts)
unfolding batches_of
batches_of-Fits zero size texts = tt
batches_of-Fits (suc fuel) size [] = tt
batches_of-Fits (suc fuel) size (t ∷ ts) =
    (take-Fits size t ts, batches_of-Fits fuel size (skip (suc size) (t ∷ ts)))

pub batches_of-whole :
    (fuel size : ℕ) (texts : List String)
    → 0 < size
    → length texts ≤ fuel
    → concat (batches_of fuel size texts) ≡ texts
batches_of-whole fuel zero texts h enough = absurd (omega arith)
batches_of-whole fuel (suc size) texts h enough = batches_of-concat fuel size texts enough

-- With as much fuel as there are texts, the batches of a size above 0 are the texts in order, and
-- each batch has a text and no more than the size.
pub batches_of-terminates :
    (fuel size : ℕ) (texts : List String)
    → 0 < size
    → length texts ≤ fuel
    → (concat (batches_of fuel size texts) ≡ texts) × All (Fits size) (batches_of fuel size texts)
batches_of-terminates fuel zero texts h enough = absurd (omega arith)
batches_of-terminates fuel (suc size) texts h enough =
    (batches_of-concat fuel size texts enough, batches_of-Fits fuel size texts)
