-- ===== src/Paging.antt =====
-- The filters and the pages of a listing in services/dataset_service.py and services/task_service.py.
use lance_laker.Base.{
  Option, none, some, String, str_eq, ℕ, zero, suc, ◌+◌, ◌-◌, ◌*◌, ◌≤◌, true, Bool, List, [], ◌∷◌,
  Memᴰ, arith, ltb, if◌then◌else◌,
}

-- `column == value`, where the filter is given.
abbrev pub agrees : Option String → String → Bool
agrees none column = true
agrees (some value) column = str_eq column value

-- A page below 1 is the first; a size below 1 is 20, and one above 200 is 200. Both are integers of
-- which the negative ones act as 0.
abbrev pub clamp_page : ℕ → ℕ
clamp_page page = if ltb page 1 then 1 else page

abbrev pub clamp_size : ℕ → ℕ
clamp_size size = if ltb size 1 then 20 else if ltb 200 size then 200 else size

module _ {ℓ} {A : Type ℓ} where
  -- `OFFSET` and `LIMIT`.
  unfoldable pub skip : ℕ → List A → List A
  skip n [] = []
  skip zero (x ∷ xs) = x ∷ xs
  skip (suc n) (x ∷ xs) = skip n xs

  unfoldable pub take : ℕ → List A → List A
  take n [] = []
  take zero (x ∷ xs) = []
  take (suc n) (x ∷ xs) = x ∷ take n xs

  unfoldable pub length : List A → ℕ
  length [] = 0
  length (x ∷ xs) = 1 + length xs

  abbrev pub page_of : ℕ → ℕ → List A → List A
  page_of page size xs = take (clamp_size size) (skip ((clamp_page page - 1) * clamp_size size) xs)

  skip-Mem : (n : ℕ) (xs : List A) (x : A) → Memᴰ x (skip n xs) → Memᴰ x xs
  unfolding skip
  skip-Mem n [] x m = m
  skip-Mem zero (y ∷ ys) x m = m
  skip-Mem (suc n) (y ∷ ys) x m = Memᴰ.tail (skip-Mem n ys x m)

  take-Mem : (n : ℕ) (xs : List A) (x : A) → Memᴰ x (take n xs) → Memᴰ x xs
  unfolding take
  take-Mem n [] x m = m
  take-Mem zero (y ∷ ys) x m = elim m [ ]
  take-Mem (suc n) (y ∷ ys) x (Memᴰ.head e) = Memᴰ.head e
  take-Mem (suc n) (y ∷ ys) x (Memᴰ.tail m) = Memᴰ.tail (take-Mem n ys x m)

  pub length-take : (n : ℕ) (xs : List A) → length (take n xs) ≤ n
  unfolding take length
  length-take n [] = omega arith
  length-take zero (y ∷ ys) = omega arith
  length-take (suc n) (y ∷ ys) = omega (arith, length-take n ys)

  -- A page shows rows of the listing only, and at most 200.
  pub page_of-Mem :
      (page size : ℕ) (xs : List A) (x : A) → Memᴰ x (page_of page size xs) → Memᴰ x xs
  page_of-Mem page size xs x m = skip-Mem _ xs x (take-Mem _ (skip _ xs) x m)

  pub length-page_of : (page size : ℕ) (xs : List A) → length (page_of page size xs) ≤ 200
  length-page_of page size xs =
      ground
        (arith, length-take (clamp_size size) (skip ((clamp_page page - 1) * clamp_size size) xs))
