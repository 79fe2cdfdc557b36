-- ===== src/Embedding/Vectors.antt =====
-- workers/executors/embedding.py with embeddings/mock_model.py: what the transform gives for a batch.
use lance_laker.Base.{ℕ, String, ◌+◌, ◌≡◌, refl, ap, ◌∙◌, List, [], ◌∷◌, All, arith}
use lance_laker.Json.{Json}
use lance_laker.Paging.{length}
use lance_laker.Executors.{done, ◌>>=◌, Vector}
use lance_laker.MockModel.Sizes.{IsSha256, hash_embedding-terminates}
use lance_laker.Embedding.{Outside, materialised, mock_embedding, build_batch_transform}

length-materialised :
    (separator : String) (rows : List (List Json))
    → length (materialised separator rows) ≡ length rows
unfolding materialised length
length-materialised separator [] = refl
length-materialised separator (row ∷ rows) = ap (λ n. 1 + n) (length-materialised separator rows)

mock_embedding-Sized :
    (o : Outside) (texts : List String)
    → IsSha256 o.hashing
    → (vs : List Vector) × (mock_embedding o.hashing texts ≡ done vs)
      × (length vs ≡ length texts)
      × All (λ v. length v ≡ 384) vs
mock_embedding-Sized o texts sha =
    let (vs, out, many, each) =
      hash_embedding-terminates o.hashing texts 384 sha (omega arith) refl (omega arith) in
    (vs, ground arith, many, each)

-- For a rule of the mock model whose probe gave 384 numbers, where a digest has 32 bytes and where
-- pyarrow's array of vectors of a size takes vectors that all have it: the transform of a batch ends
-- without an exception, and gives each row one vector of 384 numbers.
pub transform-Sized :
    (o : Outside) (target_column separator : String) (rows : List (List Json))
    → IsSha256 o.hashing
    → ((n : ℕ) (vs : List Vector) → All (λ v. length v ≡ n) vs → o.fixed_size n vs ≡ done vs)
    → (vs : List Vector) × ((build_batch_transform o target_column "mock" 384 separator).transform
          rows
        ≡ done vs)
      × (length vs ≡ length rows)
      × All (λ v. length v ≡ 384) vs
unfolding build_batch_transform
transform-Sized o target separator rows sha sized =
    let (vs, out, many, each) = mock_embedding-Sized o (materialised separator rows) sha in
    (
      vs,
      ap (λ x. x >>= λ found. o.fixed_size 384 found) out ∙ sized 384 vs each,
      many ∙ length-materialised separator rows,
      each,
    )
