-- ===== src/Tests/Embedding.antt =====
-- Witnesses on workers/executors/embedding.py and embeddings/mock_model.py.
use lance_laker.Base.{
  ℕ, zero, suc, String, ◌<◌, ◌≡◌, ◌⊎◌, refl, true, some, List, [], ◌∷◌, All, arith,
}
use lance_laker.Json.{Json, null, num, str, field, end}
use lance_laker.Paging.{length}
use lance_laker.Models.{Task, VectorizationRule, Index, Db, building}
use lance_laker.Executors.{done, Vector}
use lance_laker.MockModel.{Hashing}
use lance_laker.MockModel.Sizes.{IsSha256}
use lance_laker.LanceIo.{open_dataset}
use lance_laker.Embedding.{Outside, is_text_column, build_batch_transform}
use lance_laker.Embedding.AutoIndex.{auto_task}
use lance_laker.Embedding.Execute.{stored, execute}
use lance_laker.Embedding.Guards.{IsUsable, execute-guarded}
use lance_laker.Embedding.Vectors.{transform-Sized}
use lance_laker.Tests.Fixtures.{task_a}
use lance_laker.Tests.Indexing.{photos, ready_index, library}
use lance_laker.Tests.Vectorizing.{with_rule}
use lance_laker.Tests.Working.{lance}
use lance_laker.Tests.Storing.{storage, table, three}

zeros : ℕ → List ℕ
zeros zero = []
zeros (suc n) = 0 ∷ zeros n

abbrev hashing : Hashing
hashing = record { digest = λ text counter. zeros 32; scaled = λ word. "-1.0" }

zeros-All : (n : ℕ) → All (λ b. b < 256) (zeros n)
unfolding zeros
zeros-All zero = tt
zeros-All (suc n) = (omega arith, zeros-All n)

length-zeros : length (zeros 32) ≡ 32
unfolding zeros length
length-zeros = refl

hashing-IsSha256 : IsSha256 hashing
hashing-IsSha256 text counter = (length-zeros, zeros-All 32)

abbrev outside : Outside
outside = record {
  env = lance;
  hashing = hashing;
  st_embedding = λ texts model. done [];
  fixed_size = λ n vs. done vs;
  text_of = λ _. "";
  next_id = 12;
  task_uuid = "t-v";
  str_int = λ _. "12";
}

abbrev one_row : List (List Json)
one_row = (str "hi" ∷ null ∷ []) ∷ []

transform-Sized_example :
    (vs : List Vector) × ((build_batch_transform outside "vector" "mock" 384 " ").transform one_row
      ≡ done vs)
    × (length vs ≡ length one_row)
    × All (λ v. length v ≡ 384) vs
transform-Sized_example =
    transform-Sized outside "vector" " " one_row hashing-IsSha256 (λ n vs h. refl)

abbrev vectorize_task : Task
vectorize_task = record task_a {
  task_type = "VECTORIZE";
  params = some (field "vectorization_rule_id" (num 5) end);
}

execute-guarded_example :
    ((execute storage table outside vectorize_task photos with_rule three).1 ≡ three)
    ⊎ ((r : VectorizationRule) × (names : List String) × (ds : List String) × IsUsable photos
          with_rule r names
        × (open_dataset storage table photos.storage_uri (stored storage table outside) three
            ≡ (done ds, three))
        × All (λ n. is_text_column (table.schema ds) n ≡ true) names)
execute-guarded_example =
    execute-guarded storage table outside vectorize_task photos with_rule three

abbrev fresh_index : Index
fresh_index = record ready_index { id = 12; index_name = "idx_vector"; status = building }

abbrev with_index : Db
with_index = record library {
  indexes = fresh_index ∷ library.indexes;
  tasks = auto_task outside photos fresh_index ∷ library.tasks;
}
