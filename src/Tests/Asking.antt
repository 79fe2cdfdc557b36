-- ===== src/Tests/Asking.antt =====
-- Witnesses on workers/executors/vectorize.py.
use lance_laker.Base.{none, some, [], ◌∷◌, String, List, Option}
use lance_laker.Json.{null, str, arr, nil, cons}
use lance_laker.Executors.Vectorize.{Asking}

abbrev question : Asking
question = record {
  target_column = str "vector";
  source_columns = arr (cons (str "title") (cons (str "body") nil));
  model_name = str "bge";
  endpoint = str "http://embed";
  batch_size = 1;
  api_key = null;
  api_key_header = str "Authorization";
}

abbrev two_rows : List (List (Option String))
two_rows = (some "a" ∷ none ∷ []) ∷ (some "b" ∷ some "c" ∷ []) ∷ []
