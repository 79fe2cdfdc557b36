-- ===== src/Executors/Answers.antt =====
-- workers/executors/vectorize.py: what comes back for the batches of texts.
use lance_laker.Base.{String, ◌≡◌, ◌⊎◌, List, [], ◌∷◌, map}
use lance_laker.Executors.{Executed, done, Vector}

-- One vector for each text, what the service makes of the text or the empty one.
abbrev pub Aligned : (String → Vector) → List String → List Vector → Type 0
Aligned embed [] [] = Unit {0}
Aligned embed [] (v ∷ vs) = ⊥
Aligned embed (t ∷ ts) [] = ⊥
Aligned embed (t ∷ ts) (v ∷ vs) = ((v ≡ embed t) ⊎ (v ≡ [])) × Aligned embed ts vs

-- A service that, where it answers, answers each text.
abbrev pub Answers : (String → Vector) → (List String → Executed (List Vector)) → Type 0
Answers embed post =
    (texts : List String) (vs : List Vector) → post texts ≡ done vs → vs ≡ map embed texts
