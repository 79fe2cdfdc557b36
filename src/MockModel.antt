-- ===== src/MockModel.antt =====
-- embeddings/mock_model.py: the vectors that stand for an embedding model's.
pub mod Sizes
use lance_laker.Base.{
  ℕ, zero, suc, String, ◌+◌, ◌*◌, ◌%◌, Option, none, some, List, [], ◌∷◌, map, ltb, nat_eq,
  if◌then◌else◌, not,
}
use lance_laker.Json.{Json, null, truth, num, str, arr, obj, Items, nil, cons}
use lance_laker.Paging.{length, take}
use lance_laker.Executors.{Executed, done, raised, ◌>>=◌, Vector}

-- SHA-256 of a text's UTF-8 bytes and of a counter's four, and the float `(value - half) / half` of a
-- word, by its text.
pub record Hashing : Type 0 where
  pub digest : String → ℕ → List ℕ
  pub scaled : ℕ → String

abbrev pub extend : List ℕ → List ℕ → List ℕ
extend [] ys = ys
extend (x ∷ xs) ys = x ∷ extend xs ys

-- `while len(buf) < bytes_needed`, none where the fuel is used up; `to_bytes(4)` refuses a counter from
-- 2 ^ 32 on.
unfoldable pub fill : Hashing → ℕ → String → ℕ → ℕ → List ℕ → Option (Executed (List ℕ))
fill h zero text needed counter buf = if ltb (length buf) needed then none else some (done buf)
fill h (suc fuel) text needed counter buf =
    let rest = fill h fuel text needed (counter + 1) (extend buf (h.digest text counter)) in
    if not (ltb (length buf) needed)
    then some (done buf)
    else if ltb counter 4294967296
    then rest
    else some (raised "OverflowError" "int too big to convert")

-- `struct.unpack(">{dim}I", ...)`, which takes exactly four bytes for each word.
unfoldable pub unpack : ℕ → List ℕ → Executed (List ℕ)
unpack zero [] = done []
unpack (suc n) (a ∷ b ∷ c ∷ d ∷ rest) =
    unpack n rest >>= λ words. done ((((a * 256 + b) * 256 + c) * 256 + d) ∷ words)
unpack n bytes = raised "error" "unpack requires a buffer of another size"

-- `[(value - half) / half for value in raw]`.
abbrev pub unpacked : Hashing → ℕ → ℕ → List ℕ → Executed Vector
unpacked h dim needed buf = unpack dim (take needed buf) >>= λ words. done (map h.scaled words)

unfoldable pub one_from : Hashing → ℕ → ℕ → Option (Executed (List ℕ)) → Option (Executed Vector)
one_from h dim needed none = none
one_from h dim needed (some filled) = some (filled >>= unpacked h dim needed)

-- `_one`; the fuel is the number of bytes.
unfoldable pub one : Hashing → String → ℕ → ℕ → Option (Executed Vector)
unfolding fill one_from
one h text dim needed = one_from h dim needed (fill h needed text needed 0 [])

abbrev pub and_then :
    Option (Executed Vector) → Option (Executed (List Vector)) → Option (Executed (List Vector))
and_then none rest = none
and_then (some (raised code message)) rest = some (raised code message)
and_then (some (done v)) none = none
and_then (some (done v)) (some out) = some (out >>= λ vs. done (v ∷ vs))

-- A list of texts.
abbrev pub texts_of : List String → Items
texts_of [] = nil
texts_of (t ∷ ts) = cons (str t) (texts_of ts)

-- The loop over the texts.
unfoldable pub embed_each : Hashing → ℕ → ℕ → Items → Option (Executed (List Vector))
unfolding one
embed_each h dim needed nil = some (done [])
embed_each h dim needed (cons (str text) texts) =
    and_then (one h text dim needed) (embed_each h dim needed texts)
embed_each h dim needed (cons _ texts) =
    some (raised "TypeError" "hash_embedding texts must be str")

-- `hash_embedding`; a negative dimension acts as 0.
unfoldable pub hash_embedding : Hashing → Items → ℕ → Option (Executed (List Vector))
unfolding embed_each
hash_embedding h texts dim =
    if nat_eq dim 0
    then some (raised "ValueError" "dim must be positive")
    else if not (nat_eq (dim % 4) 0)
    then some (raised "ValueError" "dim must be a multiple of 4")
    else embed_each h dim (dim * 4) texts
