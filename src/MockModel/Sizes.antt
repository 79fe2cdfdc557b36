-- ===== src/MockModel/Sizes.antt =====
-- embeddings/mock_model.py: the loop ends, and every vector has the dimension that is asked for.
use lance_laker.Base.{
  ℕ, zero, suc, String, ◌+◌, ◌*◌, ◌%◌, ◌≤◌, ◌<◌, ◌≡◌, ap₂, inl, inr, refl, ap, ◌∙◌, Option, some,
  List, [], ◌∷◌, map, All, ltb, arith, Bool-cases,
}
use lance_laker.Paging.{length, take}
use lance_laker.Executors.{Executed, done, ◌>>=◌, Vector}
use lance_laker.MockModel.{
  Hashing, extend, fill, unpack, unpacked, one_from, one, and_then, texts_of, embed_each,
  hash_embedding,
}

-- A digest is 32 bytes.
abbrev pub IsSha256 : Hashing → Type 0
IsSha256 h =
    (text : String) (counter : ℕ)
    → (length (h.digest text counter) ≡ 32) × All (λ b. b < 256) (h.digest text counter)

length-extend : (xs ys : List ℕ) → length (extend xs ys) ≡ length xs + length ys
unfolding length
length-extend [] ys = omega arith
length-extend (x ∷ xs) ys = omega (arith, length-extend xs ys)

extend-All : (P : ℕ → Type 0) (xs ys : List ℕ) → All P xs → All P ys → All P (extend xs ys)
extend-All P [] ys a b = b
extend-All P (x ∷ xs) ys (p, a) b = (p, extend-All P xs ys a b)

take-All : (P : ℕ → Type 0) (n : ℕ) (xs : List ℕ) → All P xs → All P (take n xs)
unfolding take
take-All P n [] a = tt
take-All P zero (x ∷ xs) a = tt
take-All P (suc n) (x ∷ xs) (p, a) = (p, take-All P n xs a)

length-take-enough : (n : ℕ) (xs : List ℕ) → n ≤ length xs → length (take n xs) ≡ n
unfolding take length
length-take-enough zero [] h = refl
length-take-enough (suc n) [] h = absurd (omega arith)
length-take-enough zero (x ∷ xs) h = refl
length-take-enough (suc n) (x ∷ xs) h =
    ap (λ k. 1 + k) (length-take-enough n xs (omega arith)) ∙ omega arith

-- What the loop leaves.
abbrev Filled : ℕ → Option (Executed (List ℕ)) → Type 0
Filled needed out =
    (buf : List ℕ) × (out ≡ some (done buf)) × (needed ≤ length buf) × All (λ b. b < 256) buf

fill-Filled :
    (h : Hashing) (fuel : ℕ) (text : String) (needed counter : ℕ) (buf : List ℕ)
    → IsSha256 h
    → needed ≤ 137438953472
    → needed ≤ fuel + length buf
    → length buf ≡ counter * 32
    → All (λ b. b < 256) buf
    → Filled needed (fill h fuel text needed counter buf)
unfolding fill
fill-Filled h zero text needed counter buf sha small enough filled bytes =
    (buf, ground arith, omega arith, bytes)
fill-Filled h (suc fuel) text needed counter buf sha small enough filled bytes =
    elim (Bool-cases (ltb (length buf) needed)) [
      | inr full ↦ (buf, ground arith, ground arith, bytes)
      | inl short ↦
          let less : length buf < needed = ground arith in
          let (long, small_bytes) = sha text counter in
          let grown = length-extend buf (h.digest text counter) in
          let (out, e, full, all) =
            fill-Filled h fuel text needed (counter + 1) (extend buf (h.digest text counter)) sha
              small (omega (arith, grown, long)) (omega (arith, grown, long, filled))
              (extend-All (λ b. b < 256) buf (h.digest text counter) bytes small_bytes) in
          let counted : counter < 4294967296 = omega arith in (out, ground arith, full, all)
    ]

length-map : (f : ℕ → String) (xs : List ℕ) → length (map f xs) ≡ length xs
unfolding length
length-map f [] = refl
length-map f (x ∷ xs) = ap (λ n. 1 + n) (length-map f xs)

abbrev Unpacked : ℕ → Executed (List ℕ) → Type 0
Unpacked dim out =
    (words : List ℕ) × (out ≡ done words) × (length words ≡ dim) × All (λ w. w < 4294967296) words

unpack-Unpacked :
    (dim : ℕ) (bytes : List ℕ)
    → length bytes ≡ dim * 4
    → All (λ b. b < 256) bytes
    → Unpacked dim (unpack dim bytes)
unfolding unpack length
unpack-Unpacked zero [] e a = ([], refl, refl, tt)
unpack-Unpacked zero (x ∷ xs) e a = absurd (omega arith)
unpack-Unpacked (suc dim) [] e a = absurd (omega arith)
unpack-Unpacked (suc dim) (a ∷ []) e h = absurd (omega arith)
unpack-Unpacked (suc dim) (a ∷ b ∷ []) e h = absurd (omega arith)
unpack-Unpacked (suc dim) (a ∷ b ∷ c ∷ []) e h = absurd (omega arith)
unpack-Unpacked (suc dim) (a ∷ b ∷ c ∷ d ∷ rest) e (ha, (hb, (hc, (hd, hr)))) =
    let (words, out, long, small) = unpack-Unpacked dim rest (omega (arith, e)) hr in
    (
      (((a * 256 + b) * 256 + c) * 256 + d) ∷ words,
      ap (λ o. o >>= λ ws. done ((((a * 256 + b) * 256 + c) * 256 + d) ∷ ws)) out,
      omega arith,
      (omega arith, small),
    )

unpacked-Sized :
    (h : Hashing) (dim needed : ℕ) (buf : List ℕ)
    → needed ≡ dim * 4
    → needed ≤ length buf
    → All (λ b. b < 256) buf
    → (v : Vector) × (unpacked h dim needed buf ≡ done v) × (length v ≡ dim)
unpacked-Sized h dim needed buf four enough bytes =
    let (words, out, long, small) =
      unpack-Unpacked dim (take needed buf) (length-take-enough needed buf enough ∙ four)
        (take-All (λ b. b < 256) needed buf bytes) in
    (
      map h.scaled words,
      ap (λ o. o >>= λ ws. done (map h.scaled ws)) out,
      length-map h.scaled words ∙ long,
    )

empty_length : length {A = ℕ} [] ≡ 0 * 32
unfolding length
empty_length = refl

one-Sized :
    (h : Hashing) (text : String) (dim needed : ℕ)
    → IsSha256 h
    → needed ≡ dim * 4
    → dim ≤ 34359738368
    → (v : Vector) × (one h text dim needed ≡ some (done v)) × (length v ≡ dim)
unfolding one one_from
one-Sized h text dim needed sha four small =
    let (buf, filled, enough, bytes) =
      fill-Filled h needed text needed 0 [] sha (omega arith) (omega arith) (empty_length) tt in
    let (v, out, long) = unpacked-Sized h dim needed buf four enough bytes in
    (v, ap (one_from h dim needed) filled ∙ ap some out, long)

embed_each-Sized :
    (h : Hashing) (texts : List String) (dim needed : ℕ)
    → IsSha256 h
    → needed ≡ dim * 4
    → dim ≤ 34359738368
    → (vs : List Vector) × (embed_each h dim needed (texts_of texts) ≡ some (done vs))
      × (length vs ≡ length texts)
      × All (λ v. length v ≡ dim) vs
unfolding embed_each length
embed_each-Sized h [] dim needed sha four small = ([], refl, refl, tt)
embed_each-Sized h (t ∷ ts) dim needed sha four small =
    let (v, one_out, long) = one-Sized h t dim needed sha four small in
    let (vs, out, many, each) = embed_each-Sized h ts dim needed sha four small in
    (v ∷ vs, ap₂ and_then one_out out, ap (λ n. 1 + n) many, (long, each))

-- Where a digest has 32 bytes, and for a dimension above 0 that is a multiple of 4 and at most 2 ^ 35, the loops
-- end and the model answers any list of texts with one vector for each text, each of exactly the
-- dimension that is asked for.
pub hash_embedding-terminates :
    (h : Hashing) (texts : List String) (dim : ℕ)
    → IsSha256 h
    → 0 < dim
    → dim % 4 ≡ 0
    → dim ≤ 34359738368
    → (vs : List Vector) × (hash_embedding h (texts_of texts) dim ≡ some (done vs))
      × (length vs ≡ length texts)
      × All (λ v. length v ≡ dim) vs
unfolding hash_embedding
hash_embedding-terminates h texts dim sha positive four small =
    let (vs, out, many, each) = embed_each-Sized h texts dim (dim * 4) sha refl small in
    (vs, ground arith, many, each)
