-- ===== src/LanceIo/Counting.antt =====
-- data_plane/lance_io.py: what `delete_rows` returns is counted after the deletion.
use lance_laker.Base.{
  ℕ, String, ◌≡◌, refl, ap, ◌∙◌, Bool, true, not, Option, List, [], ◌∷◌, select_by, count_by, arith,
  Bool-cases, inl, inr,
}
use lance_laker.Json.{Fields}
use lance_laker.Paging.{length}
use lance_laker.Executors.{done}
use lance_laker.LanceIo.{
  StorageSettings, Lance, Io, followed_by, continue, reading, open_dataset, delete_rows,
}
use lance_laker.LanceIo.Calls.{if_true}

-- How lance is documented to behave: a dataset that is opened is a snapshot of its rows at that time,
-- and a deletion commits the rows that do not match the predicate.
pub record IsLance {W D T R : Type 0} (lance : Lance W D T) (rows : W → String → List R)
    (matches : String → R → Bool) : Type 0 where
  pub snapshot : W → String → D
  pub installed : lance.is_installed ≡ true
  pub opens :
      (w : W) (uri : String) (options : Option Fields)
      → lance.dataset w uri options ≡ done (snapshot w uri)
  pub counts :
      (w : W) (uri : String) → lance.count_rows (snapshot w uri) ≡ done (length (rows w uri))
  pub commit : W → String → String → W
  pub deletes :
      (w : W) (uri predicate : String)
      → lance.delete (snapshot w uri) predicate w ≡ (done tt, commit w uri predicate)
  pub commits :
      (w : W) (uri predicate : String)
      → rows (commit w uri predicate) uri ≡ select_by (λ r. not (matches predicate r)) (rows w uri)

length-select_by :
    {R : Type 0} (p : R → Bool) (xs : List R) → length (select_by p xs) ≡ count_by p xs
unfolding length select_by count_by
length-select_by p [] = refl
length-select_by p (x ∷ xs) = elim (Bool-cases (p x)) [
  | inl hit ↦ rw hit (omega (arith, length-select_by p xs))
  | inr miss ↦ rw miss (omega (arith, length-select_by p xs))
]

module _ {W D T R : Type 0} (cfg : StorageSettings) (lance : Lance W D T)
    (rows : W → String → List R) (matches : String → R → Bool) where
  opened :
      (io : IsLance lance rows matches) (w : W) (uri : String) (opts : Option Fields)
      → open_dataset cfg lance uri opts w ≡ (done (io.snapshot w uri), w)
  unfolding open_dataset
  opened io w uri opts =
      if_true lance.is_installed _ _ io.installed ∙ ap (λ o. (o, w)) (io.opens w uri _)

  -- The second opening and the count.
  abbrev recount : String → Option Fields → Io W ℕ
  recount uri opts =
      followed_by (open_dataset cfg lance uri opts) (λ ds. reading (lance.count_rows ds))

  -- Where lance behaves as documented, `delete_rows` commits the rows that do not match the predicate
  -- and returns how many they are.
  pub delete_rows-counts :
      (w : W) (uri predicate : String) (opts : Option Fields)
      → IsLance lance rows matches
      → (w' : W) × (delete_rows cfg lance uri predicate opts w
          ≡ (done (count_by (λ r. not (matches predicate r)) (rows w uri)), w'))
        × (rows w' uri ≡ select_by (λ r. not (matches predicate r)) (rows w uri))
  unfolding delete_rows
  delete_rows-counts w uri predicate opts io = (
    io.commit w uri predicate,
    ap
          (λ o.
            continue o
              (λ ds. followed_by (lance.delete ds predicate) (λ deleted. recount uri opts)))
          (opened io w uri opts)
        ∙ ap (λ o. continue o (λ deleted. recount uri opts)) (io.deletes w uri predicate)
        ∙ ap (λ o. continue o (λ ds. reading (lance.count_rows ds)))
            (opened io (io.commit w uri predicate) uri opts)
        ∙ ap (λ o. (o, io.commit w uri predicate))
            (io.counts (io.commit w uri predicate) uri
              ∙ ap done (ap length (io.commits w uri predicate) ∙ length-select_by _ (rows w uri))),
    io.commits w uri predicate,
  )
