-- ===== src/LanceIo/Searching.antt =====
-- services/search_service.py: what a tenant's search reaches, and how it fails.
use lance_laker.Base.{String, ◌++◌, ◌≡◌, ◌⊎◌, inl, inr, ap, ◌∙◌, true, false, Option, some, List}
use lance_laker.Outcome.{ok, err, Error, Outcome-split}
use lance_laker.Tenant.{TenantPrincipal, Ctx}
use lance_laker.Models.{Dataset, Db}
use lance_laker.Json.{Fields}
use lance_laker.Datasets.{get_dataset}
use lance_laker.Datasets.Isolation.{IsOwnDataset, get_dataset-IsOwnDataset}
use lance_laker.Executors.{Executed, done}
use lance_laker.LanceIo.{
  StorageSettings, build_storage_options, Lance, continue, reading, open_dataset,
}
use lance_laker.LanceIo.Calls.{continue-reading, if_true, if_false, open_dataset-reads}
use lance_laker.LanceIo.Search.{
  Python, SearchArgs, has_column, missing_column, Searched, column_not_found, refused, translated,
  ask, vector_search, search_in, search,
}

module _ {W D T : Type 0} (cfg : StorageSettings) (lance : Lance W D T) (py : Python) where
  vector_search-reads :
      (uri : String) (a : SearchArgs) (opts : Option Fields) (w : W)
      → (vector_search cfg lance py uri a opts w).1 ≡ w
  unfolding vector_search
  vector_search-reads uri a opts w =
      continue-reading (open_dataset cfg lance uri opts w) (ask cfg lance py a)
      ∙ open_dataset-reads cfg lance uri opts w

  -- With the predicates on the tenant on, a search that a user's request makes either is refused with
  -- an error of `get_dataset`, before lance is asked anything, or it is the translated search at the
  -- storage of a dataset of that uuid that the user's own tenant has and that is not deleted; lance's
  -- state is the same after it in both cases.
  pub search-IsOwnDataset :
      (c : Ctx) (p : TenantPrincipal) (uuid : String) (a : SearchArgs) (db : Db) (w : W)
      → c.enforce_tenant_rls ≡ true
      → c.principal ≡ some p
      → p.is_system ≡ false
      → ((e : Error) × (get_dataset c uuid db ≡ err e)
          × (search cfg lance py c uuid a db w ≡ (refused e, w)))
        ⊎ ((d : Dataset) × IsOwnDataset p uuid db d
            × (search cfg lance py c uuid a db w ≡ (
              translated py
                  (vector_search cfg lance py d.storage_uri a
                    (some (build_storage_options cfg))
                    w).0,
              w,
            )))
  unfolding search
  search-IsOwnDataset c p uuid a db w on bound user = elim (Outcome-split (get_dataset c uuid db)) [
    | inr (e, bad) ↦ inl (e, bad, ap (λ o. search_in cfg lance py o a w) bad)
    | inl (d, good) ↦ inr (
      d,
      get_dataset-IsOwnDataset c p uuid db d on bound user good,
      ap (λ o. search_in cfg lance py o a w) good
          ∙ ap
              (λ v. (
                translated py
                    (vector_search cfg lance py d.storage_uri a (some (build_storage_options cfg))
                      w).0,
                v,
              ))
              (vector_search-reads d.storage_uri a (some (build_storage_options cfg)) w),
    )
  ]

  abbrev answer_of : Executed (List Fields) × W → Searched × W
  answer_of (found, w) = (translated py found, w)

  -- Where a dataset that the search finds opens and has no column of the name that is asked for, the
  -- search raises `ColumnNotFoundError`, whatever lance's own search would answer, provided that
  -- Python's `in` finds a text within a longer one and that `ValueError` is a `ValueError`.
  pub search-missing_column :
      (c : Ctx) (uuid : String) (a : SearchArgs) (db : Db) (w : W) (d : Dataset) (ds : D)
      → ((before sub rest : String) → py.contains sub (before ++ (sub ++ rest)) ≡ true)
      → py.is_value_error "ValueError" ≡ true
      → get_dataset c uuid db ≡ ok d
      → open_dataset cfg lance d.storage_uri (some (build_storage_options cfg)) w ≡ (done ds, w)
      → has_column a.column (lance.schema ds) ≡ false
      → search cfg lance py c uuid a db w
        ≡ (column_not_found (missing_column py a.column (lance.schema ds)), w)
  unfolding search vector_search
  search-missing_column c uuid a db w d ds finds value good opened missing =
      ap (λ o. search_in cfg lance py o a w) good
      ∙ ap (λ o. answer_of (continue o (λ x. reading (ask cfg lance py a x)))) opened
      ∙ ap (λ o. (translated py o, w))
          (if_false (has_column a.column (lance.schema ds)) _ _ missing)
      ∙ ap (λ o. (o, w)) (if_true _ _ _ value ∙ if_true _ _ _ (finds _ _ _))
