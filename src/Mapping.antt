-- ===== src/Mapping.antt =====
-- integrations/gravitino/mapping.py: what of a fileset goes into a dataset, and the properties that are
-- written back. `fileset_to_dataset_patch` is left out, since it reads an attribute that a fileset
-- does not have.
use lance_laker.Base.{
  ℕ, String, ◌++◌, ◌≡◌, inl, inr, Bool, true, false, not, ◌&&◌, ◌||◌, Option, none, some, str_eq,
  holds_text, is_some, if◌then◌else◌, arith, Bool-cases, eq_refl,
}
use lance_laker.Json.{str, Fields, field, end}
use lance_laker.Models.{Dataset}
use lance_laker.Format.{Format}
use lance_laker.MetaSync.WriteBack.{status_text}

pub record DatasetPatch : Type 0 where
  pub storage_uri : Option String
  pub description : Option String
  pub description_present : Bool

abbrev pub is_empty : DatasetPatch → Bool
is_empty p = not (is_some p.storage_uri) && not p.description_present

-- Equality of two nullable texts.
abbrev pub same_text : Option String → Option String → Bool
same_text a none = not (is_some a)
same_text a (some text) = holds_text a text

abbrev pub moves : DatasetPatch → Dataset → Bool
moves p d = elim p.storage_uri [ none ↦ false | some uri ↦ not (str_eq d.storage_uri uri) ]

abbrev pub describes : DatasetPatch → Dataset → Bool
describes p d = p.description_present && not (same_text d.description p.description)

abbrev pub with_storage : Option String → Dataset → Dataset
with_storage none d = d
with_storage (some uri) d = record d { storage_uri = uri }

-- The dataset after `apply`, and whether it has changed.
unfoldable pub apply : DatasetPatch → Dataset → Dataset × Bool
apply p d =
    let d1 = if moves p d then with_storage p.storage_uri d else d in
    let d2 = if describes p d then record d1 { description = p.description } else d1 in
    (d2, moves p d || describes p d)

abbrev pub index_key : String → String → String
index_key index_name suffix = "lcp.index." ++ (index_name ++ suffix)

-- A time that is null is the empty text.
abbrev pub format_iso_utc : Format → Option ℕ → String
format_iso_utc f none = ""
format_iso_utc f (some at) = f.isoformat at

abbrev pub index_to_property_patch : Format → String → String → String → Option ℕ → Fields
index_to_property_patch f index_name state column last_optimized_at =
    field (index_key index_name ".state") (str state) (
      field (index_key index_name ".column") (str column) (
        field (index_key index_name ".last_optimized_at") (str (format_iso_utc f last_optimized_at))
          end))

-- `coverage_text` is `_format_decimal`.
abbrev pub dataset_to_property_patch : Format → (ℕ → String) → ℕ → Dataset → Fields
dataset_to_property_patch f coverage_text now d = field "lcp.dataset_uuid" (str d.dataset_uuid) (
    field "lcp.tenant_id" (str d.tenant_id) (
      field "lcp.status" (str (status_text d.status)) (
        field "lcp.row_count" (str (f.str_int d.row_count)) (
          field "lcp.fragment_count" (str (f.str_int d.fragment_count)) (
            field "lcp.index_coverage" (str (coverage_text d.index_coverage)) (
              field "lcp.latest_version" (str (f.str_int d.latest_version))
                (field "lcp.synced_at" (str (f.isoformat now)) end)))))))

-- A patch of both columns that is applied again reports no change.
apply-again :
    (uri text : String) (d : Dataset)
    → let p : DatasetPatch = record {
      storage_uri = some uri;
      description = some text;
      description_present = true;
    } in
      (apply p (apply p d).0).1 ≡ false
unfolding apply
apply-again uri text d = elim (Bool-cases (str_eq d.storage_uri uri)) [
  | inl same ↦ elim (Bool-cases (holds_text d.description text)) [
    | inl kept ↦ ground (arith, eq_refl uri, eq_refl text)
    | inr new ↦ ground (arith, eq_refl uri, eq_refl text)
  ]
  | inr moved ↦ elim (Bool-cases (holds_text d.description text)) [
    | inl kept ↦ ground (arith, eq_refl uri, eq_refl text)
    | inr new ↦ ground (arith, eq_refl uri, eq_refl text)
  ]
]
