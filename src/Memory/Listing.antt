-- ===== src/Memory/Listing.antt =====
-- `ListSchemas` and `ListContexts` of internal/storage/memory/store.go.
use text.Mathlib.Text.{starts_with}
use axonops_schema_registry.Common.{
  sort, string_leb, get, String, Bool, not, ◌&&◌, ◌||◌, none, some, List, [], ◌∷◌, ◌++◌,
  if◌then◌else◌, ◌==◌, ℕ_eq, string_eq, ℤ, pos, pos_part, ℤ_eq, ltb_ℤ, leb_ℤ, Map, take, drop,
}
use axonops_schema_registry.Storage.{SchemaRecord, ListSchemasParams}
use axonops_schema_registry.Memory.State.{SubjectVersionInfo, Store, get_context}
use axonops_schema_registry.Memory.Lookup.{full_record}
use axonops_schema_registry.Memory.Delete.{keys}

-- The largest version of a subject that may be shown.
unfoldable pub latest_shown : Bool → ℤ → Map ℤ SubjectVersionInfo → ℤ
latest_shown deleted acc [] = acc
latest_shown deleted acc ((v, info) ∷ rest) =
    latest_shown deleted (if (deleted || not info.deleted) && ltb_ℤ acc v then v else acc) rest

unfoldable pub is_shown : ListSchemasParams → ℤ → ℤ → SubjectVersionInfo → Bool
is_shown params latest version info =
    (params.deleted || not info.deleted)
    && (not params.latest_only || ltb_ℤ (pos 0) latest && version == latest)

unfoldable pub shown_versions :
    Map ℤ SchemaRecord
    → ListSchemasParams
    → String
    → ℤ
    → Map ℤ SubjectVersionInfo
    → List SchemaRecord
shown_versions schemas params subject latest [] = []
shown_versions schemas params subject latest ((version, info) ∷ rest) =
    let more = shown_versions schemas params subject latest rest in
    if is_shown params latest version info
    then elim (get schemas info.schema_id) [
      | none ↦ more
      | some schema ↦ full_record subject version schema info ∷ more
    ]
    else more

unfoldable pub shown_subjects :
    Map ℤ SchemaRecord
    → ListSchemasParams
    → Map String (Map ℤ SubjectVersionInfo)
    → List SchemaRecord
shown_subjects schemas params [] = []
shown_subjects schemas params ((subject, m) ∷ rest) =
    let more = shown_subjects schemas params rest in
    if starts_with subject params.subject_prefix
    then shown_versions schemas params subject (latest_shown params.deleted (pos 0) m) m ++ more
    else more

abbrev pub by_id : SchemaRecord → SchemaRecord → Bool
by_id a b = leb_ℤ a.id b.id

-- An offset or a limit that is not positive has no effect.
unfoldable pub page : {A : Type 0} → ℤ → ℤ → List A → List A
page offset limit results =
    let from = drop (pos_part offset) results in
    if ltb_ℤ (pos 0) limit then take (pos_part limit) from else from

unfoldable pub list_schemas : Store → String → ListSchemasParams → List SchemaRecord
list_schemas s registry_ctx params = elim (get_context s registry_ctx) [
  | none ↦ []
  | some cs ↦
      page params.offset params.limit
        (sort by_id (shown_subjects cs.schemas params cs.subject_versions))
]

unfoldable pub list_contexts : Store → List String
list_contexts s = sort string_leb (keys s.contexts)
