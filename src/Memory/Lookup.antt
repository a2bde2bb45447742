-- ===== src/Memory/Lookup.antt =====
-- The reading methods of internal/storage/memory/store.go: schemas by ID, by subject and version,
-- by fingerprint, the latest version, and the reverse lookups from a schema ID.
use axonops_schema_registry.Common.{
  sort, string_leb, get, String, Bool, true, false, not, ◌&&◌, ◌||◌, Option, none, some, List, [],
  ◌∷◌, ◌++◌, if◌then◌else◌, ◌==◌, ℕ_eq, string_eq, ℤ, pos, negsuc, ℤ_eq, ltb_ℤ, leb_ℤ, Map,
}
use axonops_schema_registry.Storage.{
  subject_not_found, schema_not_found, version_not_found, Result, ok, err, Reference, SchemaRecord,
  SubjectVersion,
}
use axonops_schema_registry.Memory.State.{
  SubjectVersionInfo, ContextStore, Store, get_context, versions_of, version_info, uses_of,
}

-- A copy of the stored content with the subject, the version and the version's contract filled in.
unfoldable pub full_record : String → ℤ → SchemaRecord → SubjectVersionInfo → SchemaRecord
full_record subject version schema info = record {
  id = schema.id;
  subject = subject;
  version = version;
  schema_type = schema.schema_type;
  schema = schema.schema;
  references = schema.references;
  metadata = info.metadata;
  rule_set = info.rule_set;
  fingerprint = schema.fingerprint;
  deleted = info.deleted;
  created_at = info.created_at;
}

-- `len(m) == 0`
abbrev pub is_empty {ℓ} : {A : Type ℓ} → List A → Bool
is_empty [] = true
is_empty (a ∷ as') = false

unfoldable pub get_schema_by_id : Store → String → ℤ → Result SchemaRecord
get_schema_by_id s registry_ctx id = elim (get_context s registry_ctx) [
  | none ↦ err schema_not_found
  | some cs ↦ elim (get cs.schemas id) [ none ↦ err schema_not_found | some schema ↦ ok schema ]
]

-- The loop that looks for the largest version that is not deleted.
unfoldable pub latest_from : ℤ → Map ℤ SubjectVersionInfo → ℤ
latest_from acc [] = acc
latest_from acc ((v, info) ∷ rest) =
    latest_from (if not info.deleted && ltb_ℤ acc v then v else acc) rest

-- From the version number on: the version must be there, and not deleted.
unfoldable pub fetch_version :
    ContextStore → String → Map ℤ SubjectVersionInfo → ℤ → Result SchemaRecord
fetch_version cs subject m version = elim (get m version) [
  | none ↦ err version_not_found
  | some info ↦
      if info.deleted then err version_not_found else elim (get cs.schemas info.schema_id) [
        | none ↦ err schema_not_found
        | some schema ↦ ok (full_record subject version schema info)
      ]
]

unfoldable pub lookup_version : ContextStore → String → ℤ → Result SchemaRecord
lookup_version cs subject version =
    let m = versions_of cs subject in
    if is_empty m
    then err subject_not_found
    else if version == negsuc 0
    then (let latest = latest_from (pos 0) m in
        if latest == pos 0 then err subject_not_found else fetch_version cs subject m latest)
    else fetch_version cs subject m version

unfoldable pub get_schema_by_subject_version : Store → String → String → ℤ → Result SchemaRecord
get_schema_by_subject_version s registry_ctx subject version = elim (get_context s registry_ctx) [
  | none ↦ err subject_not_found
  | some cs ↦ lookup_version cs subject version
]

-- The loop of `GetSchemasBySubject`.
unfoldable pub collect_schemas :
    Map ℤ SchemaRecord → String → Bool → Map ℤ SubjectVersionInfo → List SchemaRecord
collect_schemas schemas subject include_deleted [] = []
collect_schemas schemas subject include_deleted ((version, info) ∷ rest) =
    let more = collect_schemas schemas subject include_deleted rest in
    if not include_deleted && info.deleted then more else elim (get schemas info.schema_id) [
      | none ↦ more
      | some schema ↦ full_record subject version schema info ∷ more
    ]

abbrev pub by_version : SchemaRecord → SchemaRecord → Bool
by_version a b = leb_ℤ a.version b.version

unfoldable pub schemas_of_subject : ContextStore → String → Bool → Result (List SchemaRecord)
schemas_of_subject cs subject include_deleted =
    let m = versions_of cs subject in
    let found = collect_schemas cs.schemas subject include_deleted m in
    if is_empty m
    then err subject_not_found
    else if is_empty found
    then err subject_not_found
    else ok (sort by_version found)

unfoldable pub get_schemas_by_subject : Store → String → String → Bool → Result (List SchemaRecord)
get_schemas_by_subject s registry_ctx subject include_deleted = elim (get_context s registry_ctx) [
  | none ↦ err subject_not_found
  | some cs ↦ schemas_of_subject cs subject include_deleted
]

-- Whether some version is not deleted.
unfoldable pub has_active : Map ℤ SubjectVersionInfo → Bool
has_active [] = false
has_active ((v, info) ∷ rest) = not info.deleted || has_active rest

unfoldable pub find_fingerprint :
    Map ℤ SchemaRecord → String → String → Bool → Map ℤ SubjectVersionInfo → Result SchemaRecord
find_fingerprint schemas subject fingerprint include_deleted [] = err schema_not_found
find_fingerprint schemas subject fingerprint include_deleted ((version, info) ∷ rest) =
    let more = find_fingerprint schemas subject fingerprint include_deleted rest in
    if info.deleted && not include_deleted then more else elim (get schemas info.schema_id) [
      | none ↦ more
      | some schema ↦
          if schema.fingerprint == fingerprint
          then ok (full_record subject version schema info)
          else more
    ]

unfoldable pub lookup_fingerprint : ContextStore → String → String → Bool → Result SchemaRecord
lookup_fingerprint cs subject fingerprint include_deleted =
    let m = versions_of cs subject in
    if is_empty m
    then err subject_not_found
    else if not include_deleted && not (has_active m)
    then err subject_not_found
    else find_fingerprint cs.schemas subject fingerprint include_deleted m

unfoldable pub get_schema_by_fingerprint :
    Store → String → String → String → Bool → Result SchemaRecord
get_schema_by_fingerprint s registry_ctx subject fingerprint include_deleted =
    elim (get_context s registry_ctx) [
      | none ↦ err subject_not_found
      | some cs ↦ lookup_fingerprint cs subject fingerprint include_deleted
    ]

unfoldable pub lookup_global_fingerprint : ContextStore → String → Result SchemaRecord
lookup_global_fingerprint cs fingerprint = elim (get cs.fingerprints fingerprint) [
  | none ↦ err schema_not_found
  | some id ↦ elim (get cs.schemas id) [ none ↦ err schema_not_found | some schema ↦ ok schema ]
]

unfoldable pub get_schema_by_global_fingerprint : Store → String → String → Result SchemaRecord
get_schema_by_global_fingerprint s registry_ctx fingerprint = elim (get_context s registry_ctx) [
  | none ↦ err schema_not_found
  | some cs ↦ lookup_global_fingerprint cs fingerprint
]

-- The loop of `GetLatestSchema`, which keeps the version's info beside its number.
unfoldable pub latest_entry_from :
    ℤ × Option SubjectVersionInfo → Map ℤ SubjectVersionInfo → ℤ × Option SubjectVersionInfo
latest_entry_from acc [] = acc
latest_entry_from acc ((v, info) ∷ rest) =
    latest_entry_from (if not info.deleted && ltb_ℤ acc.0 v then (v, some info) else acc) rest

unfoldable pub latest_of : ContextStore → String → Result SchemaRecord
latest_of cs subject =
    let m = versions_of cs subject in
    let (version, found) = latest_entry_from (pos 0, none) m in
    if is_empty m then err subject_not_found else elim found [
      | none ↦ err subject_not_found
      | some info ↦ elim (get cs.schemas info.schema_id) [
        | none ↦ err schema_not_found
        | some schema ↦ ok (full_record subject version schema info)
      ]
    ]

unfoldable pub get_latest_schema : Store → String → String → Result SchemaRecord
get_latest_schema s registry_ctx subject = elim (get_context s registry_ctx) [
  | none ↦ err subject_not_found
  | some cs ↦ latest_of cs subject
]

unfoldable pub subject_exists : Store → String → String → Bool
subject_exists s registry_ctx subject = elim (get_context s registry_ctx) [
  | none ↦ false
  | some cs ↦ has_active (versions_of cs subject)
]

unfoldable pub collect_subjects : Bool → Map String (Map ℤ SubjectVersionInfo) → List String
collect_subjects include_deleted [] = []
collect_subjects include_deleted ((subject, m) ∷ rest) =
    let more = collect_subjects include_deleted rest in
    if include_deleted || has_active m then subject ∷ more else more

unfoldable pub list_subjects : Store → String → Bool → List String
list_subjects s registry_ctx include_deleted = elim (get_context s registry_ctx) [
  | none ↦ []
  | some cs ↦ sort string_leb (collect_subjects include_deleted cs.subject_versions)
]

-- Whether the version that a reverse entry names is there and may be shown.
unfoldable pub is_visible : ContextStore → Bool → SubjectVersion → Bool
is_visible cs include_deleted sv = elim (version_info cs sv.subject sv.version) [
  | none ↦ false
  | some info ↦ include_deleted || not info.deleted
]

unfoldable pub visible_uses : ContextStore → Bool → List SubjectVersion → List SubjectVersion
visible_uses cs include_deleted [] = []
visible_uses cs include_deleted (sv ∷ rest) =
    let more = visible_uses cs include_deleted rest in
    if is_visible cs include_deleted sv then sv ∷ more else more

unfoldable pub get_versions_by_schema_id : Store → String → ℤ → Bool → Result (List SubjectVersion)
get_versions_by_schema_id s registry_ctx id include_deleted = elim (get_context s registry_ctx) [
  | none ↦ err schema_not_found
  | some cs ↦ elim (get cs.schemas id) [
    | none ↦ err schema_not_found
    | some schema ↦ ok (visible_uses cs include_deleted (uses_of cs id))
  ]
]

-- `subjectSet[subject] = true`, and then the keys of the set.
unfoldable pub add_subject : String → List String → List String
add_subject subject [] = subject ∷ []
add_subject subject (t ∷ rest) = if t == subject then t ∷ rest else t ∷ add_subject subject rest

unfoldable pub subject_set : List SubjectVersion → List String → List String
subject_set [] acc = acc
subject_set (sv ∷ rest) acc = subject_set rest (add_subject sv.subject acc)

unfoldable pub get_subjects_by_schema_id : Store → String → ℤ → Bool → Result (List String)
get_subjects_by_schema_id s registry_ctx id include_deleted = elim (get_context s registry_ctx) [
  | none ↦ err schema_not_found
  | some cs ↦ elim (get cs.schemas id) [
    | none ↦ err schema_not_found
    | some schema ↦
        ok (sort string_leb (subject_set (visible_uses cs include_deleted (uses_of cs id)) []))
  ]
]

-- Whether a schema has a reference to the given version of the given subject.
unfoldable pub references_version : String → ℤ → List Reference → Bool
references_version subject version [] = false
references_version subject version (ref ∷ rest) =
    ref.subject == subject && ref.version == version || references_version subject version rest

unfoldable pub referencing_versions :
    Map ℤ SchemaRecord → String → ℤ → String → Map ℤ SubjectVersionInfo → List SubjectVersion
referencing_versions schemas subject version subj [] = []
referencing_versions schemas subject version subj ((ver, info) ∷ rest) =
    let more = referencing_versions schemas subject version subj rest in
    if info.deleted then more else elim (get schemas info.schema_id) [
      | none ↦ more
      | some schema ↦
          if references_version subject version schema.references
          then record { subject = subj; version = ver } ∷ more
          else more
    ]

unfoldable pub referencing_subjects :
    Map ℤ SchemaRecord → String → ℤ → Map String (Map ℤ SubjectVersionInfo) → List SubjectVersion
referencing_subjects schemas subject version [] = []
referencing_subjects schemas subject version ((subj, m) ∷ rest) =
    referencing_versions schemas subject version subj m
    ++ referencing_subjects schemas subject version rest

unfoldable pub get_referenced_by : Store → String → String → ℤ → List SubjectVersion
get_referenced_by s registry_ctx subject version = elim (get_context s registry_ctx) [
  | none ↦ []
  | some cs ↦ referencing_subjects cs.schemas subject version cs.subject_versions
]
