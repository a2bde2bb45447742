-- ===== src/Memory/Delete.antt =====
-- `DeleteSchema` and `DeleteSubject` of internal/storage/memory/store.go.
use axonops_schema_registry.Common.{
  sort, get, delete, put, String, Bool, true, not, ◌&&◌, ◌||◌, Option, none, some, List, [], ◌∷◌,
  if◌then◌else◌, ◌==◌, ℕ_eq, string_eq, ℤ, ℤ_eq, leb_ℤ, Map,
}
use axonops_schema_registry.Storage.{
  Error, subject_not_found, version_not_found, subject_deleted, subject_not_soft_deleted,
  version_not_soft_deleted, Result, ok, err, SubjectVersion,
}
use axonops_schema_registry.Memory.State.{
  SubjectVersionInfo, ContextStore, Store, get_context, set_context, versions_of, uses_of,
}
use axonops_schema_registry.Memory.Lookup.{is_empty, has_active}

-- The reverse entries of an ID but the one for this subject and version.
unfoldable pub remove_use : String → ℤ → List SubjectVersion → List SubjectVersion
remove_use subject version [] = []
remove_use subject version (sv ∷ rest) =
    let more = remove_use subject version rest in
    if not (sv.subject == subject) || not (sv.version == version) then sv ∷ more else more

-- The fingerprint of a schema that goes away is forgotten.
unfoldable pub forget_fingerprint : ContextStore → ℤ → Map String ℤ
forget_fingerprint cs id = elim (get cs.schemas id) [
  | none ↦ cs.fingerprints
  | some schema ↦ delete cs.fingerprints schema.fingerprint
]

-- The version no longer uses its schema; a schema that nothing uses is dropped.
unfoldable pub release : ContextStore → String → ℤ → ℤ → ContextStore
release cs subject version id =
    let uses = remove_use subject version (uses_of cs id) in
    if is_empty uses
    then record cs {
      fingerprints = forget_fingerprint cs id;
      schemas = delete cs.schemas id;
      id_to_subject_versions = delete cs.id_to_subject_versions id;
    }
    else record cs { id_to_subject_versions = put cs.id_to_subject_versions id uses }

abbrev pub set_versions : ContextStore → String → Map ℤ SubjectVersionInfo → ContextStore
set_versions cs subject m = record cs { subject_versions = put cs.subject_versions subject m }

unfoldable pub delete_version : ContextStore → String → ℤ → Bool → SubjectVersionInfo → ContextStore
delete_version cs subject version permanent info =
    let m = versions_of cs subject in
    if permanent
    then release (set_versions cs subject (delete m version)) subject version info.schema_id
    else set_versions cs subject (put m version (record info { deleted = true }))

unfoldable pub delete_schema_in : ContextStore → String → ℤ → Bool → Option Error × ContextStore
delete_schema_in cs subject version permanent =
    let m = versions_of cs subject in
    if is_empty m then (some subject_not_found, cs) else elim (get m version) [
      | none ↦ (some version_not_found, cs)
      | some info ↦
          if permanent && not info.deleted
          then (some version_not_soft_deleted, cs)
          else (none, delete_version cs subject version permanent info)
    ]

unfoldable pub delete_schema : Store → String → String → ℤ → Bool → Option Error × Store
delete_schema s registry_ctx subject version permanent = elim (get_context s registry_ctx) [
  | none ↦ (some subject_not_found, s)
  | some cs ↦
      let (e, cs') = delete_schema_in cs subject version permanent in
      (e, set_context s registry_ctx cs')
]

-- The loop of a soft delete: each version is marked, and those that were not are returned.
unfoldable pub mark_deleted : Map ℤ SubjectVersionInfo → Map ℤ SubjectVersionInfo
mark_deleted [] = []
mark_deleted ((v, info) ∷ rest) = (v, record info { deleted = true }) ∷ mark_deleted rest

unfoldable pub active_versions : Map ℤ SubjectVersionInfo → List ℤ
active_versions [] = []
active_versions ((v, info) ∷ rest) =
    let more = active_versions rest in if info.deleted then more else v ∷ more

-- The loop of a permanent delete: each version releases its schema.
unfoldable pub release_all : ContextStore → String → Map ℤ SubjectVersionInfo → ContextStore
release_all cs subject [] = cs
release_all cs subject ((v, info) ∷ rest) =
    release_all (release cs subject v info.schema_id) subject rest

abbrev pub keys {ℓ κ} : {K : Type ℓ} {V : Type κ} → Map K V → List K
keys [] = []
keys ((k, v) ∷ m) = k ∷ keys m

-- What a permanent delete of a subject removes beside its schemas.
unfoldable pub forget_subject : ContextStore → String → ContextStore
forget_subject cs subject = record cs {
  subject_versions = delete cs.subject_versions subject;
  next_subject_version = delete cs.next_subject_version subject;
  configs = delete cs.configs subject;
  modes = delete cs.modes subject;
}

unfoldable pub delete_subject_in : ContextStore → String → Bool → Result (List ℤ) × ContextStore
delete_subject_in cs subject permanent =
    let m = versions_of cs subject in
    if is_empty m
    then (err subject_not_found, cs)
    else if permanent
    then (if has_active m
        then (err subject_not_soft_deleted, cs)
        else (ok (sort leb_ℤ (keys m)), forget_subject (release_all cs subject m) subject))
    else if has_active m
    then (ok (sort leb_ℤ (active_versions m)), set_versions cs subject (mark_deleted m))
    else (err subject_deleted, cs)

unfoldable pub delete_subject : Store → String → String → Bool → Result (List ℤ) × Store
delete_subject s registry_ctx subject permanent = elim (get_context s registry_ctx) [
  | none ↦ (err subject_not_found, s)
  | some cs ↦
      let (r, cs') = delete_subject_in cs subject permanent in (r, set_context s registry_ctx cs')
]
