-- ===== src/Memory/Create.antt =====
-- `CreateSchema` of internal/storage/memory/store.go.
use axonops_schema_registry.Common.{
  string_eq, ℤ_eq, ℕ, String, Bool, false, not, ◌&&◌, Option, none, some, [], ◌∷◌, ◌++◌, ℤ, pos,
  inc64, Map, get, put, ◌==◌, if◌then◌else◌,
}
use axonops_schema_registry.Storage.{Error, schema_exists, Metadata, RuleSet, SchemaRecord}
use axonops_schema_registry.Storage.DeepEqual.{metadata_eq, rule_set_eq}
use axonops_schema_registry.Memory.State.{
  SubjectVersionInfo, ContextStore, Store, get_or_create_context, set_context, versions_of, uses_of,
  last_version,
}

unfoldable pub normalize_metadata : Option Metadata → Metadata
normalize_metadata none = record { tags = none; properties = none; sensitive = none }
normalize_metadata (some m) = m

unfoldable pub normalize_rule_set : Option RuleSet → RuleSet
normalize_rule_set none = record {
  migration_rules = none;
  domain_rules = none;
  encoding_rules = none;
}
normalize_rule_set (some r) = r

-- A subject's version map is made when the subject is first written to.
unfoldable pub ensure_subject : ContextStore → String → ContextStore
ensure_subject cs subject = elim (get cs.subject_versions subject) [
  | none ↦ record cs { subject_versions = put cs.subject_versions subject [] }
  | some m ↦ cs
]

-- The same contract: equal metadata and equal rule sets.
unfoldable pub same_contract : SubjectVersionInfo → SchemaRecord → Bool
same_contract info r =
    metadata_eq (normalize_metadata info.metadata) (normalize_metadata r.metadata)
    && rule_set_eq (normalize_rule_set info.rule_set) (normalize_rule_set r.rule_set)

unfoldable pub is_duplicate : Map ℤ SchemaRecord → SchemaRecord → SubjectVersionInfo → Bool
is_duplicate schemas r info = not info.deleted && elim (get schemas info.schema_id) [
  | none ↦ false
  | some existing ↦ existing.fingerprint == r.fingerprint && same_contract info r
]

-- The loop over the subject's versions that looks for a full duplicate.
unfoldable pub find_duplicate :
    Map ℤ SchemaRecord → SchemaRecord → Map ℤ SubjectVersionInfo → Option SubjectVersionInfo
find_duplicate schemas r [] = none
find_duplicate schemas r ((v, info) ∷ rest) =
    if is_duplicate schemas r info then some info else find_duplicate schemas r rest

-- What is stored under an ID: the content, with no subject, version or contract.
unfoldable pub content : ℤ → SchemaRecord → SchemaRecord
content id r = record {
  id = id;
  subject = "";
  version = pos 0;
  schema_type = r.schema_type;
  schema = r.schema;
  references = r.references;
  metadata = none;
  rule_set = none;
  fingerprint = r.fingerprint;
  deleted = false;
  created_at = 0;
}

-- The ID of the content: the one that its fingerprint has in the context, or the next one.
unfoldable pub assign_id : ContextStore → SchemaRecord → ℤ × ContextStore
assign_id cs r = elim (get cs.fingerprints r.fingerprint) [
  | some existing ↦ (existing, cs)
  | none ↦ (
    cs.next_id,
    record cs {
      next_id = inc64 cs.next_id;
      fingerprints = put cs.fingerprints r.fingerprint cs.next_id;
      schemas = put cs.schemas cs.next_id (content cs.next_id r);
    },
  )
]

-- The subject-version mapping, and the reverse one from the ID.
unfoldable pub add_version : ContextStore → String → ℤ → SubjectVersionInfo → ContextStore
add_version cs subject version info = record cs {
  subject_versions = put cs.subject_versions subject (put (versions_of cs subject) version info);
  id_to_subject_versions =
      put cs.id_to_subject_versions info.schema_id
        (uses_of cs info.schema_id ++ record { subject = subject; version = version } ∷ []);
}

abbrev pub new_info : ℤ → ℤ → ℕ → SchemaRecord → SubjectVersionInfo
new_info id version now r = record {
  schema_id = id;
  version = version;
  deleted = false;
  created_at = now;
  metadata = r.metadata;
  rule_set = r.rule_set;
}

-- The version counter goes up by one, and the new version is stored.
unfoldable pub append_version : ContextStore → SchemaRecord → ℤ → ℕ → ℤ × ContextStore
append_version cs r id now =
    let version = inc64 (last_version cs r.subject) in
    (
      version,
      add_version
          (record cs { next_subject_version = put cs.next_subject_version r.subject version })
          r.subject version (new_info id version now r),
    )

-- On one context. `now` and `later` are the two readings of the clock. The record comes back with
-- the fields that the method assigns.
unfoldable pub create_in :
    ContextStore → ℕ → ℕ → SchemaRecord → Option Error × SchemaRecord × ContextStore
create_in cs now later r =
    let cs' = ensure_subject cs r.subject in
    elim (find_duplicate cs'.schemas r (versions_of cs' r.subject)) [
      | some info ↦
          (some schema_exists, record r { id = info.schema_id; version = info.version }, cs')
      | none ↦
          let (id, with_id) = assign_id cs' r in
          let (version, stored) = append_version with_id r id now in
          (none, record r { id = id; version = version; created_at = later }, stored)
    ]

unfoldable pub create_schema :
    Store → ℕ → ℕ → String → SchemaRecord → Option Error × SchemaRecord × Store
create_schema s now later registry_ctx r =
    let (cs, s') = get_or_create_context s registry_ctx in
    let (e, r', cs') = create_in cs now later r in (e, r', set_context s' registry_ctx cs')
