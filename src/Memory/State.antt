-- ===== src/Memory/State.antt =====
-- The state of the in-memory store: internal/storage/memory/store.go, `contextStore` and `Store`.
-- The mutex makes each method one atomic step, so a method is a function on this state.
use axonops_schema_registry.Common.{
  string_eq, ℤ_eq, ℕ, String, Bool, Option, none, some, List, [], ℤ, pos, Map, get, put,
}
use axonops_schema_registry.Storage.{
  Metadata, RuleSet, SchemaRecord, SubjectVersion, ConfigRecord, ModeRecord, UserRecord,
  ApiKeyRecord, ExporterRecord, ExporterStatusRecord, KekRecord, DekRecord,
}

abbrev pub default_context : String
default_context = "."

pub record SubjectVersionInfo : Type 0 where
  pub schema_id : ℤ
  pub version : ℤ
  pub deleted : Bool
  pub created_at : ℕ
  pub metadata : Option Metadata
  pub rule_set : Option RuleSet

pub record ContextStore : Type 0 where
  pub schemas : Map ℤ SchemaRecord
  pub subject_versions : Map String (Map ℤ SubjectVersionInfo)
  pub next_subject_version : Map String ℤ
  pub fingerprints : Map String ℤ
  pub id_to_subject_versions : Map ℤ (List SubjectVersion)
  pub configs : Map String ConfigRecord
  pub modes : Map String ModeRecord
  pub global_config : Option ConfigRecord
  pub global_mode : Option ModeRecord
  pub next_id : ℤ

unfoldable pub new_context_store : ContextStore
new_context_store = record {
  schemas = [];
  subject_versions = [];
  next_subject_version = [];
  fingerprints = [];
  id_to_subject_versions = [];
  configs = [];
  modes = [];
  global_config = none;
  global_mode = none;
  next_id = pos 1;
}

pub record Store : Type 0 where
  pub contexts : Map String ContextStore
  pub users : Map ℤ UserRecord
  pub users_by_username : Map String ℤ
  pub next_user_id : ℤ
  pub api_keys : Map ℤ ApiKeyRecord
  pub api_keys_by_hash : Map String ℤ
  pub next_api_key_id : ℤ
  pub exporters : Map String ExporterRecord
  pub exporter_statuses : Map String ExporterStatusRecord
  pub keks : Map String KekRecord
  pub deks : Map String (Map String (Map ℤ DekRecord))

unfoldable pub new_store : Store
unfolding put new_context_store
new_store = record {
  contexts = put [] default_context new_context_store;
  users = [];
  users_by_username = [];
  next_user_id = pos 1;
  api_keys = [];
  api_keys_by_hash = [];
  next_api_key_id = pos 1;
  exporters = [];
  exporter_statuses = [];
  keks = [];
  deks = [];
}

-- The value of a missing key: the zero value.
abbrev pub or_zero {ℓ} : {A : Type ℓ} → Option A → A → A
or_zero none zero_value = zero_value
or_zero (some a) zero_value = a

unfoldable pub get_or_create_context : Store → String → ContextStore × Store
get_or_create_context s name = elim (get s.contexts name) [
  | none ↦ (new_context_store, record s { contexts = put s.contexts name new_context_store })
  | some cs ↦ (cs, s)
]

unfoldable pub get_context : Store → String → Option ContextStore
get_context s name = get s.contexts name

-- A method that changes the context that it was given writes it back.
abbrev pub set_context : Store → String → ContextStore → Store
set_context s name cs = record s { contexts = put s.contexts name cs }

-- `cs.subjectVersions[subject]`, where a missing key reads as an empty map
abbrev pub versions_of : ContextStore → String → Map ℤ SubjectVersionInfo
versions_of cs subject = or_zero (get cs.subject_versions subject) []

abbrev pub version_info : ContextStore → String → ℤ → Option SubjectVersionInfo
version_info cs subject version = get (versions_of cs subject) version

-- `cs.idToSubjectVersions[id]`
abbrev pub uses_of : ContextStore → ℤ → List SubjectVersion
uses_of cs id = or_zero (get cs.id_to_subject_versions id) []

-- `cs.nextSubjectVersion[subject]`: the version that was given out last
abbrev pub last_version : ContextStore → String → ℤ
last_version cs subject = or_zero (get cs.next_subject_version subject) (pos 0)
