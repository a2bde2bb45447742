-- ===== src/Registry/Backend.antt =====
-- What the registry service is given: internal/storage/storage.go, `Storage`; internal/schema/types.go,
-- `Parser` and `ParsedSchema`; and its own errors, internal/registry/errors.go.
use axonops_schema_registry.Common.{
  String, ◌≡◌, refl, subst, ◌⊎◌, inl, inr, Bool, true, false, Option, none, some, List, ℕ_eq,
  string_eq, ℤ, ℤ_eq,
}
use axonops_schema_registry.Storage.{
  Error, not_found, subject_not_found, schema_exists, schema_id_conflict, Result, ok, err,
  Reference, SchemaRecord, SubjectVersion, ConfigRecord, ModeRecord, ExporterRecord,
  ExporterStatusRecord, KekRecord, DekRecord,
}
use axonops_schema_registry.Rules.{RuleError}
use axonops_schema_registry.Compatibility.Checker.{Checkers}

-- The methods of `Storage` that the service calls. A read gives a value or an error; a write gives the
-- error, if any, and the state that it leaves.
pub record Backend (S : Type 0) : Type 0 where
  pub get_schema_by_id : S → String → ℤ → Result SchemaRecord
  pub get_schema_by_subject_version : S → String → String → ℤ → Result SchemaRecord
  pub get_schemas_by_subject : S → String → String → Bool → Result (List SchemaRecord)
  pub get_schema_by_fingerprint : S → String → String → String → Bool → Result SchemaRecord
  pub get_latest_schema : S → String → String → Result SchemaRecord
  pub create_schema : S → String → SchemaRecord → Option Error × SchemaRecord × S
  pub import_schema : S → String → SchemaRecord → Option Error × SchemaRecord × S
  pub delete_schema : S → String → String → ℤ → Bool → Option Error × S
  pub delete_subject : S → String → String → Bool → Result (List ℤ) × S
  pub list_subjects : S → String → Bool → Result (List String)
  pub subject_exists : S → String → String → Result Bool
  pub get_referenced_by : S → String → String → ℤ → Result (List SubjectVersion)
  pub list_contexts : S → Result (List String)
  pub get_max_schema_id : S → String → Result ℤ
  pub set_next_id : S → String → ℤ → Option Error × S
  pub get_config : S → String → String → Result ConfigRecord
  pub set_config : S → String → String → ConfigRecord → Option Error × S
  pub delete_config : S → String → String → Option Error × S
  pub get_global_config : S → String → Result ConfigRecord
  pub set_global_config : S → String → ConfigRecord → Option Error × S
  pub delete_global_config : S → String → Option Error × S
  pub get_mode : S → String → String → Result ModeRecord
  pub set_mode : S → String → String → ModeRecord → Option Error × S
  pub delete_mode : S → String → String → Option Error × S
  pub get_global_mode : S → String → Result ModeRecord
  pub set_global_mode : S → String → ModeRecord → Option Error × S
  pub delete_global_mode : S → String → Option Error × S

-- The parsers of one schema type, on parsed schemas of a type `P`.
pub record Parser (P : Type 0) : Type 0 where
  pub parse : String → List Reference → Option P
  pub canonical_string : P → String
  pub fingerprint : P → String
  pub normalize : P → P
  pub has_top_level_field : P → String → Bool
  pub formatted_string : P → String → String

-- The service, `Registry`, on parsed schemas of a type `P`. `digest` is SHA-256 in hexadecimal.
pub record Registry (S P : Type 0) : Type 0 where
  pub storage : Backend S
  pub schema_parser : String → Option (Parser P)
  pub compat_checker : Checkers
  pub default_config : String
  pub digest : String → String

-- The methods of `Storage` on exporters. A creation and an update read the clock in the backend.
pub record ExporterBackend (S : Type 0) : Type 0 where
  pub create_exporter : S → ExporterRecord → Option Error × S
  pub get_exporter : S → String → Result ExporterRecord
  pub update_exporter : S → ExporterRecord → Option Error × S
  pub get_exporter_status : S → String → Result ExporterStatusRecord
  pub set_exporter_status : S → String → ExporterStatusRecord → Option Error × S

-- The methods of `Storage` on encryption keys. `CreateDEK` gives the record its version.
pub record KeyBackend (S : Type 0) : Type 0 where
  pub create_kek : S → KekRecord → Option Error × S
  pub get_kek : S → String → Bool → Result KekRecord
  pub update_kek : S → KekRecord → Option Error × S
  pub create_dek : S → DekRecord → Option Error × DekRecord × S
  pub get_dek : S → String → String → ℤ → String → Bool → Result DekRecord
  pub update_dek : S → DekRecord → Option Error × S

pub data RegistryError : Type 0 where
  -- an error of the backend, as it is or with text around it
  from_storage : Error → RegistryError
  unsupported_schema_type : String → RegistryError
  failed_resolve_references : Error → RegistryError
  -- no error of the code: the references of references are followed to a depth that is given
  too_deep : RegistryError
  invalid_schema : RegistryError
  invalid_rule_set : RuleError → RegistryError
  incompatible_schema : RegistryError
  reference_exists : ℤ → RegistryError
  invalid_compatibility : String → RegistryError
  invalid_mode : String → RegistryError
  import_id_conflict : ℤ → RegistryError
  exporter_name_missing : RegistryError
  key_field_missing : String → RegistryError
  invalid_algorithm : String → RegistryError
  kms_not_configured no_kms_provider kms_failed : RegistryError
  no_key_material bad_key_material kms_mismatch : RegistryError
  invalid_context_type : String → RegistryError

pub data Answer {ℓ} (A : Type ℓ) : Type ℓ where
  done : A → Answer A
  failed : RegistryError → Answer A

-- `errors.Is` against one sentinel
abbrev pub is_not_found : Error → Bool
is_not_found not_found = true
is_not_found _ = false

abbrev pub is_subject_not_found : Error → Bool
is_subject_not_found subject_not_found = true
is_subject_not_found _ = false

abbrev pub is_schema_exists : Error → Bool
is_schema_exists schema_exists = true
is_schema_exists _ = false

abbrev pub is_id_conflict : Error → Bool
is_id_conflict schema_id_conflict = true
is_id_conflict _ = false

-- A storage answer as an answer of the service.
abbrev pub pass {ℓ} : {A : Type ℓ} → Result A → Answer A
pass (ok a) = done a
pass (err e) = failed (from_storage e)

-- A write's error as an answer of the service.
abbrev pub pass_write {ℓ} : {A : Type ℓ} → Option Error → A → Answer A
pass_write none a = done a
pass_write (some e) a = failed (from_storage e)

-- The field of a record that was read.
abbrev pub map_result {ℓ κ} : {A : Type ℓ} {B : Type κ} → (A → B) → Result A → Result B
map_result f (ok a) = ok (f a)
map_result f (err e) = err e

pub Result-cases {ℓ} :
    {A : Type ℓ} (r : Result A) → ((a : A) × (r ≡ ok a)) ⊎ ((e : Error) × (r ≡ err e))
Result-cases (ok a) = inl (a, refl)
Result-cases (err e) = inr (e, refl)

-- A read fails only where there is nothing.
abbrev pub OrMissing {ℓ} : {A : Type ℓ} → Result A → Type 0
OrMissing (ok a) = Unit
OrMissing (err e) = e ≡ not_found

pub OrMissing-err {ℓ} :
    {A : Type ℓ} (r : Result A) (e : Error) → OrMissing r → r ≡ err e → e ≡ not_found
OrMissing-err r e h p = subst OrMissing p h

pub Answer-cases {ℓ} :
    {A : Type ℓ} (r : Answer A) → ((a : A) × (r ≡ done a)) ⊎ ((e : RegistryError) × (r ≡ failed e))
Answer-cases (done a) = inl (a, refl)
Answer-cases (failed e) = inr (e, refl)

-- The next step of an operation, where the one before did not fail.
abbrev pub chain {ℓ κ} : {A : Type ℓ} {B : Type κ} → Answer A → (A → Answer B) → Answer B
chain (done a) k = k a
chain (failed e) k = failed e

pub chain_done :
    {A B : Type 0} (a : Answer A) (k : A → Answer B) (y : B)
    → chain a k ≡ done y
    → (x : A) × (a ≡ done x) × (k x ≡ done y)
chain_done (done x) k y h = (x, refl, h)
chain_done (failed e) k y h = absurd (cc h)
