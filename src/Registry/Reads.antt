-- ===== src/Registry/Reads.antt =====
-- Reads of the service: internal/registry/registry.go, `FormatSchema`, `GetVersions`, `SubjectCount`,
-- `ValidateSchema`, `ListContexts`, `GetRawSchemaByID`, and the configurations and modes of one level.
use axonops_schema_registry.Common.{
  ℕ, String, Bool, true, false, not, Option, none, some, List, [], ◌∷◌, map, if◌then◌else◌, ℕ_eq,
  string_eq, ◌==◌, ℤ, ℤ_eq, length,
}
use axonops_schema_registry.Storage.{not_found, Result, ok, err, Reference, SchemaRecord}
use axonops_schema_registry.Registry.Backend.{
  Backend, Registry, RegistryError, done, failed, map_result,
}
use axonops_schema_registry.Registry.Levels.{default_registry_context, global_context}
use axonops_schema_registry.Registry.Register.{or_avro, parse_with}

pub record ValidateResult : Type 0 where
  pub valid : Bool
  pub schema_type : String
  pub fingerprint : String
  pub canonical : String
  pub error : Option RegistryError

module _ {S P : Type 0} (r : Registry S P) where
  -- A reference without its text gets that of the stored schema, where there is one.
  unfoldable pub with_texts : S → String → List Reference → List Reference
  with_texts s registry_ctx [] = []
  with_texts s registry_ctx (ref ∷ rest) =
      let others = with_texts s registry_ctx rest in
      let found = r.storage.get_schema_by_subject_version s registry_ctx ref.subject ref.version in
      (if ref.schema == ""
        then elim found [ ok x ↦ record ref { schema = x.schema } | err _ ↦ ref ]
        else ref)
      ∷ others

  unfoldable pub format_schema : S → String → SchemaRecord → String → String
  format_schema s registry_ctx x format =
      if format == "" then x.schema else elim (r.schema_parser (or_avro x.schema_type)) [
        | none ↦ x.schema
        | some parser ↦ elim (parser.parse x.schema (with_texts s registry_ctx x.references)) [
          | none ↦ x.schema
          | some parsed ↦ parser.formatted_string parsed format
        ]
      ]

  unfoldable pub validate_schema :
      ℕ → S → String → String → String → List Reference → ValidateResult
  validate_schema fuel s registry_ctx schema schema_type refs =
      let type = or_avro schema_type in
      elim (parse_with r fuel s registry_ctx schema type refs) [
        | failed e ↦ record {
          valid = false;
          schema_type = type;
          fingerprint = "";
          canonical = "";
          error = some e;
        }
        | done p ↦ record {
          valid = true;
          schema_type = type;
          fingerprint = p.parser.fingerprint p.parsed;
          canonical = p.parser.canonical_string p.parsed;
          error = none;
        }
      ]

module _ {S : Type 0} (b : Backend S) where
  unfoldable pub subject_count : S → Result ℕ
  subject_count s = map_result length (b.list_subjects s default_registry_context false)

  unfoldable pub get_versions : S → String → String → Bool → Result (List ℤ)
  get_versions s registry_ctx subject deleted =
      map_result (map (λ x. x.version)) (b.get_schemas_by_subject s registry_ctx subject deleted)

  unfoldable pub get_raw_schema_by_id : S → String → ℤ → Result String
  get_raw_schema_by_id s registry_ctx id =
      map_result (λ x. x.schema) (b.get_schema_by_id s registry_ctx id)

  unfoldable pub get_raw_schema_by_subject_version : S → String → String → ℤ → Result String
  get_raw_schema_by_subject_version s registry_ctx subject version =
      map_result (λ x. x.schema) (b.get_schema_by_subject_version s registry_ctx subject version)

  -- The contexts but for the global one.
  unfoldable pub real_contexts : List String → List String
  real_contexts [] = []
  real_contexts (c ∷ rest) =
      let others = real_contexts rest in if not (c == global_context) then c ∷ others else others

  unfoldable pub list_real_contexts : S → Result (List String)
  list_real_contexts s = map_result real_contexts (b.list_contexts s)

  unfoldable pub get_global_level : S → String → Result String
  get_global_level s registry_ctx =
      map_result (λ c. c.compatibility_level) (b.get_global_config s registry_ctx)

  unfoldable pub get_subject_mode : S → String → String → Result String
  get_subject_mode s registry_ctx subject =
      if subject == ""
      then err not_found
      else map_result (λ m. m.mode) (b.get_mode s registry_ctx subject)

  unfoldable pub get_context_mode : S → String → Result String
  get_context_mode s registry_ctx = map_result (λ m. m.mode) (b.get_global_mode s registry_ctx)
