-- ===== src/Registry/Register.antt =====
-- Registration: internal/registry/registry.go, `RegisterSchema`.
use axonops_schema_registry.Common.{
  ℕ, String, Bool, false, not, ◌&&◌, ◌||◌, Option, none, some, List, [], ◌∷◌, if◌then◌else◌, ℕ_eq,
  string_eq, ◌==◌, ℤ, pos, ℤ_eq, leb_ℤ,
}
use axonops_schema_registry.Storage.{
  Error, Result, ok, err, Metadata, RuleSet, Reference, SchemaRecord,
}
use axonops_schema_registry.Compatibility.Result.{CheckResult}
use axonops_schema_registry.Compatibility.Mode.{Mode, mode_none}
use axonops_schema_registry.Compatibility.Checker.{SchemaWithRefs, check}
use axonops_schema_registry.Registry.Backend.{
  Parser, Registry, from_storage, unsupported_schema_type, failed_resolve_references,
  invalid_schema, invalid_rule_set, incompatible_schema, Answer, done, failed, is_subject_not_found,
  is_schema_exists, chain,
}
use axonops_schema_registry.Registry.Levels.{
  validate_optional, get_config, is_normalize_enabled, is_validate_fields_enabled,
}
use axonops_schema_registry.Registry.Metadata.{
  metadata_equal, rule_set_equal, strip_confluent_version, metadata_equal_for_dedup,
  extract_confluent_version_target, auto_populate_confluent_version, maybe_set_metadata_rule_set,
}
use axonops_schema_registry.Registry.Reserved.{
  ReservedMessage, validate_reserved_fields, filter_by_compatibility_group,
}
use axonops_schema_registry.Registry.References.{resolve_references, compute_global_fingerprint}
pub mod Outcomes
pub mod Stored

-- `opts` and `normalize` are given with their zero values where a caller leaves them out.
pub record RegisterOpts : Type 0 where
  pub normalize : Bool
  pub metadata : Option Metadata
  pub rule_set : Option RuleSet

abbrev pub or_avro : String → String
or_avro schema_type = if schema_type == "" then "AVRO" else schema_type

-- What the first steps of an operation find: the parser, the schema, the references with their texts.
pub record Parsed (P : Type 0) : Type 0 where
  pub parser : Parser P
  pub parsed : P
  pub resolved_refs : List Reference

-- An error of `resolveReferences` that is passed on without `ErrFailedResolveReferences`.
abbrev pub unjoined {ℓ} : {A : Type ℓ} → Answer A → Answer A
unjoined (failed (failed_resolve_references e)) = failed (from_storage e)
unjoined a = a

module _ {S P : Type 0} (r : Registry S P) (fuel : ℕ) where
  -- The steps that the operations share, up to the parser's answer.
  unfoldable pub parse_with : S → String → String → String → List Reference → Answer (Parsed P)
  parse_with s registry_ctx schema schema_type refs = elim (r.schema_parser schema_type) [
    | none ↦ failed (unsupported_schema_type schema_type)
    | some parser ↦ chain (resolve_references r.storage fuel s registry_ctx refs) (λ resolved.
        elim (parser.parse schema resolved) [
          | none ↦ failed invalid_schema
          | some parsed ↦
              done (record { parser = parser; parsed = parsed; resolved_refs = resolved })
        ])
  ]

  -- The parsed schema and the text that are worked with.
  abbrev pub normalized_if : Bool → Parsed P → String → P × String
  normalized_if should_normalize p schema =
      let n = p.parser.normalize p.parsed in
      if should_normalize then (n, p.parser.canonical_string n) else (p.parsed, schema)

  abbrev pub compat_level : S → String → String → String
  compat_level s registry_ctx subject =
      elim (get_config r.storage r.default_config s registry_ctx subject) [
        | done level ↦ level
        | failed _ ↦ r.default_config
      ]

  unfoldable pub with_refs : S → String → List SchemaRecord → Answer (List SchemaWithRefs)
  with_refs s registry_ctx [] = done []
  with_refs s registry_ctx (e ∷ rest) =
      chain (unjoined (resolve_references r.storage fuel s registry_ctx e.references)) (λ refs.
        chain (with_refs s registry_ctx rest)
          (λ others. done (record { schema = e.schema; references = refs } ∷ others)))

  abbrev pub group_answer : CheckResult → Answer (Unit {0})
  group_answer result = if not result.is_compatible then failed incompatible_schema else done tt

  -- The check against the versions of the group.
  abbrev pub check_group :
      S → String → String → SchemaWithRefs → Mode → List SchemaRecord → Answer (Unit {0})
  check_group s registry_ctx schema_type new_schema mode [] = done tt
  check_group s registry_ctx schema_type new_schema mode (e ∷ rest) =
      chain (with_refs s registry_ctx (e ∷ rest))
        (λ schemas. group_answer (check r.compat_checker mode schema_type new_schema schemas))

  -- The part of `RegisterSchema` under `if mode != compatibility.ModeNone`.
  unfoldable pub check_existing :
      S → String → String → String → SchemaWithRefs → String → Option Metadata → Answer (Unit {0})
  check_existing s registry_ctx subject schema_type new_schema mode metadata =
      let in_group = filter_by_compatibility_group r.storage s registry_ctx subject metadata in
      if mode == mode_none
      then done tt
      else elim (r.storage.get_schemas_by_subject s registry_ctx subject false) [
        | ok existing ↦ check_group s registry_ctx schema_type new_schema mode (in_group existing)
        | err e ↦
            if not (is_subject_not_found e)
            then failed (from_storage e)
            else check_group s registry_ctx schema_type new_schema mode (in_group [])
      ]

  abbrev pub reserved_answer : List ReservedMessage → Answer (Unit {0})
  reserved_answer [] = done tt
  reserved_answer (_ ∷ _) = failed incompatible_schema

  unfoldable pub check_reserved :
      S → String → String → (String → Bool) → Option Metadata → Answer (Unit {0})
  check_reserved s registry_ctx subject is_field metadata =
      if is_validate_fields_enabled r.storage s registry_ctx subject
      then reserved_answer
          (validate_reserved_fields r.storage s registry_ctx subject is_field metadata)
      else done tt

  -- The existing version that answers a registration, if one does.
  abbrev pub deduplicated :
      (Option Metadata → Option Metadata → Bool)
      → Result SchemaRecord
      → Option Metadata
      → Option RuleSet
      → ℤ
      → Option SchemaRecord
  deduplicated same (err _) metadata rule_set target = none
  deduplicated same (ok existing) metadata rule_set target =
      if same existing.metadata metadata
        && (rule_set_equal existing.rule_set rule_set
            && (leb_ℤ target (pos 0) || target == existing.version))
      then some (auto_populate_confluent_version existing)
      else none

  -- What `CreateSchema` left: the new version, or the one that is there already, or the error.
  abbrev pub answer_stored :
      Option Error
      → SchemaRecord
      → Result SchemaRecord
      → Option Metadata
      → Option RuleSet
      → ℤ
      → Answer SchemaRecord
  answer_stored none created again metadata rule_set target =
      done (auto_populate_confluent_version created)
  answer_stored (some e) created again metadata rule_set target =
      if not (is_schema_exists e)
      then failed (from_storage e)
      else elim (deduplicated metadata_equal again metadata rule_set target) [
        | some existing ↦ done existing
        | none ↦ failed (from_storage e)
      ]

  -- From the merge of metadata and rule set to the end of `RegisterSchema`.
  unfoldable pub store_version :
      S
      → String
      → String
      → String
      → String
      → List Reference
      → RegisterOpts
      → String
      → ℤ
      → Answer SchemaRecord × S
  store_version s registry_ctx subject schema schema_type refs opt fingerprint target =
      let previous : Option SchemaRecord =
        elim (r.storage.get_latest_schema s registry_ctx subject) [
          | ok p ↦ some p
          | err _ ↦ none
        ] in
      let (merged, rule_set) =
        maybe_set_metadata_rule_set r.storage r.default_config s registry_ctx subject opt.metadata
          opt.rule_set previous in
      let metadata = strip_confluent_version merged in
      let (e, created, s') = r.storage.create_schema s registry_ctx (record {
        id = pos 0;
        subject = subject;
        version = pos 0;
        schema_type = schema_type;
        schema = schema;
        references = refs;
        metadata = metadata;
        rule_set = rule_set;
        fingerprint = fingerprint;
        deleted = false;
        created_at = 0;
      }) in
      let again = r.storage.get_schema_by_fingerprint s' registry_ctx subject fingerprint false in
      (answer_stored e created again metadata rule_set target, s')

  -- From the level of compatibility to the end of `RegisterSchema`.
  unfoldable pub check_and_store :
      S
      → String
      → String
      → SchemaWithRefs
      → (String → Bool)
      → String
      → List Reference
      → RegisterOpts
      → String
      → ℤ
      → Answer SchemaRecord × S
  check_and_store s registry_ctx subject new_schema is_field schema_type refs opt fingerprint
        target =
      let mode = compat_level s registry_ctx subject in
      elim (check_existing s registry_ctx subject schema_type new_schema mode opt.metadata) [
        | failed e ↦ (failed e, s)
        | done _ ↦ elim (check_reserved s registry_ctx subject is_field opt.metadata) [
          | failed e ↦ (failed e, s)
          | done _ ↦
              store_version s registry_ctx subject new_schema.schema schema_type refs opt
                fingerprint target
        ]
      ]

  -- After the schema is parsed: the schema, its text and its type.
  unfoldable pub register_parsed :
      S
      → String
      → String
      → Parsed P
      → P
      → String
      → String
      → List Reference
      → RegisterOpts
      → Answer SchemaRecord × S
  register_parsed s registry_ctx subject p parsed schema schema_type refs opt =
      let target = extract_confluent_version_target opt.metadata in
      let fingerprint = compute_global_fingerprint r.digest (p.parser.fingerprint parsed) refs in
      let existing = r.storage.get_schema_by_fingerprint s registry_ctx subject fingerprint false in
      elim (deduplicated metadata_equal_for_dedup existing opt.metadata opt.rule_set target) [
        | some found ↦ (done found, s)
        | none ↦
            check_and_store s registry_ctx subject
              (record { schema = schema; references = p.resolved_refs })
              (p.parser.has_top_level_field parsed) schema_type refs opt fingerprint target
      ]

  unfoldable pub register_schema :
      S
      → String
      → String
      → String
      → String
      → List Reference
      → RegisterOpts
      → Answer SchemaRecord × S
  register_schema s registry_ctx subject schema schema_type refs opt =
      let type = or_avro schema_type in
      elim (parse_with s registry_ctx schema type refs) [
        | failed e ↦ (failed e, s)
        | done p ↦ elim (validate_optional opt.rule_set) [
          | some e ↦ (failed (invalid_rule_set e), s)
          | none ↦
              let should_normalize =
                opt.normalize || is_normalize_enabled r.storage s registry_ctx subject in
              let (parsed, text) = normalized_if should_normalize p schema in
              register_parsed s registry_ctx subject p parsed text type refs opt
        ]
      ]
