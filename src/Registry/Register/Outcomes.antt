-- ===== src/Registry/Register/Outcomes.antt =====
-- What the check of compatibility says of a registration.
use axonops_schema_registry.Common.{
  ℕ, String, ◌≡◌, refl, sym, ap, ◌∙◌, subst, ◌≢◌, ◌⊎◌, inl, inr, Bool, true, false, ◌||◌, Option,
  none, some, List, [], ◌∷◌, arith, Bool-cases, Option-cases, ℕ_eq, string_eq, ◌==◌, ==_iff, ℤ,
  ℤ_eq,
}
use axonops_schema_registry.Storage.{
  Error, Result, ok, Metadata, RuleSet, Reference, SchemaRecord, ConfigRecord,
}
use axonops_schema_registry.Compatibility.Result.{CheckResult}
use axonops_schema_registry.Compatibility.Mode.{Mode, mode_none}
use axonops_schema_registry.Compatibility.Checker.{SchemaWithRefs, check}
use axonops_schema_registry.Registry.Backend.{
  Registry, from_storage, incompatible_schema, Answer, done, failed, is_subject_not_found,
  Result-cases, chain, chain_done,
}
use axonops_schema_registry.Registry.Levels.{
  validate_optional, get_subject_config_full, is_normalize_enabled, is_validate_fields_enabled,
}
use axonops_schema_registry.Registry.Metadata.{
  entries, metadata_equal, metadata_equal_for_dedup, extract_confluent_version_target,
}
use axonops_schema_registry.Registry.Reserved.{
  validate_reserved_fields, filter_by_compatibility_group,
}
use axonops_schema_registry.Registry.References.{compute_global_fingerprint}
use axonops_schema_registry.Registry.Register.{
  RegisterOpts, or_avro, Parsed, parse_with, normalized_if, compat_level, with_refs, group_answer,
  check_group, check_existing, check_reserved, deduplicated, answer_stored, store_version,
  check_and_store, register_parsed, register_schema,
}
use axonops_schema_registry.Registry.Checking.{
  versions_to_check, check_versions, check_compatibility,
}

done_injective : {A : Type 0} (x y : A) → ◌≡◌ {A = Answer A} (done x) (done y) → x ≡ y
done_injective x y h = ap (λ a. elim a [ done z ↦ z | failed _ ↦ x ]) h

module _ {S P : Type 0} (r : Registry S P) (fuel : ℕ) (s : S) (registry_ctx subject : String) where
  answer_stored_lem :
      (e : Option Error) (created : SchemaRecord) (again : Result SchemaRecord)
      (metadata : Option Metadata) (rule_set : Option RuleSet) (target : ℤ)
      → answer_stored r fuel e created again metadata rule_set target ≢ failed incompatible_schema
  answer_stored_lem none created again metadata rule_set target h = cc h
  answer_stored_lem (some e) created again metadata rule_set target h =
      elim (Option-cases (deduplicated r fuel metadata_equal again metadata rule_set target)) [
        | inl missing ↦ ground (arith, h, missing)
        | inr (found, there) ↦ ground (arith, h, there)
      ]

  store_version_lem :
      (schema schema_type : String) (refs : List Reference) (opt : RegisterOpts)
      (fingerprint : String) (target : ℤ)
      → (store_version r fuel s registry_ctx subject schema schema_type refs opt fingerprint
          target).0
        ≢ failed incompatible_schema
  unfolding store_version
  store_version_lem schema schema_type refs opt fingerprint target h =
      answer_stored_lem _ _ _ _ _ _ h

  -- The validation of fields is off, or finds no reserved field that is missing or taken.
  abbrev pub FieldsFine : (String → Bool) → Option Metadata → Type 0
  FieldsFine is_field metadata =
      (is_validate_fields_enabled r.storage s registry_ctx subject ≡ false)
      ⊎ (validate_reserved_fields r.storage s registry_ctx subject is_field metadata ≡ [])

  check_reserved_fine :
      (is_field : String → Bool) (metadata : Option Metadata)
      → FieldsFine is_field metadata
      → check_reserved r fuel s registry_ctx subject is_field metadata ≡ done tt
  unfolding check_reserved
  check_reserved_fine is_field metadata (inl off) = rw off refl
  check_reserved_fine is_field metadata (inr no_message) =
      elim (Bool-cases (is_validate_fields_enabled r.storage s registry_ctx subject)) [
        | inl on ↦ rw (on, no_message) refl
        | inr off ↦ rw off refl
      ]

  check_and_store_lem :
      (new_schema : SchemaWithRefs) (is_field : String → Bool) (schema_type : String)
      (refs : List Reference) (opt : RegisterOpts) (fingerprint : String) (target : ℤ)
      → check_existing r fuel s registry_ctx subject schema_type new_schema
          (compat_level r fuel s registry_ctx subject)
          opt.metadata
        ≡ done tt
      → FieldsFine is_field opt.metadata
      → (check_and_store r fuel s registry_ctx subject new_schema is_field schema_type refs opt
          fingerprint target).0
        ≢ failed incompatible_schema
  unfolding check_and_store
  check_and_store_lem new_schema is_field schema_type refs opt fingerprint target passed fine h =
      store_version_lem new_schema.schema schema_type refs opt fingerprint target
        (ground (arith, h, passed, check_reserved_fine is_field opt.metadata fine))

  check_group_passes :
      (existing : List SchemaRecord) (schema_type : String) (new_schema : SchemaWithRefs)
      (mode : Mode) (schemas : List SchemaWithRefs)
      → with_refs r fuel s registry_ctx existing ≡ done schemas
      → (check r.compat_checker mode schema_type new_schema schemas).is_compatible ≡ true
      → check_group r fuel s registry_ctx schema_type new_schema mode existing ≡ done tt
  check_group_passes [] schema_type new_schema mode schemas resolved compatible = refl
  check_group_passes (e ∷ rest) schema_type new_schema mode schemas resolved compatible =
      ap
        (λ a.
          chain a (λ l. group_answer r fuel (check r.compat_checker mode schema_type new_schema l)))
        resolved
      ∙ ground (arith, compatible)

  -- No property of the metadata says which versions are checked.
  abbrev pub NoGroup : Type 0
  NoGroup =
      (c : ConfigRecord)
      → r.storage.get_config s registry_ctx subject ≡ ok c
      → c.compatibility_group ≡ ""

  filter_lem :
      (metadata : Option Metadata) (existing : List SchemaRecord)
      → NoGroup
      → filter_by_compatibility_group r.storage s registry_ctx subject metadata existing ≡ existing
  unfolding filter_by_compatibility_group get_subject_config_full
  filter_lem metadata existing no_group =
      elim (Result-cases (r.storage.get_config s registry_ctx subject)) [
        | inl (c, e) ↦ ground (arith, e, (==_iff c.compatibility_group "").1 (no_group c e))
        | inr (x, e) ↦ ground (arith, e)
      ]

  check_existing_passes :
      (schema_type : String) (new_schema : SchemaWithRefs) (mode : Mode)
      (metadata : Option Metadata) (result : CheckResult)
      → NoGroup
      → check_versions r fuel s registry_ctx subject schema_type new_schema mode "" ≡ done result
      → result.is_compatible ≡ true
      → check_existing r fuel s registry_ctx subject schema_type new_schema mode metadata ≡ done tt
  unfolding check_existing versions_to_check
  check_existing_passes schema_type new_schema mode metadata result no_group checked compatible =
      elim (Bool-cases (mode == mode_none)) [
        | inl off ↦ rw off refl
        | inr on ↦
            rw on
              (elim (Result-cases (r.storage.get_schemas_by_subject s registry_ctx subject false)) [
                | inl (existing, found) ↦
                    let versions : versions_to_check r fuel s registry_ctx subject ""
                        ≡ done (some existing) =
                      ground (arith, found) in
                    let (schemas, resolved, answered) =
                      chain_done (with_refs r fuel s registry_ctx existing)
                        (λ schemas.
                          done (check r.compat_checker mode schema_type new_schema schemas))
                        result (sym (checked_at versions) ∙ checked) in
                    let fine =
                      subst (λ x. x.is_compatible ≡ true) (sym (done_injective _ _ answered))
                        compatible in
                    rw (found, filter_lem metadata existing no_group)
                      (check_group_passes existing schema_type new_schema mode schemas resolved
                        fine)
                | inr (e, missing) ↦ elim (Bool-cases (is_subject_not_found e)) [
                  | inl empty ↦ rw (missing, empty, filter_lem metadata [] no_group) refl
                  | inr other ↦
                      let versions : versions_to_check r fuel s registry_ctx subject ""
                          ≡ failed (from_storage e) =
                        ground (arith, missing, other) in
                      absurd (cc (sym (checked_at versions) ∙ checked))
                ]
              ])
      ]
    where
      rest : Option (List SchemaRecord) → Answer CheckResult
      rest versions =
          chain (with_refs r fuel s registry_ctx (entries versions))
            (λ schemas. done (check r.compat_checker mode schema_type new_schema schemas))

      checked_at :
          {a : Answer (Option (List SchemaRecord))}
          → versions_to_check r fuel s registry_ctx subject "" ≡ a
          → chain (versions_to_check r fuel s registry_ctx subject "") rest ≡ chain a rest
      checked_at h = ap (λ a. chain a rest) h

  check_existing_off :
      (schema_type : String) (new_schema : SchemaWithRefs) (mode : Mode)
      (metadata : Option Metadata)
      → (mode == mode_none) ≡ true
      → check_existing r fuel s registry_ctx subject schema_type new_schema mode metadata ≡ done tt
  unfolding check_existing
  check_existing_off schema_type new_schema mode metadata off = rw off refl

  register_parsed_lem :
      (p : Parsed P) (parsed : P) (schema schema_type : String) (refs : List Reference)
      (opt : RegisterOpts)
      → check_existing r fuel s registry_ctx subject schema_type
          (record { schema = schema; references = p.resolved_refs })
          (compat_level r fuel s registry_ctx subject)
          opt.metadata
        ≡ done tt
      → FieldsFine (p.parser.has_top_level_field parsed) opt.metadata
      → (register_parsed r fuel s registry_ctx subject p parsed schema schema_type refs opt).0
        ≢ failed incompatible_schema
  unfolding register_parsed
  register_parsed_lem p parsed schema schema_type refs opt passed fine h =
      let target = extract_confluent_version_target opt.metadata in
      let fingerprint = compute_global_fingerprint r.digest (p.parser.fingerprint parsed) refs in
      let existing = r.storage.get_schema_by_fingerprint s registry_ctx subject fingerprint false in
      elim (Option-cases
        (deduplicated r fuel metadata_equal_for_dedup existing opt.metadata opt.rule_set target)) [
          | inl missing ↦
              check_and_store_lem (record { schema = schema; references = p.resolved_refs })
                (p.parser.has_top_level_field parsed) schema_type refs opt fingerprint target passed
                fine (ground (arith, h, missing))
          | inr (found, there) ↦ ground (arith, h, there)
        ]

  -- Where the schema parses, the check of compatibility, asked about all versions with the same
  -- normalization, answers that it is compatible, the subject's own configuration names no
  -- compatibility group, and the validation of fields is off or finds nothing wrong with the
  -- reserved fields: a registration of that schema is not refused as incompatible.
  pub register_schema_predicted :
      (schema schema_type : String) (refs : List Reference) (opt : RegisterOpts)
      (result : CheckResult) (p : Parsed P)
      → NoGroup
      → check_compatibility r fuel s registry_ctx subject schema schema_type refs "" opt.normalize
        ≡ done result
      → result.is_compatible ≡ true
      → parse_with r fuel s registry_ctx schema (or_avro schema_type) refs ≡ done p
      → FieldsFine
          (p.parser.has_top_level_field
            (normalized_if r fuel
              (opt.normalize || is_normalize_enabled r.storage s registry_ctx subject)
              p
              schema).0)
          opt.metadata
      → (register_schema r fuel s registry_ctx subject schema schema_type refs opt).0
        ≢ failed incompatible_schema
  unfolding register_schema register_parsed check_compatibility
  register_schema_predicted schema schema_type refs opt result p no_group checked compatible parsed
        fine h =
      let text : P × String =
        normalized_if r fuel
          (opt.normalize || is_normalize_enabled r.storage s registry_ctx subject) p schema in
      let new_schema : SchemaWithRefs = record { schema = text.1; references = p.resolved_refs } in
      let mode = compat_level r fuel s registry_ctx subject in
      let passed : check_existing r fuel s registry_ctx subject (or_avro schema_type) new_schema
            mode opt.metadata
          ≡ done tt =
        elim (Bool-cases (compat_level r fuel s registry_ctx subject == mode_none)) [
          | inl off ↦ check_existing_off (or_avro schema_type) new_schema mode opt.metadata off
          | inr on ↦
              check_existing_passes (or_avro schema_type) new_schema mode opt.metadata result
                no_group (ground (arith, checked, parsed, on)) compatible
        ] in
      elim (Option-cases (validate_optional opt.rule_set)) [
        | inl valid ↦
            register_parsed_lem p text.0 text.1 (or_avro schema_type) refs opt passed fine
              (ground (arith, h, parsed, valid))
        | inr (e, bad) ↦ ground (arith, h, parsed, bad)
      ]
