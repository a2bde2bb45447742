-- ===== src/Registry/Register/Stored.antt =====
-- What a registration stores.
use axonops_schema_registry.Common.{
  ℕ, String, ◌≡◌, refl, sym, ap, ◌∙◌, subst, ◌⊎◌, inl, inr, Bool, true, false, ◌||◌, Option, none,
  some, List, if◌then◌else◌, Option-cases, Bool-cases, ℕ_eq, string_eq, ◌==◌, ℤ, pos, ℤ_eq, arith,
}
use axonops_schema_registry.Rules.{RuleError}
use axonops_schema_registry.Storage.{
  Error, schema_exists, Result, ok, err, Metadata, Rule, RuleSet, Reference, SchemaRecord,
  ConfigRecord,
}
use axonops_schema_registry.Compatibility.Checker.{SchemaWithRefs}
use axonops_schema_registry.Registry.Backend.{
  Registry, RegistryError, invalid_rule_set, Answer, done, failed, Answer-cases, from_storage,
  is_schema_exists,
}
use axonops_schema_registry.Registry.Levels.{
  get_config_full, validate_optional, is_normalize_enabled,
}
use axonops_schema_registry.Registry.Metadata.{
  property_of, version_property, or_keep, metadata_of, rule_set_of, maybe_set_metadata_rule_set,
  strip_confluent_version, auto_populate_confluent_version, extract_confluent_version_target,
  metadata_equal, metadata_equal_for_dedup,
}
use axonops_schema_registry.Registry.Metadata.Layers.{
  rule_at, HasUniqueProperties, layers_of_registration,
}
use axonops_schema_registry.Registry.Metadata.Version.{property_of-strip_confluent_version}
use axonops_schema_registry.Registry.References.{compute_global_fingerprint}
use axonops_schema_registry.Registry.Register.{
  RegisterOpts, or_avro, Parsed, parse_with, normalized_if, compat_level, check_existing,
  check_reserved, deduplicated, answer_stored, store_version, check_and_store, register_parsed,
  register_schema,
}

module _ {S P : Type 0} (r : Registry S P) (fuel : ℕ) (s : S) (registry_ctx subject : String)
    (schema schema_type : String) (refs : List Reference) (opt : RegisterOpts)
    (config : ConfigRecord) where
  -- The version before, where there is one.
  abbrev pub previous : Option SchemaRecord
  previous = elim (r.storage.get_latest_schema s registry_ctx subject) [
    | ok p ↦ some p
    | err _ ↦ none
  ]

  -- The rule of a name is that of the override, or of the request, or of the default.
  abbrev pub RulesLayered : Option RuleSet → (RuleSet → Option (List Rule)) → Type 0
  RulesLayered stored field =
      (n : String)
      → rule_at field stored n
        ≡ or_keep (rule_at field config.override_rule_set n) (
            or_keep (rule_at field (or_keep opt.rule_set (rule_set_of previous)) n)
              (rule_at field config.default_rule_set n))

  -- The property of a key is that of the override, or of the request, or of the default, and none for
  -- `confluent:version`.
  abbrev pub PropertiesLayered : Option Metadata → Type 0
  PropertiesLayered stored =
      (k : String)
      → property_of stored k ≡ (
          if version_property == k
          then none
          else or_keep (property_of config.override_metadata k) (
              or_keep (property_of (or_keep opt.metadata (metadata_of previous)) k)
                (property_of config.default_metadata k)))

  abbrev pub IsLayered : SchemaRecord → Type 0
  IsLayered stored =
      (stored.subject ≡ subject)
      × (stored.schema_type ≡ or_avro schema_type)
      × (stored.references ≡ refs)
      × PropertiesLayered stored.metadata
      × RulesLayered stored.rule_set (λ x. x.migration_rules)
      × RulesLayered stored.rule_set (λ x. x.domain_rules)
      × RulesLayered stored.rule_set (λ x. x.encoding_rules)

  -- The error of a step before the storage is asked: of the parser or the references, of the rule set, of
  -- the check of compatibility, or of the validation of fields.
  abbrev pub IsRefusal : RegistryError → Type 0
  IsRefusal e =
      (parse_with r fuel s registry_ctx schema (or_avro schema_type) refs ≡ failed e)
      ⊎ (((x : RuleError) × (validate_optional opt.rule_set ≡ some x) × (e ≡ invalid_rule_set x))
          ⊎ (((new_schema : SchemaWithRefs) × (check_existing r fuel s registry_ctx subject
                    (or_avro schema_type) new_schema (compat_level r fuel s registry_ctx subject)
                    opt.metadata
                  ≡ failed e))
              ⊎ ((is_field : String → Bool) × (check_reserved r fuel s registry_ctx subject is_field
                      opt.metadata
                    ≡ failed e))))

  -- The answer is such an error, or a version of the subject that is there.
  abbrev pub IsOld : Answer SchemaRecord → Type 0
  IsOld answer =
      ((e : RegistryError) × IsRefusal e × (answer ≡ failed e))
      ⊎ ((fingerprint : String) × (existing : SchemaRecord) × (r.storage.get_schema_by_fingerprint s
              registry_ctx subject fingerprint false
            ≡ ok existing)
          × (answer ≡ done (auto_populate_confluent_version existing)))

  -- What the storage made of a record: its answer is the new version, or the storage's error, or, where
  -- the storage has the content already, a version of the subject that is there.
  abbrev pub Answers :
      Option Error → SchemaRecord → Result SchemaRecord → Answer SchemaRecord → Type 0
  Answers e created again answer =
      ((e ≡ none) × (answer ≡ done (auto_populate_confluent_version created)))
      ⊎ ((x : Error) × (e ≡ some x)
          × ((answer ≡ failed (from_storage x))
              ⊎ ((x ≡ schema_exists)
                  × (existing : SchemaRecord) × (again ≡ ok existing)
                  × (answer ≡ done (auto_populate_confluent_version existing)))))

  -- Nothing is written, and the answer is an old version or an error; or one layered record is given to
  -- the storage, nothing else is written, and the answer is what the storage made of it.
  abbrev pub StoresLayered : Answer SchemaRecord × S → Type 0
  StoresLayered outcome =
      (IsOld outcome.0 × (outcome.1 ≡ s))
      ⊎ ((stored : SchemaRecord) × IsLayered stored
          × (outcome.1 ≡ (r.storage.create_schema s registry_ctx stored).2)
          × Answers (r.storage.create_schema s registry_ctx stored).0
              (r.storage.create_schema s registry_ctx stored).1
              (r.storage.get_schema_by_fingerprint outcome.1 registry_ctx subject stored.fingerprint
                false)
              outcome.0)

  refused :
      {outcome : Answer SchemaRecord × S} (e : RegistryError)
      → IsRefusal e
      → outcome ≡ (failed e, s)
      → StoresLayered outcome
  refused e cause h = subst StoresLayered (sym h) (inl (inl (e, cause, refl), refl))

  deduplicated_old :
      (same : Option Metadata → Option Metadata → Bool) (answer : Result SchemaRecord)
      (metadata : Option Metadata) (rule_set : Option RuleSet) (target : ℤ) (old : SchemaRecord)
      → deduplicated r fuel same answer metadata rule_set target ≡ some old
      → (existing : SchemaRecord) × (answer ≡ ok existing)
        × (old ≡ auto_populate_confluent_version existing)
  deduplicated_old same (err e) metadata rule_set target old h = absurd (cc h)
  deduplicated_old same (ok existing) metadata rule_set target old h =
      (existing, refl, ground (arith, h))

  schema_exists_lem : (x : Error) → is_schema_exists x ≡ true → x ≡ schema_exists
  schema_exists_lem x h = ground (arith, h)

  answer_stored-Answers :
      (e : Option Error) (created : SchemaRecord) (again : Result SchemaRecord)
      (metadata : Option Metadata) (rule_set : Option RuleSet) (target : ℤ)
      → Answers e created again (answer_stored r fuel e created again metadata rule_set target)
  answer_stored-Answers none created again metadata rule_set target = inl (refl, refl)
  answer_stored-Answers (some x) created again metadata rule_set target =
      elim (Bool-cases (is_schema_exists x)) [
        | inr other ↦ inr (x, refl, inl (ground (arith, other)))
        | inl exists ↦
            elim (Option-cases
              (deduplicated r fuel metadata_equal again metadata rule_set target)) [
                | inl missing ↦ inr (x, refl, inl (ground (arith, exists, missing)))
                | inr (old, there) ↦
                    let (existing, stored, same) =
                      deduplicated_old metadata_equal again metadata rule_set target old there in
                    inr (
                      x,
                      refl,
                      inr (
                        schema_exists_lem x exists,
                        existing,
                        stored,
                        ground (arith, exists, there, same),
                      ),
                    )
              ]
      ]

  module _ (found : get_config_full r.storage r.default_config s registry_ctx subject ≡ done config)
      (unique : HasUniqueProperties (or_keep opt.metadata (metadata_of previous)))
      (unique' : HasUniqueProperties config.override_metadata) where
    store_version-StoresLayered :
        (text fingerprint : String) (target : ℤ)
        → StoresLayered (
            store_version r fuel s registry_ctx subject text
              (or_avro schema_type)
              refs
              opt
              fingerprint
              target)
    unfolding store_version
    store_version-StoresLayered text fingerprint target =
        let layers =
          layers_of_registration r.storage r.default_config s registry_ctx subject opt.metadata
            opt.rule_set previous config found unique unique' in
        let merged =
          maybe_set_metadata_rule_set r.storage r.default_config s registry_ctx subject opt.metadata
            opt.rule_set previous in
        inr (
          record {
            id = pos 0;
            subject = subject;
            version = pos 0;
            schema_type = or_avro schema_type;
            schema = text;
            references = refs;
            metadata = strip_confluent_version merged.0;
            rule_set = merged.1;
            fingerprint = fingerprint;
            deleted = false;
            created_at = 0;
          },
          (
            refl,
            refl,
            refl,
            λ k.
                property_of-strip_confluent_version merged.0 k
                ∙ ap (λ o. if version_property == k then none else o) (layers.0 k),
            layers.1,
            layers.2,
            layers.3,
          ),
          refl,
          answer_stored-Answers _ _ _ _ _ _,
        )

    check_and_store-StoresLayered :
        (new_schema : SchemaWithRefs) (is_field : String → Bool) (fingerprint : String) (target : ℤ)
        → StoresLayered (
            check_and_store r fuel s registry_ctx subject new_schema is_field
              (or_avro schema_type)
              refs
              opt
              fingerprint
              target)
    unfolding check_and_store
    check_and_store-StoresLayered new_schema is_field fingerprint target =
        let existing =
          check_existing r fuel s registry_ctx subject (or_avro schema_type) new_schema
            (compat_level r fuel s registry_ctx subject) opt.metadata in
        let reserved = check_reserved r fuel s registry_ctx subject is_field opt.metadata in
        elim (Answer-cases existing) [
          | inr (e, bad) ↦
              refused e (inr (inr (inl (new_schema, bad)))) (rw (bad, check_and_store) refl)
          | inl (tt, passed) ↦ elim (Answer-cases reserved) [
            | inr (e, bad) ↦
                refused e (inr (inr (inr (is_field, bad)))) (rw (passed, bad, check_and_store) refl)
            | inl (tt, free) ↦
                subst StoresLayered (rw (passed, free, check_and_store) refl)
                  (store_version-StoresLayered new_schema.schema fingerprint target)
          ]
        ]

    register_parsed-StoresLayered :
        (p : Parsed P) (parsed : P) (text : String)
        → StoresLayered (
            register_parsed r fuel s registry_ctx subject p parsed text
              (or_avro schema_type)
              refs
              opt)
    unfolding register_parsed
    register_parsed-StoresLayered p parsed text =
        let target = extract_confluent_version_target opt.metadata in
        let fingerprint = compute_global_fingerprint r.digest (p.parser.fingerprint parsed) refs in
        let answer = r.storage.get_schema_by_fingerprint s registry_ctx subject fingerprint false in
        elim (Option-cases
          (deduplicated r fuel metadata_equal_for_dedup answer opt.metadata opt.rule_set target)) [
            | inl missing ↦ subst StoresLayered (rw (missing, register_parsed) refl) (
                check_and_store-StoresLayered
                  (record { schema = text; references = p.resolved_refs })
                  (p.parser.has_top_level_field parsed) fingerprint target)
            | inr (old, there) ↦
                let (existing, stored, same) =
                  deduplicated_old metadata_equal_for_dedup answer opt.metadata opt.rule_set target
                    old there in
                subst StoresLayered (rw (there, register_parsed) refl)
                  (inl (inr (fingerprint, existing, stored, ap done same), refl))
          ]

    -- Where a configuration applies to the subject, and the maps of properties of the override and
    -- of the request name no key twice: a registration either writes nothing and answers an
    -- existing version or the error of a step before the storage is asked (the references and the
    -- parser, the rule set, the check of compatibility, the validation of fields), or it gives one
    -- record to the storage, writes nothing else, and answers the new version, the storage's error,
    -- or an existing version where the storage has the content already. The record has the subject,
    -- the type and the references of the request. In it confluent:version is not set, and each
    -- other property is that of the override, or else that of the request (of the previous version,
    -- if the request has no metadata), or else that of the default. The same holds of the rule that
    -- each category has for a name.
    pub register_schema_layered :
        StoresLayered (register_schema r fuel s registry_ctx subject schema schema_type refs opt)
    unfolding register_schema
    register_schema_layered =
        elim (Answer-cases (parse_with r fuel s registry_ctx schema (or_avro schema_type) refs)) [
          | inr (e, bad) ↦ refused e (inl bad) (rw (bad, register_schema) refl)
          | inl (p, parsed) ↦ elim (Option-cases (validate_optional opt.rule_set)) [
            | inr (e, bad) ↦
                refused (invalid_rule_set e) (inr (inl (e, bad, refl)))
                  (rw (parsed, bad, register_schema) refl)
            | inl valid ↦
                let (work, text) =
                  normalized_if r fuel
                    (opt.normalize || is_normalize_enabled r.storage s registry_ctx subject) p
                    schema in
                subst StoresLayered (rw (parsed, valid, register_schema) refl)
                  (register_parsed-StoresLayered p work text)
          ]
        ]
