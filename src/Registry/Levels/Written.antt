-- ===== src/Registry/Levels/Written.antt =====
-- A configuration that is set is the one that applies.
use axonops_schema_registry.Common.{
  to_upper, String, ◌≡◌, sym, ap, ◌∙◌, inl, inr, Bool, true, Option, none, some, arith, Bool-cases,
  Option-cases, ℕ_eq, string_eq, ◌==◌, ℤ_eq,
}
use axonops_schema_registry.Storage.{ok, ConfigRecord}
use axonops_schema_registry.Registry.Backend.{Backend, Answer, done, failed, Answer-cases}
use axonops_schema_registry.Registry.Levels.{
  level_record, is_valid_compatibility, SetConfigOpts, with_opts, validate_optional, config_record,
  get_config, set_config,
}

-- A backend whose configurations are read as they were last written, with the subject's own name.
pub record ConfigLaws {S : Type 0} (b : Backend S) : Type 0 where
  pub config_kept :
      (s s' : S) (registry_ctx subject : String) (c : ConfigRecord)
      → b.set_config s registry_ctx subject c ≡ (none, s')
      → b.get_config s' registry_ctx subject ≡ ok (record c { subject = subject })
  pub global_config_kept :
      (s s' : S) (registry_ctx : String) (c : ConfigRecord)
      → b.set_global_config s registry_ctx c ≡ (none, s')
      → b.get_global_config s' registry_ctx ≡ ok (record c { subject = "" })

abbrev level_of : String → Answer ConfigRecord → String
level_of level (done c) = c.compatibility_level
level_of level (failed e) = level

level-config_record :
    (level : String) (normalize : Option Bool) (opts : Option SetConfigOpts) (c : ConfigRecord)
    → config_record level normalize opts ≡ done c
    → c.compatibility_level ≡ level
unfolding config_record
level-config_record level normalize none c h = ap (level_of level) (sym h)
level-config_record level normalize (some opt) c h =
    elim (Option-cases (validate_optional opt.default_rule_set)) [
      | inr (e, bad) ↦ absurd (ground (arith, h, bad))
      | inl fine ↦ elim (Option-cases (validate_optional opt.override_rule_set)) [
        | inr (e, bad) ↦ absurd (ground (arith, h, fine, bad))
        | inl fine' ↦
            let made : done (with_opts (record (level_record level) { normalize = normalize }) opt)
                ≡ done c =
              ground (arith, h, fine, fine') in
            ap (level_of level) (sym made)
      ]
    ]

module _ {S : Type 0} (b : Backend S) (laws : ConfigLaws b) (default_config : String) where
  -- On a backend that reads a configuration as it was last written, where a level is set for a
  -- subject, or for a context where no subject is given, the level is a known one in upper case,
  -- and it is the one that applies there afterwards.
  pub get_config-set_config :
      (s s' : S) (registry_ctx subject level : String) (normalize : Option Bool)
      (opts : Option SetConfigOpts)
      → set_config b default_config s registry_ctx subject level normalize opts ≡ (done tt, s')
      → (get_config b default_config s' registry_ctx subject ≡ done (to_upper level))
        × (is_valid_compatibility (to_upper level) ≡ true)
  unfolding get_config set_config
  get_config-set_config s s' registry_ctx subject level normalize opts h =
      elim (Bool-cases (is_valid_compatibility (to_upper level))) [
        | inr invalid ↦ absurd (ground (arith, h, invalid))
        | inl valid ↦ elim (Answer-cases (config_record (to_upper level) normalize opts)) [
          | inr (e, bad) ↦ absurd (ground (arith, h, valid, bad))
          | inl (c, made) ↦
              let same = level-config_record (to_upper level) normalize opts c made in
              elim (Bool-cases (subject == "")) [
                | inl top ↦
                    let wrote : b.set_global_config s registry_ctx c ≡ (none, s') =
                      ground (arith, h, valid, made, top) in
                    let kept = laws.global_config_kept s s' registry_ctx c wrote in
                    let read : get_config b default_config s' registry_ctx subject
                        ≡ done c.compatibility_level =
                      ground (arith, top, kept) in
                    (read ∙ ap done same, valid)
                | inr below ↦
                    let wrote : b.set_config s registry_ctx subject c ≡ (none, s') =
                      ground (arith, h, valid, made, below) in
                    let kept = laws.config_kept s s' registry_ctx subject c wrote in
                    let read : get_config b default_config s' registry_ctx subject
                        ≡ done c.compatibility_level =
                      ground (arith, below, kept) in
                    (read ∙ ap done same, valid)
              ]
        ]
      ]
