-- ===== src/Registry/Levels.antt =====
-- The configuration that applies to a subject: internal/registry/registry.go, `GetConfig` to
-- `hasSubjects`, `DeleteGlobalConfig` to `isValidMode`, and registry_helpers.go.
use axonops_schema_registry.Common.{
  to_upper, atoi, String, Bool, false, not, ◌||◌, Option, none, some, [], ◌∷◌, if◌then◌else◌, ℕ_eq,
  string_eq, ◌==◌, ℤ, pos, negsuc, ℤ_eq, ltb_ℤ,
}
use axonops_schema_registry.Storage.{
  not_found, invalid_version, Result, ok, err, Metadata, RuleSet, ConfigRecord,
}
use axonops_schema_registry.Rules.{member, RuleError, validate_rule_set}
use axonops_schema_registry.Registry.Backend.{
  Backend, from_storage, invalid_rule_set, invalid_compatibility, Answer, done, failed,
  is_not_found, pass, pass_write, map_result,
}
pub mod Chain
pub mod Written

abbrev pub default_registry_context : String
default_registry_context = "."

abbrev pub global_context : String
global_context = ".__GLOBAL"

abbrev pub level_record : String → ConfigRecord
level_record level = record {
  subject = "";
  compatibility_level = level;
  normalize = none;
  validate_fields = none;
  alias = "";
  compatibility_group = "";
  default_metadata = none;
  override_metadata = none;
  default_rule_set = none;
  override_rule_set = none;
  alias_for_deks = "";
  compatibility_policy = "";
}

unfoldable pub is_valid_compatibility : String → Bool
is_valid_compatibility level = member level (
    "NONE" ∷ "BACKWARD" ∷ "BACKWARD_TRANSITIVE" ∷ "FORWARD" ∷ "FORWARD_TRANSITIVE" ∷ "FULL"
    ∷ "FULL_TRANSITIVE" ∷ [])

-- The optional fields of a configuration, `SetConfigOpts`.
pub record SetConfigOpts : Type 0 where
  pub alias : String
  pub compatibility_group : String
  pub validate_fields : Option Bool
  pub default_metadata : Option Metadata
  pub override_metadata : Option Metadata
  pub default_rule_set : Option RuleSet
  pub override_rule_set : Option RuleSet
  pub alias_for_deks : String
  pub compatibility_policy : String

abbrev pub with_opts : ConfigRecord → SetConfigOpts → ConfigRecord
with_opts c opt = record c {
  alias = opt.alias;
  compatibility_group = opt.compatibility_group;
  validate_fields = opt.validate_fields;
  default_metadata = opt.default_metadata;
  override_metadata = opt.override_metadata;
  default_rule_set = opt.default_rule_set;
  override_rule_set = opt.override_rule_set;
  alias_for_deks = opt.alias_for_deks;
  compatibility_policy = opt.compatibility_policy;
}

abbrev pub validate_optional : Option RuleSet → Option RuleError
validate_optional none = none
validate_optional (some rs) = validate_rule_set rs

-- The record that `SetConfig` stores, or the error in a rule set.
unfoldable pub config_record : String → Option Bool → Option SetConfigOpts → Answer ConfigRecord
config_record level normalize none = done (record (level_record level) { normalize = normalize })
config_record level normalize (some opt) = elim (validate_optional opt.default_rule_set) [
  | some e ↦ failed (invalid_rule_set e)
  | none ↦ elim (validate_optional opt.override_rule_set) [
    | some e ↦ failed (invalid_rule_set e)
    | none ↦ done (with_opts (record (level_record level) { normalize = normalize }) opt)
  ]
]

module _ {S : Type 0} (b : Backend S) (default_config : String) where
  unfoldable pub get_config : S → String → String → Answer String
  get_config s registry_ctx subject =
      let global : Answer String = elim (b.get_global_config s registry_ctx) [
        | ok c ↦ done c.compatibility_level
        | err _ ↦
            if not (registry_ctx == global_context)
            then (elim (b.get_global_config s global_context) [
              | ok c ↦ done c.compatibility_level
              | err _ ↦ done default_config
            ])
            else done default_config
      ] in
      if not (subject == "")
      then (elim (b.get_config s registry_ctx subject) [
        | ok c ↦ done c.compatibility_level
        | err e ↦ if not (is_not_found e) then failed (from_storage e) else global
      ])
      else global

  unfoldable pub get_config_full : S → String → String → Answer ConfigRecord
  get_config_full s registry_ctx subject =
      let global : Answer ConfigRecord = elim (b.get_global_config s registry_ctx) [
        | ok c ↦ done c
        | err _ ↦
            if not (registry_ctx == global_context)
            then (elim (b.get_global_config s global_context) [
              | ok c ↦ done c
              | err _ ↦ done (level_record default_config)
            ])
            else done (level_record default_config)
      ] in
      if not (subject == "")
      then (elim (b.get_config s registry_ctx subject) [
        | ok c ↦ done c
        | err e ↦ if not (is_not_found e) then failed (from_storage e) else global
      ])
      else global

  unfoldable pub get_subject_config : S → String → String → Answer String
  get_subject_config s registry_ctx subject =
      if subject == ""
      then failed (from_storage not_found)
      else pass (map_result (λ c. c.compatibility_level) (b.get_config s registry_ctx subject))

  unfoldable pub get_global_config_direct : S → String → ConfigRecord
  get_global_config_direct s registry_ctx = elim (b.get_global_config s registry_ctx) [
    | ok c ↦ c
    | err _ ↦ level_record default_config
  ]

  unfoldable pub set_config :
      S → String → String → String → Option Bool → Option SetConfigOpts → Answer (Unit {0}) × S
  set_config s registry_ctx subject level normalize opts =
      let level' = to_upper level in
      if not (is_valid_compatibility level')
      then (failed (invalid_compatibility level'), s)
      else elim (config_record level' normalize opts) [
        | failed e ↦ (failed e, s)
        | done config ↦
            let (e, s') =
              if subject == ""
              then b.set_global_config s registry_ctx config
              else b.set_config s registry_ctx subject config in
            (pass_write e tt, s')
      ]

  -- The level that was there before, or the default.
  unfoldable pub delete_global_config : S → String → Answer String × S
  delete_global_config s registry_ctx =
      let previous = (get_global_config_direct s registry_ctx).compatibility_level in
      let (e, s') = b.delete_global_config s registry_ctx in (pass_write e previous, s')

  unfoldable pub delete_config : S → String → String → Answer String × S
  delete_config s registry_ctx subject =
      if subject == ""
      then delete_global_config s registry_ctx
      else elim (b.get_config s registry_ctx subject) [
        | err e ↦ (failed (from_storage e), s)
        | ok c ↦
            let (e, s') = b.delete_config s registry_ctx subject in
            (pass_write e c.compatibility_level, s')
      ]

module _ {S : Type 0} (b : Backend S) where
  unfoldable pub get_subject_config_full : S → String → String → Answer ConfigRecord
  get_subject_config_full s registry_ctx subject = pass (b.get_config s registry_ctx subject)

-- The first of a subject's, a context's and the global context's configuration that sets a flag.
abbrev flag_of : (ConfigRecord → Option Bool) → Result ConfigRecord → Option Bool
flag_of flag (ok c) = flag c
flag_of flag (err e) = none

module _ {S : Type 0} (b : Backend S) where
  -- The common shape of `isNormalizeEnabled` and `isValidateFieldsEnabled`.
  abbrev enabled : (ConfigRecord → Option Bool) → S → String → String → Bool
  enabled flag s registry_ctx subject =
      let top : Bool =
        if not (registry_ctx == global_context)
        then (elim (flag_of flag (b.get_global_config s global_context)) [
          | some x ↦ x
          | none ↦ false
        ])
        else false in
      let global : Bool = elim (flag_of flag (b.get_global_config s registry_ctx)) [
        | some x ↦ x
        | none ↦ top
      ] in
      if not (subject == "")
      then (elim (flag_of flag (b.get_config s registry_ctx subject)) [
        | some x ↦ x
        | none ↦ global
      ])
      else global

  unfoldable pub is_normalize_enabled : S → String → String → Bool
  is_normalize_enabled = enabled (λ c. c.normalize)

  unfoldable pub is_validate_fields_enabled : S → String → String → Bool
  is_validate_fields_enabled = enabled (λ c. c.validate_fields)

  -- One level: the alias of an alias is not followed.
  unfoldable pub resolve_alias : S → String → String → String
  resolve_alias s registry_ctx subject =
      if subject == "" then subject else elim (b.get_config s registry_ctx subject) [
        | ok c ↦ if not (c.alias == "") then c.alias else subject
        | err _ ↦ subject
      ]

unfoldable pub parse_version : String → Result ℤ
parse_version s = if s == "latest" || s == "-1" then ok (negsuc 0) else elim (atoi s) [
  | none ↦ err invalid_version
  | some v ↦ if ltb_ℤ v (pos 1) then err invalid_version else ok v
]
