-- ===== src/Rules.antt =====
-- internal/rules/validator.go: the well-formedness of a rule set.
use axonops_schema_registry.Common.{
  trim_space, split_comma, ℕ, ◌+◌, String, Bool, true, false, not, ◌&&◌, ◌||◌, Option, none, some,
  List, [], ◌∷◌, if◌then◌else◌, ℕ_eq, string_eq, ◌==◌, ℤ_eq,
}
use axonops_schema_registry.Storage.{Rule, RuleSet}
pub mod Spec
pub mod Tests

-- The maps of valid words.
abbrev pub member : String → List String → Bool
member s [] = false
member s (a ∷ rest) = s == a || member s rest

abbrev pub valid_kinds : List String
valid_kinds = "CONDITION" ∷ "TRANSFORM" ∷ []

abbrev pub valid_domain_modes : List String
valid_domain_modes = "WRITE" ∷ "READ" ∷ "WRITEREAD" ∷ []

abbrev pub valid_migration_modes : List String
valid_migration_modes = "UPGRADE" ∷ "DOWNGRADE" ∷ "UPDOWN" ∷ []

abbrev pub valid_encoding_modes : List String
valid_encoding_modes = "WRITE" ∷ "READ" ∷ "WRITEREAD" ∷ []

abbrev pub valid_actions : List String
valid_actions = "" ∷ "NONE" ∷ "DLQ" ∷ "ERROR" ∷ []

unfoldable pub all_actions : List String → Bool
all_actions [] = true
all_actions (p ∷ rest) = member (trim_space p) valid_actions && all_actions rest

unfoldable pub is_valid_action : String → Bool
is_valid_action action = member action valid_actions || all_actions (split_comma action)

-- What an error of the validation says, with the category and the index, or the rule's name.
pub data RuleError : Type 0 where
  name_required : String → ℕ → RuleError
  bad_kind bad_mode bad_on_success bad_on_failure : String → RuleError

unfoldable pub validate_rule : Rule → String → ℕ → List String → Option RuleError
validate_rule r category index valid_modes =
    if trim_space r.name == ""
    then some (name_required category index)
    else if not (member r.kind valid_kinds)
    then some (bad_kind r.name)
    else if not (member r.mode valid_modes)
    then some (bad_mode r.name)
    else if not (is_valid_action r.on_success)
    then some (bad_on_success r.name)
    else if not (is_valid_action r.on_failure)
    then some (bad_on_failure r.name)
    else none

-- The loop over the rules of one category, from an index on.
unfoldable pub validate_rules : List Rule → String → ℕ → List String → Option RuleError
validate_rules [] category index valid_modes = none
validate_rules (r ∷ rest) category index valid_modes =
    elim (validate_rule r category index valid_modes) [
      | some e ↦ some e
      | none ↦ validate_rules rest category (index + 1) valid_modes
    ]

-- A nil slice is ranged over as an empty one.
abbrev pub rules_of : Option (List Rule) → List Rule
rules_of none = []
rules_of (some l) = l

unfoldable pub validate_rule_set : RuleSet → Option RuleError
validate_rule_set rs =
    elim (validate_rules (rules_of rs.domain_rules) "domainRules" 0 valid_domain_modes) [
      | some e ↦ some e
      | none ↦
          elim (validate_rules (rules_of rs.migration_rules) "migrationRules" 0
            valid_migration_modes) [
              | some e ↦ some e
              | none ↦
                  validate_rules (rules_of rs.encoding_rules) "encodingRules" 0 valid_encoding_modes
            ]
    ]
