-- ===== src/Rules/Tests.antt =====
-- The theorem on rule sets at a concrete one.
use axonops_schema_registry.Common.{
  is_space, trim_left, trim_right, trim_space, split_comma, ◌≡◌, ◌↔◌, refl, false, none, some, [],
  ◌∷◌, ℕ_eq, string_eq, ℤ_eq,
}
use axonops_schema_registry.Storage.{Rule, RuleSet}
use axonops_schema_registry.Rules.{
  all_actions, is_valid_action, bad_mode, validate_rule, validate_rules, validate_rule_set,
}
use axonops_schema_registry.Rules.Spec.{IsRuleSet, validate_rule_set-IsRuleSet}

abbrev sample_rule : Rule
sample_rule = record {
  name = "check";
  doc = "";
  kind = "CONDITION";
  mode = "WRITEREAD";
  type = "CEL";
  tags = none;
  params = none;
  expr = "true";
  on_success = "NONE";
  on_failure = "ERROR, NONE";
  disabled = false;
  enable_at = none;
}

abbrev sample_rules : RuleSet
sample_rules = record {
  migration_rules = none;
  domain_rules = some (sample_rule ∷ []);
  encoding_rules = some (record sample_rule { mode = "UPGRADE" } ∷ []);
}

validate_rule_set-IsRuleSet_example :
    (validate_rule_set sample_rules ≡ none) ↔ IsRuleSet sample_rules
validate_rule_set-IsRuleSet_example = validate_rule_set-IsRuleSet sample_rules

sample_rules_rejected : validate_rule_set sample_rules ≡ some (bad_mode "check")
unfolding validate_rule_set validate_rules validate_rule is_valid_action all_actions split_comma
    trim_space trim_left trim_right is_space
sample_rules_rejected = refl
