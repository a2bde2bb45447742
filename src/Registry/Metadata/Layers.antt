-- ===== src/Registry/Metadata/Layers.antt =====
-- The three layers of a registration's metadata and rules.
use axonops_schema_registry.Common.{
  String, ◌≡◌, refl, ap, ◌∙◌, Option, none, some, List, ℕ_eq, string_eq, ℤ_eq, IsUnique,
}
use axonops_schema_registry.Storage.{Metadata, Rule, RuleSet, SchemaRecord, ConfigRecord}
use axonops_schema_registry.Registry.Backend.{Backend, done, failed}
use axonops_schema_registry.Registry.Levels.{get_config_full}
use axonops_schema_registry.Registry.Metadata.{
  no_metadata, or_else, entries, property_of, merge_metadata, rule_named, merge_rules,
  merge_rule_set, or_keep, three_layers, metadata_of, rule_set_of, maybe_set_metadata_rule_set,
}
use axonops_schema_registry.Registry.Metadata.Merged.{
  or_keep-none, property_of-merge_metadata, rule_named-merge_rules,
}

-- The rules of one category of a rule set.
abbrev pub rules_in : (RuleSet → Option (List Rule)) → Option RuleSet → Option (List Rule)
rules_in field none = none
rules_in field (some r) = field r

abbrev pub rule_at : (RuleSet → Option (List Rule)) → Option RuleSet → String → Option Rule
rule_at field rs n = rule_named (entries (rules_in field rs)) n

-- A field that a merge of rule sets merges.
abbrev IsMerged : (RuleSet → Option (List Rule)) → Type 0
IsMerged field =
    (base override : RuleSet)
    → rules_in field (merge_rule_set (some base) (some override))
      ≡ merge_rules (field base) (field override)

rule_at-merge_rule_set :
    (field : RuleSet → Option (List Rule)) (base override : Option RuleSet) (n : String)
    → IsMerged field
    → rule_at field (merge_rule_set base override) n
      ≡ or_keep (rule_at field override n) (rule_at field base n)
unfolding merge_rule_set rule_named
rule_at-merge_rule_set field none none n h = refl
rule_at-merge_rule_set field none (some o) n h = or_keep-none (rule_named (entries (field o)) n)
rule_at-merge_rule_set field (some b) none n h = refl
rule_at-merge_rule_set field (some b) (some o) n h =
    ap (λ l. rule_named (entries l) n) (h b o) ∙ rule_named-merge_rules (field b) (field o) n

module _ {A X : Type 0} (merge : Option A → Option A → Option A) (at : Option A → Option X) where
  layered :
      (default metadata previous override : Option A)
      → (merge (merge default (or_keep metadata previous)) override ≡ none → metadata ≡ none)
      → at (merge (merge default (or_keep metadata previous)) override)
        ≡ or_keep (at override) (at (merge default (or_keep metadata previous)))
      → at (merge default (or_keep metadata previous))
        ≡ or_keep (at (or_keep metadata previous)) (at default)
      → at (or_keep (three_layers merge default (or_keep metadata previous) override) metadata)
        ≡ or_keep (at override) (or_keep (at (or_keep metadata previous)) (at default))
  layered default metadata previous override nothing outer inner =
      ap at (kept (merge (merge default (or_keep metadata previous)) override) nothing)
      ∙ outer
      ∙ ap (or_keep (at override)) inner
    where
      kept : (o : Option A) → (o ≡ none → metadata ≡ none) → or_keep o metadata ≡ o
      kept none h = h refl
      kept (some a) h = refl

merge_metadata-none :
    (d m p o : Option Metadata)
    → merge_metadata (merge_metadata d (or_keep m p)) o ≡ none
    → m ≡ none
unfolding merge_metadata
merge_metadata-none d none p o h = refl
merge_metadata-none none (some m) p none h = absurd (cc h)
merge_metadata-none none (some m) p (some o) h = absurd (cc h)
merge_metadata-none (some d) (some m) p none h = absurd (cc h)
merge_metadata-none (some d) (some m) p (some o) h = absurd (cc h)

merge_rule_set-none :
    (d m p o : Option RuleSet) → merge_rule_set (merge_rule_set d (or_keep m p)) o ≡ none → m ≡ none
unfolding merge_rule_set
merge_rule_set-none d none p o h = refl
merge_rule_set-none none (some m) p none h = absurd (cc h)
merge_rule_set-none none (some m) p (some o) h = absurd (cc h)
merge_rule_set-none (some d) (some m) p none h = absurd (cc h)
merge_rule_set-none (some d) (some m) p (some o) h = absurd (cc h)

-- The properties of a map of which each key has one entry.
abbrev pub HasUniqueProperties : Option Metadata → Type 0
HasUniqueProperties m = IsUnique (entries (or_else m no_metadata).properties)

module _ {S : Type 0} (b : Backend S) (default_config : String) (s : S)
    (registry_ctx subject : String) (metadata : Option Metadata) (rule_set : Option RuleSet)
    (previous : Option SchemaRecord) (config : ConfigRecord) where
  -- The stored rule of a name is that of the override, or of the request, or of the default.
  abbrev pub LayeredRules : (RuleSet → Option (List Rule)) → Type 0
  LayeredRules field =
      (n : String)
      → rule_at field
          (maybe_set_metadata_rule_set b default_config s registry_ctx subject metadata rule_set
            previous).1
          n
        ≡ or_keep (rule_at field config.override_rule_set n) (
            or_keep (rule_at field (or_keep rule_set (rule_set_of previous)) n)
              (rule_at field config.default_rule_set n))

  rules :
      (field : RuleSet → Option (List Rule))
      → IsMerged field
      → {m : Option Metadata}
      → maybe_set_metadata_rule_set b default_config s registry_ctx subject metadata rule_set
          previous
        ≡ (
          m,
          or_keep
              (three_layers merge_rule_set config.default_rule_set
                (or_keep rule_set (rule_set_of previous))
                config.override_rule_set)
              rule_set,
        )
      → LayeredRules field
  rules field merged computed n =
      ap (λ p. rule_at field p.1 n) computed
      ∙ layered merge_rule_set (λ r. rule_at field r n) config.default_rule_set rule_set
          (rule_set_of previous) config.override_rule_set
          (merge_rule_set-none config.default_rule_set rule_set (rule_set_of previous)
            config.override_rule_set)
          (rule_at-merge_rule_set field
            (merge_rule_set config.default_rule_set (or_keep rule_set (rule_set_of previous)))
            config.override_rule_set n merged)
          (rule_at-merge_rule_set field config.default_rule_set
            (or_keep rule_set (rule_set_of previous)) n merged)

  -- Where a configuration applies to the subject, and the maps of properties of the override and of
  -- the request name no key twice: after the merge, each property is that of the override, or else
  -- that of the request (of the previous version, if the request has no metadata), or else that of
  -- the default. The same holds of the rule that each category has for a name.
  pub layers_of_registration :
      get_config_full b default_config s registry_ctx subject ≡ done config
      → HasUniqueProperties (or_keep metadata (metadata_of previous))
      → HasUniqueProperties config.override_metadata
      → ((k : String)
          → property_of
              (maybe_set_metadata_rule_set b default_config s registry_ctx subject metadata rule_set
                previous).0
              k
            ≡ or_keep (property_of config.override_metadata k) (
                or_keep
                  (property_of (or_keep metadata (metadata_of previous)) k)
                  (property_of config.default_metadata k)))
        × LayeredRules (λ r. r.migration_rules)
        × LayeredRules (λ r. r.domain_rules)
        × LayeredRules (λ r. r.encoding_rules)
  unfolding maybe_set_metadata_rule_set merge_rule_set
  layers_of_registration found unique unique' =
      let specific = or_keep metadata (metadata_of previous) in
      let computed =
        ap
          (λ a. elim a [
            | failed _ ↦ (metadata, rule_set)
            | done config ↦ (
              or_keep
                  (three_layers merge_metadata config.default_metadata specific
                    config.override_metadata)
                  metadata,
              or_keep
                  (three_layers merge_rule_set config.default_rule_set
                    (or_keep rule_set (rule_set_of previous)) config.override_rule_set)
                  rule_set,
            )
          ])
          found in
      (
        λ k.
            ap (λ p. property_of p.0 k) computed
            ∙ layered merge_metadata (λ m. property_of m k) config.default_metadata metadata
                (metadata_of previous) config.override_metadata
                (merge_metadata-none config.default_metadata metadata (metadata_of previous)
                  config.override_metadata)
                (property_of-merge_metadata (merge_metadata config.default_metadata specific)
                  config.override_metadata k unique')
                (property_of-merge_metadata config.default_metadata specific k unique),
        rules (λ r. r.migration_rules) (λ b o. refl) computed,
        rules (λ r. r.domain_rules) (λ b o. refl) computed,
        rules (λ r. r.encoding_rules) (λ b o. refl) computed,
      )
