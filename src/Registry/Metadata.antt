-- ===== src/Registry/Metadata.antt =====
-- The metadata and rule sets of a registration: internal/registry/registry.go,
-- `extractConfluentVersionTarget` and `metadataEqual` to `mergeRules`.
use axonops_schema_registry.Common.{
  atoi, itoa, get, delete, put, String, Bool, true, Option, none, some, List, [], ◌∷◌, ◌++◌, map,
  if◌then◌else◌, ℕ_eq, string_eq, ◌==◌, ℤ, pos, ℤ_eq, leb_ℤ, Map,
}
use axonops_schema_registry.Rules.{member}
use axonops_schema_registry.Storage.{Metadata, Rule, RuleSet, SchemaRecord}
use axonops_schema_registry.Storage.DeepEqual.{metadata_eq, rule_set_eq}
use axonops_schema_registry.Registry.Backend.{Backend, done, failed}
use axonops_schema_registry.Registry.Levels.{get_config_full}
pub mod Layers
pub mod Merged
pub mod Version

abbrev pub no_metadata : Metadata
no_metadata = record { tags = none; properties = none; sensitive = none }

abbrev pub no_rule_set : RuleSet
no_rule_set = record { migration_rules = none; domain_rules = none; encoding_rules = none }

abbrev pub or_else {ℓ} : {A : Type ℓ} → Option A → A → A
or_else none b = b
or_else (some a) b = a

-- `range` over a nil map or slice is over nothing.
abbrev pub entries {ℓ} : {A : Type ℓ} → Option (List A) → List A
entries m = or_else m []

unfoldable pub metadata_equal : Option Metadata → Option Metadata → Bool
metadata_equal none none = true
metadata_equal a b = metadata_eq (or_else a no_metadata) (or_else b no_metadata)

unfoldable pub rule_set_equal : Option RuleSet → Option RuleSet → Bool
rule_set_equal none none = true
rule_set_equal a b = rule_set_eq (or_else a no_rule_set) (or_else b no_rule_set)

-- A property of the metadata.
abbrev pub at_key : Option (Map String String) → String → Option String
at_key none k = none
at_key (some ps) k = get ps k

abbrev pub property_of : Option Metadata → String → Option String
property_of none k = none
property_of (some m) k = at_key m.properties k

abbrev pub version_property : String
version_property = "confluent:version"

-- A map with no entry left becomes nil.
abbrev pub nil_if_empty {ℓ} : {A : Type ℓ} → List A → Option (List A)
nil_if_empty [] = none
nil_if_empty (a ∷ l) = some (a ∷ l)

-- Metadata with nothing in it becomes nil.
abbrev pub nil_if_bare : Metadata → Option Metadata
nil_if_bare m = elim m.properties [
  | some _ ↦ some m
  | none ↦ elim m.tags [
    | some _ ↦ some m
    | none ↦ elim m.sensitive [ some _ ↦ some m | none ↦ none ]
  ]
]

unfoldable pub strip_confluent_version : Option Metadata → Option Metadata
strip_confluent_version none = none
strip_confluent_version (some m) = elim m.properties [
  | none ↦ some m
  | some ps ↦ elim (get ps version_property) [
    | none ↦ some m
    | some _ ↦ nil_if_bare (record m { properties = nil_if_empty (delete ps version_property) })
  ]
]

unfoldable pub metadata_equal_for_dedup : Option Metadata → Option Metadata → Bool
metadata_equal_for_dedup a b =
    metadata_equal (strip_confluent_version a) (strip_confluent_version b)

-- A text that is no number, and a number below 1, are no target.
abbrev pub target_of : Option String → ℤ
target_of none = pos 0
target_of (some text) = elim (atoi text) [
  | none ↦ pos 0
  | some cv ↦ if leb_ℤ cv (pos 0) then pos 0 else cv
]

unfoldable pub extract_confluent_version_target : Option Metadata → ℤ
extract_confluent_version_target meta = target_of (property_of meta version_property)

-- The copy of a record with the property set, in metadata that is made where there is none.
abbrev pub with_version_property : SchemaRecord → SchemaRecord
with_version_property r =
    let m = or_else r.metadata no_metadata in
    record r {
      metadata = some (record m {
        properties = some (put (entries m.properties) version_property (itoa r.version));
      });
    }

unfoldable pub auto_populate_confluent_version : SchemaRecord → SchemaRecord
auto_populate_confluent_version r = if leb_ℤ r.version (pos 0) then r else with_version_property r

-- The second map is written over the first.
unfoldable pub put_all : {V : Type 0} → Map String V → Map String V → Map String V
put_all m [] = m
put_all m ((k, v) ∷ rest) = put_all (put m k v) rest

abbrev pub merge_maps :
    {V : Type 0} → Option (Map String V) → Option (Map String V) → Option (Map String V)
merge_maps none none = none
merge_maps base override = some (put_all (entries base) (entries override))

-- A list that is seen through once, without what it has had before: what is `seen`, and the result.
unfoldable pub unseen : List String → List String → List String
unseen seen [] = []
unseen seen (s ∷ rest) = if member s seen then unseen seen rest else s ∷ unseen (s ∷ seen) rest

abbrev pub merge_sensitive : Option (List String) → Option (List String) → Option (List String)
merge_sensitive base override = nil_if_empty (unseen [] (entries base ++ entries override))

unfoldable pub merge_metadata : Option Metadata → Option Metadata → Option Metadata
merge_metadata none override = override
merge_metadata (some base) none = some base
merge_metadata (some base) (some override) = some (record {
  properties = merge_maps base.properties override.properties;
  tags = merge_maps base.tags override.tags;
  sensitive = merge_sensitive base.sensitive override.sensitive;
})

-- `overrideMap`: of the rules with one name, the last.
unfoldable pub rule_named : List Rule → String → Option Rule
rule_named [] n = none
rule_named (r ∷ rest) n = elim (rule_named rest n) [
  | some later ↦ some later
  | none ↦ if r.name == n then some r else none
]

abbrev pub replaced : List Rule → Rule → Rule
replaced override r = or_else (rule_named override r.name) r

-- The rules whose names are not among `names`. A rule of the override has its name in `seen` exactly if
-- a rule of the base has that name.
unfoldable pub not_named : List String → List Rule → List Rule
not_named names [] = []
not_named names (r ∷ rest) =
    let others = not_named names rest in if member r.name names then others else r ∷ others

-- Both lists have elements.
unfoldable pub merge_two : List Rule → List Rule → List Rule
merge_two base override =
    map (replaced override) base ++ not_named (map (λ r. r.name) base) override

unfoldable pub merge_rules : Option (List Rule) → Option (List Rule) → Option (List Rule)
merge_rules base override = elim (entries base) [
  | [] ↦ elim (entries override) [ [] ↦ none | _ ∷ _ ↦ override ]
  | _ ∷ _ ↦ elim (entries override) [
    | [] ↦ base
    | _ ∷ _ ↦ some (merge_two (entries base) (entries override))
  ]
]

unfoldable pub merge_rule_set : Option RuleSet → Option RuleSet → Option RuleSet
merge_rule_set none override = override
merge_rule_set (some base) none = some base
merge_rule_set (some base) (some override) = some (record {
  migration_rules = merge_rules base.migration_rules override.migration_rules;
  domain_rules = merge_rules base.domain_rules override.domain_rules;
  encoding_rules = merge_rules base.encoding_rules override.encoding_rules;
})

-- `result`, or the old value where it is nil.
abbrev pub or_keep {ℓ} : {A : Type ℓ} → Option A → Option A → Option A
or_keep none old = old
or_keep (some a) old = some a

abbrev pub three_layers {ℓ} :
    {A : Type ℓ} → (Option A → Option A → Option A) → Option A → Option A → Option A → Option A
three_layers merge default specific override = merge (merge default specific) override

-- What the version before has.
abbrev pub metadata_of : Option SchemaRecord → Option Metadata
metadata_of none = none
metadata_of (some p) = p.metadata

abbrev pub rule_set_of : Option SchemaRecord → Option RuleSet
rule_set_of none = none
rule_set_of (some p) = p.rule_set

module _ {S : Type 0} (b : Backend S) (default_config : String) where
  -- The metadata and the rule set of a registration, after the merge with the configuration.
  unfoldable pub maybe_set_metadata_rule_set :
      S
      → String
      → String
      → Option Metadata
      → Option RuleSet
      → Option SchemaRecord
      → Option Metadata × Option RuleSet
  maybe_set_metadata_rule_set s registry_ctx subject metadata rule_set previous =
      elim (get_config_full b default_config s registry_ctx subject) [
        | failed _ ↦ (metadata, rule_set)
        | done config ↦ (
          or_keep
              (three_layers merge_metadata config.default_metadata
                (or_keep metadata (metadata_of previous)) config.override_metadata)
              metadata,
          or_keep
              (three_layers merge_rule_set config.default_rule_set
                (or_keep rule_set (rule_set_of previous)) config.override_rule_set)
              rule_set,
        )
      ]
