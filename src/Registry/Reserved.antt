-- ===== src/Registry/Reserved.antt =====
-- Reserved fields and compatibility groups: internal/registry/registry.go, `filterByCompatibilityGroup`,
-- `getReservedFields` and `validateReservedFields`.
use axonops_schema_registry.Common.{
  trim_space, split_comma, String, Bool, not, Option, none, some, List, [], ◌∷◌, ◌++◌,
  if◌then◌else◌, ℕ_eq, string_eq, ◌==◌, ℤ_eq,
}
use axonops_schema_registry.Rules.{member}
use axonops_schema_registry.Storage.{ok, err, Metadata, SchemaRecord}
use axonops_schema_registry.Registry.Backend.{Backend, done, failed}
use axonops_schema_registry.Registry.Levels.{get_subject_config_full}
use axonops_schema_registry.Registry.Metadata.{or_else, property_of, unseen}

abbrev pub keep_named : List String → List String
keep_named [] = []
keep_named (f ∷ rest) =
    let others = keep_named rest in
    let f' = trim_space f in if not (f' == "") then f' ∷ others else others

-- The names of the set, each once, in an order of the map.
unfoldable pub get_reserved_fields : Option Metadata → List String
get_reserved_fields metadata = elim (property_of metadata "confluent:reserved") [
  | none ↦ []
  | some text ↦ if text == "" then [] else unseen [] (keep_named (split_comma text))
]

-- The messages of `validateReservedFields`.
pub data ReservedMessage : Type 0 where
  reserved_removed reserved_conflict : String → ReservedMessage

unfoldable pub removed_fields : List String → List String → List ReservedMessage
removed_fields now [] = []
removed_fields now (f ∷ previous) =
    let rest = removed_fields now previous in
    if not (member f now) then reserved_removed f ∷ rest else rest

unfoldable pub conflicting_fields : (String → Bool) → List String → List ReservedMessage
conflicting_fields is_field [] = []
conflicting_fields is_field (f ∷ reserved) =
    let rest = conflicting_fields is_field reserved in
    if is_field f then reserved_conflict f ∷ rest else rest

module _ {S : Type 0} (b : Backend S) where
  unfoldable pub validate_reserved_fields :
      S → String → String → (String → Bool) → Option Metadata → List ReservedMessage
  validate_reserved_fields s registry_ctx subject is_field metadata =
      let reserved = get_reserved_fields metadata in
      let removed : List ReservedMessage = elim (b.get_latest_schema s registry_ctx subject) [
        | err _ ↦ []
        | ok latest ↦ removed_fields reserved (get_reserved_fields latest.metadata)
      ] in
      removed ++ conflicting_fields is_field reserved

  -- A property that is missing counts as empty.
  abbrev pub group_value : String → Option Metadata → String
  group_value group m = or_else (property_of m group) ""

  abbrev pub with_group : String → String → List SchemaRecord → List SchemaRecord
  with_group group value [] = []
  with_group group value (r ∷ rest) =
      let others = with_group group value rest in
      if group_value group r.metadata == value then r ∷ others else others

  unfoldable pub filter_by_compatibility_group :
      S → String → String → Option Metadata → List SchemaRecord → List SchemaRecord
  filter_by_compatibility_group s registry_ctx subject metadata schemas =
      elim (get_subject_config_full b s registry_ctx subject) [
        | failed _ ↦ schemas
        | done config ↦
            let group = config.compatibility_group in
            if group == "" then schemas else with_group group (group_value group metadata) schemas
      ]
