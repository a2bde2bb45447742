-- ===== src/Registry/Tests.antt =====
-- The theorems on the service at concrete backends and requests.
use axonops_schema_registry.Common.{
  upper, to_upper, decimal_from, decimal, itoa, get, String, ◌≡◌, refl, ◌≢◌, ◌⊎◌, inl, true, false,
  none, some, [], ◌∷◌, arith, ℕ_eq, string_eq, ℤ, pos, ℤ_eq,
}
use axonops_schema_registry.Storage.{ok, SchemaRecord}
use axonops_schema_registry.Compatibility.Result.{new_compatible_result}
use axonops_schema_registry.Compatibility.Mode.{is_transitive, requires_backward, requires_forward}
use axonops_schema_registry.Compatibility.Checker.{
  add_failures, check_one, check_each, last_only, schemas_to_check, check,
}
use axonops_schema_registry.Memory.State.{new_store}
use axonops_schema_registry.Registry.Backend.{
  RegistryError, too_deep, incompatible_schema, done, failed,
}
use axonops_schema_registry.Registry.Levels.{
  global_context, level_record, is_valid_compatibility, config_record, get_config, get_config_full,
  set_config, is_normalize_enabled, is_validate_fields_enabled,
}
use axonops_schema_registry.Registry.Modes.{
  is_valid_mode, resolve_global_mode, get_mode, has_subjects, import_allowed, set_mode,
}
use axonops_schema_registry.Registry.Metadata.{
  property_of, extract_confluent_version_target, auto_populate_confluent_version, or_keep,
  maybe_set_metadata_rule_set,
}
use axonops_schema_registry.Registry.References.{key_of, walk, resolve, resolve_references}
use axonops_schema_registry.Registry.Register.{RegisterOpts, parse_with, with_refs, register_schema}
use axonops_schema_registry.Registry.Checking.{versions_to_check, check_compatibility}
use axonops_schema_registry.Registry.Imports.{
  ImportSchemaRequest, bad_field, import_one, tally, import_each, import_schemas,
}
use axonops_schema_registry.Registry.InMemory.{memory_backend, memory_backend-ConfigLaws}
use axonops_schema_registry.Registry.Levels.Chain.{tiers, first_ok, get_config_full-first_ok}
use axonops_schema_registry.Registry.Modes.Kill.{MayImport, set_mode_import}
use axonops_schema_registry.Registry.Levels.Written.{get_config-set_config}
use axonops_schema_registry.Registry.Register.Stored.{StoresLayered, register_schema_layered}
use axonops_schema_registry.Registry.Metadata.Version.{extract-auto_populate_confluent_version}
use axonops_schema_registry.Registry.References.Depth.{resolve_references_ends}
use axonops_schema_registry.Registry.References.Order.{
  keys_of, AllAmong, InOrder, resolve_references-InOrder,
}
use axonops_schema_registry.Registry.Imports.Counting.{
  ImportedBelow, StoredBelow, after_imports, import_schemas_next_id,
}
use axonops_schema_registry.Registry.Register.Outcomes.{register_schema_predicted}
use axonops_schema_registry.Registry.Tests.Shelf.{
  text_parser, order_schema, order_reference, line_reference, owner_config, shelf, service,
  shelf_keys, shelf_known, shelf_rank, shelf_acyclic,
}
pub mod Shelf
use axonops_schema_registry.Memory.Config

get_config_full-first_ok_example :
    get_config_full shelf "BACKWARD" (pos 3) "." "lines"
    ≡ done (
        first_ok
          (tiers "." "lines"
            (shelf.get_config (pos 3) "." "lines")
            (shelf.get_global_config (pos 3) ".")
            (shelf.get_global_config (pos 3) global_context))
          (level_record "BACKWARD"))
get_config_full-first_ok_example =
    get_config_full-first_ok shelf "BACKWARD" (pos 3) "." "lines" refl

set_mode_import_example :
    (MayImport shelf (pos 3) "." "payments"
      × (set_mode shelf (pos 3) "." "payments" "import" false ≡ (done tt, pos 3)))
    ⊎ ((¬ MayImport shelf (pos 3) "." "payments")
        × (e : RegistryError) × (set_mode shelf (pos 3) "." "payments" "import" false
            ≡ (failed e, pos 3)))
unfolding to_upper upper
set_mode_import_example = set_mode_import shelf (pos 3) "." "payments" "import" refl

get_config-set_config_example :
    (get_config
        (memory_backend 1 2)
        "BACKWARD"
        (Config.set_config new_store "." "orders" (level_record "FULL"))
        "."
        "orders"
      ≡ done (to_upper "full"))
    × (is_valid_compatibility (to_upper "full") ≡ true)
unfolding set_config config_record is_valid_compatibility to_upper upper
get_config-set_config_example =
    get_config-set_config (memory_backend 1 2) (memory_backend-ConfigLaws 1 2) "BACKWARD" new_store
      (Config.set_config new_store "." "orders" (level_record "FULL")) "." "orders" "full" none none
      refl

extract-auto_populate_confluent_version_example :
    extract_confluent_version_target
      (auto_populate_confluent_version (record order_schema { version = pos 7 })).metadata
    ≡ pos 7
extract-auto_populate_confluent_version_example =
    extract-auto_populate_confluent_version (record order_schema { version = pos 7 }) 7 refl
      (omega arith) (omega arith)

register_schema_predicted_example :
    (register_schema service 3
      (pos 3)
      "."
      "lines"
      "\"int\""
      ""
      []
      (record { normalize = false; metadata = none; rule_set = none })).0
    ≢ failed incompatible_schema
unfolding check_compatibility parse_with resolve_references resolve walk versions_to_check with_refs
    is_normalize_enabled is_validate_fields_enabled get_config check check_each check_one
    add_failures new_compatible_result schemas_to_check last_only is_transitive requires_backward
    requires_forward get
register_schema_predicted_example =
    register_schema_predicted service 3 (pos 3) "." "lines" "\"int\"" "" []
      (record { normalize = false; metadata = none; rule_set = none }) new_compatible_result
      (record { parser = text_parser; parsed = "\"int\""; resolved_refs = [] })
      (λ c h. absurd (cc h)) refl refl refl (inl refl)

resolve_references_ends_example :
    resolve_references shelf 3 (pos 3) "." (line_reference ∷ []) ≢ failed too_deep
resolve_references_ends_example =
    resolve_references_ends shelf (pos 3) "." shelf_keys 3 (line_reference ∷ []) shelf_known
      (omega arith)

resolve_references-InOrder_example :
    InOrder shelf (pos 3) "." [] (
      record order_reference { schema = "\"long\"" }
      ∷ record line_reference { schema = "\"long\"" }
      ∷ [])
    × AllAmong
        (keys_of (
          record order_reference { schema = "\"long\"" }
          ∷ record line_reference { schema = "\"long\"" }
          ∷ []))
        (line_reference ∷ [])
unfolding resolve_references resolve walk key_of itoa decimal decimal_from
resolve_references-InOrder_example =
    resolve_references-InOrder shelf (pos 3) "." shelf_rank shelf_acyclic 3 (line_reference ∷ [])
      (record order_reference { schema = "\"long\"" }
        ∷ record line_reference { schema = "\"long\"" }
        ∷ [])
      refl

abbrev order_import : ImportSchemaRequest
order_import = record {
  id = pos 9;
  subject = "orders";
  version = pos 1;
  schema_type = "";
  schema = "\"long\"";
  references = [];
}

import_schemas_next_id_example :
    (next : ℤ) × (shelf.set_next_id
        (after_imports service 3 (pos 3) "." (order_import ∷ []))
        "."
        next
      ≡ (
        (import_schemas service 3 (pos 3) "." (order_import ∷ [])).1,
        (import_schemas service 3 (pos 3) "." (order_import ∷ [])).2,
      ))
    × ImportedBelow service 3 next
        (import_schemas service 3 (pos 3) "." (order_import ∷ [])).0.results
    × StoredBelow service 3 next
        (shelf.get_max_schema_id (after_imports service 3 (pos 3) "." (order_import ∷ [])) ".")
unfolding import_schemas import_each import_one tally bad_field parse_with resolve_references
    resolve walk
import_schemas_next_id_example =
    import_schemas_next_id service 3 (pos 3) "." (order_import ∷ []) (omega arith, tt) (omega arith)
      (omega arith)

abbrev plain : RegisterOpts
plain = record { normalize = false; metadata = none; rule_set = none }

register_schema_layered_example :
    StoresLayered service 3
      (pos 3)
      "."
      "orders"
      "\"int\""
      ""
      []
      plain
      owner_config
      (register_schema service 3 (pos 3) "." "orders" "\"int\"" "" [] plain)
unfolding get_config_full get
register_schema_layered_example =
    register_schema_layered service 3 (pos 3) "." "orders" "\"int\"" "" [] plain owner_config refl
      tt (refl, tt)
