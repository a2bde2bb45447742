-- ===== src/Compatibility/Tests.antt =====
-- The theorems on compatibility at concrete schemas, with the Avro checker on two parsed texts.
use axonops_schema_registry.Common.{
  get, put, String, ◌≡◌, refl, true, false, ◌&&◌, ◌||◌, [], ◌∷◌, arith, if◌then◌else◌, ◌==◌, ℕ_eq,
  string_eq, ℤ_eq,
}
use axonops_schema_registry.Compatibility.Result.{new_compatible_result, add_message, merge}
use axonops_schema_registry.Compatibility.Mode.{
  mode_none, mode_backward, mode_backward_transitive, mode_forward, mode_full, is_transitive,
  requires_backward, requires_forward,
}
use axonops_schema_registry.Compatibility.Checker.{
  SchemaWithRefs, SchemaChecker, Checkers, add_failures, check_one, check_each, schemas_to_check,
  check,
}
use axonops_schema_registry.Compatibility.CheckerSpec.{
  HasReasons, all_pass, check-is_compatible, latest_mode, transitive_implies_latest, full-eq-both,
}
use axonops_schema_registry.Compatibility.Avro.Schema.{
  string_type, int_type, long_type, null_type, Schema, primitive, record_schema, array_schema,
  union_schema, no_schemas, schema_then, Fields, no_fields, field_then, kind_of, weight,
}
use axonops_schema_registry.Compatibility.Avro.Check.{
  path_or_root, append_path, promotes, can_promote, is_promotable, record_names_match, put_aliases,
  writer_fields, find_by_alias, find_writer_field, check_fields, check_record, check_same,
  check_step, check_fuel, check_schemas,
}
use axonops_schema_registry.Compatibility.Avro.Fuel.{check_schemas-eq-step}
use axonops_schema_registry.Compatibility.Avro.Reasons.{IsCoherent, check_schemas-IsCoherent}
use axonops_schema_registry.Compatibility.Avro.SelfRead.{
  IsPlain, primitive_plain, record_plain, array_plain, union_plain, none_plain, then_plain,
  no_fields_plain, field_plain, reads_self,
}

abbrev parse_sample : String → Schema
parse_sample text = if text == "\"int\"" then primitive int_type else primitive long_type

abbrev avro_checker : SchemaChecker
avro_checker reader writer =
    check_schemas (parse_sample reader.schema) (parse_sample writer.schema) ""

avro_checker-HasReasons : HasReasons avro_checker
avro_checker-HasReasons reader writer bad empty = ground (
  arith,
  bad,
  empty,
  check_schemas-IsCoherent (parse_sample reader.schema) (parse_sample writer.schema) "",
)

abbrev checkers : Checkers
checkers = ("AVRO", avro_checker) ∷ []

abbrev int_schema : SchemaWithRefs
int_schema = record { schema = "\"int\""; references = [] }

abbrev long_schema : SchemaWithRefs
long_schema = record { schema = "\"long\""; references = [] }

check-is_compatible_example :
    (check checkers mode_full "AVRO" long_schema (long_schema ∷ int_schema ∷ [])).is_compatible ≡ (
      mode_full == mode_none
      || all_pass mode_full avro_checker long_schema
          (schemas_to_check mode_full (long_schema ∷ int_schema ∷ [])))
unfolding get
check-is_compatible_example =
    check-is_compatible checkers mode_full "AVRO" avro_checker long_schema
      (long_schema ∷ int_schema ∷ []) refl avro_checker-HasReasons

transitive_implies_latest_example :
    (check checkers
      (latest_mode mode_backward_transitive)
      "AVRO"
      long_schema
      (int_schema ∷ long_schema ∷ [])).is_compatible
    ≡ true
unfolding get check check_schemas check_fuel check_step check_each check_one schemas_to_check
    is_transitive requires_backward requires_forward add_failures is_promotable can_promote promotes
    kind_of new_compatible_result check_same weight
transitive_implies_latest_example =
    transitive_implies_latest checkers "AVRO" avro_checker long_schema
      (int_schema ∷ long_schema ∷ []) refl avro_checker-HasReasons mode_backward_transitive refl

full-eq-both_example :
    (check checkers mode_full "AVRO" long_schema (int_schema ∷ [])).is_compatible ≡ (
      (check checkers mode_backward "AVRO" long_schema (int_schema ∷ [])).is_compatible
      && (check checkers mode_forward "AVRO" long_schema (int_schema ∷ [])).is_compatible)
unfolding get
full-eq-both_example =
    full-eq-both checkers "AVRO" avro_checker long_schema (int_schema ∷ []) refl
      avro_checker-HasReasons

-- {"type": "record", "name": "Order", "fields": [{"name": "id", "type": "long"},
-- {"name": "tags", "type": {"type": "array", "items": ["null", "string"]}}]}
abbrev order_fields : Fields
order_fields = field_then "id" [] false (primitive long_type) (
    field_then "tags" ("labels" ∷ []) false
      (array_schema (
        union_schema
          (schema_then (primitive null_type) (schema_then (primitive string_type) no_schemas))))
      no_fields)

abbrev order_record : Schema
order_record = record_schema "Order" [] order_fields

-- The same record before the field of tags.
abbrev old_record : Schema
old_record = record_schema "Order" [] (field_then "id" [] false (primitive int_type) no_fields)

check_schemas-eq-step_example :
    check_schemas order_record old_record "" ≡ check_step check_schemas order_record old_record ""
check_schemas-eq-step_example = check_schemas-eq-step order_record old_record ""

check_schemas-IsCoherent_example : IsCoherent (check_schemas order_record old_record "")
check_schemas-IsCoherent_example = check_schemas-IsCoherent order_record old_record ""

order_record-IsPlain : IsPlain order_record
unfolding writer_fields put_aliases put get
order_record-IsPlain = record_plain (
    field_plain refl primitive_plain (
      field_plain refl
        (array_plain
          (union_plain (then_plain primitive_plain (then_plain primitive_plain none_plain))))
        no_fields_plain))

reads_self_example : (check_schemas order_record order_record "").is_compatible ≡ true
reads_self_example = reads_self order_record-IsPlain ""

-- A new field with no default is a missing one for the old writer.
order_record_rejected : (check_schemas order_record old_record "").is_compatible ≡ false
unfolding check_schemas check_fuel check_step check_same check_record record_names_match
    check_fields writer_fields put_aliases put get find_writer_field find_by_alias is_promotable
    can_promote promotes kind_of new_compatible_result add_message merge weight append_path
    path_or_root
order_record_rejected = refl
