-- ===== src/Compatibility/Avro/Schema.antt =====
-- The parsed Avro schemas that internal/compatibility/avro/checker.go reads, through the accessors of
-- github.com/hamba/avro. A named type that stands inside itself is a reference there, `ref`.
use axonops_schema_registry.Common.{ℕ, ◌+◌, String, Bool, List, ℕ_eq, string_eq, ℤ_eq}

-- `avro.Type`
pub data Kind : Type 0 where
  record_type enum_type array_type map_type union_type fixed_type ref_type : Kind
  string_type bytes_type int_type long_type float_type double_type boolean_type null_type : Kind

mutual
  pub data Schema : Type 0 where
    -- a primitive type; the kinds of the other constructors are not used here
    primitive : Kind → Schema
    -- full name, aliases, fields
    record_schema : String → List String → Fields → Schema
    -- full name, symbols, default
    enum_schema : String → List String → String → Schema
    array_schema : Schema → Schema
    map_schema : Schema → Schema
    union_schema : Schemas → Schema
    -- full name, size
    fixed_schema : String → ℕ → Schema
    ref_schema : String → Schema

  pub data Schemas : Type 0 where
    no_schemas : Schemas
    schema_then : Schema → Schemas → Schemas

  pub data Fields : Type 0 where
    no_fields : Fields
    -- name, aliases, whether it has a default, type
    field_then : String → List String → Bool → Schema → Fields → Fields

unfoldable pub kind_of : Schema → Kind
kind_of (primitive k) = k
kind_of (record_schema n a f) = record_type
kind_of (enum_schema n s d) = enum_type
kind_of (array_schema s) = array_type
kind_of (map_schema s) = map_type
kind_of (union_schema l) = union_type
kind_of (fixed_schema n s) = fixed_type
kind_of (ref_schema n) = ref_type

-- The text of a type in a message.
unfoldable pub kind_name : Kind → String
kind_name record_type = "record"
kind_name enum_type = "enum"
kind_name array_type = "array"
kind_name map_type = "map"
kind_name union_type = "union"
kind_name fixed_type = "fixed"
kind_name ref_type = "<ref>"
kind_name string_type = "string"
kind_name bytes_type = "bytes"
kind_name int_type = "int"
kind_name long_type = "long"
kind_name float_type = "float"
kind_name double_type = "double"
kind_name boolean_type = "boolean"
kind_name null_type = "null"

-- A field of a record, as the maps of the checker hold it.
pub record Field : Type 0 where
  pub name : String
  pub aliases : List String
  pub has_default : Bool
  pub type : Schema

unfoldable mutual
  pub weight : Schema → ℕ
  weight (primitive k) = 1
  weight (record_schema n a f) = 1 + weight_fields f
  weight (enum_schema n s d) = 1
  weight (array_schema s) = 1 + weight s
  weight (map_schema s) = 1 + weight s
  weight (union_schema l) = 1 + weight_schemas l
  weight (fixed_schema n s) = 1
  weight (ref_schema n) = 1

  pub weight_schemas : Schemas → ℕ
  weight_schemas no_schemas = 0
  weight_schemas (schema_then s l) = weight s + weight_schemas l

  pub weight_fields : Fields → ℕ
  weight_fields no_fields = 0
  weight_fields (field_then n a d s f) = weight s + weight_fields f
