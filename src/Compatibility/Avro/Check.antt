-- ===== src/Compatibility/Avro/Check.antt =====
-- The methods of internal/compatibility/avro/checker.go. Each takes, as `rec`, the recursive call of
-- `checkSchemas`; `check_fuel` ties the knot, and `check_schemas` gives it enough fuel.
use Prim.Native.String.{◌++◌ as str_append}
use axonops_schema_registry.Common.{
  get, put, ℕ, zero, suc, ◌+◌, String, Bool, true, false, not, ◌&&◌, ◌||◌, Option, none, some, List,
  [], ◌∷◌, if◌then◌else◌, ◌==◌, ℕ_eq, string_eq, ℤ_eq, Map,
}
use axonops_schema_registry.Compatibility.Result.{
  plain, CheckResult, new_compatible_result, new_incompatible_result, add_message, merge,
}
use axonops_schema_registry.Compatibility.Avro.Schema.{
  Kind, record_type, enum_type, array_type, map_type, union_type, fixed_type, ref_type, string_type,
  bytes_type, int_type, long_type, float_type, double_type, boolean_type, null_type, Schema,
  record_schema, enum_schema, array_schema, map_schema, union_schema, fixed_schema, Schemas,
  no_schemas, schema_then, Fields, no_fields, field_then, kind_of, kind_name, Field, weight,
}

unfoldable pub path_or_root : String → String
path_or_root path = if path == "" then "root" else path

unfoldable pub append_path : String → String → String
append_path path segment = if path == "" then segment else str_append (str_append path ".") segment

-- The numeric promotions, and string and bytes for each other: `wt` to `rt`.
unfoldable pub promotes : Kind → Kind → Bool
promotes int_type long_type = true
promotes int_type float_type = true
promotes int_type double_type = true
promotes long_type float_type = true
promotes long_type double_type = true
promotes float_type double_type = true
promotes string_type bytes_type = true
promotes bytes_type string_type = true
promotes _ _ = false

unfoldable pub can_promote : Schema → Schema → Bool
can_promote writer reader = promotes (kind_of writer) (kind_of reader)

unfoldable pub is_promotable : Schema → Schema → Bool
is_promotable writer reader = can_promote writer reader

abbrev pub mentions : List String → String → Bool
mentions [] s = false
mentions (a ∷ rest) s = a == s || mentions rest s

unfoldable pub record_names_match : String → List String → String → List String → Bool
record_names_match reader_name reader_aliases writer_name writer_aliases =
    reader_name == writer_name
    || (mentions writer_aliases reader_name || mentions reader_aliases writer_name)

-- `writerFields[alias] = f` for each alias
unfoldable pub put_aliases : Map String Field → List String → Field → Map String Field
put_aliases m [] f = m
put_aliases m (a ∷ rest) f = put_aliases (put m a f) rest f

unfoldable pub writer_fields : Map String Field → Fields → Map String Field
writer_fields m no_fields = m
writer_fields m (field_then n a d t rest) =
    let f : Field = record { name = n; aliases = a; has_default = d; type = t } in
    writer_fields (put_aliases (put m n f) a f) rest

unfoldable pub find_by_alias : List String → Map String Field → Option Field
find_by_alias [] m = none
find_by_alias (a ∷ rest) m = elim (get m a) [ some f ↦ some f | none ↦ find_by_alias rest m ]

unfoldable pub find_writer_field : String → List String → Map String Field → Option Field
find_writer_field name aliases m = elim (get m name) [
  | some f ↦ some f
  | none ↦ find_by_alias aliases m
]

-- The recursive call that a method makes.
abbrev pub Rec : Type 0
Rec = Schema → Schema → String → CheckResult

module _ (rec : Rec) where
  -- The loop over the reader's fields.
  unfoldable pub check_fields : Map String Field → Fields → String → CheckResult → CheckResult
  check_fields m no_fields path result = result
  check_fields m (field_then n a d t rest) path result =
      check_fields m rest path (elim (find_writer_field n a m) [
        | none ↦
            if not d
            then add_message result (
                plain "%s: reader field '%s' has no default and is missing from writer"
                  (path_or_root path ∷ n ∷ []))
            else result
        | some wf ↦ merge result (rec t wf.type (append_path path n))
      ])

  unfoldable pub check_record :
      String → List String → Fields → String → List String → Fields → String → CheckResult
  check_record rn ra rf wn wa wf path =
      if not (record_names_match rn ra wn wa)
      then add_message new_compatible_result (
          plain "%s: record name mismatch: reader has %s, writer has %s"
            (path_or_root path ∷ rn ∷ wn ∷ []))
      else check_fields (writer_fields [] wf) rf path new_compatible_result

  -- Whether some type of the reader's union can read the writer's type.
  unfoldable pub some_reads : Schemas → Schema → String → Bool
  some_reads no_schemas wt path = false
  some_reads (schema_then rt rest) wt path =
      (rec rt wt path).is_compatible || some_reads rest wt path

  unfoldable pub check_union_types : Schemas → Schemas → String → CheckResult → CheckResult
  check_union_types readers no_schemas path result = result
  check_union_types readers (schema_then wt rest) path result =
      check_union_types readers rest path (
        if not (some_reads readers wt path)
        then add_message result (
            plain "%s: writer union type %s is not compatible with any reader union type"
              (path_or_root path ∷ kind_name (kind_of wt) ∷ []))
        else result)

  unfoldable pub check_union : Schemas → Schemas → String → CheckResult
  check_union readers writers path = check_union_types readers writers path new_compatible_result

  unfoldable pub check_reader_union : Schemas → Schema → String → CheckResult
  check_reader_union readers writer path =
      if some_reads readers writer path
      then new_compatible_result
      else new_incompatible_result (
          plain "%s: writer type %s is not compatible with any type in reader union"
            (path_or_root path ∷ kind_name (kind_of writer) ∷ [])
          ∷ [])

  unfoldable pub check_writer_union : Schema → Schemas → String → CheckResult
  check_writer_union reader no_schemas path = new_compatible_result
  check_writer_union reader (schema_then wt rest) path =
      let more = check_writer_union reader rest path in
      if not (rec reader wt path).is_compatible
      then new_incompatible_result (
          plain "%s: reader type %s cannot read writer union type %s"
            (path_or_root path ∷ kind_name (kind_of reader) ∷ kind_name (kind_of wt) ∷ [])
          ∷ [])
      else more

-- The loop over the writer's symbols.
unfoldable pub check_symbols :
    List String → String → List String → String → CheckResult → CheckResult
check_symbols reader_symbols default_symbol [] path result = result
check_symbols reader_symbols default_symbol (ws ∷ rest) path result =
    check_symbols reader_symbols default_symbol rest path (
      if not (mentions reader_symbols ws) && default_symbol == ""
      then add_message result (
          plain "%s: writer enum symbol '%s' not found in reader and no default set"
            (path_or_root path ∷ ws ∷ []))
      else result)

unfoldable pub check_enum :
    String → List String → String → String → List String → String → CheckResult
check_enum rn rs rd wn ws path =
    if not (rn == wn)
    then add_message new_compatible_result (
        plain "%s: enum name mismatch: reader has %s, writer has %s"
          (path_or_root path ∷ rn ∷ wn ∷ []))
    else check_symbols rs rd ws path new_compatible_result

-- The two sizes of a message are left out of its arguments.
unfoldable pub check_fixed : String → ℕ → String → ℕ → String → CheckResult
check_fixed rn rs wn ws path =
    let named =
      if not (rn == wn)
      then add_message new_compatible_result (
          plain "%s: fixed name mismatch: reader has %s, writer has %s"
            (path_or_root path ∷ rn ∷ wn ∷ []))
      else new_compatible_result in
    if not (rs == ws)
    then add_message named
        (plain "%s: fixed size mismatch: reader has %d, writer has %d" (path_or_root path ∷ []))
    else named

unfoldable pub type_mismatch : Schema → Schema → String → CheckResult
type_mismatch reader writer path = add_message new_compatible_result (
    plain "%s: type mismatch: reader has %s, writer has %s"
      (path_or_root path ∷ kind_name (kind_of reader) ∷ kind_name (kind_of writer) ∷ []))

abbrev pub kind_number : Kind → ℕ
kind_number record_type = 0
kind_number enum_type = 1
kind_number array_type = 2
kind_number map_type = 3
kind_number union_type = 4
kind_number fixed_type = 5
kind_number ref_type = 6
kind_number string_type = 7
kind_number bytes_type = 8
kind_number int_type = 9
kind_number long_type = 10
kind_number float_type = 11
kind_number double_type = 12
kind_number boolean_type = 13
kind_number null_type = 14

abbrev pub same_kind : Kind → Kind → Bool
same_kind a b = kind_number a == kind_number b

module _ (rec : Rec) where
  -- The switch on the reader's type, where the writer has the same type.
  unfoldable pub check_same : Schema → Schema → String → CheckResult
  check_same (record_schema rn ra rf) (record_schema wn wa wf) path =
      check_record rec rn ra rf wn wa wf path
  check_same (enum_schema rn rs rd) (enum_schema wn ws wd) path = check_enum rn rs rd wn ws path
  check_same (array_schema r) (array_schema w) path = rec r w (append_path path "[]")
  check_same (map_schema r) (map_schema w) path = rec r w (append_path path "{}")
  check_same (union_schema rs) (union_schema ws) path = check_union rec rs ws path
  check_same (fixed_schema rn rs) (fixed_schema wn ws) path = check_fixed rn rs wn ws path
  check_same r w path = new_compatible_result

  -- Different types: a union on one side, or a mismatch.
  unfoldable pub check_different : Schema → Schema → String → CheckResult
  check_different (union_schema rs) w path = check_reader_union rec rs w path
  check_different r (union_schema ws) path = check_writer_union rec r ws path
  check_different r w path = type_mismatch r w path

  -- The body of `checkSchemas`.
  unfoldable pub check_step : Schema → Schema → String → CheckResult
  check_step r w path =
      if is_promotable w r
      then new_compatible_result
      else if not (same_kind (kind_of r) (kind_of w)) && not (can_promote w r)
      then check_different r w path
      else check_same r w path

-- `checkSchemas`, with fuel for the depth of its calls.
unfoldable pub check_fuel : ℕ → Schema → Schema → String → CheckResult
check_fuel zero r w path = new_incompatible_result (plain "out of fuel" [] ∷ [])
check_fuel (suc n) r w path = check_step (check_fuel n) r w path

unfoldable pub check_schemas : Schema → Schema → String → CheckResult
check_schemas r w path = check_fuel (weight r + weight w) r w path
