-- ===== src/Compatibility/Avro/SelfRead.antt =====
-- A schema can read what it wrote.
use axonops_schema_registry.Common.{
  get, ℕ, String, ◌≡◌, refl, ◌∙◌, Bool, true, false, some, List, [], ◌∷◌, ◌++◌, arith, ℕ_eq,
  string_eq, ==_self, ℤ_eq, Map,
}
use axonops_schema_registry.Compatibility.Result.{CheckResult, new_compatible_result, merge}
use axonops_schema_registry.Compatibility.Avro.Schema.{
  Kind, record_type, enum_type, array_type, map_type, union_type, fixed_type, ref_type, string_type,
  bytes_type, int_type, long_type, float_type, double_type, boolean_type, null_type, Schema,
  primitive, record_schema, enum_schema, array_schema, map_schema, union_schema, fixed_schema,
  ref_schema, Schemas, no_schemas, schema_then, Fields, no_fields, field_then, kind_of, Field,
}
use axonops_schema_registry.Compatibility.Avro.Check.{
  append_path, promotes, can_promote, is_promotable, mentions, record_names_match, writer_fields,
  find_writer_field, check_fields, check_record, some_reads, check_union_types, check_union,
  check_symbols, check_enum, check_fixed, kind_number, same_kind, check_same, check_step,
  check_schemas,
}
use axonops_schema_registry.Compatibility.Avro.Fuel.{check_schemas-eq-step}

-- In each record each field is found under its own name: no alias of a later field hides it.
mutual
  pub data IsPlain : Schema → Type 0 where
    primitive_plain : {k : Kind} → IsPlain (primitive k)
    record_plain :
        {n : String} {a : List String} {f : Fields}
        → ArePlainFields (writer_fields [] f) f
        → IsPlain (record_schema n a f)
    enum_plain : {n : String} {s : List String} {d : String} → IsPlain (enum_schema n s d)
    array_plain : {s : Schema} → IsPlain s → IsPlain (array_schema s)
    map_plain : {s : Schema} → IsPlain s → IsPlain (map_schema s)
    union_plain : {l : Schemas} → ArePlain l → IsPlain (union_schema l)
    fixed_plain : {n : String} {s : ℕ} → IsPlain (fixed_schema n s)
    ref_plain : {n : String} → IsPlain (ref_schema n)

  pub data ArePlain : Schemas → Type 0 where
    none_plain : ArePlain no_schemas
    then_plain : {s : Schema} {l : Schemas} → IsPlain s → ArePlain l → ArePlain (schema_then s l)

  pub data ArePlainFields : Map String Field → Fields → Type 0 where
    no_fields_plain : {m : Map String Field} → ArePlainFields m no_fields
    field_plain :
        {m : Map String Field} {n : String} {a : List String} {d : Bool} {t : Schema} {f : Fields}
        → get m n ≡ some (record { name = n; aliases = a; has_default = d; type = t })
        → IsPlain t
        → ArePlainFields m f
        → ArePlainFields m (field_then n a d t f)

abbrev ReadsSelf : Schema → Type 0
ReadsSelf s = (path : String) → (check_schemas s s path).is_compatible ≡ true

abbrev AllReadSelf : Schemas → Type 0
AllReadSelf no_schemas = Unit
AllReadSelf (schema_then s l) = ReadsSelf s × AllReadSelf l

abbrev FieldsReadSelf : Map String Field → Fields → Type 0
FieldsReadSelf m no_fields = Unit
FieldsReadSelf m (field_then n a d t f) =
    (get m n ≡ some (record { name = n; aliases = a; has_default = d; type = t }))
    × ReadsSelf t
    × FieldsReadSelf m f

fields_pass :
    (m : Map String Field) (f : Fields) (path : String) (result : CheckResult)
    → FieldsReadSelf m f
    → result.is_compatible ≡ true
    → (check_fields check_schemas m f path result).is_compatible ≡ true
unfolding check_fields find_writer_field merge
fields_pass m no_fields path result h k = k
fields_pass m (field_then n a d t f) path result h k =
    rw (h.0, check_fields, find_writer_field)
      (fields_pass m f path _ h.2 (ground (arith, h.1 (append_path path n), k)))

-- Whether a union has each type of another among its own.
abbrev Includes : Schemas → Schemas → Type 0
Includes rs no_schemas = Unit
Includes rs (schema_then w ws) =
    ((path : String) → some_reads check_schemas rs w path ≡ true) × Includes rs ws

Includes-cons : (r : Schema) (rs ws : Schemas) → Includes rs ws → Includes (schema_then r rs) ws
unfolding some_reads
Includes-cons r rs no_schemas h = tt
Includes-cons r rs (schema_then w ws) h =
    (λ path. ground (arith, h.0 path), Includes-cons r rs ws h.1)

Includes-refl : (l : Schemas) → AllReadSelf l → Includes l l
unfolding some_reads
Includes-refl no_schemas h = tt
Includes-refl (schema_then s l) h =
    (λ path. rw (h.0 path), Includes-cons s l l (Includes-refl l h.1))

union_passes :
    (rs ws : Schemas) (path : String) (result : CheckResult)
    → Includes rs ws
    → result.is_compatible ≡ true
    → (check_union_types check_schemas rs ws path result).is_compatible ≡ true
unfolding check_union_types
union_passes rs no_schemas path result h k = k
union_passes rs (schema_then w ws) path result h k =
    rw (h.0 path, check_union_types) (union_passes rs ws path result h.1 k)

mentions-append : (l k : List String) (s : String) → mentions (l ++ s ∷ k) s ≡ true
mentions-append [] k s = rw (==_self s)
mentions-append (a ∷ l) k s = ground (arith, mentions-append l k s)

append_one : (l k : List String) (s : String) → l ++ s ∷ k ≡ (l ++ s ∷ []) ++ k
append_one [] k s = refl
append_one (a ∷ l) k s = rw (append_one l k s)

symbols_pass :
    (rs before l : List String) (d path : String) (result : CheckResult)
    → rs ≡ before ++ l
    → result.is_compatible ≡ true
    → (check_symbols rs d l path result).is_compatible ≡ true
unfolding check_symbols
symbols_pass rs before [] d path result e k = k
symbols_pass rs before (s ∷ l) d path result e k =
    let found : mentions rs s ≡ true = rw e (mentions-append before l s) in
    rw (check_symbols, found)
      (symbols_pass rs (before ++ s ∷ []) l d path result (e ∙ append_one before l s) k)

same_kind_self : (k : Kind) → same_kind k k ≡ true
same_kind_self k = ==_self (kind_number k)

promotes_self : (k : Kind) → promotes k k ≡ false
unfolding promotes
promotes_self record_type = refl
promotes_self enum_type = refl
promotes_self array_type = refl
promotes_self map_type = refl
promotes_self union_type = refl
promotes_self fixed_type = refl
promotes_self ref_type = refl
promotes_self string_type = refl
promotes_self bytes_type = refl
promotes_self int_type = refl
promotes_self long_type = refl
promotes_self float_type = refl
promotes_self double_type = refl
promotes_self boolean_type = refl
promotes_self null_type = refl

-- No kind is promoted to itself, so a schema is compared with itself by its type.
step_self :
    (s : Schema) (path : String)
    → check_step check_schemas s s path ≡ check_same check_schemas s s path
unfolding check_step is_promotable can_promote
step_self s path = rw (promotes_self (kind_of s), same_kind_self (kind_of s))

by_step :
    (s : Schema) (path : String)
    → (check_same check_schemas s s path).is_compatible ≡ true
    → (check_schemas s s path).is_compatible ≡ true
by_step s path h = rw (check_schemas-eq-step s s path, step_self s path) h

mutual
  unfolding check_same check_record check_union check_enum check_fixed record_names_match
      new_compatible_result

  reads_self_lem : {s : Schema} → IsPlain s → ReadsSelf s
  reads_self_lem (primitive_plain {k}) path = by_step (primitive k) path refl
  reads_self_lem (record_plain {n} {a} {f} p) path = by_step (record_schema n a f) path (
      rw (==_self n)
        (fields_pass (writer_fields [] f) f path new_compatible_result (fields_read_self p) refl))
  reads_self_lem (enum_plain {n} {s} {d}) path =
      by_step (enum_schema n s d) path
        (rw (==_self n) (symbols_pass s [] s d path new_compatible_result refl refl))
  reads_self_lem (array_plain {s} p) path =
      by_step (array_schema s) path (reads_self_lem p (append_path path "[]"))
  reads_self_lem (map_plain {s} p) path =
      by_step (map_schema s) path (reads_self_lem p (append_path path "{}"))
  reads_self_lem (union_plain {l} p) path =
      by_step (union_schema l) path
        (union_passes l l path new_compatible_result (Includes-refl l (all_read_self p)) refl)
  reads_self_lem (fixed_plain {n} {s}) path =
      by_step (fixed_schema n s) path (rw (==_self n, ==_self s) refl)
  reads_self_lem (ref_plain {n}) path = by_step (ref_schema n) path refl

  all_read_self : {l : Schemas} → ArePlain l → AllReadSelf l
  all_read_self none_plain = tt
  all_read_self (then_plain p ps) = (reads_self_lem p, all_read_self ps)

  fields_read_self : {m : Map String Field} {f : Fields} → ArePlainFields m f → FieldsReadSelf m f
  fields_read_self no_fields_plain = tt
  fields_read_self (field_plain e p ps) = (e, reads_self_lem p, fields_read_self ps)

-- An Avro schema can read what it wrote, at any path, where in each of its records each field is
-- found under its own name and not hidden by an alias of another.
pub reads_self :
    {s : Schema} → IsPlain s → (path : String) → (check_schemas s s path).is_compatible ≡ true
reads_self p path = reads_self_lem p path
