-- ===== src/Compatibility/Avro/Fuel.antt =====
-- The fuel of `check_schemas` is enough: it satisfies the recursion of the code's `checkSchemas`.
use axonops_schema_registry.Common.{
  get, put, ℕ, zero, suc, ◌+◌, ◌≤◌, ◌<◌, String, ◌≡◌, refl, ◌∙◌, inl, inr, some, List, [], ◌∷◌,
  arith, Option-cases, ℕ_eq, string_eq, ℤ_eq, Map, AllValues, AllValues-put, AllValues-get,
}
use axonops_schema_registry.Compatibility.Result.{CheckResult, new_compatible_result}
use axonops_schema_registry.Compatibility.Avro.Schema.{
  Schema, primitive, record_schema, enum_schema, array_schema, map_schema, union_schema,
  fixed_schema, ref_schema, Schemas, no_schemas, schema_then, Fields, no_fields, field_then, Field,
  weight, weight_schemas, weight_fields,
}
use axonops_schema_registry.Compatibility.Avro.Check.{
  append_path, put_aliases, writer_fields, find_by_alias, find_writer_field, Rec, check_fields,
  check_record, some_reads, check_union_types, check_union, check_reader_union, check_writer_union,
  check_same, check_different, check_step, check_fuel, check_schemas,
}

weight_pos : (s : Schema) → 0 < weight s
unfolding weight
weight_pos (primitive k) = omega arith
weight_pos (record_schema n a f) = omega arith
weight_pos (enum_schema n s d) = omega arith
weight_pos (array_schema s) = omega arith
weight_pos (map_schema s) = omega arith
weight_pos (union_schema l) = omega arith
weight_pos (fixed_schema n s) = omega arith
weight_pos (ref_schema n) = omega arith

-- The fields in the writer's map have types of at most the given weight.
abbrev IsLight : ℕ → Field → Type 0
IsLight n f = weight f.type ≤ n

put_aliases-IsLight :
    (n : ℕ) (m : Map String Field) (a : List String) (f : Field)
    → AllValues (IsLight n) m
    → IsLight n f
    → AllValues (IsLight n) (put_aliases m a f)
unfolding put_aliases
put_aliases-IsLight n m [] f h l = h
put_aliases-IsLight n m (a ∷ rest) f h l =
    put_aliases-IsLight n (put m a f) rest f (AllValues-put (IsLight n) m a f h l) l

writer_fields-IsLight :
    (n : ℕ) (m : Map String Field) (f : Fields)
    → AllValues (IsLight n) m
    → weight_fields f ≤ n
    → AllValues (IsLight n) (writer_fields m f)
unfolding writer_fields weight
writer_fields-IsLight n m no_fields h l = h
writer_fields-IsLight n m (field_then name a d t rest) h l =
    let f : Field = record { name = name; aliases = a; has_default = d; type = t } in
    let light : IsLight n f = omega arith in
    writer_fields-IsLight n (put_aliases (put m name f) a f) rest
      (put_aliases-IsLight n (put m name f) a f (AllValues-put (IsLight n) m name f h light) light)
      (omega arith)

find_by_alias-IsLight :
    (n : ℕ) (a : List String) (m : Map String Field) (f : Field)
    → AllValues (IsLight n) m
    → find_by_alias a m ≡ some f
    → IsLight n f
unfolding find_by_alias
find_by_alias-IsLight n [] m f h p = absurd (cc p)
find_by_alias-IsLight n (a ∷ rest) m f h p = elim (Option-cases (get m a)) [
  | inl absent ↦ find_by_alias-IsLight n rest m f h (ground (arith, p, absent))
  | inr (g, there) ↦ AllValues-get (IsLight n) m a f h (ground (arith, p, there))
]

find_writer_field-IsLight :
    (n : ℕ) (name : String) (a : List String) (m : Map String Field) (f : Field)
    → AllValues (IsLight n) m
    → find_writer_field name a m ≡ some f
    → IsLight n f
unfolding find_writer_field
find_writer_field-IsLight n name a m f h p = elim (Option-cases (get m name)) [
  | inl absent ↦ find_by_alias-IsLight n a m f h (ground (arith, p, absent))
  | inr (g, there) ↦ AllValues-get (IsLight n) m name f h (ground (arith, p, there))
]

-- Two recursive calls that agree on lighter pairs of schemas.
abbrev AgreeBelow : ℕ → Rec → Rec → Type 0
AgreeBelow n f g =
    (r w : Schema) (path : String) → weight r + weight w < n → f r w path ≡ g r w path

module _ (f g : Rec) where
  check_fields_same :
      (k n : ℕ) (m : Map String Field) (rf : Fields) (path : String) (result : CheckResult)
      → AllValues (IsLight n) m
      → AgreeBelow k f g
      → weight_fields rf + n < k
      → check_fields f m rf path result ≡ check_fields g m rf path result
  unfolding check_fields weight
  check_fields_same k n m no_fields path result l h b = refl
  check_fields_same k n m (field_then name a d t rest) path result l h b =
      elim (Option-cases (find_writer_field name a m)) [
        | inl absent ↦
            rw (absent, check_fields) (check_fields_same k n m rest path _ l h (omega arith))
        | inr (wf, there) ↦
            let light = find_writer_field-IsLight n name a m wf l there in
            rw (there, check_fields, h t wf.type (append_path path name) (omega arith))
              (check_fields_same k n m rest path _ l h (omega arith))
      ]

  some_reads_same :
      (k : ℕ) (rs : Schemas) (w : Schema) (path : String)
      → AgreeBelow k f g
      → weight_schemas rs + weight w < k
      → some_reads f rs w path ≡ some_reads g rs w path
  unfolding some_reads weight
  some_reads_same k no_schemas w path h b = refl
  some_reads_same k (schema_then r rest) w path h b =
      rw (h r w path (omega arith), some_reads_same k rest w path h (omega arith))

  check_union_types_same :
      (k : ℕ) (rs ws : Schemas) (path : String) (result : CheckResult)
      → AgreeBelow k f g
      → weight_schemas rs + weight_schemas ws < k
      → check_union_types f rs ws path result ≡ check_union_types g rs ws path result
  unfolding check_union_types weight
  check_union_types_same k rs no_schemas path result h b = refl
  check_union_types_same k rs (schema_then w rest) path result h b =
      rw (some_reads_same k rs w path h (omega arith))
        (check_union_types_same k rs rest path _ h (omega arith))

  check_writer_union_same :
      (k : ℕ) (r : Schema) (ws : Schemas) (path : String)
      → AgreeBelow k f g
      → weight r + weight_schemas ws < k
      → check_writer_union f r ws path ≡ check_writer_union g r ws path
  unfolding check_writer_union weight
  check_writer_union_same k r no_schemas path h b = refl
  check_writer_union_same k r (schema_then w rest) path h b =
      rw (h r w path (omega arith), check_writer_union_same k r rest path h (omega arith))

  check_same_same :
      (r w : Schema) (path : String)
      → AgreeBelow (weight r + weight w) f g
      → check_same f r w path ≡ check_same g r w path
  unfolding check_same check_record check_union weight
  check_same_same (record_schema rn ra rf) (record_schema wn wa wf) path h = rw (
      check_fields_same (weight (record_schema rn ra rf) + weight (record_schema wn wa wf))
        (weight_fields wf) (writer_fields [] wf) rf path new_compatible_result
        (writer_fields-IsLight (weight_fields wf) [] wf tt (omega arith)) h (omega arith))
  check_same_same (array_schema r) (array_schema w) path h = h r w _ (omega arith)
  check_same_same (map_schema r) (map_schema w) path h = h r w _ (omega arith)
  check_same_same (union_schema rs) (union_schema ws) path h =
      check_union_types_same (weight (union_schema rs) + weight (union_schema ws)) rs ws path _ h
        (omega arith)
  check_same_same r w path h = refl

  check_different_same :
      (r w : Schema) (path : String)
      → AgreeBelow (weight r + weight w) f g
      → check_different f r w path ≡ check_different g r w path
  unfolding check_different check_reader_union weight
  check_different_same (union_schema rs) w path h =
      rw (some_reads_same (weight (union_schema rs) + weight w) rs w path h (omega arith))
  check_different_same r (union_schema ws) path h =
      check_writer_union_same (weight r + weight (union_schema ws)) r ws path h (omega arith)
  check_different_same r w path h = refl

  check_step_same :
      (r w : Schema) (path : String)
      → AgreeBelow (weight r + weight w) f g
      → check_step f r w path ≡ check_step g r w path
  unfolding check_step
  check_step_same r w path h = rw (check_same_same r w path h, check_different_same r w path h)

check_fuel_same :
    (n m : ℕ) (r w : Schema) (path : String)
    → weight r + weight w ≤ n
    → weight r + weight w ≤ m
    → check_fuel n r w path ≡ check_fuel m r w path
unfolding check_fuel
check_fuel_same zero m r w path h k = absurd (omega (arith, weight_pos r))
check_fuel_same (suc n) zero r w path h k = absurd (omega (arith, weight_pos r))
check_fuel_same (suc n) (suc m) r w path h k =
    check_step_same (check_fuel n) (check_fuel m) r w path
      (λ r' w' path' b. check_fuel_same n m r' w' path' (omega arith) (omega arith))

-- The check of two Avro schemas is its own body, with itself for the recursive calls: the weights
-- of the two schemas are enough fuel, so the recursion ends for all schemas.
pub check_schemas-eq-step :
    (r w : Schema) (path : String) → check_schemas r w path ≡ check_step check_schemas r w path
unfolding check_schemas
check_schemas-eq-step r w path =
    check_fuel_same (weight r + weight w) (suc (weight r + weight w)) r w path (omega arith)
      (omega arith)
    ∙ unfold check_fuel in
      check_step_same (check_fuel (weight r + weight w)) check_schemas r w path (λ r' w' path' b.
        check_fuel_same (weight r + weight w) (weight r' + weight w') r' w' path' (omega arith)
          (omega arith))
