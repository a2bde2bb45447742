-- ===== src/Compatibility/Avro/Reasons.antt =====
-- A failed Avro check says why, and a passed one has no message.
use axonops_schema_registry.Common.{
  ℕ, zero, suc, ◌+◌, String, ◌≡◌, refl, inl, inr, Bool, true, false, not, ◌&&◌, List, [], ◌∷◌, ◌++◌,
  arith, if◌then◌else◌, Option-cases, ◌==◌, ℕ_eq, string_eq, ℤ_eq, Map,
}
use axonops_schema_registry.Compatibility.Result.{
  Message, CheckResult, new_compatible_result, new_incompatible_result, add_message, merge,
}
use axonops_schema_registry.Compatibility.Avro.Schema.{
  Schema, record_schema, enum_schema, array_schema, map_schema, union_schema, fixed_schema, Schemas,
  no_schemas, schema_then, Fields, no_fields, field_then, kind_of, Field, weight,
}
use axonops_schema_registry.Compatibility.Avro.Check.{
  append_path, can_promote, is_promotable, mentions, record_names_match, writer_fields,
  find_writer_field, Rec, check_fields, check_record, some_reads, check_union_types, check_union,
  check_reader_union, check_writer_union, check_symbols, check_enum, check_fixed, type_mismatch,
  same_kind, check_same, check_different, check_step, check_fuel, check_schemas,
}

abbrev no_messages : List Message → Bool
no_messages [] = true
no_messages (m ∷ rest) = false

abbrev pub IsCoherent : CheckResult → Type 0
IsCoherent c = c.is_compatible ≡ no_messages c.messages

no_messages-append : (l k : List Message) → no_messages (l ++ k) ≡ (no_messages l && no_messages k)
no_messages-append [] k = refl
no_messages-append (m ∷ l) k = refl

add_message-IsCoherent : (r : CheckResult) (m : Message) → IsCoherent (add_message r m)
unfolding add_message
add_message-IsCoherent r m = ground (arith, no_messages-append r.messages (m ∷ []))

new_compatible-IsCoherent : IsCoherent new_compatible_result
unfolding new_compatible_result
new_compatible-IsCoherent = refl

new_incompatible-IsCoherent : (m : Message) → IsCoherent (new_incompatible_result (m ∷ []))
unfolding new_incompatible_result
new_incompatible-IsCoherent m = refl

merge-IsCoherent : (r s : CheckResult) → IsCoherent r → IsCoherent s → IsCoherent (merge r s)
unfolding merge
merge-IsCoherent r s h k = ground (arith, no_messages-append r.messages s.messages)

if-IsCoherent :
    (b : Bool) (c d : CheckResult) → IsCoherent c → IsCoherent d → IsCoherent (if b then c else d)
if-IsCoherent true c d h k = h
if-IsCoherent false c d h k = k

module _ (rec : Rec) (h : (r w : Schema) (path : String) → IsCoherent (rec r w path)) where
  check_fields-IsCoherent :
      (m : Map String Field) (f : Fields) (path : String) (result : CheckResult)
      → IsCoherent result
      → IsCoherent (check_fields rec m f path result)
  unfolding check_fields
  check_fields-IsCoherent m no_fields path result k = k
  check_fields-IsCoherent m (field_then n a d t rest) path result k =
      elim (Option-cases (find_writer_field n a m)) [
        | inl absent ↦
            rw (absent, check_fields)
              (check_fields-IsCoherent m rest path _
                (if-IsCoherent (not d) _ _ (add_message-IsCoherent result _) k))
        | inr (wf, there) ↦
            rw (there, check_fields)
              (check_fields-IsCoherent m rest path _
                (merge-IsCoherent result _ k (h t wf.type (append_path path n))))
      ]

  check_union_types-IsCoherent :
      (rs ws : Schemas) (path : String) (result : CheckResult)
      → IsCoherent result
      → IsCoherent (check_union_types rec rs ws path result)
  unfolding check_union_types
  check_union_types-IsCoherent rs no_schemas path result k = k
  check_union_types-IsCoherent rs (schema_then w rest) path result k =
      check_union_types-IsCoherent rs rest path _
        (if-IsCoherent (not (some_reads rec rs w path)) _ _ (add_message-IsCoherent result _) k)

  check_writer_union-IsCoherent :
      (r : Schema) (ws : Schemas) (path : String) → IsCoherent (check_writer_union rec r ws path)
  unfolding check_writer_union
  check_writer_union-IsCoherent r no_schemas path = new_compatible-IsCoherent
  check_writer_union-IsCoherent r (schema_then w rest) path =
      if-IsCoherent (not (rec r w path).is_compatible) _ _ (new_incompatible-IsCoherent _)
        (check_writer_union-IsCoherent r rest path)

check_symbols-IsCoherent :
    (rs : List String) (d : String) (ws : List String) (path : String) (result : CheckResult)
    → IsCoherent result
    → IsCoherent (check_symbols rs d ws path result)
unfolding check_symbols
check_symbols-IsCoherent rs d [] path result k = k
check_symbols-IsCoherent rs d (w ∷ ws) path result k =
    check_symbols-IsCoherent rs d ws path _
      (if-IsCoherent (not (mentions rs w) && d == "") _ _ (add_message-IsCoherent result _) k)

module _ (rec : Rec) (h : (r w : Schema) (path : String) → IsCoherent (rec r w path)) where
  check_same-IsCoherent : (r w : Schema) (path : String) → IsCoherent (check_same rec r w path)
  unfolding check_same check_record check_enum check_fixed check_union
  check_same-IsCoherent (record_schema rn ra rf) (record_schema wn wa wf) path =
      if-IsCoherent (not (record_names_match rn ra wn wa)) _ _ (add_message-IsCoherent _ _)
        (check_fields-IsCoherent rec h (writer_fields [] wf) rf path _ new_compatible-IsCoherent)
  check_same-IsCoherent (enum_schema rn rs rd) (enum_schema wn ws wd) path =
      if-IsCoherent (not (rn == wn)) _ _ (add_message-IsCoherent _ _)
        (check_symbols-IsCoherent rs rd ws path _ new_compatible-IsCoherent)
  check_same-IsCoherent (array_schema r) (array_schema w) path = h r w _
  check_same-IsCoherent (map_schema r) (map_schema w) path = h r w _
  check_same-IsCoherent (union_schema rs) (union_schema ws) path =
      check_union_types-IsCoherent rec h rs ws path _ new_compatible-IsCoherent
  check_same-IsCoherent (fixed_schema rn rs) (fixed_schema wn ws) path =
      if-IsCoherent (not (rs == ws)) _ _ (add_message-IsCoherent _ _)
        (if-IsCoherent (not (rn == wn)) _ _ (add_message-IsCoherent _ _) new_compatible-IsCoherent)
  check_same-IsCoherent r w path = new_compatible-IsCoherent

  check_different-IsCoherent :
      (r w : Schema) (path : String) → IsCoherent (check_different rec r w path)
  unfolding check_different check_reader_union type_mismatch
  check_different-IsCoherent (union_schema rs) w path =
      if-IsCoherent (some_reads rec rs w path) _ _ new_compatible-IsCoherent
        (new_incompatible-IsCoherent _)
  check_different-IsCoherent r (union_schema ws) path =
      check_writer_union-IsCoherent rec h r ws path
  check_different-IsCoherent r w path = add_message-IsCoherent _ _

  check_step-IsCoherent : (r w : Schema) (path : String) → IsCoherent (check_step rec r w path)
  unfolding check_step
  check_step-IsCoherent r w path = if-IsCoherent (is_promotable w r) _ _ new_compatible-IsCoherent (
      if-IsCoherent (not (same_kind (kind_of r) (kind_of w)) && not (can_promote w r)) _ _
        (check_different-IsCoherent r w path) (check_same-IsCoherent r w path))

check_fuel-IsCoherent : (n : ℕ) (r w : Schema) (path : String) → IsCoherent (check_fuel n r w path)
unfolding check_fuel
check_fuel-IsCoherent zero r w path = new_incompatible-IsCoherent _
check_fuel-IsCoherent (suc n) r w path =
    check_step-IsCoherent (check_fuel n) (check_fuel-IsCoherent n) r w path

-- The check of two Avro schemas passes exactly if it has no message.
pub check_schemas-IsCoherent : (r w : Schema) (path : String) → IsCoherent (check_schemas r w path)
unfolding check_schemas
check_schemas-IsCoherent r w path = check_fuel-IsCoherent (weight r + weight w) r w path
