-- ===== src/Registry/Imports.antt =====
-- Imports: internal/registry/registry.go, `RegisterSchemaWithID` and `ImportSchemas`.
use axonops_schema_registry.Common.{
  inc64, ℕ, suc, String, Bool, true, false, Option, none, some, List, [], ◌∷◌, ◌++◌, if◌then◌else◌,
  ℕ_eq, string_eq, ◌==◌, ℤ, pos, ℤ_eq, ltb_ℤ, leb_ℤ,
}
use axonops_schema_registry.Storage.{Error, Result, ok, err, Reference, SchemaRecord}
use axonops_schema_registry.Registry.Backend.{
  Registry, RegistryError, from_storage, unsupported_schema_type, invalid_schema,
  import_id_conflict, Answer, done, failed, is_schema_exists, is_id_conflict,
}
use axonops_schema_registry.Registry.References.{compute_global_fingerprint}
use axonops_schema_registry.Registry.Register.{or_avro, parse_with}
pub mod Counting

pub record ImportSchemaRequest : Type 0 where
  pub id : ℤ
  pub subject : String
  pub version : ℤ
  pub schema_type : String
  pub schema : String
  pub references : List Reference

-- The text of `Error`, by its cause.
pub data ImportError : Type 0 where
  id_not_positive subject_missing version_not_positive schema_missing : ImportError
  type_unsupported references_unresolved schema_invalid : ImportError
  id_in_use version_in_use : ImportError
  import_failed : Error → ImportError

pub record ImportSchemaResult : Type 0 where
  pub id : ℤ
  pub subject : String
  pub version : ℤ
  pub success : Bool
  pub error : Option ImportError

pub record ImportResult : Type 0 where
  pub imported : ℕ
  pub errors : ℕ
  pub results : List ImportSchemaResult

abbrev pub import_error : Error → ImportError
import_error e =
    if is_id_conflict e
    then id_in_use
    else if is_schema_exists e
    then version_in_use
    else import_failed e

abbrev pub imported_record : ImportSchemaRequest → String → String → SchemaRecord
imported_record req schema_type fingerprint = record {
  id = req.id;
  subject = req.subject;
  version = req.version;
  schema_type = schema_type;
  schema = req.schema;
  references = req.references;
  metadata = none;
  rule_set = none;
  fingerprint = fingerprint;
  deleted = false;
  created_at = 0;
}

abbrev pub as_import_error : RegistryError → ImportError
as_import_error (unsupported_schema_type t) = type_unsupported
as_import_error invalid_schema = schema_invalid
as_import_error _ = references_unresolved

-- The checks of the fields, in their order.
unfoldable pub bad_field : ImportSchemaRequest → Option ImportError
bad_field req =
    if leb_ℤ req.id (pos 0)
    then some id_not_positive
    else if req.subject == ""
    then some subject_missing
    else if leb_ℤ req.version (pos 0)
    then some version_not_positive
    else if req.schema == ""
    then some schema_missing
    else none

abbrev pub result_of : ImportSchemaRequest → Option ImportError → ImportSchemaResult
result_of req e = record {
  id = req.id;
  subject = req.subject;
  version = req.version;
  success = elim e [ none ↦ true | some _ ↦ false ];
  error = e;
}

module _ {S P : Type 0} (r : Registry S P) (fuel : ℕ) where
  -- The body of the loop: the error of one schema, if it has one.
  unfoldable pub import_one : S → String → ImportSchemaRequest → Option ImportError × S
  import_one s registry_ctx req =
      let type = or_avro req.schema_type in
      elim (bad_field req) [
        | some e ↦ (some e, s)
        | none ↦ elim (parse_with r fuel s registry_ctx req.schema type req.references) [
          | failed e ↦ (some (as_import_error e), s)
          | done p ↦
              let fingerprint =
                compute_global_fingerprint r.digest (p.parser.fingerprint p.parsed)
                  req.references in
              let (e, _, s') =
                r.storage.import_schema s registry_ctx (imported_record req type fingerprint) in
              (elim e [ none ↦ none | some e ↦ some (import_error e) ], s')
        ]
      ]

  -- The counters, and the greatest ID that was imported, after one schema.
  unfoldable pub tally :
      ImportResult → ℤ → ImportSchemaRequest → Option ImportError → ImportResult × ℤ
  tally result max_id req e =
      let results = result.results ++ result_of req e ∷ [] in
      elim e [
        | some _ ↦ (record result { errors = suc result.errors; results = results }, max_id)
        | none ↦ (
          record result { imported = suc result.imported; results = results },
          if ltb_ℤ max_id req.id then req.id else max_id,
        )
      ]

  unfoldable pub import_each :
      S → String → List ImportSchemaRequest → ImportResult → ℤ → ImportResult × ℤ × S
  import_each s registry_ctx [] result max_id = (result, max_id, s)
  import_each s registry_ctx (req ∷ rest) result max_id =
      let (e, s') = import_one s registry_ctx req in
      let (result', max_id') = tally result max_id req e in
      import_each s' registry_ctx rest result' max_id'

  -- The next ID: above the greatest that was imported, and above all that there are.
  abbrev pub next_id_after : Result ℤ → ℤ → ℤ
  next_id_after (ok current) max_id =
      if ltb_ℤ (inc64 max_id) (inc64 current) then inc64 current else inc64 max_id
  next_id_after (err _) max_id = inc64 max_id

  abbrev pub advance : S → String → ℤ → Option Error × S
  advance s registry_ctx max_id =
      r.storage.set_next_id s registry_ctx
        (next_id_after (r.storage.get_max_schema_id s registry_ctx) max_id)

  unfoldable pub import_schemas :
      S → String → List ImportSchemaRequest → ImportResult × Option Error × S
  import_schemas s registry_ctx schemas =
      let (result, max_id, s') =
        import_each s registry_ctx schemas (record { imported = 0; errors = 0; results = [] })
          (pos 0) in
      let (e, s'') = if ltb_ℤ (pos 0) max_id then advance s' registry_ctx max_id else (none, s') in
      (result, e, s'')

  -- The version after all that there are, from a number on.
  unfoldable pub next_version : ℤ → List SchemaRecord → ℤ
  next_version assigned [] = assigned
  next_version assigned (v ∷ rest) =
      next_version (if leb_ℤ assigned v.version then inc64 v.version else assigned) rest

  abbrev assigned_version : S → String → String → ℤ → ℤ
  assigned_version s registry_ctx subject version =
      if leb_ℤ version (pos 0)
      then (elim (r.storage.get_schemas_by_subject s registry_ctx subject true) [
        | ok existing ↦ next_version (pos 1) existing
        | err _ ↦ pos 1
      ])
      else version

  -- The record is stored already where the sequence cannot be advanced: it is answered with the error.
  unfoldable pub register_schema_with_id :
      S
      → String
      → String
      → String
      → String
      → List Reference
      → ℤ
      → ℤ
      → Answer (SchemaRecord × Option Error) × S
  register_schema_with_id s registry_ctx subject schema schema_type refs id version =
      let type = or_avro schema_type in
      elim (parse_with r fuel s registry_ctx schema type refs) [
        | failed e ↦ (failed e, s)
        | done p ↦
            let fingerprint =
              compute_global_fingerprint r.digest (p.parser.fingerprint p.parsed) refs in
            elim (r.storage.get_schema_by_fingerprint s registry_ctx subject fingerprint false) [
              | ok existing ↦ (done (existing, none), s)
              | err _ ↦
                  let request : ImportSchemaRequest = record {
                    id = id;
                    subject = subject;
                    version = assigned_version s registry_ctx subject version;
                    schema_type = type;
                    schema = schema;
                    references = refs;
                  } in
                  let (e, stored, s') =
                    r.storage.import_schema s registry_ctx
                      (imported_record request type fingerprint) in
                  elim e [
                    | none ↦ let (e, s'') = advance s' registry_ctx id in (done (stored, e), s'')
                    | some e ↦
                        if is_id_conflict e
                        then (failed (import_id_conflict id), s')
                        else if is_schema_exists e
                        then (elim (r.storage.get_schema_by_subject_version s' registry_ctx subject
                            stored.version) [
                              | ok existing ↦ (done (existing, none), s')
                              | err _ ↦ (failed (from_storage e), s')
                            ])
                        else (failed (from_storage e), s')
                  ]
            ]
      ]
