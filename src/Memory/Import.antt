-- ===== src/Memory/Import.antt =====
-- `ImportSchema`, `SetNextID`, `NextID` and `GetMaxSchemaID` of internal/storage/memory/store.go.
use axonops_schema_registry.Common.{
  inc64, dec64, get, put, ℕ, String, Bool, false, not, Option, none, some, if◌then◌else◌, ◌==◌,
  ℕ_eq, string_eq, ℤ, pos, ℤ_eq, leb_ℤ,
}
use axonops_schema_registry.Storage.{Error, schema_exists, schema_id_conflict, SchemaRecord}
use axonops_schema_registry.Memory.State.{
  ContextStore, Store, get_or_create_context, get_context, set_context, version_info, last_version,
}
use axonops_schema_registry.Memory.Create.{ensure_subject, content, add_version, new_info}

-- An ID that is taken may be used again for the same content only.
unfoldable pub conflicts : ContextStore → SchemaRecord → Bool
conflicts cs r = elim (get cs.schemas r.id) [
  | none ↦ false
  | some existing ↦ not (existing.fingerprint == r.fingerprint)
]

unfoldable pub store_content : ContextStore → SchemaRecord → ContextStore
store_content cs r = elim (get cs.schemas r.id) [
  | none ↦ record cs { schemas = put cs.schemas r.id (content r.id r) }
  | some existing ↦ cs
]

-- The version counter is moved up to an imported version.
unfoldable pub advance_version : ContextStore → String → ℤ → ContextStore
advance_version cs subject version =
    if leb_ℤ (last_version cs subject) version
    then record cs { next_subject_version = put cs.next_subject_version subject version }
    else cs

unfoldable pub import_version : ContextStore → ℕ → SchemaRecord → ContextStore
import_version cs now r =
    let stored = store_content cs r in
    let known = record stored { fingerprints = put stored.fingerprints r.fingerprint r.id } in
    add_version (advance_version known r.subject r.version) r.subject r.version
      (new_info r.id r.version now r)

unfoldable pub import_in :
    ContextStore → ℕ → ℕ → SchemaRecord → Option Error × SchemaRecord × ContextStore
import_in cs now later r =
    if conflicts cs r
    then (some schema_id_conflict, r, cs)
    else (let cs' = ensure_subject cs r.subject in
        elim (version_info cs' r.subject r.version) [
          | some info ↦ (some schema_exists, r, cs')
          | none ↦ (none, record r { created_at = later }, import_version cs' now r)
        ])

unfoldable pub import_schema :
    Store → ℕ → ℕ → String → SchemaRecord → Option Error × SchemaRecord × Store
import_schema s now later registry_ctx r =
    let (cs, s') = get_or_create_context s registry_ctx in
    let (e, r', cs') = import_in cs now later r in (e, r', set_context s' registry_ctx cs')

unfoldable pub set_next_id : Store → String → ℤ → Store
set_next_id s registry_ctx id =
    let (cs, s') = get_or_create_context s registry_ctx in
    set_context s' registry_ctx (record cs { next_id = id })

unfoldable pub next_id : Store → String → ℤ × Store
next_id s registry_ctx =
    let (cs, s') = get_or_create_context s registry_ctx in
    (cs.next_id, set_context s' registry_ctx (record cs { next_id = inc64 cs.next_id }))

unfoldable pub get_max_schema_id : Store → String → ℤ
get_max_schema_id s registry_ctx = elim (get_context s registry_ctx) [
  | none ↦ pos 0
  | some cs ↦ dec64 cs.next_id
]
