-- ===== src/Memory/Exporters.antt =====
-- The exporters of internal/storage/memory/store.go, `CreateExporter` to `UpdateExporterConfig`.
use axonops_schema_registry.Common.{
  sort, string_leb, get, delete, put, ℕ, String, Option, none, some, List, ℕ_eq, string_eq, pos,
  ℤ_eq, Map,
}
use axonops_schema_registry.Storage.{
  Error, exporter_not_found, exporter_exists, Result, ok, err, ExporterRecord, ExporterStatusRecord,
}
use axonops_schema_registry.Memory.State.{Store}
use axonops_schema_registry.Memory.Delete.{keys}

unfoldable pub create_exporter : Store → ℕ → ExporterRecord → Option Error × Store
create_exporter s now exporter = elim (get s.exporters exporter.name) [
  | some taken ↦ (some exporter_exists, s)
  | none ↦ (
    none,
    record s {
      exporters =
          put s.exporters exporter.name (record exporter { created_at = now; updated_at = now });
    },
  )
]

unfoldable pub get_exporter : Store → String → Result ExporterRecord
get_exporter s name = elim (get s.exporters name) [
  | none ↦ err exporter_not_found
  | some exporter ↦ ok exporter
]

-- The time of creation is kept.
unfoldable pub update_exporter : Store → ℕ → ExporterRecord → Option Error × Store
update_exporter s now exporter = elim (get s.exporters exporter.name) [
  | none ↦ (some exporter_not_found, s)
  | some existing ↦ (
    none,
    record s {
      exporters =
          put s.exporters exporter.name
            (record exporter { created_at = existing.created_at; updated_at = now });
    },
  )
]

unfoldable pub delete_exporter : Store → String → Option Error × Store
delete_exporter s name = elim (get s.exporters name) [
  | none ↦ (some exporter_not_found, s)
  | some exporter ↦ (
    none,
    record s {
      exporters = delete s.exporters name;
      exporter_statuses = delete s.exporter_statuses name;
    },
  )
]

unfoldable pub list_exporters : Store → List String
list_exporters s = sort string_leb (keys s.exporters)

-- An exporter with no status counts as paused.
unfoldable pub get_exporter_status : Store → String → Result ExporterStatusRecord
get_exporter_status s name = elim (get s.exporters name) [
  | none ↦ err exporter_not_found
  | some exporter ↦ elim (get s.exporter_statuses name) [
    | none ↦ ok (record { name = name; state = "PAUSED"; offset = pos 0; ts = pos 0; trace = "" })
    | some status ↦ ok status
  ]
]

unfoldable pub set_exporter_status : Store → String → ExporterStatusRecord → Option Error × Store
set_exporter_status s name status = elim (get s.exporters name) [
  | none ↦ (some exporter_not_found, s)
  | some exporter ↦ (none, record s { exporter_statuses = put s.exporter_statuses name status })
]

unfoldable pub get_exporter_config : Store → String → Result (Map String String)
get_exporter_config s name = elim (get s.exporters name) [
  | none ↦ err exporter_not_found
  | some exporter ↦ ok exporter.config
]

unfoldable pub update_exporter_config :
    Store → ℕ → String → Map String String → Option Error × Store
update_exporter_config s now name config = elim (get s.exporters name) [
  | none ↦ (some exporter_not_found, s)
  | some exporter ↦ (
    none,
    record s {
      exporters = put s.exporters name (record exporter { config = config; updated_at = now });
    },
  )
]
