-- ===== src/Registry/Exporting.antt =====
-- Exporters and their states: internal/registry/registry_exporter.go. The clock's reading in milliseconds
-- is given.
use axonops_schema_registry.Common.{
  to_upper, trim_space, String, Bool, not, ◌&&◌, ◌||◌, none, some, if◌then◌else◌, ℕ_eq, string_eq,
  ◌==◌, ℤ, pos, ℤ_eq,
}
use axonops_schema_registry.Storage.{ok, err, ExporterRecord, ExporterStatusRecord}
use axonops_schema_registry.Registry.Backend.{
  ExporterBackend, from_storage, exporter_name_missing, invalid_context_type, Answer, failed,
  pass_write,
}

abbrev pub paused : String
paused = "PAUSED"

abbrev pub running : String
running = "RUNNING"

abbrev pub is_context_type : String → Bool
is_context_type t = t == "CUSTOM" || (t == "NONE" || t == "AUTO")

abbrev pub no_status : String → ExporterStatusRecord
no_status name = record { name = name; state = ""; offset = pos 0; ts = pos 0; trace = "" }

-- The steps of an exporter's state.
abbrev pub pause_status : ExporterStatusRecord → ExporterStatusRecord
pause_status status = record status { state = paused }

abbrev pub resume_status : ExporterStatusRecord → ExporterStatusRecord
resume_status status = record status { state = running }

abbrev pub reset_status : ExporterStatusRecord → ExporterStatusRecord
reset_status status = record status { offset = pos 0; trace = "" }

module _ {S : Type 0} (b : ExporterBackend S) where
  unfoldable pub create_exporter : S → ℤ → ExporterRecord → Answer (Unit {0}) × S
  create_exporter s now exporter =
      let context_type =
        to_upper (if exporter.context_type == "" then "AUTO" else exporter.context_type) in
      if trim_space exporter.name == ""
      then (failed exporter_name_missing, s)
      else if not (is_context_type context_type)
      then (failed (invalid_context_type context_type), s)
      else (let (e, s') = b.create_exporter s (record exporter { context_type = context_type }) in
          elim e [
            | some e ↦ (failed (from_storage e), s')
            | none ↦
                let (e, s'') =
                  b.set_exporter_status s' exporter.name
                    (record (no_status exporter.name) { state = paused; ts = now }) in
                (pass_write e tt, s'')
          ])

  unfoldable pub update_exporter : S → ExporterRecord → Answer (Unit {0}) × S
  update_exporter s exporter =
      let context_type = to_upper exporter.context_type in
      if trim_space exporter.name == ""
      then (failed exporter_name_missing, s)
      else if not (exporter.context_type == "") && not (is_context_type context_type)
      then (failed (invalid_context_type context_type), s)
      else (let (e, s') = b.update_exporter s (record exporter { context_type = context_type }) in
          (pass_write e tt, s'))

  -- The shape of the three changes of a status: the exporter must be there, a status need not.
  abbrev change_status :
      (ExporterStatusRecord → ExporterStatusRecord) → S → ℤ → String → Answer (Unit {0}) × S
  change_status change s now name = elim (b.get_exporter s name) [
    | err e ↦ (failed (from_storage e), s)
    | ok _ ↦
        let status : ExporterStatusRecord = elim (b.get_exporter_status s name) [
          | ok status ↦ status
          | err _ ↦ no_status name
        ] in
        let (e, s') = b.set_exporter_status s name (record (change status) { ts = now }) in
        (pass_write e tt, s')
  ]

  unfoldable pub pause_exporter : S → ℤ → String → Answer (Unit {0}) × S
  pause_exporter = change_status pause_status

  unfoldable pub resume_exporter : S → ℤ → String → Answer (Unit {0}) × S
  resume_exporter = change_status resume_status

  unfoldable pub reset_exporter : S → ℤ → String → Answer (Unit {0}) × S
  reset_exporter = change_status reset_status
