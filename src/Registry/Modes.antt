-- ===== src/Registry/Modes.antt =====
-- The mode that applies to a subject, and what it blocks: internal/registry/registry.go, `GetMode` to
-- `SetMode`, `DeleteMode`, `DeleteGlobalMode`, and registry_helpers.go, `CheckModeForWrite`.
use axonops_schema_registry.Common.{
  to_upper, String, Bool, false, not, ◌&&◌, ◌||◌, [], ◌∷◌, leb, if◌then◌else◌, ℕ_eq, string_eq,
  ◌==◌, ℤ_eq, length,
}
use axonops_schema_registry.Rules.{member}
use axonops_schema_registry.Storage.{operation_not_permitted, Result, ok, err, ModeRecord}
use axonops_schema_registry.Registry.Backend.{
  Backend, from_storage, invalid_mode, Answer, done, failed, is_not_found, pass_write, map_result,
}
use axonops_schema_registry.Registry.Levels.{default_registry_context, global_context}
pub mod Kill

unfoldable pub is_valid_mode : String → Bool
is_valid_mode mode = member mode ("READWRITE" ∷ "READONLY" ∷ "READONLY_OVERRIDE" ∷ "IMPORT" ∷ [])

module _ {S : Type 0} (b : Backend S) where
  -- Default context, then global context, then READWRITE.
  unfoldable pub resolve_global_mode : S → String
  resolve_global_mode s = elim (b.get_global_mode s default_registry_context) [
    | ok m ↦ m.mode
    | err _ ↦ elim (b.get_global_mode s global_context) [ ok m ↦ m.mode | err _ ↦ "READWRITE" ]
  ]

  unfoldable pub get_mode : S → String → String → Answer String
  get_mode s registry_ctx subject =
      let top : Answer String =
        if not (registry_ctx == global_context)
        then (elim (b.get_global_mode s global_context) [
          | ok m ↦ done m.mode
          | err _ ↦ done "READWRITE"
        ])
        else done "READWRITE" in
      let global : Answer String = elim (b.get_global_mode s registry_ctx) [
        | ok m ↦ done m.mode
        | err e ↦ if not (is_not_found e) then failed (from_storage e) else top
      ] in
      if resolve_global_mode s == "READONLY_OVERRIDE"
      then done "READONLY_OVERRIDE"
      else if not (subject == "")
      then (elim (b.get_mode s registry_ctx subject) [
        | ok m ↦ done m.mode
        | err e ↦ if not (is_not_found e) then failed (from_storage e) else global
      ])
      else global

  unfoldable pub get_global_mode_direct : S → String → Answer String
  get_global_mode_direct s registry_ctx = elim (b.get_global_mode s registry_ctx) [
    | ok m ↦ done m.mode
    | err e ↦ if is_not_found e then done "READWRITE" else failed (from_storage e)
  ]

  unfoldable pub has_subjects : S → String → String → Result Bool
  has_subjects s registry_ctx subject =
      if subject == ""
      then map_result (λ l. leb 1 (length l)) (b.list_subjects s registry_ctx false)
      else b.subject_exists s registry_ctx subject

  -- An error of `GetMode` counts as a mode that is not IMPORT.
  unfoldable pub import_allowed : S → String → String → Answer (Unit {0})
  import_allowed s registry_ctx subject =
      let checked : Answer (Unit {0}) = elim (has_subjects s registry_ctx subject) [
        | err e ↦ failed (from_storage e)
        | ok has_schemas ↦
            if has_schemas then failed (from_storage operation_not_permitted) else done tt
      ] in
      elim (get_mode s registry_ctx subject) [
        | done current ↦ if not (current == "IMPORT") then checked else done tt
        | failed _ ↦ checked
      ]

  unfoldable pub set_mode : S → String → String → String → Bool → Answer (Unit {0}) × S
  set_mode s registry_ctx subject mode force =
      let mode' = to_upper mode in
      let allowed : Answer (Unit {0}) =
        if mode' == "IMPORT" && not force then import_allowed s registry_ctx subject else done tt in
      if not (is_valid_mode mode') then (failed (invalid_mode mode'), s) else elim allowed [
        | failed e ↦ (failed e, s)
        | done _ ↦
            let mode_record : ModeRecord = record { subject = ""; mode = mode' } in
            let (e, s') =
              if subject == ""
              then b.set_global_mode s registry_ctx mode_record
              else b.set_mode s registry_ctx subject mode_record in
            (pass_write e tt, s')
      ]

  unfoldable pub delete_global_mode : S → String → Answer String × S
  delete_global_mode s registry_ctx =
      let previous : String = elim (b.get_global_mode s registry_ctx) [
        | ok m ↦ m.mode
        | err _ ↦ "READWRITE"
      ] in
      let (e, s') = b.delete_global_mode s registry_ctx in (pass_write e previous, s')

  unfoldable pub delete_mode : S → String → String → Answer String × S
  delete_mode s registry_ctx subject =
      if subject == ""
      then delete_global_mode s registry_ctx
      else elim (b.get_mode s registry_ctx subject) [
        | err e ↦ (failed (from_storage e), s)
        | ok m ↦ let (e, s') = b.delete_mode s registry_ctx subject in (pass_write e m.mode, s')
      ]

  -- The mode that blocks a write, or nothing.
  unfoldable pub check_mode_for_write : S → String → String → Answer String
  check_mode_for_write s registry_ctx subject = elim (get_mode s registry_ctx subject) [
    | failed e ↦ failed e
    | done mode ↦ if mode == "READONLY" || mode == "READONLY_OVERRIDE" then done mode else done ""
  ]
