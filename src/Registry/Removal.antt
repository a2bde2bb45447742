-- ===== src/Registry/Removal.antt =====
-- Deletion: internal/registry/registry.go, `DeleteSubject` and `DeleteVersion`.
use axonops_schema_registry.Common.{
  String, Bool, true, false, not, ◌&&◌, List, [], ◌∷◌, if◌then◌else◌, ℕ_eq, string_eq, ◌==◌, ℤ,
  negsuc, ℤ_eq, ltb_ℤ,
}
use axonops_schema_registry.Storage.{version_not_found, ok, err, SchemaRecord}
use axonops_schema_registry.Registry.Backend.{
  Registry, from_storage, reference_exists, Answer, done, failed, pass_write,
}
pub mod Highest
pub mod Guard

module _ {S P : Type 0} (r : Registry S P) where
  -- The loop that looks for a version with references to it.
  unfoldable pub check_unreferenced : S → String → String → List SchemaRecord → Answer (Unit {0})
  check_unreferenced s registry_ctx subject [] = done tt
  check_unreferenced s registry_ctx subject (v ∷ rest) =
      let others = check_unreferenced s registry_ctx subject rest in
      elim (r.storage.get_referenced_by s registry_ctx subject v.version) [
        | err e ↦ failed (from_storage e)
        | ok [] ↦ others
        | ok (_ ∷ _) ↦ failed (reference_exists v.version)
      ]

  abbrev check_subject : S → String → String → Answer (Unit {0})
  check_subject s registry_ctx subject =
      elim (r.storage.get_schemas_by_subject s registry_ctx subject false) [
        | err _ ↦ done tt
        | ok versions ↦ check_unreferenced s registry_ctx subject versions
      ]

  unfoldable pub delete_subject : S → String → String → Bool → Answer (List ℤ) × S
  delete_subject s registry_ctx subject permanent =
      let checked : Answer (Unit {0}) =
        if not permanent then check_subject s registry_ctx subject else done tt in
      elim checked [
        | failed e ↦ (failed e, s)
        | done _ ↦
            let (versions, s') = r.storage.delete_subject s registry_ctx subject permanent in
            elim versions [
              | err e ↦ (failed (from_storage e), s')
              | ok versions ↦
                  if permanent
                  then (let (_, s'') = r.storage.delete_config s' registry_ctx subject in
                      let (_, s''') = r.storage.delete_mode s'' registry_ctx subject in
                      (done versions, s'''))
                  else (done versions, s')
            ]
      ]

  -- The highest version that is deleted, from a number on.
  unfoldable pub latest_deleted : ℤ → List SchemaRecord → ℤ
  latest_deleted resolved [] = resolved
  latest_deleted resolved (v ∷ rest) =
      latest_deleted (if v.deleted && ltb_ℤ resolved v.version then v.version else resolved) rest

  abbrev pub deletable : S → String → String → ℤ → Answer ℤ
  deletable s registry_ctx subject version =
      if not (version == negsuc 0)
      then done version
      else elim (r.storage.get_schemas_by_subject s registry_ctx subject true) [
        | err e ↦ failed (from_storage e)
        | ok versions ↦
            let resolved = latest_deleted (negsuc 0) versions in
            if resolved == negsuc 0 then failed (from_storage version_not_found) else done resolved
      ]

  abbrev pub unreferenced : S → String → String → ℤ → Answer ℤ
  unreferenced s registry_ctx subject version =
      elim (r.storage.get_schema_by_subject_version s registry_ctx subject version) [
        | err e ↦ failed (from_storage e)
        | ok found ↦ elim (r.storage.get_referenced_by s registry_ctx subject found.version) [
          | err e ↦ failed (from_storage e)
          | ok [] ↦ done found.version
          | ok (_ ∷ _) ↦ failed (reference_exists found.version)
        ]
      ]

  unfoldable pub delete_version : S → String → String → ℤ → Bool → Answer ℤ × S
  delete_version s registry_ctx subject version permanent =
      let chosen =
        if permanent
        then deletable s registry_ctx subject version
        else unreferenced s registry_ctx subject version in
      elim chosen [
        | failed e ↦ (failed e, s)
        | done resolved ↦
            let (e, s') = r.storage.delete_schema s registry_ctx subject resolved permanent in
            (pass_write e resolved, s')
      ]
