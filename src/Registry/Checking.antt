-- ===== src/Registry/Checking.antt =====
-- The check of compatibility, lookup and normalization: internal/registry/registry.go,
-- `CheckCompatibility`, `LookupSchema` and `NormalizeSchema`.
use axonops_schema_registry.Common.{
  atoi, ℕ, String, Bool, false, ◌||◌, Option, none, some, List, [], ◌∷◌, if◌then◌else◌, ℕ_eq,
  string_eq, ◌==◌, ℤ_eq,
}
use axonops_schema_registry.Storage.{invalid_version, ok, err, Reference, SchemaRecord}
use axonops_schema_registry.Compatibility.Result.{CheckResult, new_compatible_result}
use axonops_schema_registry.Compatibility.Mode.{Mode, mode_none}
use axonops_schema_registry.Compatibility.Checker.{SchemaWithRefs, check}
use axonops_schema_registry.Registry.Backend.{
  Registry, from_storage, Answer, done, failed, is_subject_not_found, pass, chain,
}
use axonops_schema_registry.Registry.Levels.{is_normalize_enabled}
use axonops_schema_registry.Registry.Metadata.{entries}
use axonops_schema_registry.Registry.References.{compute_global_fingerprint}
use axonops_schema_registry.Registry.Register.{
  or_avro, unjoined, parse_with, normalized_if, compat_level, with_refs,
}

pub record NormalizeResult : Type 0 where
  pub normalized : String
  pub fingerprint : String
  pub schema_type : String

module _ {S P : Type 0} (r : Registry S P) (fuel : ℕ) where
  -- The schemas that `CheckCompatibility` checks against, or nothing where there is no subject.
  unfoldable pub versions_to_check :
      S → String → String → String → Answer (Option (List SchemaRecord))
  versions_to_check s registry_ctx subject version =
      if version == "latest"
      then (elim (r.storage.get_latest_schema s registry_ctx subject) [
        | ok latest ↦ done (some (latest ∷ []))
        | err e ↦ if is_subject_not_found e then done none else failed (from_storage e)
      ])
      else if version == ""
      then (elim (r.storage.get_schemas_by_subject s registry_ctx subject false) [
        | ok existing ↦ done (some existing)
        | err e ↦ if is_subject_not_found e then done none else failed (from_storage e)
      ])
      else elim (atoi version) [
        | none ↦ failed (from_storage invalid_version)
        | some n ↦ elim (r.storage.get_schema_by_subject_version s registry_ctx subject n) [
          | ok found ↦ done (some (found ∷ []))
          | err e ↦ failed (from_storage e)
        ]
      ]

  abbrev pub check_versions :
      S → String → String → String → SchemaWithRefs → Mode → String → Answer CheckResult
  check_versions s registry_ctx subject schema_type new_schema mode version =
      chain (versions_to_check s registry_ctx subject version) (λ versions.
        chain (with_refs r fuel s registry_ctx (entries versions))
          (λ schemas. done (check r.compat_checker mode schema_type new_schema schemas)))

  unfoldable pub check_compatibility :
      S → String → String → String → String → List Reference → String → Bool → Answer CheckResult
  check_compatibility s registry_ctx subject schema schema_type refs version normalize =
      let type = or_avro schema_type in
      chain (parse_with r fuel s registry_ctx schema type refs) (λ p.
        let should_normalize = normalize || is_normalize_enabled r.storage s registry_ctx subject in
        let (parsed, text) = normalized_if r fuel should_normalize p schema in
        let mode = compat_level r fuel s registry_ctx subject in
        if mode == mode_none
        then done new_compatible_result
        else check_versions s registry_ctx subject type
            (record { schema = text; references = p.resolved_refs }) mode version)

  unfoldable pub lookup_schema :
      S → String → String → String → String → List Reference → Bool → Bool → Answer SchemaRecord
  lookup_schema s registry_ctx subject schema schema_type refs deleted normalize =
      chain (parse_with r fuel s registry_ctx schema (or_avro schema_type) refs) (λ p.
        let should_normalize = normalize || is_normalize_enabled r.storage s registry_ctx subject in
        let (parsed, text) = normalized_if r fuel should_normalize p schema in
        let fingerprint = compute_global_fingerprint r.digest (p.parser.fingerprint parsed) refs in
        pass (r.storage.get_schema_by_fingerprint s registry_ctx subject fingerprint deleted))

  unfoldable pub normalize_schema :
      S → String → String → String → List Reference → Answer NormalizeResult
  normalize_schema s registry_ctx schema schema_type refs =
      let type = or_avro schema_type in
      chain (unjoined (parse_with r fuel s registry_ctx schema type refs)) (λ p.
        let n = p.parser.normalize p.parsed in
        done (record {
          normalized = p.parser.canonical_string n;
          fingerprint = p.parser.fingerprint n;
          schema_type = type;
        }))
