-- ===== src/Registry/Removal/Guard.antt =====
-- Which version a deletion removes, and that one that is referred to is not soft-deleted.
use axonops_schema_registry.Common.{
  String, ◌≡◌, refl, ◌≢◌, ◌⊎◌, inl, inr, Bool, true, false, List, [], ◌∷◌, arith, ℕ_eq, string_eq,
  ℤ, negsuc, ℤ_eq,
}
use axonops_schema_registry.Storage.{Result, ok, err, SchemaRecord, SubjectVersion}
use axonops_schema_registry.Registry.Backend.{
  Registry, from_storage, reference_exists, done, failed, Answer-cases,
}
use axonops_schema_registry.Registry.Removal.{check_unreferenced, delete_subject}
use axonops_schema_registry.Registry.Removal.Highest.{IsHighestDeleted}

module _ {S P : Type 0} (r : Registry S P) (s : S) (registry_ctx subject : String) where
  -- No schema refers to any of the versions.
  abbrev pub AllUnreferenced : List SchemaRecord → Type 0
  AllUnreferenced [] = Unit
  AllUnreferenced (v ∷ rest) =
      (r.storage.get_referenced_by s registry_ctx subject v.version ≡ ok []) × AllUnreferenced rest

  check_unreferenced_done :
      (versions : List SchemaRecord)
      → check_unreferenced r s registry_ctx subject versions ≡ done tt
      → AllUnreferenced versions
  unfolding check_unreferenced
  check_unreferenced_done [] h = tt
  check_unreferenced_done (v ∷ rest) h =
      go (check_unreferenced_done rest)
        (r.storage.get_referenced_by s registry_ctx subject v.version) refl h
    where
      go :
          (check_unreferenced r s registry_ctx subject rest ≡ done tt → AllUnreferenced rest)
          → (o : Result (List SubjectVersion))
          → r.storage.get_referenced_by s registry_ctx subject v.version ≡ o
          → elim o [
            | err e ↦ failed (from_storage e)
            | ok [] ↦ check_unreferenced r s registry_ctx subject rest
            | ok (_ ∷ _) ↦ failed (reference_exists v.version)
          ]
            ≡ done tt
          → AllUnreferenced (v ∷ rest)
      go others (err e) q p = absurd (cc p)
      go others (ok []) q p = (q, others p)
      go others (ok (_ ∷ _)) q p = absurd (cc p)

  -- A subject is soft-deleted only where no schema refers to any of its versions.
  pub delete_subject_unreferenced :
      (versions : List SchemaRecord) (deleted : List ℤ) (s' : S)
      → r.storage.get_schemas_by_subject s registry_ctx subject false ≡ ok versions
      → delete_subject r s registry_ctx subject false ≡ (done deleted, s')
      → AllUnreferenced versions
  unfolding delete_subject
  delete_subject_unreferenced versions deleted s' found h =
      elim (Answer-cases (check_unreferenced r s registry_ctx subject versions)) [
        | inl (tt, passed) ↦ check_unreferenced_done versions passed
        | inr (e, blocked) ↦ absurd (ground (arith, h, found, blocked))
      ]

  -- The version that a deletion is to remove. A soft deletion removes the version that is found, and
  -- only one that no schema refers to. A permanent one removes the version that is given, or for -1 the
  -- highest one that is soft-deleted.
  abbrev pub Target : ℤ → Bool → ℤ → Type 0
  Target version false target =
      (found : SchemaRecord) × (r.storage.get_schema_by_subject_version s registry_ctx subject
          version
        ≡ ok found)
      × (found.version ≡ target)
      × (r.storage.get_referenced_by s registry_ctx subject target ≡ ok [])
  Target version true target =
      ((version ≢ negsuc 0) × (version ≡ target))
      ⊎ ((version ≡ negsuc 0)
          × (versions : List SchemaRecord) × (r.storage.get_schemas_by_subject s registry_ctx
                subject true
              ≡ ok versions)
          × IsHighestDeleted target versions)
