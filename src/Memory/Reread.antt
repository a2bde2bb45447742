-- ===== src/Memory/Reread.antt =====
-- What was registered is found under the version that it got.
use axonops_schema_registry.Common.{
  get, ℕ, String, ◌≡◌, refl, inl, inr, Bool, false, none, some, [], ◌∷◌, arith, if◌then◌else◌,
  Option-cases, ℕ_eq, string_eq, ◌==◌, ==_iff, ==_self, ℤ, pos, negsuc, ℤ_eq, ◌<ℤ◌, max_int64, Map,
  get-nil,
}
use axonops_schema_registry.Storage.{ok, SchemaRecord}
use axonops_schema_registry.Memory.State.{
  SubjectVersionInfo, ContextStore, versions_of, version_info, last_version,
}
use axonops_schema_registry.Memory.Lookup.{full_record, is_empty, fetch_version, lookup_version}
use axonops_schema_registry.Memory.Create.{find_duplicate, new_info, create_in}
use axonops_schema_registry.Memory.Invariant.{content_print, IsValid}
use axonops_schema_registry.Memory.Behaviour.{create_in-IsRegistered}

not_taken : {A : Type 0} (test : Bool) (x y : A) → test ≡ false → (if test then x else y) ≡ y
not_taken test x y e = rw e refl

found_version :
    (cs : ContextStore) (subject : String) (version : ℤ) (info : SubjectVersionInfo)
    (print : String)
    → pos 0 <ℤ version
    → version_info cs subject version ≡ some info
    → info.deleted ≡ false
    → content_print cs info.schema_id ≡ some print
    → (t : SchemaRecord) × (lookup_version cs subject version ≡ ok t)
      × (t.fingerprint ≡ print)
      × (t.metadata ≡ info.metadata)
      × (t.rule_set ≡ info.rule_set)
unfolding lookup_version fetch_version full_record
found_version cs subject version info print positive there live known =
    elim (Option-cases (get cs.schemas info.schema_id)) [
      | inl absent ↦ absurd (ground (arith, known, absent))
      | inr (schema, stored) ↦
          let print_of : schema.fingerprint ≡ print = ground (arith, known, stored) in
          let some_version : is_empty (versions_of cs subject) ≡ false =
            filled (versions_of cs subject) there in
          let not_latest : (version == negsuc 0) ≡ false =
            ground (arith, positive, ==_iff version (negsuc 0)) in
          (
            full_record subject version schema info,
            rw (some_version, not_latest, lookup_version)
                (rw (there, fetch_version) (rw stored (not_taken info.deleted _ _ live))),
            print_of,
            refl,
            refl,
          )
    ]
  where
    filled : (m : Map ℤ SubjectVersionInfo) → get m version ≡ some info → is_empty m ≡ false
    filled [] p = absurd (ground (arith, p, get-nil {V = SubjectVersionInfo} version))
    filled (y ∷ m) p = refl

-- In a well-formed context, after a registration that is no duplicate, made while the version
-- counter of the subject is below the largest 64-bit integer, the version is found under its
-- number, with the fingerprint, the metadata and the rules that were given.
pub lookup_version-create_in :
    (cs : ContextStore) (now later : ℕ) (r : SchemaRecord)
    → IsValid cs
    → last_version cs r.subject <ℤ max_int64
    → find_duplicate cs.schemas r (versions_of cs r.subject) ≡ none
    → (t : SchemaRecord) × (lookup_version
          (create_in cs now later r).2
          r.subject
          (create_in cs now later r).1.version
        ≡ ok t)
      × (t.fingerprint ≡ r.fingerprint)
      × (t.metadata ≡ r.metadata)
      × (t.rule_set ≡ r.rule_set)
lookup_version-create_in cs now later r v room fresh =
    let done = create_in-IsRegistered cs now later r v room fresh in
    let id = (create_in cs now later r).1.id in
    let version = (create_in cs now later r).1.version in
    found_version (create_in cs now later r).2 r.subject version (new_info id version now r)
      r.fingerprint (omega (arith, done.above, v.consistent.not_negative r.subject))
      (ground (arith, done.versions r.subject version, ==_self r.subject, ==_self version)) refl
      (ground (arith, done.contents id, ==_self id))
