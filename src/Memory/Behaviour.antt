-- ===== src/Memory/Behaviour.antt =====
-- What registering a schema does, as a caller of the in-memory store sees it.
use axonops_schema_registry.Common.{
  inc64, get, put, ℕ, String, ◌≡◌, refl, ◌∙◌, ◌≢◌, inl, inr, Bool, true, false, ◌&&◌, Option, none,
  some, arith, if◌then◌else◌, Option-cases, ◌==◌, ℕ_eq, string_eq, ==_iff, ==_self, ℤ, ℤ_eq, ◌<ℤ◌,
  max_int64, lt-inc64,
}
use axonops_schema_registry.Storage.{SchemaRecord}
use axonops_schema_registry.Memory.State.{
  SubjectVersionInfo, ContextStore, or_zero, versions_of, version_info, last_version,
}
use axonops_schema_registry.Memory.Create.{
  ensure_subject, find_duplicate, assign_id, add_version, new_info, append_version, create_in,
}
use axonops_schema_registry.Memory.Invariant.{content_print, IsConsistent, IsValid}
use axonops_schema_registry.Memory.Register.{
  version_info-add_version, content_print-add_version, known_subject-add_version,
  ensure_subject-SameView, content_print-with_content, with_counter,
}
use axonops_schema_registry.Memory.CreateValid.{last_version-assign_id}

-- The ID under which content with this fingerprint is registered, or would be.
abbrev pub id_for : ContextStore → String → ℤ
id_for cs f = or_zero (get cs.fingerprints f) cs.next_id

abbrev pub is_none {ℓ} : {A : Type ℓ} → Option A → Bool
is_none none = true
is_none (some a) = false

-- The steps of a registration that is no duplicate.
module _ (cs : ContextStore) (r : SchemaRecord) (now : ℕ) where
  abbrev pub made : ContextStore
  made = ensure_subject cs r.subject

  abbrev pub assigned : ContextStore
  assigned = (assign_id made r).1

  abbrev pub new_number : ℤ
  new_number = inc64 (last_version cs r.subject)

  abbrev pub stored_info : SubjectVersionInfo
  stored_info = new_info (id_for cs r.fingerprint) new_number now r

  abbrev pub registered : ContextStore
  registered =
      add_version (with_counter assigned r.subject new_number) r.subject new_number stored_info

  assign_id-eq-id_for : (assign_id made r).0 ≡ id_for cs r.fingerprint
  unfolding assign_id
  assign_id-eq-id_for =
      let view = ensure_subject-SameView cs r.subject in
      ground (arith, view.fingerprints r.fingerprint, view.next)

  last_version-assigned : (t : String) → last_version assigned t ≡ last_version cs t
  last_version-assigned t =
      last_version-assign_id made r t ∙ (ensure_subject-SameView cs r.subject).counters t

  schemas-made : made.schemas ≡ cs.schemas
  unfolding ensure_subject
  schemas-made = ground arith

  -- What the method answers, and the context that it leaves.
  pub create_in_fresh :
      (later : ℕ)
      → find_duplicate cs.schemas r (versions_of cs r.subject) ≡ none
      → create_in cs now later r ≡ (
        none,
        record r { id = id_for cs r.fingerprint; version = new_number; created_at = later },
        registered,
      )
  unfolding create_in append_version
  create_in_fresh later fresh =
      let view = ensure_subject-SameView cs r.subject in
      let fresh' : find_duplicate made.schemas r (versions_of made r.subject) ≡ none =
        rw (schemas-made, view.versions r.subject) fresh in
      rw (fresh', create_in, assign_id-eq-id_for, last_version-assigned r.subject)

  content_print-assigned :
      (i : ℤ)
      → content_print assigned i ≡ (
          if id_for cs r.fingerprint == i && is_none (get cs.fingerprints r.fingerprint)
          then some r.fingerprint
          else content_print cs i)
  unfolding assign_id
  content_print-assigned i =
      let view = ensure_subject-SameView cs r.subject in
      elim (Option-cases (get cs.fingerprints r.fingerprint)) [
        | inl unseen ↦ ground (
          arith,
          view.fingerprints r.fingerprint,
          view.next,
          view.schemas i,
          content_print-with_content made r i,
        )
        | inr (id, seen) ↦ ground (arith, view.fingerprints r.fingerprint, view.schemas i)
      ]

  version_info-assigned : (t : String) (w : ℤ) → version_info assigned t w ≡ version_info cs t w
  unfolding assign_id
  version_info-assigned t w =
      let view = ensure_subject-SameView cs r.subject in
      ground (arith, view.fingerprints r.fingerprint, view.versions t)

  pub versions_of-assigned : (t : String) → versions_of assigned t ≡ versions_of cs t
  unfolding assign_id
  versions_of-assigned t =
      let view = ensure_subject-SameView cs r.subject in
      ground (arith, view.fingerprints r.fingerprint, view.versions t)

  pub known_subject-registered :
      get registered.subject_versions r.subject
      ≡ some (put (versions_of cs r.subject) new_number stored_info)
  known_subject-registered =
      known_subject-add_version (with_counter assigned r.subject new_number) r.subject new_number
        stored_info
      ∙ rw (versions_of-assigned r.subject) refl

  -- The new version is there; every other version of every subject is what it was.
  pub version_info-registered :
      (t : String) (w : ℤ)
      → version_info registered t w
        ≡ (if r.subject == t && new_number == w then some stored_info else version_info cs t w)
  version_info-registered t w = ground (
    arith,
    version_info-add_version (with_counter assigned r.subject new_number) r.subject new_number
        stored_info t w,
    version_info-assigned t w,
  )

  pub content_print-registered :
      (i : ℤ)
      → content_print registered i ≡ (
          if id_for cs r.fingerprint == i && is_none (get cs.fingerprints r.fingerprint)
          then some r.fingerprint
          else content_print cs i)
  content_print-registered i = ground (
    arith,
    content_print-add_version (with_counter assigned r.subject new_number) r.subject new_number
        stored_info i,
    content_print-assigned i,
  )

module _ (cs : ContextStore) (r : SchemaRecord) (now : ℕ) (h : IsConsistent cs) where
  pub content-registered :
      content_print (registered cs r now) (id_for cs r.fingerprint) ≡ some r.fingerprint
  content-registered = ground (
    arith,
    content_print-registered cs r now (id_for cs r.fingerprint),
    h.known r.fingerprint (id_for cs r.fingerprint),
    ==_self (id_for cs r.fingerprint),
  )

  pub kept-registered :
      (i : ℤ)
      → content_print cs i ≢ none
      → content_print (registered cs r now) i ≡ content_print cs i
  kept-registered i p = ground (
    arith,
    content_print-registered cs r now i,
    h.below_next i p,
    ==_iff (id_for cs r.fingerprint) i,
  )

-- What a caller may rely on after a registration that is no duplicate.
pub record IsRegistered (cs : ContextStore) (now later : ℕ) (r : SchemaRecord) : Type 0 where
  pub answer : (create_in cs now later r).0 ≡ none
  pub id : (create_in cs now later r).1.id ≡ id_for cs r.fingerprint
  pub version : (create_in cs now later r).1.version ≡ inc64 (last_version cs r.subject)
  -- the version is new, and above each number that the subject has given out
  pub fresh : version_info cs r.subject (create_in cs now later r).1.version ≡ none
  pub above : last_version cs r.subject <ℤ (create_in cs now later r).1.version
  -- the version is stored, not deleted, with the contract that was given, and no other changes
  pub versions :
      (t : String) (w : ℤ)
      → version_info (create_in cs now later r).2 t w ≡ (
          if r.subject == t && (create_in cs now later r).1.version == w
          then some
              (new_info (create_in cs now later r).1.id (create_in cs now later r).1.version now r)
          else version_info cs t w)
  -- the content under the ID has the fingerprint, and no other changes
  pub contents :
      (i : ℤ)
      → content_print (create_in cs now later r).2 i
        ≡ (if (create_in cs now later r).1.id == i then some r.fingerprint else content_print cs i)

-- In a well-formed context, where the version counter of the subject is below the largest 64-bit
-- integer and the record is no duplicate of a version of the subject, registering succeeds. The ID
-- is that of the content with the same fingerprint, or the next one; the version is the next of the
-- subject, and no version had it. Afterwards that version shows the given metadata and rules under
-- that ID, and the ID shows the fingerprint. Every other version and the fingerprint under every
-- other ID are as before.
pub create_in-IsRegistered :
    (cs : ContextStore) (now later : ℕ) (r : SchemaRecord)
    → IsValid cs
    → last_version cs r.subject <ℤ max_int64
    → find_duplicate cs.schemas r (versions_of cs r.subject) ≡ none
    → IsRegistered cs now later r
create_in-IsRegistered cs now later r v room fresh =
    let e = create_in_fresh cs r now later fresh in
    let up = lt-inc64 (last_version cs r.subject) room in
    record {
      answer = rw e;
      id = rw e;
      version = rw e;
      fresh = rw e (
          ground (
            arith,
            up,
            v.consistent.counted r.subject (new_number cs r now),
            Option-cases (version_info cs r.subject (new_number cs r now)),
          ));
      above = rw e up;
      versions = λ t w. rw e (version_info-registered cs r now t w);
      contents = λ i. rw e (
          ground (
            arith,
            content_print-registered cs r now i,
            v.consistent.known r.fingerprint i,
            ==_iff (id_for cs r.fingerprint) i,
          ));
    }
