-- ===== src/Memory/ImportValid.antt =====
-- `ImportSchema` and `SetNextID` keep a context well formed, under what each needs for it.
use axonops_schema_registry.Common.{
  get, put, ℕ, String, ◌≡◌, refl, ◌∙◌, ◌≢◌, inl, inr, false, none, some, arith, if◌then◌else◌,
  Bool-cases, Option-cases, ◌==◌, ℕ_eq, string_eq, ==_iff, ==_self, ℤ, pos, ℤ_eq, ◌≤ℤ◌, ◌<ℤ◌, leb_ℤ,
  get-put,
}
use axonops_schema_registry.Storage.{SchemaRecord}
use axonops_schema_registry.Memory.State.{
  ContextStore, versions_of, version_info, uses_of, last_version,
}
use axonops_schema_registry.Memory.Create.{ensure_subject, content, new_info}
use axonops_schema_registry.Memory.Import.{
  conflicts, store_content, advance_version, import_version, import_in,
}
use axonops_schema_registry.Memory.Invariant.{
  content_print, IsConsistent, IsValid, SameView-IsValid,
}
use axonops_schema_registry.Memory.Register.{
  is_empty-add_version, content_print-add_version, add_version-IsConsistent,
  ensure_subject-SameView, with_counter-IsConsistent,
}

-- What an import needs: a number and an ID that are in range, and no other ID for its content.
pub record IsImportable (cs : ContextStore) (r : SchemaRecord) : Type 0 where
  pub id_below : r.id <ℤ cs.next_id
  pub version_positive : pos 0 <ℤ r.version
  pub no_other_id : (id : ℤ) → get cs.fingerprints r.fingerprint ≡ some id → id ≡ r.id

abbrev imported_content : ContextStore → SchemaRecord → ContextStore
imported_content cs r =
    let stored = store_content cs r in
    record stored { fingerprints = put stored.fingerprints r.fingerprint r.id }

module _ (cs : ContextStore) (r : SchemaRecord) where
  content_print-imported :
      conflicts cs r ≡ false
      → (i : ℤ)
      → content_print (imported_content cs r) i
        ≡ (if r.id == i then some r.fingerprint else content_print cs i)
  unfolding store_content content conflicts
  content_print-imported ok_id i = elim (Option-cases (get cs.schemas r.id)) [
    | inl absent ↦ ground (arith, get-put cs.schemas r.id i (content r.id r), ==_iff r.id i)
    | inr (s, there) ↦ ground (arith, ==_iff s.fingerprint r.fingerprint, ==_iff r.id i)
  ]

  no_conflict :
      conflicts cs r ≡ false → (f : String) → content_print cs r.id ≡ some f → r.fingerprint ≡ f
  unfolding conflicts
  no_conflict ok_id f p = elim (Option-cases (get cs.schemas r.id)) [
    | inl absent ↦ ground arith
    | inr (s, there) ↦ ground (arith, ==_iff s.fingerprint r.fingerprint)
  ]

  own_id-imported :
      IsConsistent cs
      → (i : ℤ) (s : SchemaRecord) → get (imported_content cs r).schemas i ≡ some s
      → s.id ≡ i
  unfolding store_content content
  own_id-imported h i s p = elim (Option-cases (get cs.schemas r.id)) [
    | inl absent ↦
        ground (arith, h.own_id i s, get-put cs.schemas r.id i (content r.id r), ==_iff r.id i)
    | inr (t, there) ↦ ground (arith, h.own_id i s)
  ]

  fingerprints-imported :
      (f : String)
      → get (imported_content cs r).fingerprints f
        ≡ (if r.fingerprint == f then some r.id else get cs.fingerprints f)
  unfolding store_content
  fingerprints-imported f = ground (arith, get-put cs.fingerprints r.fingerprint f r.id)

  rest-imported :
      ((t : String) → versions_of (imported_content cs r) t ≡ versions_of cs t)
      × ((t : String) → last_version (imported_content cs r) t ≡ last_version cs t)
      × ((i : ℤ) → uses_of (imported_content cs r) i ≡ uses_of cs i)
      × ((imported_content cs r).next_id ≡ cs.next_id)
  unfolding store_content
  rest-imported = (λ t. ground arith, λ t. ground arith, λ i. ground arith, ground arith)

  imported-IsConsistent :
      IsConsistent cs
      → conflicts cs r ≡ false
      → IsImportable cs r
      → IsConsistent (imported_content cs r)
  imported-IsConsistent h ok_id m =
      let (versions, counters, uses, next) = rest-imported in
      record {
        own_id = own_id-imported h;
        below_next = λ i p. ground (
          arith,
          h.below_next i,
          content_print-imported ok_id i,
          next,
          m.id_below,
          ==_iff r.id i,
        );
        known = λ f i p. ground (
          arith,
          h.known f i,
          content_print-imported ok_id i,
          fingerprints-imported f,
          ==_iff r.fingerprint f,
          ==_iff r.id i,
          no_conflict ok_id f,
        );
        deduplicated = λ f i p. ground (
          arith,
          h.deduplicated f i,
          content_print-imported ok_id i,
          fingerprints-imported f,
          m.no_other_id i,
          ==_iff r.fingerprint f,
          ==_iff r.id i,
        );
        numbered = λ t w info p. ground (arith, h.numbered t w info, versions t);
        positive = λ t w p. ground (arith, h.positive t w, versions t);
        counted = λ t w p. ground (arith, h.counted t w, versions t, counters t);
        not_negative = λ t. ground (arith, h.not_negative t, counters t);
        stored =
            λ t w i p. ground (arith, h.stored t w i, versions t, content_print-imported ok_id i);
        indexed = λ t w i p. ground (arith, h.indexed t w i, versions t, uses i);
        used = λ t w i p. ground (arith, h.used t w i, versions t, uses i);
        unique = λ t. rw (versions t) (h.unique t);
      }

advance_version-IsConsistent :
    (cs : ContextStore) (subject : String) (version : ℤ)
    → IsConsistent cs
    → IsConsistent (advance_version cs subject version)
unfolding advance_version
advance_version-IsConsistent cs subject version h =
    elim (Bool-cases (leb_ℤ (last_version cs subject) version)) [
      | inl up ↦
          rw (up, advance_version) (with_counter-IsConsistent cs subject version h (ground arith))
      | inr down ↦ rw (down, advance_version) h
    ]

module _ (cs : ContextStore) (subject : String) (version : ℤ) where
  le-advance_version : version ≤ℤ last_version (advance_version cs subject version) subject
  unfolding advance_version
  le-advance_version =
      ground (arith, get-put cs.next_subject_version subject subject version, ==_self subject)

  rest-advance_version :
      ((t : String) → versions_of (advance_version cs subject version) t ≡ versions_of cs t)
      × ((i : ℤ) → content_print (advance_version cs subject version) i ≡ content_print cs i)
      × ((i : ℤ) → uses_of (advance_version cs subject version) i ≡ uses_of cs i)
  unfolding advance_version
  rest-advance_version = (λ t. ground arith, λ i. ground arith, λ i. ground arith)

import_version-IsValid :
    (cs : ContextStore) (now : ℕ) (r : SchemaRecord)
    → IsValid cs
    → conflicts cs r ≡ false
    → IsImportable cs r
    → version_info cs r.subject r.version ≡ none
    → IsValid (import_version cs now r)
unfolding import_version
import_version-IsValid cs now r v ok_id m absent =
    let known = imported_content cs r in
    let (versions, counters, uses, next) = rest-imported cs r in
    let advanced = advance_version known r.subject r.version in
    let (versions', prints', uses') = rest-advance_version known r.subject r.version in
    let info = new_info r.id r.version now r in
    record {
      consistent =
          add_version-IsConsistent advanced r.subject r.version info
            (advance_version-IsConsistent known r.subject r.version
              (imported-IsConsistent cs r v.consistent ok_id m))
            (ground (arith, versions' r.subject, versions r.subject)) refl m.version_positive
            (le-advance_version known r.subject r.version)
            (ground (arith, prints' r.id, content_print-imported cs r ok_id r.id, ==_self r.id));
      referenced = λ i p. ground (
        arith,
        v.referenced i,
        uses i,
        uses' i,
        prints' i,
        content_print-imported cs r ok_id i,
        is_empty-add_version advanced r.subject r.version info i,
        content_print-add_version advanced r.subject r.version info i,
      );
    }

conflicts_same :
    (cs ds : ContextStore) (r : SchemaRecord)
    → get ds.schemas r.id ≡ get cs.schemas r.id
    → conflicts ds r ≡ conflicts cs r
unfolding conflicts
conflicts_same cs ds r e = ground arith

-- An import keeps a well-formed context well formed, whether it succeeds or is refused, where the
-- ID is below the ID counter, the version is positive and the content is known under no other ID.
pub import_in-IsValid :
    (cs : ContextStore) (now later : ℕ) (r : SchemaRecord)
    → IsValid cs
    → IsImportable cs r
    → IsValid (import_in cs now later r).2
unfolding import_in
import_in-IsValid cs now later r v m =
    let made = ensure_subject cs r.subject in
    let view = ensure_subject-SameView cs r.subject in
    let valid = SameView-IsValid view v in
    elim (Bool-cases (conflicts cs r)) [
      | inl bad ↦ rw (bad, import_in) v
      | inr fine ↦ elim (Option-cases (version_info made r.subject r.version)) [
        | inl absent ↦
            rw (fine, absent, import_in)
              (import_version-IsValid made now r valid
                (conflicts_same cs made r (view.schemas r.id) ∙ fine)
                (record {
                  id_below = ground (arith, m.id_below, view.next);
                  version_positive = m.version_positive;
                  no_other_id = λ i p. m.no_other_id i (rw (view.fingerprints r.fingerprint) at p);
                })
                absent)
        | inr (info, there) ↦ rw (fine, there, import_in) valid
      ]
    ]

-- The next ID may be set to anything above the IDs that are in use.
pub set_next-IsValid :
    (cs : ContextStore) (id : ℤ)
    → IsValid cs
    → ((i : ℤ) → content_print cs i ≢ none → i <ℤ id)
    → IsValid (record cs { next_id = id })
set_next-IsValid cs id v above = record {
  consistent = record {
    own_id = h.own_id;
    below_next = above;
    known = h.known;
    deduplicated = h.deduplicated;
    numbered = h.numbered;
    positive = h.positive;
    counted = h.counted;
    not_negative = h.not_negative;
    stored = h.stored;
    indexed = h.indexed;
    used = h.used;
    unique = h.unique;
  };
  referenced = v.referenced;
}
  where
    open v use {consistent as h}
