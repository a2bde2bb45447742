-- ===== src/Memory/DeleteValid.antt =====
-- `DeleteSchema` and `DeleteSubject` keep a context well formed.
use axonops_schema_registry.Common.{
  get, String, ◌≡◌, refl, inl, inr, Bool, true, false, ◌&&◌, Option, none, some, List, [], ◌∷◌,
  arith, if◌then◌else◌, Option-cases, ◌==◌, ℕ_eq, string_eq, ==_iff, ==_self, ℤ, ℤ_eq, Map,
  get-delete, get-put, IsUnique,
}
use axonops_schema_registry.Storage.{SchemaRecord, SubjectVersion}
use axonops_schema_registry.Memory.State.{
  SubjectVersionInfo, ContextStore, versions_of, version_info, uses_of, last_version,
}
use axonops_schema_registry.Memory.Lookup.{is_empty}
use axonops_schema_registry.Memory.Delete.{remove_use, forget_fingerprint, release, set_versions}
use axonops_schema_registry.Memory.Invariant.{
  content_print, schema_of, has_use, IsConsistent, IsValid,
}

has_use-remove_use :
    (subject t : String) (version w : ℤ) (l : List SubjectVersion)
    → has_use t w (remove_use subject version l)
      ≡ (if subject == t && version == w then false else has_use t w l)
unfolding has_use remove_use
has_use-remove_use subject t version w [] = ground arith
has_use-remove_use subject t version w (sv ∷ l) = ground (
  arith,
  has_use-remove_use subject t version w l,
  ==_iff sv.subject subject,
  ==_iff sv.subject t,
  ==_iff subject t,
  ==_iff sv.version version,
  ==_iff sv.version w,
  ==_iff version w,
)

pub has_use_nonempty :
    (t : String) (w : ℤ) (l : List SubjectVersion) → is_empty l ≡ true → has_use t w l ≡ false
unfolding has_use
has_use_nonempty t w [] h = refl
has_use_nonempty t w (sv ∷ l) h = cc

pub versions_of-set_versions :
    (cs : ContextStore) (subject t : String) (m : Map ℤ SubjectVersionInfo)
    → versions_of (set_versions cs subject m) t ≡ (if subject == t then m else versions_of cs t)
versions_of-set_versions cs subject t m = ground (arith, get-put cs.subject_versions subject t m)

abbrev names : String → Option String → Bool
names f none = false
names f (some g) = g == f

module _ (cs : ContextStore) (subject : String) (version id : ℤ) where
  abbrev left : List SubjectVersion
  left = remove_use subject version (uses_of cs id)

  uses_of-release :
      (i : ℤ) → uses_of (release cs subject version id) i ≡ (if id == i then left else uses_of cs i)
  unfolding release
  uses_of-release i = ground (
    arith,
    get-delete cs.id_to_subject_versions id i,
    get-put cs.id_to_subject_versions id i left,
  )

  content_print-release :
      (i : ℤ)
      → content_print (release cs subject version id) i
        ≡ (if is_empty left && id == i then none else content_print cs i)
  unfolding release
  content_print-release i = ground (arith, get-delete cs.schemas id i)

  own_id-release :
      (i : ℤ) (s : SchemaRecord)
      → get (release cs subject version id).schemas i ≡ some s
      → get cs.schemas i ≡ some s
  unfolding release
  own_id-release i s p = ground (arith, get-delete cs.schemas id i)

  fingerprints-release :
      (f : String)
      → get (release cs subject version id).fingerprints f
        ≡ (if is_empty left && names f (content_print cs id) then none else get cs.fingerprints f)
  unfolding release forget_fingerprint
  fingerprints-release f = elim (Option-cases (get cs.schemas id)) [
    | inl absent ↦ ground arith
    | inr (s, there) ↦ ground (arith, get-delete cs.fingerprints s.fingerprint f)
  ]

  versions_of-release :
      (t : String) → versions_of (release cs subject version id) t ≡ versions_of cs t
  unfolding release
  versions_of-release t = ground arith

  last_version-release :
      (t : String) → last_version (release cs subject version id) t ≡ last_version cs t
  unfolding release
  last_version-release t = ground arith

  next_id-release : (release cs subject version id).next_id ≡ cs.next_id
  unfolding release
  next_id-release = ground arith

-- One version leaves its subject's map and releases its schema.
module _ (cs : ContextStore) (subject : String) (version id : ℤ) (m : Map ℤ SubjectVersionInfo)
    (v : IsValid cs)
    (removed : (w : ℤ) → get m w ≡ (if version == w then none else version_info cs subject w))
    (m_unique : IsUnique m) (there : schema_of cs subject version ≡ some id) where
  open v use {consistent as h}

  abbrev without : ContextStore
  without = set_versions cs subject m

  abbrev after : ContextStore
  after = release without subject version id

  version_info-after :
      (t : String) (w : ℤ)
      → version_info after t w
        ≡ (if subject == t && version == w then none else version_info cs t w)
  version_info-after t w = ground (
    arith,
    versions_of-release without subject version id t,
    versions_of-set_versions cs subject t m,
    removed w,
    ==_iff subject t,
  )

  abbrev remaining : List SubjectVersion
  remaining = remove_use subject version (uses_of cs id)

  has_use-after :
      (t : String) (w i : ℤ)
      → has_use t w (uses_of after i)
        ≡ (if id == i && (subject == t && version == w) then false else has_use t w (uses_of cs i))
  has_use-after t w i = ground (
    arith,
    uses_of-release without subject version id i,
    has_use-remove_use subject t version w (uses_of cs id),
    ==_iff id i,
  )

  release-IsConsistent : IsConsistent after
  release-IsConsistent = record {
    own_id = λ i s p. h.own_id i s (own_id-release without subject version id i s p);
    below_next = λ i p. ground (
      arith,
      h.below_next i,
      content_print-release without subject version id i,
      next_id-release without subject version id,
    );
    known = λ f i p. ground (
      arith,
      h.known f i,
      content_print-release without subject version id i,
      fingerprints-release without subject version id f,
      ==_iff id i,
      ==_self f,
    );
    deduplicated = λ f i p.
        let here = content_print-release without subject version id i in
        let map_after = fingerprints-release without subject version id f in
        elim (Option-cases (get cs.schemas id)) [
          | inl absent ↦ ground (arith, h.deduplicated f i, here, map_after)
          | inr (s, print) ↦ ground (
            arith,
            h.deduplicated f i,
            h.deduplicated f id,
            here,
            map_after,
            ==_iff id i,
            ==_iff s.fingerprint f,
          )
        ];
    numbered = λ t w info p. ground (arith, h.numbered t w info, version_info-after t w);
    positive = λ t w p. ground (arith, h.positive t w, version_info-after t w);
    counted = λ t w p. ground (
      arith,
      h.counted t w,
      version_info-after t w,
      last_version-release without subject version id t,
    );
    not_negative =
        λ t. ground (arith, h.not_negative t, last_version-release without subject version id t);
    stored = λ t w i p. ground (
      arith,
      h.stored t w i,
      h.indexed t w i,
      version_info-after t w,
      has_use-remove_use subject t version w (uses_of cs id),
      has_use_nonempty t w remaining,
      content_print-release without subject version id i,
      ==_iff id i,
    );
    indexed =
        λ t w i p. ground (arith, h.indexed t w i, version_info-after t w, has_use-after t w i);
    used = λ t w i p. ground (
      arith,
      h.used t w i,
      version_info-after t w,
      has_use-after t w i,
      there,
      ==_iff id i,
      ==_iff subject t,
      ==_iff version w,
    );
    unique = λ t.
        rw
          (
            versions_of-release without subject version id t,
            versions_of-set_versions cs subject t m,
          )
          (elim (subject == t) as (λ b. IsUnique (if b then m else versions_of cs t)) [
            | true ↦ m_unique
            | false ↦ h.unique t
          ]);
  }

  pub release-IsValid : IsValid after
  release-IsValid = record {
    consistent = release-IsConsistent;
    referenced = λ i p. ground (
      arith,
      v.referenced i,
      uses_of-release without subject version id i,
      content_print-release without subject version id i,
      ==_iff id i,
    );
  }
