-- ===== src/Memory/Invariant.antt =====
-- The well-formedness of a context of the in-memory store, as equations on what its maps show.
use axonops_schema_registry.Common.{
  get, String, ◌≡◌, ◌≢◌, Bool, true, false, ◌&&◌, ◌||◌, Option, none, some, List, [], ◌∷◌, arith,
  ◌==◌, ℕ_eq, string_eq, ℤ, pos, ℤ_eq, ◌≤ℤ◌, ◌<ℤ◌, IsUnique,
}
use axonops_schema_registry.Storage.{SchemaRecord, SubjectVersion}
use axonops_schema_registry.Memory.State.{
  SubjectVersionInfo, ContextStore, versions_of, version_info, uses_of, last_version,
}
use axonops_schema_registry.Memory.Lookup.{is_empty}

-- The fingerprint of the content that an ID stands for.
abbrev pub content_print : ContextStore → ℤ → Option String
content_print cs id = elim (get cs.schemas id) [ none ↦ none | some s ↦ some s.fingerprint ]

-- The schema ID of a version of a subject.
abbrev pub schema_of : ContextStore → String → ℤ → Option ℤ
schema_of cs subject version = elim (version_info cs subject version) [
  | none ↦ none
  | some info ↦ some info.schema_id
]

-- Whether a list of reverse entries names the version of the subject.
unfoldable pub has_use : String → ℤ → List SubjectVersion → Bool
has_use subject version [] = false
has_use subject version (sv ∷ rest) =
    sv.subject == subject && sv.version == version || has_use subject version rest

-- Everything but that each content is in use, which fails between two steps of a method.
pub record IsConsistent (cs : ContextStore) : Type 0 where
  pub own_id : (id : ℤ) (s : SchemaRecord) → get cs.schemas id ≡ some s → s.id ≡ id
  pub below_next : (id : ℤ) → content_print cs id ≢ none → id <ℤ cs.next_id
  -- The fingerprint map and the stored contents name each other.
  pub known : (f : String) (id : ℤ) → get cs.fingerprints f ≡ some id → content_print cs id ≡ some f
  pub deduplicated :
      (f : String) (id : ℤ) → content_print cs id ≡ some f → get cs.fingerprints f ≡ some id
  pub numbered :
      (subject : String) (version : ℤ) (info : SubjectVersionInfo)
      → version_info cs subject version ≡ some info
      → info.version ≡ version
  pub positive :
      (subject : String) (version : ℤ) → schema_of cs subject version ≢ none → pos 0 <ℤ version
  pub counted :
      (subject : String) (version : ℤ)
      → schema_of cs subject version ≢ none
      → version ≤ℤ last_version cs subject
  pub not_negative : (subject : String) → pos 0 ≤ℤ last_version cs subject
  pub stored :
      (subject : String) (version id : ℤ)
      → schema_of cs subject version ≡ some id
      → content_print cs id ≢ none
  -- The version maps and the reverse map name each other.
  pub indexed :
      (subject : String) (version id : ℤ)
      → schema_of cs subject version ≡ some id
      → has_use subject version (uses_of cs id) ≡ true
  pub used :
      (subject : String) (version id : ℤ)
      → has_use subject version (uses_of cs id) ≡ true
      → schema_of cs subject version ≡ some id
  pub unique : (subject : String) → IsUnique (versions_of cs subject)

pub record IsValid (cs : ContextStore) : Type 0 where
  pub consistent : IsConsistent cs
  -- A content that no version uses is not kept.
  pub referenced : (id : ℤ) → is_empty (uses_of cs id) ≡ true → content_print cs id ≡ none

-- Two contexts that show the same through every map that the invariant reads.
pub record SameView (cs ds : ContextStore) : Type 0 where
  pub schemas : (id : ℤ) → get ds.schemas id ≡ get cs.schemas id
  pub fingerprints : (f : String) → get ds.fingerprints f ≡ get cs.fingerprints f
  pub versions : (subject : String) → versions_of ds subject ≡ versions_of cs subject
  pub counters : (subject : String) → last_version ds subject ≡ last_version cs subject
  pub uses : (id : ℤ) → uses_of ds id ≡ uses_of cs id
  pub next : ds.next_id ≡ cs.next_id

pub SameView-IsValid : {cs ds : ContextStore} → SameView cs ds → IsValid cs → IsValid ds
SameView-IsValid {cs} {ds} e v = record {
  consistent = record {
    own_id = λ i s p. ground (arith, h.own_id i s, e.schemas i);
    below_next = λ i p. ground (arith, h.below_next i, e.schemas i, e.next);
    known = λ f i p. ground (arith, h.known f i, e.schemas i, e.fingerprints f);
    deduplicated = λ f i p. ground (arith, h.deduplicated f i, e.schemas i, e.fingerprints f);
    numbered = λ t w i p. ground (arith, h.numbered t w i, e.versions t);
    positive = λ t w p. ground (arith, h.positive t w, e.versions t);
    counted = λ t w p. ground (arith, h.counted t w, e.versions t, e.counters t);
    not_negative = λ t. ground (arith, h.not_negative t, e.counters t);
    stored = λ t w i p. ground (arith, h.stored t w i, e.versions t, e.schemas i);
    indexed = λ t w i p. ground (arith, h.indexed t w i, e.versions t, e.uses i);
    used = λ t w i p. ground (arith, h.used t w i, e.versions t, e.uses i);
    unique = λ t. rw (e.versions t) (h.unique t);
  };
  referenced = λ i p. ground (arith, v.referenced i, e.uses i, e.schemas i);
}
  where
    open v use {consistent as h}
