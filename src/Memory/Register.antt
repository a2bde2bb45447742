-- ===== src/Memory/Register.antt =====
-- The steps of `CreateSchema` and `ImportSchema` keep a context well formed.
use axonops_schema_registry.Common.{
  inc64, get, put, String, ◌≡◌, refl, ◌≢◌, inl, inr, true, false, ◌&&◌, ◌||◌, none, some, List, [],
  ◌∷◌, ◌++◌, arith, if◌then◌else◌, Option-cases, ◌==◌, ℕ_eq, string_eq, ==_iff, ==_self, ==-cases,
  ℤ, pos, ℤ_eq, ◌≤ℤ◌, ◌<ℤ◌, max_int64, lt-inc64, get-put, IsUnique, put-IsUnique,
}
use axonops_schema_registry.Storage.{SchemaRecord, SubjectVersion}
use axonops_schema_registry.Memory.State.{
  SubjectVersionInfo, ContextStore, versions_of, version_info, uses_of, last_version,
}
use axonops_schema_registry.Memory.Lookup.{is_empty}
use axonops_schema_registry.Memory.Create.{ensure_subject, content, add_version}
use axonops_schema_registry.Memory.Invariant.{content_print, has_use, IsConsistent, SameView}

module _ (cs : ContextStore) (subject : String) (version : ℤ) (info : SubjectVersionInfo) where
  pub version_info-add_version :
      (t : String) (w : ℤ)
      → version_info (add_version cs subject version info) t w
        ≡ (if subject == t && version == w then some info else version_info cs t w)
  unfolding add_version
  version_info-add_version t w = ground (
    arith,
    get-put cs.subject_versions subject t (put (versions_of cs subject) version info),
    get-put (versions_of cs subject) version w info,
    ==_iff subject t,
  )

  pub uses_of-add_version :
      (i : ℤ)
      → uses_of (add_version cs subject version info) i ≡ (
          if info.schema_id == i
          then uses_of cs info.schema_id ++ record { subject = subject; version = version } ∷ []
          else uses_of cs i)
  unfolding add_version
  uses_of-add_version i = ground (
    arith,
    get-put cs.id_to_subject_versions info.schema_id i
        (uses_of cs info.schema_id ++ record { subject = subject; version = version } ∷ []),
  )

has_use-snoc :
    (t : String) (w : ℤ) (l : List SubjectVersion) (sv : SubjectVersion)
    → has_use t w (l ++ sv ∷ []) ≡ (has_use t w l || sv.subject == t && sv.version == w)
unfolding has_use
has_use-snoc t w [] sv = ground arith
has_use-snoc t w (u ∷ l) sv = ground (arith, has_use-snoc t w l sv)

is_empty-snoc : (l : List SubjectVersion) (sv : SubjectVersion) → is_empty (l ++ sv ∷ []) ≡ false
is_empty-snoc [] sv = refl
is_empty-snoc (u ∷ l) sv = refl

module _ (cs : ContextStore) (subject : String) (version : ℤ) (info : SubjectVersionInfo) where
  abbrev entry : SubjectVersion
  entry = record { subject = subject; version = version }

  pub has_use-add_version :
      (t : String) (w i : ℤ)
      → has_use t w (uses_of (add_version cs subject version info) i)
        ≡ (has_use t w (uses_of cs i) || info.schema_id == i && (subject == t && version == w))
  has_use-add_version t w i = ground (
    arith,
    uses_of-add_version cs subject version info i,
    has_use-snoc t w (uses_of cs info.schema_id) entry,
    ==_iff info.schema_id i,
  )

  pub is_empty-add_version :
      (i : ℤ)
      → is_empty (uses_of (add_version cs subject version info) i)
        ≡ (if info.schema_id == i then false else is_empty (uses_of cs i))
  is_empty-add_version i = ground (
    arith,
    uses_of-add_version cs subject version info i,
    is_empty-snoc (uses_of cs info.schema_id) entry,
    ==_iff info.schema_id i,
  )

module _ (cs : ContextStore) (subject : String) (version : ℤ) (info : SubjectVersionInfo) where
  pub last_version-add_version :
      (t : String) → last_version (add_version cs subject version info) t ≡ last_version cs t
  unfolding add_version
  last_version-add_version t = refl

  pub content_print-add_version :
      (i : ℤ) → content_print (add_version cs subject version info) i ≡ content_print cs i
  unfolding add_version
  content_print-add_version i = refl

  pub versions_of-add_version :
      (t : String)
      → versions_of (add_version cs subject version info) t
        ≡ (if subject == t then put (versions_of cs subject) version info else versions_of cs t)
  unfolding add_version
  versions_of-add_version t =
      ground
        (arith, get-put cs.subject_versions subject t (put (versions_of cs subject) version info))

pub known_subject-add_version :
    (cs : ContextStore) (subject : String) (version : ℤ) (info : SubjectVersionInfo)
    → get (add_version cs subject version info).subject_versions subject
      ≡ some (put (versions_of cs subject) version info)
unfolding add_version
known_subject-add_version cs subject version info =
    rw (get-put cs.subject_versions subject subject (put (versions_of cs subject) version info))
      (rw (==_self subject))

-- A version that is not there, for a content that is, under a counter that covers it.
pub add_version-IsConsistent :
    (cs : ContextStore) (subject : String) (version : ℤ) (info : SubjectVersionInfo)
    → IsConsistent cs
    → version_info cs subject version ≡ none
    → info.version ≡ version
    → pos 0 <ℤ version
    → version ≤ℤ last_version cs subject
    → content_print cs info.schema_id ≢ none
    → IsConsistent (add_version cs subject version info)
add_version-IsConsistent cs subject version info h absent same above covered content = record {
  own_id = unfold add_version in h.own_id;
  below_next = unfold add_version in h.below_next;
  known = unfold add_version in h.known;
  deduplicated = unfold add_version in h.deduplicated;
  numbered = λ t w i p. ground (
    arith,
    h.numbered t w i,
    version_info-add_version cs subject version info t w,
    ==_iff subject t,
    ==_iff version w,
  );
  positive = λ t w p. ground (
    arith,
    h.positive t w,
    version_info-add_version cs subject version info t w,
    ==_iff version w,
  );
  counted = λ t w p. ground (
    arith,
    h.counted t w,
    version_info-add_version cs subject version info t w,
    last_version-add_version cs subject version info t,
    ==_iff subject t,
    ==_iff version w,
  );
  not_negative = unfold add_version in h.not_negative;
  stored = λ t w i p. ground (
    arith,
    h.stored t w i,
    version_info-add_version cs subject version info t w,
    content_print-add_version cs subject version info i,
  );
  indexed = λ t w i p. ground (
    arith,
    h.indexed t w i,
    version_info-add_version cs subject version info t w,
    has_use-add_version cs subject version info t w i,
    ==_iff info.schema_id i,
  );
  used = λ t w i p. ground (
    arith,
    h.used t w i,
    version_info-add_version cs subject version info t w,
    has_use-add_version cs subject version info t w i,
    ==_iff subject t,
    ==_iff version w,
    ==_iff info.schema_id i,
  );
  unique = λ t.
      rw (versions_of-add_version cs subject version info t)
        (elim (subject == t)
          as (λ b.
            IsUnique (if b then put (versions_of cs subject) version info else versions_of cs t)) [
              | true ↦ put-IsUnique (versions_of cs subject) version info (h.unique subject)
              | false ↦ h.unique t
            ]);
}

-- A subject's empty version map shows what a missing one does.
pub ensure_subject-SameView :
    (cs : ContextStore) (subject : String) → SameView cs (ensure_subject cs subject)
unfolding ensure_subject
ensure_subject-SameView cs subject = elim (Option-cases (get cs.subject_versions subject)) [
  | inl missing ↦ record {
    schemas = λ i. ground arith;
    fingerprints = λ f. ground arith;
    versions = λ t. ground (arith, get-put cs.subject_versions subject t [], ==_iff subject t);
    counters = λ t. ground arith;
    uses = λ i. ground arith;
    next = ground arith;
  }
  | inr (m, there) ↦ record {
    schemas = λ i. ground arith;
    fingerprints = λ f. ground arith;
    versions = λ t. ground arith;
    counters = λ t. ground arith;
    uses = λ i. ground arith;
    next = ground arith;
  }
]

-- New content under the next ID.
abbrev pub with_content : ContextStore → SchemaRecord → ContextStore
with_content cs r = record cs {
  next_id = inc64 cs.next_id;
  fingerprints = put cs.fingerprints r.fingerprint cs.next_id;
  schemas = put cs.schemas cs.next_id (content cs.next_id r);
}

module _ (cs : ContextStore) (r : SchemaRecord) where
  pub content_print-with_content :
      (i : ℤ)
      → content_print (with_content cs r) i
        ≡ (if cs.next_id == i then some r.fingerprint else content_print cs i)
  unfolding content
  content_print-with_content i =
      ground (arith, get-put cs.schemas cs.next_id i (content cs.next_id r))

  pub with_content-IsConsistent :
      IsConsistent cs
      → get cs.fingerprints r.fingerprint ≡ none
      → cs.next_id <ℤ max_int64
      → IsConsistent (with_content cs r)
  unfolding content
  with_content-IsConsistent h unseen room = record {
    own_id = λ i s p. elim (==-cases cs.next_id i) [
      | inl same ↦
          ground
            (arith, get-put cs.schemas cs.next_id i (content cs.next_id r), ==_iff cs.next_id i)
      | inr other ↦
          h.own_id i s
            (ground (arith, get-put cs.schemas cs.next_id i (content cs.next_id r), other.0))
    ];
    below_next = λ i p. ground (
      arith,
      h.below_next i,
      content_print-with_content i,
      lt-inc64 cs.next_id,
      ==_iff cs.next_id i,
    );
    known = λ f i p. ground (
      arith,
      h.known f i,
      h.below_next i,
      content_print-with_content i,
      get-put cs.fingerprints r.fingerprint f cs.next_id,
      ==_iff r.fingerprint f,
      ==_iff cs.next_id i,
    );
    deduplicated = λ f i p. ground (
      arith,
      h.deduplicated f i,
      content_print-with_content i,
      get-put cs.fingerprints r.fingerprint f cs.next_id,
      ==_iff r.fingerprint f,
      ==_iff cs.next_id i,
    );
    numbered = h.numbered;
    positive = h.positive;
    counted = h.counted;
    not_negative = h.not_negative;
    stored = λ t w i p. ground (arith, h.stored t w i, content_print-with_content i);
    indexed = h.indexed;
    used = h.used;
    unique = h.unique;
  }

pub has_content_with :
    (cs : ContextStore) (r : SchemaRecord) → content_print (with_content cs r) cs.next_id ≢ none
has_content_with cs r p =
    ground (arith, content_print-with_content cs r cs.next_id, ==_self cs.next_id)

-- The version counter goes up.
abbrev pub with_counter : ContextStore → String → ℤ → ContextStore
with_counter cs subject version = record cs {
  next_subject_version = put cs.next_subject_version subject version;
}

pub with_counter-IsConsistent :
    (cs : ContextStore) (subject : String) (version : ℤ)
    → IsConsistent cs
    → last_version cs subject ≤ℤ version
    → IsConsistent (with_counter cs subject version)
with_counter-IsConsistent cs subject version h up = record {
  own_id = h.own_id;
  below_next = h.below_next;
  known = h.known;
  deduplicated = h.deduplicated;
  numbered = h.numbered;
  positive = h.positive;
  counted = λ t w p.
      ground (
        arith,
        h.counted t w p,
        get-put cs.next_subject_version subject t version,
        ==_iff subject t,
      );
  not_negative = λ t. ground (
    arith,
    h.not_negative t,
    h.not_negative subject,
    get-put cs.next_subject_version subject t version,
    ==_iff subject t,
  );
  stored = h.stored;
  indexed = h.indexed;
  used = h.used;
  unique = h.unique;
}

-- A version that is above the counter is not there.
pub above_counter_absent :
    (cs : ContextStore) (subject : String) (version : ℤ)
    → IsConsistent cs
    → last_version cs subject <ℤ version
    → version_info cs subject version ≡ none
above_counter_absent cs subject version h up = ground (arith, h.counted subject version)
