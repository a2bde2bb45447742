-- ===== src/Memory/DeleteSubjectValid.antt =====
-- The two methods that delete, whole, on one context: each keeps it well formed.
use axonops_schema_registry.Common.{
  get, delete, put, String, ◌≡◌, refl, inl, inr, Bool, true, false, not, ◌&&◌, Option, none, some,
  [], ◌∷◌, arith, if◌then◌else◌, Bool-cases, Option-cases, ◌==◌, ℕ_eq, string_eq, ==_iff, ==_self,
  ℤ, pos, ℤ_eq, Map, get-delete, get-put, IsUnique, put-IsUnique, delete-IsUnique, get-nil,
  get-head, get-tail,
}
use axonops_schema_registry.Memory.State.{
  SubjectVersionInfo, ContextStore, versions_of, version_info, last_version,
}
use axonops_schema_registry.Memory.Lookup.{is_empty, has_active}
use axonops_schema_registry.Memory.Delete.{
  forget_fingerprint, release, set_versions, delete_version, delete_schema_in, mark_deleted,
  release_all, forget_subject, delete_subject_in,
}
use axonops_schema_registry.Memory.Invariant.{
  schema_of, IsConsistent, IsValid, SameView, SameView-IsValid,
}
use axonops_schema_registry.Memory.DeleteValid.{versions_of-set_versions, release-IsValid}

-- What a soft delete leaves alone in a version's info.
abbrev shape : Option SubjectVersionInfo → Option (ℤ × ℤ)
shape none = none
shape (some info) = some (info.schema_id, info.version)

module _ (cs : ContextStore) (subject : String) (m : Map ℤ SubjectVersionInfo)
    (same : (w : ℤ) → shape (get m w) ≡ shape (version_info cs subject w)) (m_unique : IsUnique m)
    (v : IsValid cs) where
  open v use {consistent as h}

  abbrev marked : ContextStore
  marked = set_versions cs subject m

  schema_of-marked : (t : String) (w : ℤ) → schema_of marked t w ≡ schema_of cs t w
  schema_of-marked t w = elim (Option-cases (get m w)) [
    | inl absent ↦ ground (arith, versions_of-set_versions cs subject t m, same w, ==_iff subject t)
    | inr (info, there) ↦
        ground (arith, versions_of-set_versions cs subject t m, same w, ==_iff subject t)
  ]

  set_versions-IsConsistent : IsConsistent marked
  set_versions-IsConsistent = record {
    own_id = h.own_id;
    below_next = h.below_next;
    known = h.known;
    deduplicated = h.deduplicated;
    numbered = λ t w info p. elim (Option-cases (version_info cs t w)) [
      | inl absent ↦
          ground (arith, versions_of-set_versions cs subject t m, same w, ==_iff subject t)
      | inr (old, there) ↦ ground (
        arith,
        h.numbered t w old,
        versions_of-set_versions cs subject t m,
        same w,
        ==_iff subject t,
      )
    ];
    positive = λ t w p. h.positive t w (rw (schema_of-marked t w) at p);
    counted = λ t w p. h.counted t w (rw (schema_of-marked t w) at p);
    not_negative = h.not_negative;
    stored = λ t w i p. h.stored t w i (rw (schema_of-marked t w) at p);
    indexed = λ t w i p. h.indexed t w i (rw (schema_of-marked t w) at p);
    used = λ t w i p. rw (schema_of-marked t w) (h.used t w i p);
    unique = λ t.
        rw (versions_of-set_versions cs subject t m)
          (elim (subject == t) as (λ b. IsUnique (if b then m else versions_of cs t)) [
            | true ↦ m_unique
            | false ↦ h.unique t
          ]);
  }

  set_versions-IsValid : IsValid marked
  set_versions-IsValid = record {
    consistent = set_versions-IsConsistent;
    referenced = v.referenced;
  }

delete_version-IsValid :
    (cs : ContextStore) (subject : String) (version : ℤ) (permanent : Bool)
    (info : SubjectVersionInfo)
    → IsValid cs
    → version_info cs subject version ≡ some info
    → IsValid (delete_version cs subject version permanent info)
unfolding delete_version
delete_version-IsValid cs subject version true info v there =
    let m = versions_of cs subject in
    release-IsValid cs subject version info.schema_id (delete m version) v
      (λ w. get-delete m version w) (delete-IsUnique m version (v.consistent.unique subject))
      (ground arith)
delete_version-IsValid cs subject version false info v there =
    let m = versions_of cs subject in
    let marked = record info { deleted = true } in
    set_versions-IsValid cs subject (put m version marked)
      (λ w. ground (arith, get-put m version w marked, ==_iff version w))
      (put-IsUnique m version marked (v.consistent.unique subject)) v

-- Deleting a version, softly or for good, there or not, keeps a well-formed context well formed.
pub delete_schema_in-IsValid :
    (cs : ContextStore) (subject : String) (version : ℤ) (permanent : Bool)
    → IsValid cs
    → IsValid (delete_schema_in cs subject version permanent).1
unfolding delete_schema_in
delete_schema_in-IsValid cs subject version permanent v =
    elim (Option-cases (version_info cs subject version)) [
      | inl absent ↦ elim (Bool-cases (is_empty (versions_of cs subject))) [
        | inl e ↦ rw (e, delete_schema_in) v
        | inr e ↦ rw (e, absent, delete_schema_in) v
      ]
      | inr (info, there) ↦ elim (Bool-cases (is_empty (versions_of cs subject))) [
        | inl e ↦ rw (e, delete_schema_in) v
        | inr e ↦ elim (Bool-cases (permanent && not info.deleted)) [
          | inl early ↦ rw (e, there, early, delete_schema_in) v
          | inr ready ↦
              rw (e, there, ready, delete_schema_in)
                (delete_version-IsValid cs subject version permanent info v there)
        ]
      ]
    ]

get-mark_deleted :
    (m : Map ℤ SubjectVersionInfo) (w : ℤ) → shape (get (mark_deleted m) w) ≡ shape (get m w)
unfolding mark_deleted get
get-mark_deleted [] w = refl
get-mark_deleted ((v, info) ∷ m) w = ground (arith, get-mark_deleted m w)

absent-mark_deleted :
    (m : Map ℤ SubjectVersionInfo) (w : ℤ) → get m w ≡ none → get (mark_deleted m) w ≡ none
unfolding mark_deleted get
absent-mark_deleted [] w h = refl
absent-mark_deleted ((v, info) ∷ m) w h = ground (arith, absent-mark_deleted m w)

mark_deleted-IsUnique : (m : Map ℤ SubjectVersionInfo) → IsUnique m → IsUnique (mark_deleted m)
unfolding mark_deleted
mark_deleted-IsUnique [] h = tt
mark_deleted-IsUnique ((v, info) ∷ m) h = (absent-mark_deleted m v h.0, mark_deleted-IsUnique m h.1)

-- Releasing a schema does not look at the version maps.
release-SameView :
    (cs : ContextStore) (subject : String) (version id : ℤ) (l m : Map ℤ SubjectVersionInfo)
    → SameView
        (release (set_versions (set_versions cs subject l) subject m) subject version id)
        (set_versions (release cs subject version id) subject m)
unfolding release forget_fingerprint
release-SameView cs subject version id l m = record {
  schemas = λ i. ground arith;
  fingerprints = λ f. ground arith;
  versions = λ t. ground (
    arith,
    get-put cs.subject_versions subject t m,
    get-put cs.subject_versions subject t l,
    get-put (put cs.subject_versions subject l) subject t m,
  );
  counters = λ t. ground arith;
  uses = λ i. ground arith;
  next = ground arith;
}

-- The loop of a permanent delete, from a context whose version map is what is left to do.
release_all-IsValid :
    (cs : ContextStore) (subject : String) (m : Map ℤ SubjectVersionInfo)
    → IsUnique m
    → IsValid (set_versions cs subject m)
    → IsValid (set_versions (release_all cs subject m) subject [])
unfolding release_all
release_all-IsValid cs subject [] u v = v
release_all-IsValid cs subject ((w, info) ∷ m) u v =
    release_all-IsValid (release cs subject w info.schema_id) subject m u.1 (
      SameView-IsValid (release-SameView cs subject w info.schema_id ((w, info) ∷ m) m) (
        release-IsValid (set_versions cs subject ((w, info) ∷ m)) subject w info.schema_id m v
          (λ x. rw (todo) (get-tail m w x info u.0)) u.1 (ground (arith, todo, get-head m w info))))
  where
    todo : versions_of (set_versions cs subject ((w, info) ∷ m)) subject ≡ (w, info) ∷ m
    todo =
        ground (arith, versions_of-set_versions cs subject subject ((w, info) ∷ m), ==_self subject)

forget_subject-IsValid :
    (cs : ContextStore) (subject : String)
    → IsValid (set_versions cs subject [])
    → IsValid (forget_subject cs subject)
unfolding forget_subject
forget_subject-IsValid cs subject v = record {
  consistent = record {
    own_id = h.own_id;
    below_next = h.below_next;
    known = h.known;
    deduplicated = h.deduplicated;
    numbered = λ t w info p. ground (arith, h.numbered t w info, same t, ==_iff subject t);
    positive = λ t w p. ground (arith, h.positive t w, same t);
    counted = λ t w p.
        ground
          (arith, h.counted t w, same t, kept t, emptied t, get-nil {V = SubjectVersionInfo} w);
    not_negative = λ t. ground (arith, h.not_negative t, kept t);
    stored = λ t w i p. ground (arith, h.stored t w i, same t);
    indexed = λ t w i p. ground (arith, h.indexed t w i, same t);
    used = λ t w i p. ground (arith, h.used t w i, same t);
    unique = λ t. rw (same t) (h.unique t);
  };
  referenced = v.referenced;
}
  where
    open v use {consistent as h}

    same :
        (t : String)
        → versions_of (forget_subject cs subject) t ≡ versions_of (set_versions cs subject []) t
    same t =
        ground (
          arith,
          get-delete cs.subject_versions subject t,
          get-put cs.subject_versions subject t [],
        )

    emptied :
        (t : String)
        → versions_of (set_versions cs subject []) t
          ≡ (if subject == t then [] else versions_of cs t)
    emptied t = versions_of-set_versions cs subject t []

    kept :
        (t : String)
        → last_version (forget_subject cs subject) t
          ≡ (if subject == t then pos 0 else last_version cs t)
    kept t = ground (arith, get-delete cs.next_subject_version subject t)

abbrev refreshed : ContextStore → String → ContextStore
refreshed cs subject = set_versions cs subject (versions_of cs subject)

refreshed-IsValid :
    (cs : ContextStore) (subject : String) → IsValid cs → IsValid (refreshed cs subject)
refreshed-IsValid cs subject v =
    set_versions-IsValid cs subject (versions_of cs subject) (λ w. refl)
      (v.consistent.unique subject) v

-- Deleting a subject, softly or for good, there or not, keeps a well-formed context well formed:
-- the version map and the reverse map still name each other, and no content is left that no version
-- uses.
pub delete_subject_in-IsValid :
    (cs : ContextStore) (subject : String) (permanent : Bool)
    → IsValid cs
    → IsValid (delete_subject_in cs subject permanent).1
unfolding delete_subject_in
delete_subject_in-IsValid cs subject permanent v =
    let m = versions_of cs subject in
    elim (Bool-cases (is_empty m)) [
      | inl e ↦ rw (e, delete_subject_in) v
      | inr e ↦ elim (Bool-cases (has_active m)) [
        | inl a ↦ elim (Bool-cases permanent) [
          | inl p ↦ rw (e, a, p, delete_subject_in) v
          | inr p ↦
              rw (e, a, p, delete_subject_in)
                (set_versions-IsValid cs subject (mark_deleted m) (get-mark_deleted m)
                  (mark_deleted-IsUnique m (v.consistent.unique subject)) v)
        ]
        | inr a ↦ elim (Bool-cases permanent) [
          | inl p ↦
              rw (e, a, p, delete_subject_in)
                (forget_subject-IsValid (release_all cs subject m) subject (
                  release_all-IsValid cs subject m (v.consistent.unique subject)
                    (refreshed-IsValid cs subject v)))
          | inr p ↦ rw (e, a, p, delete_subject_in) v
        ]
      ]
    ]
