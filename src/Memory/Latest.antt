-- ===== src/Memory/Latest.antt =====
-- `GetLatestSchema` and `GetSchemaBySubjectVersion` with version -1 are two loops for one answer.
use axonops_schema_registry.Common.{
  get, String, ◌≡◌, refl, ◌∙◌, ◌≢◌, inl, inr, true, false, not, ◌&&◌, Option, none, some, [], ◌∷◌,
  arith, if◌then◌else◌, Bool-cases, Option-cases, ◌==◌, ℕ_eq, string_eq, ==_iff, ==_self, ==-cases,
  ℤ, pos, negsuc, pos_part, ℤ_eq, ◌≤ℤ◌, ◌<ℤ◌, ltb_ℤ, Map, IsUnique, get-nil, get-head, get-tail,
}
use axonops_schema_registry.Storage.{subject_not_found, schema_not_found, ok, err, SchemaRecord}
use axonops_schema_registry.Memory.State.{
  SubjectVersionInfo, ContextStore, versions_of, version_info,
}
use axonops_schema_registry.Memory.Lookup.{
  full_record, is_empty, latest_from, fetch_version, lookup_version, latest_entry_from, latest_of,
}
use axonops_schema_registry.Memory.Invariant.{schema_of, IsValid}

-- The two loops, side by side: the number is the same, and the info is the one of that number.
latest_agree :
    (m : Map ℤ SubjectVersionInfo) (acc : ℤ × Option SubjectVersionInfo)
    → (latest_entry_from acc m).0 ≡ latest_from acc.0 m
unfolding latest_entry_from latest_from
latest_agree [] acc = refl
latest_agree ((v, info) ∷ m) acc = elim (Bool-cases (not info.deleted && ltb_ℤ acc.0 v)) [
  | inl up ↦ rw (up, latest_entry_from, latest_from) (latest_agree m (v, some info))
  | inr same ↦ rw (same, latest_entry_from, latest_from) (latest_agree m acc)
]

-- The entry that the loop holds: none yet, or a version of the map that is not deleted.
abbrev Tracks : Map ℤ SubjectVersionInfo → ℤ × Option SubjectVersionInfo → Type 0
Tracks l (v, none) = v ≡ pos 0
Tracks l (v, some info) = (get l v ≡ some info) × (info.deleted ≡ false) × (pos 0 <ℤ v)

abbrev Within : Map ℤ SubjectVersionInfo → Map ℤ SubjectVersionInfo → Type 0
Within m l = (w : ℤ) (info : SubjectVersionInfo) → get m w ≡ some info → get l w ≡ some info

Within-tail :
    (m l : Map ℤ SubjectVersionInfo) (v : ℤ) (info : SubjectVersionInfo)
    → get m v ≡ none
    → Within ((v, info) ∷ m) l
    → Within m l
Within-tail m l v info absent h w i p =
    h w i (ground (arith, p, get-tail m v w info absent, ==_iff v w))

Tracks-step :
    (l : Map ℤ SubjectVersionInfo) (acc : ℤ × Option SubjectVersionInfo) (v : ℤ)
    (info : SubjectVersionInfo)
    → Tracks l acc
    → get l v ≡ some info
    → (not info.deleted && ltb_ℤ acc.0 v) ≡ true
    → Tracks l (v, some info)
Tracks-step l (a, none) v info t there up = (there, ground arith, ground arith)
Tracks-step l (a, some i) v info t there up = (there, ground arith, ground arith)

latest-Tracks :
    (m l : Map ℤ SubjectVersionInfo) (acc : ℤ × Option SubjectVersionInfo)
    → IsUnique m
    → Within m l
    → Tracks l acc
    → Tracks l (latest_entry_from acc m)
unfolding latest_entry_from
latest-Tracks [] l acc u h t = t
latest-Tracks ((v, info) ∷ m) l acc u h t =
    let rest = Within-tail m l v info u.0 h in
    elim (Bool-cases (not info.deleted && ltb_ℤ acc.0 v)) [
      | inl up ↦
          rw (up, latest_entry_from)
            (latest-Tracks m l (v, some info) u.1 rest
              (Tracks-step l acc v info t (h v info (get-head m v info)) up))
      | inr same ↦ rw (same, latest_entry_from) (latest-Tracks m l acc u.1 rest t)
    ]

-- The number is not below the start, nor below a version that is not deleted.
latest_above_start : (m : Map ℤ SubjectVersionInfo) (acc : ℤ) → acc ≤ℤ latest_from acc m
unfolding latest_from
latest_above_start [] acc = omega arith
latest_above_start ((v, info) ∷ m) acc = elim (Bool-cases (not info.deleted && ltb_ℤ acc v)) [
  | inl up ↦ rw (up, latest_from) (ground (arith, latest_above_start m v))
  | inr same ↦ rw (same, latest_from) (latest_above_start m acc)
]

pub latest_above :
    (m : Map ℤ SubjectVersionInfo) (acc w : ℤ) (info : SubjectVersionInfo)
    → get m w ≡ some info
    → info.deleted ≡ false
    → w ≤ℤ latest_from acc m
unfolding latest_from get
latest_above [] acc w info p live = cc
latest_above ((v, i) ∷ m) acc w info p live = elim (==-cases v w) [
  | inl same ↦
      ground
        (arith, p, live, ==_iff v w, latest_above_start m acc, latest_above_start m v, ==_self w)
  | inr (off, distinct) ↦
      latest_above m (if not i.deleted && ltb_ℤ acc v then v else acc) w info
        (ground (arith, p, off)) live
]

same_answer :
    (cs : ContextStore) (subject : String) (m : Map ℤ SubjectVersionInfo)
    (acc : ℤ × Option SubjectVersionInfo)
    → Tracks m acc
    → (if is_empty m then err subject_not_found else elim acc.1 [
      | none ↦ err subject_not_found
      | some info ↦ elim (get cs.schemas info.schema_id) [
        | none ↦ err schema_not_found
        | some schema ↦ ok (full_record subject acc.0 schema info)
      ]
    ])
      ≡ (if is_empty m
          then err subject_not_found
          else if acc.0 == pos 0
          then err subject_not_found
          else fetch_version cs subject m acc.0)
unfolding fetch_version
same_answer cs subject m (v, none) t = ground (arith, ==_iff v (pos 0))
same_answer cs subject m (v, some info) t = ground (arith, ==_iff v (pos 0))

-- In a well-formed context, asking for the latest schema of a subject and asking for its version -1
-- give the same record or the same error.
pub latest_of-eq-lookup_version :
    (cs : ContextStore) (subject : String)
    → IsValid cs
    → latest_of cs subject ≡ lookup_version cs subject (negsuc 0)
unfolding latest_of lookup_version
latest_of-eq-lookup_version cs subject v =
    let m = versions_of cs subject in
    let tracked : Tracks m (latest_entry_from (pos 0, none) m) =
      latest-Tracks m m (pos 0, none) (v.consistent.unique subject) (λ w i p. p) refl in
    same_answer cs subject m (latest_entry_from (pos 0, none) m) tracked
    ∙ rw (latest_agree m (pos 0, none)) refl

answer_at :
    (cs : ContextStore) (subject : String) (w : ℤ) (acc : ℤ × Option SubjectVersionInfo)
    → IsValid cs
    → schema_of cs subject w ≢ none
    → Tracks (versions_of cs subject) acc
    → w ≤ℤ acc.0
    → (t : SchemaRecord) × ((if is_empty (versions_of cs subject)
          then err subject_not_found
          else elim acc.1 [
            | none ↦ err subject_not_found
            | some info ↦ elim (get cs.schemas info.schema_id) [
              | none ↦ err schema_not_found
              | some schema ↦ ok (full_record subject acc.0 schema info)
            ]
          ])
        ≡ ok t)
      × (w ≤ℤ t.version)
      × (t.deleted ≡ false)
unfolding full_record
answer_at cs subject w (v, none) valid there t le =
    absurd (omega (arith, valid.consistent.positive subject w there, zero_parts v t))
  where
    zero_parts : (x : ℤ) → x ≡ pos 0 → pos_part x ≡ 0
    zero_parts x e = cc
answer_at cs subject w (v, some info) valid there t le =
    elim (Option-cases (get cs.schemas info.schema_id)) [
      | inl absent ↦ absurd (ground (arith, valid.consistent.stored subject v info.schema_id, t.0))
      | inr (schema, found) ↦ (
        full_record subject v schema info,
        ground (arith, found, filled (versions_of cs subject) v info t.0),
        le,
        t.1,
      )
    ]
  where
    filled :
        (m : Map ℤ SubjectVersionInfo) (x : ℤ) (i : SubjectVersionInfo)
        → get m x ≡ some i
        → is_empty m ≡ false
    filled [] x i p = cc (get-nil {V = SubjectVersionInfo} x)
    filled (y ∷ m) x i p = refl

-- In a well-formed context, where some version of a subject is not deleted, the latest schema is
-- found: it is not deleted, and its version is at least the given one.
latest_of-ok :
    (cs : ContextStore) (subject : String) (w : ℤ) (info : SubjectVersionInfo)
    → IsValid cs
    → version_info cs subject w ≡ some info
    → info.deleted ≡ false
    → (t : SchemaRecord) × (latest_of cs subject ≡ ok t) × (w ≤ℤ t.version) × (t.deleted ≡ false)
unfolding latest_of
latest_of-ok cs subject w info v there live =
    let m = versions_of cs subject in
    answer_at cs subject w (latest_entry_from (pos 0, none) m) v (λ p. ground (arith, there, p))
      (latest-Tracks m m (pos 0, none) (v.consistent.unique subject) (λ x i p. p) refl)
      (rw (latest_agree m (pos 0, none)) (latest_above m (pos 0) w info there live))
