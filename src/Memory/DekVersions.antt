-- ===== src/Memory/DekVersions.antt =====
-- `CreateDEK` with no version: the number that it chooses.
use axonops_schema_registry.Common.{
  inc64, get, ℕ, ◌≡◌, refl, inl, inr, none, some, [], ◌∷◌, arith, if◌then◌else◌, Bool-cases,
  Option-cases, ℕ_eq, string_eq, ==_iff, ==-cases, ℤ, pos, ℤ_eq, ◌≤ℤ◌, ◌<ℤ◌, ltb_ℤ, max_int64,
  lt-inc64, Map,
}
use axonops_schema_registry.Storage.{KekRecord, DekRecord}
use axonops_schema_registry.Memory.State.{Store, or_zero}
use axonops_schema_registry.Memory.Deks.{dek_versions, max_version_from, choose_version, create_dek}

max_version_above_start : (m : Map ℤ DekRecord) (acc : ℤ) → acc ≤ℤ max_version_from acc m
unfolding max_version_from
max_version_above_start [] acc = omega arith
max_version_above_start ((v, dek) ∷ m) acc = elim (Bool-cases (ltb_ℤ acc v)) [
  | inl up ↦ rw (up, max_version_from) (ground (arith, max_version_above_start m v))
  | inr same ↦ rw (same, max_version_from) (max_version_above_start m acc)
]

max_version_above :
    (m : Map ℤ DekRecord) (acc w : ℤ) (dek : DekRecord)
    → get m w ≡ some dek
    → w ≤ℤ max_version_from acc m
unfolding max_version_from get
max_version_above [] acc w dek p = cc
max_version_above ((v, d) ∷ m) acc w dek p = elim (==-cases v w) [
  | inl same ↦
      ground (arith, ==_iff v w, max_version_above_start m acc, max_version_above_start m v)
  | inr (off, distinct) ↦
      max_version_above m (if ltb_ℤ acc v then v else acc) w dek (ground (arith, p, off))
]

abbrev pub stored_versions : Store → DekRecord → Map ℤ DekRecord
stored_versions s dek = or_zero (dek_versions s dek.kek_name dek.subject) []

choose_version_auto :
    (m : Map ℤ DekRecord) (version : ℤ)
    → version ≤ℤ pos 0
    → choose_version m version ≡ inc64 (max_version_from (pos 0) m)
unfolding choose_version
choose_version_auto m version h = ground arith

next_version :
    (s : Store) (now : ℕ) (dek : DekRecord) (kek : KekRecord)
    → get s.keks dek.kek_name ≡ some kek
    → dek.version ≤ℤ pos 0
    → max_version_from (pos 0) (stored_versions s dek) <ℤ max_int64
    → ((create_dek s now dek).0 ≡ none)
      × (pos 0 <ℤ (create_dek s now dek).1.version)
      × ((w : ℤ) (d : DekRecord)
          → get (stored_versions s dek) w ≡ some d
          → w <ℤ (create_dek s now dek).1.version)
unfolding create_dek
next_version s now dek kek there auto room =
    let m = stored_versions s dek in
    let top = max_version_from (pos 0) m in
    let up = lt-inc64 top room in
    let chosen = choose_version_auto m dek.version auto in
    let free : get m (choose_version m dek.version) ≡ none =
      rw chosen (elim (Option-cases (get m (inc64 top))) [
        | inl e ↦ e
        | inr (d, e) ↦ absurd (omega (arith, up, max_version_above m (pos 0) (inc64 top) d e))
      ]) in
    rw (there, free, create_dek)
      (
        refl,
        rw chosen (omega (arith, up, max_version_above_start m (pos 0))),
        λ w d p. rw chosen (omega (arith, up, max_version_above m (pos 0) w d p)),
      )

-- Under a key encryption key that exists, where the largest version that the subject has there is
-- below the largest 64-bit integer, a request for the next version is never refused, and gets a
-- positive number.
pub create_dek_next :
    (s : Store) (now : ℕ) (dek : DekRecord) (kek : KekRecord)
    → get s.keks dek.kek_name ≡ some kek
    → dek.version ≤ℤ pos 0
    → max_version_from (pos 0) (stored_versions s dek) <ℤ max_int64
    → ((create_dek s now dek).0 ≡ none) × (pos 0 <ℤ (create_dek s now dek).1.version)
create_dek_next s now dek kek there auto room =
    let h = next_version s now dek kek there auto room in (h.0, h.1)

-- Under a key encryption key that exists, where the largest version that the subject has there is
-- below the largest 64-bit integer, the number given to a request for the next version is above
-- each version that the subject has there.
pub create_dek_above :
    (s : Store) (now : ℕ) (dek : DekRecord) (kek : KekRecord) (w : ℤ) (old : DekRecord)
    → get s.keks dek.kek_name ≡ some kek
    → dek.version ≤ℤ pos 0
    → max_version_from (pos 0) (stored_versions s dek) <ℤ max_int64
    → get (stored_versions s dek) w ≡ some old
    → w <ℤ (create_dek s now dek).1.version
create_dek_above s now dek kek w old there auto room stored =
    (next_version s now dek kek there auto room).2 w old stored
