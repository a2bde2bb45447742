-- ===== src/Memory/Deks.antt =====
-- The data encryption keys of internal/storage/memory/store.go, `CreateDEK` to `UpdateDEK`.
use axonops_schema_registry.Common.{
  inc64, sort, string_leb, get, delete, put, ℕ, String, Bool, true, false, not, ◌&&◌, ◌||◌, Option,
  none, some, List, [], ◌∷◌, if◌then◌else◌, ◌==◌, ℕ_eq, string_eq, ℤ, pos, negsuc, ℤ_eq, ltb_ℤ,
  leb_ℤ, Map,
}
use axonops_schema_registry.Storage.{
  Error, kek_not_found, dek_not_found, dek_exists, Result, ok, err, DekRecord,
}
use axonops_schema_registry.Memory.State.{Store, or_zero}
use axonops_schema_registry.Memory.Lookup.{is_empty}
use axonops_schema_registry.Memory.Keks.{unix_milli}

-- `s.deks[kekName]` and `s.deks[kekName][subject]`: `none` is a nil map.
abbrev pub dek_versions : Store → String → String → Option (Map ℤ DekRecord)
dek_versions s kek_name subject = elim (get s.deks kek_name) [
  | none ↦ none
  | some subjects ↦ get subjects subject
]

abbrev pub set_dek_versions : Store → String → String → Map ℤ DekRecord → Store
set_dek_versions s kek_name subject m = record s {
  deks = put s.deks kek_name (put (or_zero (get s.deks kek_name) []) subject m);
}

-- `delete(subjectMap, subject)`
abbrev pub drop_dek_subject : Store → String → String → Store
drop_dek_subject s kek_name subject = record s {
  deks = put s.deks kek_name (delete (or_zero (get s.deks kek_name) []) subject);
}

unfoldable pub max_version_from : ℤ → Map ℤ DekRecord → ℤ
max_version_from acc [] = acc
max_version_from acc ((v, dek) ∷ rest) = max_version_from (if ltb_ℤ acc v then v else acc) rest

-- A version that is not positive asks for the next one.
unfoldable pub choose_version : Map ℤ DekRecord → ℤ → ℤ
choose_version m version =
    if leb_ℤ version (pos 0) then inc64 (max_version_from (pos 0) m) else version

-- The nested maps are made before the test for an existing version. The plaintext is not stored.
unfoldable pub create_dek : Store → ℕ → DekRecord → Option Error × DekRecord × Store
create_dek s now dek = elim (get s.keks dek.kek_name) [
  | none ↦ (some kek_not_found, dek, s)
  | some kek ↦
      let m = or_zero (dek_versions s dek.kek_name dek.subject) [] in
      let version = choose_version m dek.version in
      elim (get m version) [
        | some existing ↦ (
          some dek_exists,
          record dek { version = version },
          set_dek_versions s dek.kek_name dek.subject m,
        )
        | none ↦
            let created = record dek { version = version; ts = unix_milli now } in
            (
              none,
              created,
              set_dek_versions s dek.kek_name dek.subject
                  (put m version (record created { key_material = "" })),
            )
      ]
]

-- Whether a stored key has the algorithm that is asked for; no algorithm asks for any.
abbrev pub has_algorithm : String → DekRecord → Bool
has_algorithm algorithm dek = algorithm == "" || dek.algorithm == algorithm

unfoldable pub latest_dek_from : String → Bool → ℤ → Map ℤ DekRecord → ℤ
latest_dek_from algorithm include_deleted acc [] = acc
latest_dek_from algorithm include_deleted acc ((v, dek) ∷ rest) =
    latest_dek_from algorithm include_deleted
      (if not include_deleted && dek.deleted
        then acc
        else if not (has_algorithm algorithm dek)
        then acc
        else if ltb_ℤ acc v
        then v
        else acc)
      rest

unfoldable pub fetch_dek : Map ℤ DekRecord → ℤ → String → Bool → Result DekRecord
fetch_dek m version algorithm include_deleted = elim (get m version) [
  | none ↦ err dek_not_found
  | some dek ↦
      if not (has_algorithm algorithm dek)
      then err dek_not_found
      else if not include_deleted && dek.deleted
      then err dek_not_found
      else ok dek
]

unfoldable pub get_dek : Store → String → String → ℤ → String → Bool → Result DekRecord
get_dek s kek_name subject version algorithm include_deleted =
    elim (dek_versions s kek_name subject) [
      | none ↦ err dek_not_found
      | some m ↦
          if leb_ℤ version (pos 0)
          then (let latest = latest_dek_from algorithm include_deleted (pos 0) m in
              if latest == pos 0
              then err dek_not_found
              else fetch_dek m latest algorithm include_deleted)
          else fetch_dek m version algorithm include_deleted
    ]

unfoldable pub has_live_dek : Map ℤ DekRecord → Bool
has_live_dek [] = false
has_live_dek ((v, dek) ∷ rest) = not dek.deleted || has_live_dek rest

unfoldable pub collect_dek_subjects : Bool → Map String (Map ℤ DekRecord) → List String
collect_dek_subjects include_deleted [] = []
collect_dek_subjects include_deleted ((subject, m) ∷ rest) =
    let more = collect_dek_subjects include_deleted rest in
    if include_deleted || has_live_dek m then subject ∷ more else more

unfoldable pub list_deks : Store → String → Bool → Result (List String)
list_deks s kek_name include_deleted = elim (get s.keks kek_name) [
  | none ↦ err kek_not_found
  | some kek ↦
      ok (sort string_leb (collect_dek_subjects include_deleted (or_zero (get s.deks kek_name) [])))
]

unfoldable pub collect_dek_versions : String → Bool → Map ℤ DekRecord → List ℤ
collect_dek_versions algorithm include_deleted [] = []
collect_dek_versions algorithm include_deleted ((v, dek) ∷ rest) =
    let more = collect_dek_versions algorithm include_deleted rest in
    if not include_deleted && dek.deleted
    then more
    else if not (has_algorithm algorithm dek)
    then more
    else v ∷ more

unfoldable pub list_dek_versions : Store → String → String → String → Bool → Result (List ℤ)
list_dek_versions s kek_name subject algorithm include_deleted = elim (get s.keks kek_name) [
  | none ↦ err kek_not_found
  | some kek ↦ elim (dek_versions s kek_name subject) [
    | none ↦ ok []
    | some m ↦ ok (sort leb_ℤ (collect_dek_versions algorithm include_deleted m))
  ]
]

-- Whether some version has the algorithm: `found` of the loop that deletes all versions.
unfoldable pub any_dek : String → Map ℤ DekRecord → Bool
any_dek algorithm [] = false
any_dek algorithm ((v, dek) ∷ rest) = has_algorithm algorithm dek || any_dek algorithm rest

abbrev pub mark_dek : ℕ → Bool → DekRecord → DekRecord
mark_dek now deleted dek = record dek { deleted = deleted; ts = unix_milli now }

unfoldable pub mark_deks : ℕ → String → Map ℤ DekRecord → Map ℤ DekRecord
mark_deks now algorithm [] = []
mark_deks now algorithm ((v, dek) ∷ rest) =
    (v, if has_algorithm algorithm dek then mark_dek now true dek else dek)
    ∷ mark_deks now algorithm rest

unfoldable pub remove_deks : String → Map ℤ DekRecord → Map ℤ DekRecord
remove_deks algorithm [] = []
remove_deks algorithm ((v, dek) ∷ rest) =
    let more = remove_deks algorithm rest in
    if has_algorithm algorithm dek then more else (v, dek) ∷ more

-- After a permanent delete an empty version map goes too.
abbrev pub keep_deks : Store → String → String → Map ℤ DekRecord → Store
keep_deks s kek_name subject m =
    if is_empty m
    then drop_dek_subject s kek_name subject
    else set_dek_versions s kek_name subject m

unfoldable pub delete_all_deks :
    Store → ℕ → String → String → String → Bool → Map ℤ DekRecord → Option Error × Store
delete_all_deks s now kek_name subject algorithm permanent m =
    if not (any_dek algorithm m)
    then (some dek_not_found, s)
    else if permanent
    then (none, keep_deks s kek_name subject (remove_deks algorithm m))
    else (none, set_dek_versions s kek_name subject (mark_deks now algorithm m))

unfoldable pub delete_one_dek :
    Store → ℕ → String → String → ℤ → String → Bool → Map ℤ DekRecord → Option Error × Store
delete_one_dek s now kek_name subject version algorithm permanent m = elim (get m version) [
  | none ↦ (some dek_not_found, s)
  | some dek ↦
      if not (has_algorithm algorithm dek)
      then (some dek_not_found, s)
      else if permanent
      then (none, keep_deks s kek_name subject (delete m version))
      else (none, set_dek_versions s kek_name subject (put m version (mark_dek now true dek)))
]

unfoldable pub delete_dek : Store → ℕ → String → String → ℤ → String → Bool → Option Error × Store
delete_dek s now kek_name subject version algorithm permanent =
    elim (dek_versions s kek_name subject) [
      | none ↦ (some dek_not_found, s)
      | some m ↦
          if version == negsuc 0
          then delete_all_deks s now kek_name subject algorithm permanent m
          else delete_one_dek s now kek_name subject version algorithm permanent m
    ]

unfoldable pub any_deleted_dek : String → Map ℤ DekRecord → Bool
any_deleted_dek algorithm [] = false
any_deleted_dek algorithm ((v, dek) ∷ rest) =
    has_algorithm algorithm dek && dek.deleted || any_deleted_dek algorithm rest

unfoldable pub restore_deks : ℕ → String → Map ℤ DekRecord → Map ℤ DekRecord
restore_deks now algorithm [] = []
restore_deks now algorithm ((v, dek) ∷ rest) =
    (v, if has_algorithm algorithm dek && dek.deleted then mark_dek now false dek else dek)
    ∷ restore_deks now algorithm rest

unfoldable pub undelete_all_deks :
    Store → ℕ → String → String → String → Map ℤ DekRecord → Option Error × Store
undelete_all_deks s now kek_name subject algorithm m =
    if any_deleted_dek algorithm m
    then (none, set_dek_versions s kek_name subject (restore_deks now algorithm m))
    else (some dek_not_found, s)

unfoldable pub undelete_one_dek :
    Store → ℕ → String → String → ℤ → String → Map ℤ DekRecord → Option Error × Store
undelete_one_dek s now kek_name subject version algorithm m = elim (get m version) [
  | none ↦ (some dek_not_found, s)
  | some dek ↦
      if not (has_algorithm algorithm dek)
      then (some dek_not_found, s)
      else if not dek.deleted
      then (some dek_not_found, s)
      else (none, set_dek_versions s kek_name subject (put m version (mark_dek now false dek)))
]

unfoldable pub undelete_dek : Store → ℕ → String → String → ℤ → String → Option Error × Store
undelete_dek s now kek_name subject version algorithm = elim (dek_versions s kek_name subject) [
  | none ↦ (some dek_not_found, s)
  | some m ↦
      if version == negsuc 0
      then undelete_all_deks s now kek_name subject algorithm m
      else undelete_one_dek s now kek_name subject version algorithm m
]

unfoldable pub update_dek : Store → DekRecord → Option Error × Store
update_dek s dek = elim (dek_versions s dek.kek_name dek.subject) [
  | none ↦ (some dek_not_found, s)
  | some m ↦ elim (get m dek.version) [
    | none ↦ (some dek_not_found, s)
    | some existing ↦ (
      none,
      set_dek_versions s dek.kek_name dek.subject (
          put m dek.version
            (record existing { encrypted_key_material = dek.encrypted_key_material; ts = dek.ts })),
    )
  ]
]
