-- ===== src/Memory/ReadBack.antt =====
-- What is written can be read: users by their names, data encryption keys by their versions.
use axonops_schema_registry.Common.{
  get, put, ℕ, String, ◌≡◌, refl, sym, subst, inl, inr, false, Option, none, some, [], arith,
  Option-cases, ℕ_eq, string_eq, ==_self, ℤ, pos, ℤ_eq, ◌<ℤ◌, leb_ℤ, Map, get-put,
}
use axonops_schema_registry.Storage.{Error, ok, UserRecord, DekRecord}
use axonops_schema_registry.Memory.State.{Store, or_zero}
use axonops_schema_registry.Memory.Users.{get_user_by_id, get_user_by_username}
use axonops_schema_registry.Memory.Keks.{unix_milli}
use axonops_schema_registry.Memory.Deks.{
  dek_versions, set_dek_versions, choose_version, create_dek, fetch_dek, get_dek,
}
use axonops_schema_registry.Memory.UserIndex.{username_of, IsIndexed}

-- In a store whose users and index by name are in step, a user that is found by an ID is found by
-- its name.
get_user_by_username-get_user_by_id :
    (s : Store) (id : ℤ) (user : UserRecord)
    → IsIndexed s
    → get_user_by_id s id ≡ ok user
    → get_user_by_username s user.username ≡ ok user
unfolding get_user_by_id get_user_by_username
get_user_by_username-get_user_by_id s id user h p = elim (Option-cases (get s.users id)) [
  | inl absent ↦ absurd (ground (arith, p, absent))
  | inr (there, e) ↦
      let at_id : get s.users id ≡ some user = ground (arith, p, e) in
      let at_name : get s.users_by_username user.username ≡ some id =
        h.found user.username id (rw (at_id, username_of) refl) in
      rw (at_name, get_user_by_username) (rw at_id refl)
]

get_dek_stored :
    (s : Store) (kek_name subject : String) (m : Map ℤ DekRecord) (version : ℤ) (dek : DekRecord)
    → dek.deleted ≡ false
    → pos 0 <ℤ version
    → get_dek
        (set_dek_versions s kek_name subject (put m version dek))
        kek_name
        subject
        version
        dek.algorithm
        false
      ≡ ok dek
unfolding get_dek fetch_dek
get_dek_stored s kek_name subject m version dek live positive =
    let subjects = or_zero (get s.deks kek_name) [] in
    let versions = put m version dek in
    let at_kek : get (put s.deks kek_name (put subjects subject versions)) kek_name
        ≡ some (put subjects subject versions) =
      ground (
        arith,
        get-put s.deks kek_name kek_name (put subjects subject versions),
        ==_self kek_name,
      ) in
    let at_subject : get (put subjects subject versions) subject ≡ some versions =
      ground (arith, get-put subjects subject subject versions, ==_self subject) in
    let at_version : get versions version ≡ some dek =
      ground (arith, get-put m version version dek, ==_self version) in
    let above : leb_ℤ version (pos 0) ≡ false = ground (arith, positive) in
    rw (at_kek, get_dek)
      (rw (at_subject, get_dek)
        (rw (above, at_version, fetch_dek) (rw (==_self dek.algorithm) (ground (arith, live)))))

-- A data encryption key that is created, that is not marked as deleted and that gets a positive
-- version, is read back under its key encryption key, subject, version and algorithm, without its
-- plaintext.
pub get_dek-create_dek :
    (s : Store) (now : ℕ) (dek : DekRecord)
    → (create_dek s now dek).0 ≡ none
    → dek.deleted ≡ false
    → pos 0 <ℤ (create_dek s now dek).1.version
    → get_dek
        (create_dek s now dek).2
        dek.kek_name
        dek.subject
        (create_dek s now dek).1.version
        dek.algorithm
        false
      ≡ ok (record (create_dek s now dek).1 { key_material = "" })
unfolding create_dek get_dek fetch_dek
get_dek-create_dek s now dek p live positive =
    let m = or_zero (dek_versions s dek.kek_name dek.subject) [] in
    let version = choose_version m dek.version in
    elim (Option-cases (get s.keks dek.kek_name)) [
      | inl absent ↦ absurd (ground (arith, p, absent))
      | inr (kek, there) ↦ elim (Option-cases (get m version)) [
        | inr (old, taken) ↦ absurd (ground (arith, p, there, taken))
        | inl free ↦
            let created = record dek { version = version; ts = unix_milli now } in
            let stored = record created { key_material = "" } in
            let answer : Option Error × DekRecord × Store =
              (none, created, set_dek_versions s dek.kek_name dek.subject (put m version stored)) in
            let made : create_dek s now dek ≡ answer = rw (there, free, create_dek) refl in
            subst
              (λ r.
                pos 0 <ℤ r.1.version
                → get_dek r.2 dek.kek_name dek.subject r.1.version dek.algorithm false
                  ≡ ok (record r.1 { key_material = "" }))
              (sym made) (get_dek_stored s dek.kek_name dek.subject m version stored live) positive
      ]
    ]
