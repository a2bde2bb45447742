-- ===== src/Memory/Users.antt =====
-- The users of internal/storage/memory/store.go, `CreateUser` to `ListUsers`. `now` is the clock.
use axonops_schema_registry.Common.{
  inc64, sort, get, delete, put, ℕ, String, Bool, Option, none, some, List, [], ◌∷◌, if◌then◌else◌,
  ◌==◌, ℕ_eq, string_eq, ℤ, pos, ℤ_eq, leb_ℤ, Map,
}
use axonops_schema_registry.Storage.{
  Error, user_not_found, user_exists, Result, ok, err, UserRecord,
}
use axonops_schema_registry.Memory.State.{Store}

abbrev pub values {ℓ κ} : {K : Type ℓ} {V : Type κ} → Map K V → List V
values [] = []
values ((k, v) ∷ m) = v ∷ values m

-- The method assigns an ID when the record has none. The user comes back as it was stored.
unfoldable pub create_user : Store → ℕ → UserRecord → Option Error × UserRecord × Store
create_user s now user = elim (get s.users_by_username user.username) [
  | some taken ↦ (some user_exists, user, s)
  | none ↦
      let fresh = user.id == pos 0 in
      let id = if fresh then s.next_user_id else user.id in
      let stored = record user { id = id; created_at = now; updated_at = now } in
      (
        none,
        stored,
        record s {
          next_user_id = if fresh then inc64 s.next_user_id else s.next_user_id;
          users = put s.users id stored;
          users_by_username = put s.users_by_username user.username id;
        },
      )
]

unfoldable pub get_user_by_id : Store → ℤ → Result UserRecord
get_user_by_id s id = elim (get s.users id) [ none ↦ err user_not_found | some user ↦ ok user ]

unfoldable pub get_user_by_username : Store → String → Result UserRecord
get_user_by_username s username = elim (get s.users_by_username username) [
  | none ↦ err user_not_found
  | some id ↦ elim (get s.users id) [ none ↦ err user_not_found | some user ↦ ok user ]
]

abbrev pub store_user : Store → ℕ → UserRecord → Store
store_user s now user = record s { users = put s.users user.id (record user { updated_at = now }) }

-- A new name must be free; the old one is given up.
unfoldable pub update_user : Store → ℕ → UserRecord → Option Error × Store
update_user s now user = elim (get s.users user.id) [
  | none ↦ (some user_not_found, s)
  | some existing ↦
      if existing.username == user.username
      then (none, store_user s now user)
      else elim (get s.users_by_username user.username) [
        | some taken ↦ (some user_exists, s)
        | none ↦ (
          none,
          store_user
              (record s {
                users_by_username =
                    put (delete s.users_by_username existing.username) user.username user.id;
              })
              now user,
        )
      ]
]

unfoldable pub delete_user : Store → ℤ → Option Error × Store
delete_user s id = elim (get s.users id) [
  | none ↦ (some user_not_found, s)
  | some user ↦ (
    none,
    record s {
      users_by_username = delete s.users_by_username user.username;
      users = delete s.users id;
    },
  )
]

abbrev pub by_user_id : UserRecord → UserRecord → Bool
by_user_id a b = leb_ℤ a.id b.id

unfoldable pub list_users : Store → List UserRecord
list_users s = sort by_user_id (values s.users)
