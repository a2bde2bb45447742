-- ===== src/Memory/ApiKeys.antt =====
-- The API keys of internal/storage/memory/store.go, `CreateAPIKey` to `UpdateAPIKeyLastUsed`.
use axonops_schema_registry.Common.{
  inc64, sort, get, delete, put, ℕ, String, Bool, ◌&&◌, Option, none, some, List, [], ◌∷◌,
  if◌then◌else◌, ◌==◌, ℕ_eq, string_eq, ℤ, pos, ℤ_eq, leb_ℤ, Map,
}
use axonops_schema_registry.Storage.{
  Error, api_key_not_found, api_key_exists, Result, ok, err, ApiKeyRecord,
}
use axonops_schema_registry.Memory.State.{Store}
use axonops_schema_registry.Memory.Users.{values}

unfoldable pub create_api_key : Store → ℕ → ApiKeyRecord → Option Error × ApiKeyRecord × Store
create_api_key s now key = elim (get s.api_keys_by_hash key.key_hash) [
  | some taken ↦ (some api_key_exists, key, s)
  | none ↦
      let fresh = key.id == pos 0 in
      let id = if fresh then s.next_api_key_id else key.id in
      let stored = record key { id = id; created_at = now } in
      (
        none,
        stored,
        record s {
          next_api_key_id = if fresh then inc64 s.next_api_key_id else s.next_api_key_id;
          api_keys = put s.api_keys id stored;
          api_keys_by_hash = put s.api_keys_by_hash key.key_hash id;
        },
      )
]

unfoldable pub get_api_key_by_id : Store → ℤ → Result ApiKeyRecord
get_api_key_by_id s id = elim (get s.api_keys id) [
  | none ↦ err api_key_not_found
  | some key ↦ ok key
]

unfoldable pub get_api_key_by_hash : Store → String → Result ApiKeyRecord
get_api_key_by_hash s key_hash = elim (get s.api_keys_by_hash key_hash) [
  | none ↦ err api_key_not_found
  | some id ↦ elim (get s.api_keys id) [ none ↦ err api_key_not_found | some key ↦ ok key ]
]

abbrev pub store_api_key : Store → ApiKeyRecord → Store
store_api_key s key = record s { api_keys = put s.api_keys key.id key }

unfoldable pub update_api_key : Store → ApiKeyRecord → Option Error × Store
update_api_key s key = elim (get s.api_keys key.id) [
  | none ↦ (some api_key_not_found, s)
  | some existing ↦
      if existing.key_hash == key.key_hash
      then (none, store_api_key s key)
      else elim (get s.api_keys_by_hash key.key_hash) [
        | some taken ↦ (some api_key_exists, s)
        | none ↦ (
          none,
          store_api_key
              (record s {
                api_keys_by_hash =
                    put (delete s.api_keys_by_hash existing.key_hash) key.key_hash key.id;
              })
              key,
        )
      ]
]

unfoldable pub delete_api_key : Store → ℤ → Option Error × Store
delete_api_key s id = elim (get s.api_keys id) [
  | none ↦ (some api_key_not_found, s)
  | some key ↦ (
    none,
    record s {
      api_keys_by_hash = delete s.api_keys_by_hash key.key_hash;
      api_keys = delete s.api_keys id;
    },
  )
]

abbrev pub by_key_id : ApiKeyRecord → ApiKeyRecord → Bool
by_key_id a b = leb_ℤ a.id b.id

unfoldable pub list_api_keys : Store → List ApiKeyRecord
list_api_keys s = sort by_key_id (values s.api_keys)

unfoldable pub keys_of_user : ℤ → Map ℤ ApiKeyRecord → List ApiKeyRecord
keys_of_user user_id [] = []
keys_of_user user_id ((id, key) ∷ rest) =
    let more = keys_of_user user_id rest in if key.user_id == user_id then key ∷ more else more

unfoldable pub list_api_keys_by_user_id : Store → ℤ → List ApiKeyRecord
list_api_keys_by_user_id s user_id = sort by_key_id (keys_of_user user_id s.api_keys)

unfoldable pub find_named_key : ℤ → String → Map ℤ ApiKeyRecord → Result ApiKeyRecord
find_named_key user_id name [] = err api_key_not_found
find_named_key user_id name ((id, key) ∷ rest) =
    if key.user_id == user_id && key.name == name then ok key else find_named_key user_id name rest

unfoldable pub get_api_key_by_user_and_name : Store → ℤ → String → Result ApiKeyRecord
get_api_key_by_user_and_name s user_id name = find_named_key user_id name s.api_keys

unfoldable pub update_api_key_last_used : Store → ℕ → ℤ → Option Error × Store
update_api_key_last_used s now id = elim (get s.api_keys id) [
  | none ↦ (some api_key_not_found, s)
  | some key ↦
      (none, record s { api_keys = put s.api_keys id (record key { last_used = some now }) })
]
