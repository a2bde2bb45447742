-- ===== src/Memory/Keks.antt =====
-- The key encryption keys of internal/storage/memory/store.go, `CreateKEK` to `ListKEKs`.
use axonops_schema_registry.Common.{
  sort, string_leb, get, delete, put, ℕ, ◌/◌, String, Bool, true, false, not, ◌&&◌, Option, none,
  some, List, [], ◌∷◌, if◌then◌else◌, ℕ_eq, string_eq, ℤ_eq, Map,
}
use axonops_schema_registry.Storage.{Error, kek_not_found, kek_exists, Result, ok, err, KekRecord}
use axonops_schema_registry.Memory.State.{Store}

-- `now.UnixMilli()`
abbrev pub unix_milli : ℕ → ℕ
unix_milli now = now / 1000000

unfoldable pub create_kek : Store → ℕ → KekRecord → Option Error × Store
create_kek s now kek = elim (get s.keks kek.name) [
  | some taken ↦ (some kek_exists, s)
  | none ↦ (
    none,
    record s {
      keks =
          put s.keks kek.name
            (record kek { ts = unix_milli now; created_at = now; updated_at = now });
    },
  )
]

unfoldable pub get_kek : Store → String → Bool → Result KekRecord
get_kek s name include_deleted = elim (get s.keks name) [
  | none ↦ err kek_not_found
  | some kek ↦ if not include_deleted && kek.deleted then err kek_not_found else ok kek
]

unfoldable pub update_kek : Store → ℕ → KekRecord → Option Error × Store
update_kek s now kek = elim (get s.keks kek.name) [
  | none ↦ (some kek_not_found, s)
  | some existing ↦ (
    none,
    record s {
      keks =
          put s.keks kek.name (record kek {
            created_at = existing.created_at;
            ts = unix_milli now;
            updated_at = now;
          });
    },
  )
]

unfoldable pub delete_kek : Store → ℕ → String → Bool → Option Error × Store
delete_kek s now name permanent = elim (get s.keks name) [
  | none ↦ (some kek_not_found, s)
  | some kek ↦
      if permanent
      then (none, record s { keks = delete s.keks name; deks = delete s.deks name })
      else (
        none,
        record s { keks = put s.keks name (record kek { deleted = true; ts = unix_milli now }) },
      )
]

unfoldable pub undelete_kek : Store → ℕ → String → Option Error × Store
undelete_kek s now name = elim (get s.keks name) [
  | none ↦ (some kek_not_found, s)
  | some kek ↦
      if kek.deleted
      then (
        none,
        record s { keks = put s.keks name (record kek { deleted = false; ts = unix_milli now }) },
      )
      else (some kek_not_found, s)
]

unfoldable pub collect_keks : Bool → Map String KekRecord → List KekRecord
collect_keks include_deleted [] = []
collect_keks include_deleted ((name, kek) ∷ rest) =
    let more = collect_keks include_deleted rest in
    if not include_deleted && kek.deleted then more else kek ∷ more

abbrev pub by_name : KekRecord → KekRecord → Bool
by_name a b = string_leb a.name b.name

unfoldable pub list_keks : Store → Bool → List KekRecord
list_keks s include_deleted = sort by_name (collect_keks include_deleted s.keks)
