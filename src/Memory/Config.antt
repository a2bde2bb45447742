-- ===== src/Memory/Config.antt =====
-- The configurations and modes of a context: internal/storage/memory/store.go, `GetConfig` to
-- `DeleteGlobalMode`, and `DeleteGlobalConfig`. Nothing here touches a schema.
use axonops_schema_registry.Common.{
  get, delete, put, String, Option, none, some, ℕ_eq, string_eq, ℤ_eq,
}
use axonops_schema_registry.Storage.{Error, not_found, Result, ok, err, ConfigRecord, ModeRecord}
use axonops_schema_registry.Memory.State.{Store, get_or_create_context, get_context, set_context}

unfoldable pub get_config : Store → String → String → Result ConfigRecord
get_config s registry_ctx subject = elim (get_context s registry_ctx) [
  | none ↦ err not_found
  | some cs ↦ elim (get cs.configs subject) [ none ↦ err not_found | some c ↦ ok c ]
]

unfoldable pub set_config : Store → String → String → ConfigRecord → Store
set_config s registry_ctx subject config =
    let (cs, s') = get_or_create_context s registry_ctx in
    set_context s' registry_ctx
      (record cs { configs = put cs.configs subject (record config { subject = subject }) })

unfoldable pub delete_config : Store → String → String → Option Error × Store
delete_config s registry_ctx subject = elim (get_context s registry_ctx) [
  | none ↦ (some not_found, s)
  | some cs ↦ elim (get cs.configs subject) [
    | none ↦ (some not_found, s)
    | some c ↦
        (none, set_context s registry_ctx (record cs { configs = delete cs.configs subject }))
  ]
]

unfoldable pub get_global_config : Store → String → Result ConfigRecord
get_global_config s registry_ctx = elim (get_context s registry_ctx) [
  | none ↦ err not_found
  | some cs ↦ elim cs.global_config [ none ↦ err not_found | some c ↦ ok c ]
]

unfoldable pub set_global_config : Store → String → ConfigRecord → Store
set_global_config s registry_ctx config =
    let (cs, s') = get_or_create_context s registry_ctx in
    set_context s' registry_ctx
      (record cs { global_config = some (record config { subject = "" }) })

unfoldable pub delete_global_config : Store → String → Store
delete_global_config s registry_ctx = elim (get_context s registry_ctx) [
  | none ↦ s
  | some cs ↦ set_context s registry_ctx (record cs { global_config = none })
]

unfoldable pub get_mode : Store → String → String → Result ModeRecord
get_mode s registry_ctx subject = elim (get_context s registry_ctx) [
  | none ↦ err not_found
  | some cs ↦ elim (get cs.modes subject) [ none ↦ err not_found | some m ↦ ok m ]
]

unfoldable pub set_mode : Store → String → String → ModeRecord → Store
set_mode s registry_ctx subject mode =
    let (cs, s') = get_or_create_context s registry_ctx in
    set_context s' registry_ctx
      (record cs { modes = put cs.modes subject (record mode { subject = subject }) })

unfoldable pub delete_mode : Store → String → String → Option Error × Store
delete_mode s registry_ctx subject = elim (get_context s registry_ctx) [
  | none ↦ (some not_found, s)
  | some cs ↦ elim (get cs.modes subject) [
    | none ↦ (some not_found, s)
    | some m ↦ (none, set_context s registry_ctx (record cs { modes = delete cs.modes subject }))
  ]
]

unfoldable pub get_global_mode : Store → String → Result ModeRecord
get_global_mode s registry_ctx = elim (get_context s registry_ctx) [
  | none ↦ err not_found
  | some cs ↦ elim cs.global_mode [ none ↦ err not_found | some m ↦ ok m ]
]

unfoldable pub set_global_mode : Store → String → ModeRecord → Store
set_global_mode s registry_ctx mode =
    let (cs, s') = get_or_create_context s registry_ctx in
    set_context s' registry_ctx (record cs { global_mode = some (record mode { subject = "" }) })

unfoldable pub delete_global_mode : Store → String → Store
delete_global_mode s registry_ctx = elim (get_context s registry_ctx) [
  | none ↦ s
  | some cs ↦ set_context s registry_ctx (record cs { global_mode = none })
]
