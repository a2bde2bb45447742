-- ===== src/Registry/InMemory.antt =====
-- The in-memory store as the backend of the service: internal/storage/memory/store.go. The clock is read
-- by `CreateSchema` and `ImportSchema`; its two readings are given.
use axonops_schema_registry.Common.{
  get, put, ℕ, String, ◌≡◌, ap, ◌∙◌, subst, Option, none, some, arith, ℕ_eq, string_eq, ==_self,
  ℤ_eq, get-put,
}
use axonops_schema_registry.Storage.{Error, not_found, Result, ok, err, ConfigRecord}
use axonops_schema_registry.Memory.State.{
  ContextStore, Store, get_or_create_context, get_context, set_context,
}
use axonops_schema_registry.Registry.Backend.{Backend, ExporterBackend, KeyBackend}
use axonops_schema_registry.Registry.Levels.Written.{ConfigLaws}
use axonops_schema_registry.Memory.Lookup
use axonops_schema_registry.Memory.Create
use axonops_schema_registry.Memory.Import
use axonops_schema_registry.Memory.Delete
use axonops_schema_registry.Memory.Config
use axonops_schema_registry.Memory.Listing
use axonops_schema_registry.Memory.Keks
use axonops_schema_registry.Memory.Deks
use axonops_schema_registry.Memory.Exporters

-- A write that has no error.
abbrev written : Store → Option Error × Store
written s = (none, s)

abbrev pub memory_backend : ℕ → ℕ → Backend Store
memory_backend now later = record {
  get_schema_by_id = Lookup.get_schema_by_id;
  get_schema_by_subject_version = Lookup.get_schema_by_subject_version;
  get_schemas_by_subject = Lookup.get_schemas_by_subject;
  get_schema_by_fingerprint = Lookup.get_schema_by_fingerprint;
  get_latest_schema = Lookup.get_latest_schema;
  create_schema = λ s. Create.create_schema s now later;
  import_schema = λ s. Import.import_schema s now later;
  delete_schema = Delete.delete_schema;
  delete_subject = Delete.delete_subject;
  list_subjects = λ s c d. ok (Lookup.list_subjects s c d);
  subject_exists = λ s c n. ok (Lookup.subject_exists s c n);
  get_referenced_by = λ s c n v. ok (Lookup.get_referenced_by s c n v);
  list_contexts = λ s. ok (Listing.list_contexts s);
  get_max_schema_id = λ s c. ok (Import.get_max_schema_id s c);
  set_next_id = λ s c id. written (Import.set_next_id s c id);
  get_config = Config.get_config;
  set_config = λ s c n config. written (Config.set_config s c n config);
  delete_config = Config.delete_config;
  get_global_config = Config.get_global_config;
  set_global_config = λ s c config. written (Config.set_global_config s c config);
  delete_global_config = λ s c. written (Config.delete_global_config s c);
  get_mode = Config.get_mode;
  set_mode = λ s c n mode. written (Config.set_mode s c n mode);
  delete_mode = Config.delete_mode;
  get_global_mode = Config.get_global_mode;
  set_global_mode = λ s c mode. written (Config.set_global_mode s c mode);
  delete_global_mode = λ s c. written (Config.delete_global_mode s c);
}

abbrev pub memory_exporters : ℕ → ExporterBackend Store
memory_exporters now = record {
  create_exporter = λ s. Exporters.create_exporter s now;
  get_exporter = Exporters.get_exporter;
  update_exporter = λ s. Exporters.update_exporter s now;
  get_exporter_status = Exporters.get_exporter_status;
  set_exporter_status = Exporters.set_exporter_status;
}

abbrev pub memory_keys : ℕ → KeyBackend Store
memory_keys now = record {
  create_kek = λ s. Keks.create_kek s now;
  get_kek = Keks.get_kek;
  update_kek = λ s. Keks.update_kek s now;
  create_dek = λ s. Deks.create_dek s now;
  get_dek = Deks.get_dek;
  update_dek = Deks.update_dek;
}

abbrev found_config : Option ConfigRecord → Result ConfigRecord
found_config none = err not_found
found_config (some c) = ok c

context_written :
    (s : Store) (name : String) (cs : ContextStore)
    → get_context (set_context s name cs) name ≡ some cs
unfolding get_context
context_written s name cs = ground (arith, get-put s.contexts name name cs, ==_self name)

read_config :
    (s : Store) (registry_ctx subject : String) (c : ConfigRecord)
    → Config.get_config (Config.set_config s registry_ctx subject c) registry_ctx subject
      ≡ ok (record c { subject = subject })
unfolding Config.get_config Config.set_config
read_config s registry_ctx subject c =
    let (cs, s') = get_or_create_context s registry_ctx in
    let c' : ConfigRecord = record c { subject = subject } in
    let kept : get (put cs.configs subject c') subject ≡ some c' =
      ground (arith, get-put cs.configs subject subject c', ==_self subject) in
    ap
      (λ o. elim o [
        | none ↦ err not_found
        | some cs ↦ elim (get cs.configs subject) [ none ↦ err not_found | some c ↦ ok c ]
      ])
      (context_written s' registry_ctx (record cs { configs = put cs.configs subject c' }))
    ∙ ap found_config kept

read_global_config :
    (s : Store) (registry_ctx : String) (c : ConfigRecord)
    → Config.get_global_config (Config.set_global_config s registry_ctx c) registry_ctx
      ≡ ok (record c { subject = "" })
unfolding Config.get_global_config Config.set_global_config
read_global_config s registry_ctx c =
    let (cs, s') = get_or_create_context s registry_ctx in
    ap
      (λ o. elim o [
        | none ↦ err not_found
        | some cs ↦ elim cs.global_config [ none ↦ err not_found | some c ↦ ok c ]
      ])
      (context_written s' registry_ctx
        (record cs { global_config = some (record c { subject = "" }) }))

pub memory_backend-ConfigLaws : (now later : ℕ) → ConfigLaws (memory_backend now later)
memory_backend-ConfigLaws now later = record {
  config_kept = λ s s' registry_ctx subject c h.
      subst (λ x. Config.get_config x registry_ctx subject ≡ ok (record c { subject = subject }))
        (ap (λ p. p.1) h) (read_config s registry_ctx subject c);
  global_config_kept = λ s s' registry_ctx c h.
      subst (λ x. Config.get_global_config x registry_ctx ≡ ok (record c { subject = "" }))
        (ap (λ p. p.1) h) (read_global_config s registry_ctx c);
}
