-- ===== src/Memory/Tests.antt =====
-- The theorems on the in-memory store at concrete stores and records.
use axonops_schema_registry.Common.{
  inc64, get, put, ◌≡◌, refl, subst, inl, inr, true, false, none, some, [], ◌∷◌, arith, ℕ_eq,
  string_eq, ==_iff, ==-cases, pos, negsuc, ℤ_eq, ◌<ℤ◌,
}
use axonops_schema_registry.Storage.{
  schema_exists, ok, SchemaRecord, UserRecord, KekRecord, DekRecord,
}
use axonops_schema_registry.Memory.State.{
  default_context, ContextStore, new_context_store, Store, new_store, get_or_create_context,
  get_context,
}
use axonops_schema_registry.Memory.Lookup.{lookup_version, latest_of, subject_exists, list_subjects}
use axonops_schema_registry.Memory.Create.{
  normalize_metadata, normalize_rule_set, ensure_subject, find_duplicate, content, assign_id,
  add_version, append_version, create_in, create_schema,
}
use axonops_schema_registry.Memory.Delete.{delete_schema_in, delete_subject_in, delete_subject}
use axonops_schema_registry.Memory.Import.{import_in}
use axonops_schema_registry.Memory.Users.{create_user}
use axonops_schema_registry.Memory.Deks.{max_version_from, choose_version, create_dek, get_dek}
use axonops_schema_registry.Memory.Invariant.{IsValid}
use axonops_schema_registry.Memory.CreateValid.{create_in-IsValid}
use axonops_schema_registry.Memory.DeleteSubjectValid.{
  delete_schema_in-IsValid, delete_subject_in-IsValid,
}
use axonops_schema_registry.Memory.ImportValid.{IsImportable, import_in-IsValid}
use axonops_schema_registry.Memory.Reach.{
  create_step, delete_subject_step, Reach, here, next, IsValidStore, new_context_store-IsValid,
  Reach-IsValidStore,
}
use axonops_schema_registry.Memory.Behaviour.{IsRegistered, create_in-IsRegistered}
use axonops_schema_registry.Memory.Latest.{latest_of-eq-lookup_version}
use axonops_schema_registry.Memory.Duplicates.{HasGoMaps, create_in_again}
use axonops_schema_registry.Memory.DekSecrecy.{NoPlaintext, create_dek_step, KeyStep-NoPlaintext}
use axonops_schema_registry.Memory.DekVersions.{create_dek_next, create_dek_above}
use axonops_schema_registry.Memory.UserIndex.{IsIndexed, create_user_step, UserStep-IsIndexed}
use axonops_schema_registry.Memory.ReadBack.{get_dek-create_dek}
use axonops_schema_registry.Memory.Subjects.{lists, list_subjects-subject_exists}
use axonops_schema_registry.Memory.Reread.{lookup_version-create_in}

abbrev order_schema : SchemaRecord
order_schema = record {
  id = pos 0;
  subject = "orders-value";
  version = pos 0;
  schema_type = "AVRO";
  schema = "\"string\"";
  references = [];
  metadata = none;
  rule_set = none;
  fingerprint = "a1";
  deleted = false;
  created_at = 0;
}

abbrev payment_schema : SchemaRecord
payment_schema = record order_schema {
  subject = "payments-value";
  schema = "\"long\"";
  fingerprint = "b2";
}

-- One schema under one subject.
abbrev filled : ContextStore
filled = (create_in new_context_store 1 2 order_schema).2

filled-IsValid : IsValid filled
unfolding new_context_store get
filled-IsValid =
    create_in-IsValid new_context_store 1 2 order_schema new_context_store-IsValid (omega arith)
      (omega arith)

create_in-IsValid_example : IsValid (create_in filled 3 4 payment_schema).2
unfolding create_in ensure_subject find_duplicate assign_id content append_version add_version
    new_context_store get put inc64
create_in-IsValid_example =
    create_in-IsValid filled 3 4 payment_schema filled-IsValid (omega arith) (omega arith)

create_in-IsRegistered_example : IsRegistered filled 3 4 payment_schema
unfolding create_in ensure_subject find_duplicate assign_id content append_version add_version
    new_context_store get put inc64
create_in-IsRegistered_example =
    create_in-IsRegistered filled 3 4 payment_schema filled-IsValid (omega arith) refl

order_schema-HasGoMaps : HasGoMaps order_schema
unfolding normalize_metadata normalize_rule_set
order_schema-HasGoMaps = record {
  tags = tt;
  properties = tt;
  migration = tt;
  domain = tt;
  encoding = tt;
}

create_in_again_example : create_in filled 3 4 order_schema ≡ (
  some schema_exists,
  record order_schema {
    id = (create_in new_context_store 1 2 order_schema).1.id;
    version = (create_in new_context_store 1 2 order_schema).1.version;
  },
  filled,
)
unfolding new_context_store get find_duplicate
create_in_again_example =
    create_in_again new_context_store 1 2 3 4 order_schema new_context_store-IsValid (omega arith)
      order_schema-HasGoMaps refl

delete_schema_in-IsValid_example : IsValid (delete_schema_in filled "orders-value" (pos 1) true).1
delete_schema_in-IsValid_example =
    delete_schema_in-IsValid filled "orders-value" (pos 1) true filled-IsValid

delete_subject_in-IsValid_example : IsValid (delete_subject_in filled "orders-value" false).1
delete_subject_in-IsValid_example =
    delete_subject_in-IsValid filled "orders-value" false filled-IsValid

-- The same content under another subject, with the ID that it has.
abbrev imported_schema : SchemaRecord
imported_schema = record order_schema { id = pos 1; subject = "copies-value"; version = pos 7 }

imported_schema-IsImportable : IsImportable filled imported_schema
unfolding create_in ensure_subject find_duplicate assign_id content append_version add_version
    new_context_store get put inc64
imported_schema-IsImportable = record {
  id_below = omega arith;
  version_positive = omega arith;
  no_other_id = λ i p. cc;
}

import_in-IsValid_example : IsValid (import_in filled 3 4 imported_schema).2
import_in-IsValid_example =
    import_in-IsValid filled 3 4 imported_schema filled-IsValid imported_schema-IsImportable

latest_of-eq-lookup_version_example :
    latest_of filled "orders-value" ≡ lookup_version filled "orders-value" (negsuc 0)
latest_of-eq-lookup_version_example =
    latest_of-eq-lookup_version filled "orders-value" filled-IsValid

new_store-IsValidStore : IsValidStore new_store
unfolding new_store put get
new_store-IsValidStore = record {
  each = λ name cs p. elim (==-cases default_context name) [
    | inl same ↦
        let e : new_context_store ≡ cs = ground (arith, p, ==_iff default_context name) in
        subst IsValid e new_context_store-IsValid
    | inr (off, _) ↦ absurd (ground (arith, p, off))
  ];
}

abbrev registered_store : Store
registered_store = (create_schema new_store 1 2 "." order_schema).2

abbrev emptied_store : Store
emptied_store = (delete_subject registered_store "." "orders-value" false).1

-- A registration, then a soft deletion of the subject.
emptied_reached : Reach new_store emptied_store
unfolding new_store new_context_store put get
emptied_reached =
    next
      (next here (
        create_step new_store 1 2 "." order_schema
          (record { id_room = omega arith; version_room = omega arith })))
      (delete_subject_step registered_store "." "orders-value" false)

Reach-IsValidStore_example : IsValidStore emptied_store
Reach-IsValidStore_example = Reach-IsValidStore new_store-IsValidStore emptied_reached

abbrev order_kek : KekRecord
order_kek = record {
  name = "kek";
  kms_type = "aws-kms";
  kms_key_id = "arn";
  kms_props = none;
  doc = "";
  shared = false;
  deleted = false;
  ts = 0;
  created_at = 0;
  updated_at = 0;
}

abbrev order_dek : DekRecord
order_dek = record {
  kek_name = "kek";
  subject = "orders-value";
  version = pos 0;
  algorithm = "AES256_GCM";
  encrypted_key_material = "c2VjcmV0";
  key_material = "secret";
  deleted = false;
  ts = 0;
}

abbrev stored_dek : DekRecord
stored_dek = record order_dek { version = pos 3; key_material = "" }

-- One key encryption key, and version 3 of one data encryption key under it.
abbrev key_store : Store
key_store = record new_store {
  keks = ("kek", order_kek) ∷ [];
  deks = ("kek", ("orders-value", (pos 3, stored_dek) ∷ []) ∷ []) ∷ [];
}

KeyStep-NoPlaintext_example : NoPlaintext (create_dek key_store 5 order_dek).2
KeyStep-NoPlaintext_example =
    KeyStep-NoPlaintext (create_dek_step key_store 5 order_dek) (((refl, tt), tt), tt)

create_dek_next_example :
    ((create_dek key_store 5 order_dek).0 ≡ none)
    × (pos 0 <ℤ (create_dek key_store 5 order_dek).1.version)
unfolding get max_version_from
create_dek_next_example =
    create_dek_next key_store 5 order_dek order_kek refl (omega arith) (omega arith)

create_dek_above_example : pos 3 <ℤ (create_dek key_store 5 order_dek).1.version
unfolding get max_version_from
create_dek_above_example =
    create_dek_above key_store 5 order_dek order_kek (pos 3) stored_dek refl (omega arith)
      (omega arith) refl

new_store-IsIndexed : IsIndexed new_store
unfolding new_store get
new_store-IsIndexed = record {
  own_id = λ i user p. cc;
  below_next = λ i p. absurd (p refl);
  listed = λ name i p. cc;
  found = λ name i p. cc;
}

abbrev admin : UserRecord
admin = record {
  id = pos 0;
  username = "admin";
  email = "";
  password_hash = "";
  role = "super_admin";
  enabled = true;
  created_at = 0;
  updated_at = 0;
}

UserStep-IsIndexed_example : IsIndexed (create_user new_store 1 admin).2
unfolding new_store
UserStep-IsIndexed_example =
    UserStep-IsIndexed (create_user_step new_store 1 admin refl (omega arith)) new_store-IsIndexed

abbrev stored_admin : UserRecord
stored_admin = record admin { id = pos 1; created_at = 1; updated_at = 1 }

get_dek-create_dek_example :
    get_dek
      (create_dek key_store 5 order_dek).2
      "kek"
      "orders-value"
      (create_dek key_store 5 order_dek).1.version
      "AES256_GCM"
      false
    ≡ ok (record (create_dek key_store 5 order_dek).1 { key_material = "" })
unfolding create_dek get put choose_version max_version_from inc64
get_dek-create_dek_example = get_dek-create_dek key_store 5 order_dek refl refl (omega arith)

list_subjects-subject_exists_example :
    lists "orders-value" (list_subjects registered_store "." false)
    ≡ subject_exists registered_store "." "orders-value"
unfolding create_schema get_or_create_context get_context new_store create_in ensure_subject
    find_duplicate assign_id append_version add_version new_context_store get put
list_subjects-subject_exists_example =
    list_subjects-subject_exists registered_store "." "orders-value" filled refl (refl, tt)

lookup_version-create_in_example :
    (t : SchemaRecord) × (lookup_version
        (create_in filled 3 4 payment_schema).2
        "payments-value"
        (create_in filled 3 4 payment_schema).1.version
      ≡ ok t)
    × (t.fingerprint ≡ "b2")
    × (t.metadata ≡ none)
    × (t.rule_set ≡ none)
unfolding create_in ensure_subject find_duplicate assign_id content append_version add_version
    new_context_store get put inc64
lookup_version-create_in_example =
    lookup_version-create_in filled 3 4 payment_schema filled-IsValid (omega arith) refl
