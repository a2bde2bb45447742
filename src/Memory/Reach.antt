-- ===== src/Memory/Reach.antt =====
-- The stores that the schema, configuration, mode and ID methods of the in-memory store lead to.
use axonops_schema_registry.Common.{
  inc64, get, delete, put, ℕ, String, ◌≡◌, refl, subst, ◌≢◌, inl, inr, Bool, Option, none, some,
  arith, Option-cases, ℕ_eq, string_eq, ==_iff, ==-cases, ℤ, ℤ_eq, ◌<ℤ◌, max_int64, lt-inc64, Map,
  get-put,
}
use axonops_schema_registry.Storage.{SchemaRecord, ConfigRecord, ModeRecord}
use axonops_schema_registry.Memory.State.{
  ContextStore, new_context_store, Store, or_zero, get_or_create_context, get_context, set_context,
  last_version,
}
use axonops_schema_registry.Memory.Create.{create_in, create_schema}
use axonops_schema_registry.Memory.Delete.{
  delete_schema_in, delete_schema, delete_subject_in, delete_subject,
}
use axonops_schema_registry.Memory.Import.{import_in, import_schema, set_next_id, next_id}
use axonops_schema_registry.Memory.Config.{
  set_config, delete_config, set_global_config, delete_global_config, set_mode, delete_mode,
  set_global_mode, delete_global_mode,
}
use axonops_schema_registry.Memory.Invariant.{content_print, has_use, IsValid, SameView-IsValid}
use axonops_schema_registry.Memory.CreateValid.{create_in-IsValid}
use axonops_schema_registry.Memory.DeleteSubjectValid.{
  delete_schema_in-IsValid, delete_subject_in-IsValid,
}
use axonops_schema_registry.Memory.ImportValid.{IsImportable, import_in-IsValid, set_next-IsValid}

-- The context that a writing method works on.
abbrev pub context_of : Store → String → ContextStore
context_of s name = or_zero (get s.contexts name) new_context_store

-- The counters of the context have not reached the largest 64-bit integer.
pub record HasRoom (cs : ContextStore) (subject : String) : Type 0 where
  pub id_room : cs.next_id <ℤ max_int64
  pub version_room : last_version cs subject <ℤ max_int64

pub data Step : Store → Store → Type 0 where
  create_step :
      (s : Store) (now later : ℕ) (name : String) (r : SchemaRecord)
      → HasRoom (context_of s name) r.subject
      → Step s (create_schema s now later name r).2
  import_step :
      (s : Store) (now later : ℕ) (name : String) (r : SchemaRecord)
      → IsImportable (context_of s name) r
      → Step s (import_schema s now later name r).2
  delete_version_step :
      (s : Store) (name subject : String) (version : ℤ) (permanent : Bool)
      → Step s (delete_schema s name subject version permanent).1
  delete_subject_step :
      (s : Store) (name subject : String) (permanent : Bool)
      → Step s (delete_subject s name subject permanent).1
  set_next_id_step :
      (s : Store) (name : String) (id : ℤ)
      → ((i : ℤ) → content_print (context_of s name) i ≢ none → i <ℤ id)
      → Step s (set_next_id s name id)
  next_id_step :
      (s : Store) (name : String)
      → (context_of s name).next_id <ℤ max_int64
      → Step s (next_id s name).1
  set_config_step :
      (s : Store) (name subject : String) (c : ConfigRecord) → Step s (set_config s name subject c)
  delete_config_step : (s : Store) (name subject : String) → Step s (delete_config s name subject).1
  set_global_config_step :
      (s : Store) (name : String) (c : ConfigRecord) → Step s (set_global_config s name c)
  delete_global_config_step : (s : Store) (name : String) → Step s (delete_global_config s name)
  set_mode_step :
      (s : Store) (name subject : String) (m : ModeRecord) → Step s (set_mode s name subject m)
  delete_mode_step : (s : Store) (name subject : String) → Step s (delete_mode s name subject).1
  set_global_mode_step :
      (s : Store) (name : String) (m : ModeRecord) → Step s (set_global_mode s name m)
  delete_global_mode_step : (s : Store) (name : String) → Step s (delete_global_mode s name)

pub data Reach (s : Store) : Store → Type 0 where
  here : Reach s s
  next : {t u : Store} → Reach s t → Step t u → Reach s u

pub record IsValidStore (s : Store) : Type 0 where
  pub each : (name : String) (cs : ContextStore) → get s.contexts name ≡ some cs → IsValid cs

pub new_context_store-IsValid : IsValid new_context_store
unfolding new_context_store get has_use
new_context_store-IsValid = record {
  consistent = record {
    own_id = λ i s p. cc;
    below_next = λ i p. absurd (p refl);
    known = λ f i p. cc;
    deduplicated = λ f i p. cc;
    numbered = λ t w info p. cc;
    positive = λ t w p. absurd (p refl);
    counted = λ t w p. absurd (p refl);
    not_negative = λ t. omega arith;
    stored = λ t w i p. cc;
    indexed = λ t w i p. cc;
    used = λ t w i p. cc;
    unique = λ t. tt;
  };
  referenced = λ i p. refl;
}

set_context-IsValidStore :
    (s : Store) (name : String) (cs : ContextStore)
    → IsValidStore s
    → IsValid cs
    → IsValidStore (set_context s name cs)
set_context-IsValidStore s name cs v valid = record {
  each = λ other ds p. elim (==-cases name other) [
    | inl same ↦
        let e : cs ≡ ds = ground (arith, p, get-put s.contexts name other cs, ==_iff name other) in
        subst IsValid e valid
    | inr (off, distinct) ↦
        v.each other ds (ground (arith, p, get-put s.contexts name other cs, off))
  ];
}

context_of-IsValid : (s : Store) (name : String) → IsValidStore s → IsValid (context_of s name)
context_of-IsValid s name v = elim (Option-cases (get s.contexts name)) [
  | inl absent ↦ rw (absent, or_zero) new_context_store-IsValid
  | inr (cs, there) ↦ rw (there, or_zero) (v.each name cs there)
]

get_or_create-eq :
    (s : Store) (name : String) → (get_or_create_context s name).0 ≡ context_of s name
unfolding get_or_create_context
get_or_create-eq s name = ground arith

get_or_create-IsValidStore :
    (s : Store) (name : String) → IsValidStore s → IsValidStore (get_or_create_context s name).1
unfolding get_or_create_context
get_or_create-IsValidStore s name v = elim (Option-cases (get s.contexts name)) [
  | inl absent ↦
      rw (absent, get_or_create_context)
        (set_context-IsValidStore s name new_context_store v new_context_store-IsValid)
  | inr (cs, there) ↦ rw (there, get_or_create_context) v
]

-- A method that writes to the context, made if it is missing.
written-IsValidStore :
    (s : Store) (name : String) (f : ContextStore → ContextStore)
    → IsValidStore s
    → IsValid (f (context_of s name))
    → IsValidStore
        (set_context (get_or_create_context s name).1 name (f (get_or_create_context s name).0))
written-IsValidStore s name f v valid =
    set_context-IsValidStore (get_or_create_context s name).1 name
      (f (get_or_create_context s name).0) (get_or_create-IsValidStore s name v)
      (rw (get_or_create-eq s name) valid)

-- Configurations and modes are no part of what the invariant reads.
settings-IsValid :
    (cs : ContextStore) (configs : Map String ConfigRecord) (modes : Map String ModeRecord)
    (global_config : Option ConfigRecord) (global_mode : Option ModeRecord)
    → IsValid cs
    → IsValid (record cs {
      configs = configs;
      modes = modes;
      global_config = global_config;
      global_mode = global_mode;
    })
settings-IsValid cs configs modes global_config global_mode v =
    SameView-IsValid
      (record {
        schemas = λ i. refl;
        fingerprints = λ f. refl;
        versions = λ t. refl;
        counters = λ t. refl;
        uses = λ i. refl;
        next = refl;
      })
      v

pub Step-IsValidStore : {s t : Store} → Step s t → IsValidStore s → IsValidStore t
unfolding create_schema import_schema delete_schema delete_subject get_context delete_config
    delete_mode delete_global_config delete_global_mode set_next_id next_id set_config
    set_global_config set_mode set_global_mode
Step-IsValidStore (create_step s now later name r room) v =
    written-IsValidStore s name (λ cs. (create_in cs now later r).2) v
      (create_in-IsValid (context_of s name) now later r (context_of-IsValid s name v) room.id_room
        room.version_room)
Step-IsValidStore (import_step s now later name r m) v =
    written-IsValidStore s name (λ cs. (import_in cs now later r).2) v
      (import_in-IsValid (context_of s name) now later r (context_of-IsValid s name v) m)
Step-IsValidStore (delete_version_step s name subject version permanent) v =
    elim (Option-cases (get s.contexts name)) [
      | inl absent ↦ rw (absent, delete_schema, get_context) v
      | inr (cs, there) ↦
          rw (there, delete_schema, get_context)
            (set_context-IsValidStore s name (delete_schema_in cs subject version permanent).1 v
              (delete_schema_in-IsValid cs subject version permanent (v.each name cs there)))
    ]
Step-IsValidStore (delete_subject_step s name subject permanent) v =
    elim (Option-cases (get s.contexts name)) [
      | inl absent ↦ rw (absent, delete_subject, get_context) v
      | inr (cs, there) ↦
          rw (there, delete_subject, get_context)
            (set_context-IsValidStore s name (delete_subject_in cs subject permanent).1 v
              (delete_subject_in-IsValid cs subject permanent (v.each name cs there)))
    ]
Step-IsValidStore (set_next_id_step s name id above) v =
    written-IsValidStore s name (λ cs. record cs { next_id = id }) v
      (set_next-IsValid (context_of s name) id (context_of-IsValid s name v) above)
Step-IsValidStore (next_id_step s name room) v =
    let cs = context_of s name in
    let valid = context_of-IsValid s name v in
    written-IsValidStore s name (λ cs. record cs { next_id = inc64 cs.next_id }) v
      (set_next-IsValid cs (inc64 cs.next_id) valid
        (λ i p. omega (arith, valid.consistent.below_next i p, lt-inc64 cs.next_id room)))
Step-IsValidStore (set_config_step s name subject c) v =
    let cs = context_of s name in
    written-IsValidStore s name
      (λ cs. record cs { configs = put cs.configs subject (record c { subject = subject }) }) v
      (settings-IsValid cs _ cs.modes cs.global_config cs.global_mode (context_of-IsValid s name v))
Step-IsValidStore (delete_config_step s name subject) v =
    elim (Option-cases (get s.contexts name)) [
      | inl absent ↦ rw (absent, delete_config, get_context) v
      | inr (cs, there) ↦ elim (Option-cases (get cs.configs subject)) [
        | inl unset ↦ rw (there, unset, delete_config, get_context) v
        | inr (c, found) ↦
            rw (there, found, delete_config, get_context)
              (set_context-IsValidStore s name (record cs { configs = delete cs.configs subject }) v
                (settings-IsValid cs (delete cs.configs subject) cs.modes cs.global_config
                  cs.global_mode (v.each name cs there)))
      ]
    ]
Step-IsValidStore (set_global_config_step s name c) v =
    let cs = context_of s name in
    written-IsValidStore s name
      (λ cs. record cs { global_config = some (record c { subject = "" }) }) v
      (settings-IsValid cs cs.configs cs.modes _ cs.global_mode (context_of-IsValid s name v))
Step-IsValidStore (delete_global_config_step s name) v = elim (Option-cases (get s.contexts name)) [
  | inl absent ↦ rw (absent, delete_global_config, get_context) v
  | inr (cs, there) ↦
      rw (there, delete_global_config, get_context)
        (set_context-IsValidStore s name (record cs { global_config = none }) v
          (settings-IsValid cs cs.configs cs.modes none cs.global_mode (v.each name cs there)))
]
Step-IsValidStore (set_mode_step s name subject m) v =
    let cs = context_of s name in
    written-IsValidStore s name
      (λ cs. record cs { modes = put cs.modes subject (record m { subject = subject }) }) v
      (settings-IsValid cs cs.configs _ cs.global_config cs.global_mode
        (context_of-IsValid s name v))
Step-IsValidStore (delete_mode_step s name subject) v = elim (Option-cases (get s.contexts name)) [
  | inl absent ↦ rw (absent, delete_mode, get_context) v
  | inr (cs, there) ↦ elim (Option-cases (get cs.modes subject)) [
    | inl unset ↦ rw (there, unset, delete_mode, get_context) v
    | inr (c, found) ↦
        rw (there, found, delete_mode, get_context)
          (set_context-IsValidStore s name (record cs { modes = delete cs.modes subject }) v
            (settings-IsValid cs cs.configs (delete cs.modes subject) cs.global_config
              cs.global_mode (v.each name cs there)))
  ]
]
Step-IsValidStore (set_global_mode_step s name m) v =
    let cs = context_of s name in
    written-IsValidStore s name (λ cs. record cs { global_mode = some (record m { subject = "" }) })
      v (settings-IsValid cs cs.configs cs.modes cs.global_config _ (context_of-IsValid s name v))
Step-IsValidStore (delete_global_mode_step s name) v = elim (Option-cases (get s.contexts name)) [
  | inl absent ↦ rw (absent, delete_global_mode, get_context) v
  | inr (cs, there) ↦
      rw (there, delete_global_mode, get_context)
        (set_context-IsValidStore s name (record cs { global_mode = none }) v
          (settings-IsValid cs cs.configs cs.modes cs.global_config none (v.each name cs there)))
]

-- From a store in which each context is well formed, any sequence of the methods that write to a
-- context leaves each context well formed. A registration is a step while the ID counter of the
-- context and the version counter of the subject are below the largest 64-bit integer, an import
-- where `IsImportable` holds, a new ID counter where it is above each stored ID, and a call of
-- `NextID` while the counter has room; the other steps have no condition.
pub Reach-IsValidStore : {s t : Store} → IsValidStore s → Reach s t → IsValidStore t
Reach-IsValidStore v here = v
Reach-IsValidStore v (next r st) = Step-IsValidStore st (Reach-IsValidStore v r)
