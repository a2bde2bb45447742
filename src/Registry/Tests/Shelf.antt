-- ===== src/Registry/Tests/Shelf.antt =====
-- A concrete backend with two subjects, and a service on it.
use axonops_schema_registry.Common.{
  inc64, decimal_from, decimal, itoa, ℕ, String, ◌≡◌, refl, sym, ap, ◌∙◌, subst, ◌⊎◌, inl, inr,
  true, false, not, none, some, List, [], ◌∷◌, arith, if◌then◌else◌, ℕ_eq, string_eq, ◌==◌, ==_iff,
  ==-cases, ℤ, pos, ℤ_eq,
}
use axonops_schema_registry.Rules.{member}
use axonops_schema_registry.Storage.{
  not_found, subject_not_found, schema_not_found, version_not_found, Result, ok, err, Reference,
  SchemaRecord, ConfigRecord,
}
use axonops_schema_registry.Compatibility.Result.{new_compatible_result}
use axonops_schema_registry.Registry.Backend.{Backend, Parser, Registry, map_result}
use axonops_schema_registry.Registry.Levels.{level_record}
use axonops_schema_registry.Registry.References.{key_of, looked_up}
use axonops_schema_registry.Registry.References.Order.{Below}

-- A parser that takes each text as it is.
abbrev pub text_parser : Parser String
text_parser = record {
  parse = λ text refs. some text;
  canonical_string = λ text. text;
  fingerprint = λ text. text;
  normalize = λ text. text;
  has_top_level_field = λ text field. false;
  formatted_string = λ text format. text;
}

abbrev pub order_schema : SchemaRecord
order_schema = record {
  id = pos 1;
  subject = "orders";
  version = pos 1;
  schema_type = "AVRO";
  schema = "\"long\"";
  references = [];
  metadata = none;
  rule_set = none;
  fingerprint = "a1";
  deleted = false;
  created_at = 0;
}

abbrev pub order_reference : Reference
order_reference = record { name = "order"; subject = "orders"; version = pos 1; schema = "" }

-- A schema that refers to another.
abbrev pub line_schema : SchemaRecord
line_schema = record order_schema {
  id = pos 2;
  subject = "lines";
  references = order_reference ∷ [];
  fingerprint = "b2";
}

abbrev pub line_reference : Reference
line_reference = record order_reference { name = "line"; subject = "lines" }

-- A configuration with defaults and overrides.
abbrev pub owner_config : ConfigRecord
owner_config = record (level_record "FULL") {
  default_metadata =
      some (record { tags = none; properties = some (("owner", "all") ∷ []); sensitive = none });
  override_metadata =
      some (record { tags = none; properties = some (("team", "core") ∷ []); sensitive = none });
}

abbrev pub find_schema : String → ℤ → Result SchemaRecord
find_schema subject version =
    if not (version == pos 1)
    then err version_not_found
    else if subject == "orders"
    then ok order_schema
    else if subject == "lines"
    then ok line_schema
    else err subject_not_found

-- A backend with two subjects, whose state is the next ID.
abbrev pub shelf : Backend ℤ
shelf = record {
  get_schema_by_id = λ s c id. ok order_schema;
  get_schema_by_subject_version = λ s c subject version. find_schema subject version;
  get_schemas_by_subject = λ s c subject d. map_result (λ r. r ∷ []) (find_schema subject (pos 1));
  get_schema_by_fingerprint = λ s c subject f d. err schema_not_found;
  get_latest_schema = λ s c subject. find_schema subject (pos 1);
  create_schema = λ s c r. (none, record r { id = s; version = pos 2 }, inc64 s);
  import_schema = λ s c r. (none, r, s);
  delete_schema = λ s c subject version p. (none, s);
  delete_subject = λ s c subject p. (ok (pos 1 ∷ []), s);
  list_subjects = λ s c d. ok ("orders" ∷ "lines" ∷ []);
  subject_exists = λ s c subject. ok (member subject ("orders" ∷ "lines" ∷ []));
  get_referenced_by = λ s c subject version.
      ok (if subject == "orders" then record { subject = "lines"; version = pos 1 } ∷ [] else []);
  list_contexts = λ s. ok ("." ∷ []);
  get_max_schema_id = λ s c. ok (pos 2);
  set_next_id = λ s c id. (none, id);
  get_config = λ s c subject. if subject == "orders" then ok owner_config else err not_found;
  set_config = λ s c subject config. (none, s);
  delete_config = λ s c subject. (none, s);
  get_global_config = λ s c. err not_found;
  set_global_config = λ s c config. (none, s);
  delete_global_config = λ s c. (none, s);
  get_mode = λ s c subject. err not_found;
  set_mode = λ s c subject mode. (none, s);
  delete_mode = λ s c subject. (none, s);
  get_global_mode = λ s c. err not_found;
  set_global_mode = λ s c mode. (none, s);
  delete_global_mode = λ s c. (none, s);
}

abbrev pub service : Registry ℤ String
service = record {
  storage = shelf;
  schema_parser = λ type. if type == "AVRO" then some text_parser else none;
  compat_checker = ("AVRO", λ reader writer. new_compatible_result) ∷ [];
  default_config = "BACKWARD";
  digest = λ text. text;
}

-- Each schema that the backend has, is named by one of the keys.
abbrev pub shelf_keys : List String
shelf_keys = key_of order_reference ∷ key_of line_reference ∷ []

ok_injective : (x y : SchemaRecord) → ◌≡◌ {A = Result SchemaRecord} (ok x) (ok y) → x ≡ y
ok_injective x y h = ap (λ a. elim a [ ok z ↦ z | err _ ↦ x ]) h

-- The key and the record of a reference whose subject and version are known.
key_at :
    (ref : Reference) (subject : String)
    → ref.subject ≡ subject
    → ref.version ≡ pos 1
    → key_of ref ≡ key_of (record order_reference { subject = subject })
unfolding key_of
key_at ref subject p q =
    ap (λ v. key_of (record ref { version = v })) q
    ∙ ap (λ u. key_of (record order_reference { subject = u })) p

record_at :
    (ref : Reference) (subject : String) (r x : SchemaRecord)
    → ref.subject ≡ subject
    → ref.version ≡ pos 1
    → looked_up shelf (pos 3) "." ref ≡ ok r
    → find_schema subject (pos 1) ≡ ok x
    → r ≡ x
record_at ref subject r x p q h k =
    ok_injective r x
      (sym h ∙ ap (find_schema ref.subject) q ∙ ap (λ u. find_schema u (pos 1)) p ∙ k)

-- A schema that is found is one of the two, under its name.
find_schema-cases :
    (ref : Reference) (r : SchemaRecord)
    → looked_up shelf (pos 3) "." ref ≡ ok r
    → ((key_of ref ≡ key_of order_reference) × (r ≡ order_schema))
      ⊎ ((key_of ref ≡ key_of line_reference) × (r ≡ line_schema))
unfolding key_of
find_schema-cases ref r h = elim (==-cases ref.version (pos 1)) [
  | inr (other, _) ↦ absurd (ground (arith, h, other))
  | inl version ↦ elim (==-cases ref.subject "orders") [
    | inl subject ↦ inl (
      key_at ref "orders" subject version,
      record_at ref "orders" r order_schema subject version h refl,
    )
    | inr (other, _) ↦ elim (==-cases ref.subject "lines") [
      | inl subject ↦ inr (
        key_at ref "lines" subject version,
        record_at ref "lines" r line_schema subject version h refl,
      )
      | inr (other', _) ↦
          absurd (ground (arith, h, (==_iff ref.version (pos 1)).1 version, other, other'))
    ]
  ]
]

pub shelf_known :
    (ref : Reference) (r : SchemaRecord)
    → looked_up shelf (pos 3) "." ref ≡ ok r
    → member (key_of ref) shelf_keys ≡ true
unfolding key_of itoa decimal decimal_from
shelf_known ref r h = elim (find_schema-cases ref r h) [
  | inl (k, _) ↦ subst (λ i. member i shelf_keys ≡ true) (sym k) refl
  | inr (k, _) ↦ subst (λ i. member i shelf_keys ≡ true) (sym k) refl
]

-- The lines stand above the orders.
abbrev pub shelf_rank : String → ℕ
shelf_rank k = if k == "lines:1" then 1 else 0

below :
    (ref : Reference) (r x : SchemaRecord) (k : String)
    → key_of ref ≡ k
    → r ≡ x
    → Below shelf (pos 3) "." shelf_rank (shelf_rank k) x.references
    → Below shelf (pos 3) "." shelf_rank (shelf_rank (key_of ref)) r.references
below ref r x k p e h =
    subst (λ i. Below shelf (pos 3) "." shelf_rank (shelf_rank i) r.references) (sym p)
      (subst (λ y. Below shelf (pos 3) "." shelf_rank (shelf_rank k) y.references) (sym e) h)

pub shelf_acyclic :
    (ref : Reference) (r : SchemaRecord)
    → looked_up shelf (pos 3) "." ref ≡ ok r
    → Below shelf (pos 3) "." shelf_rank (shelf_rank (key_of ref)) r.references
unfolding key_of itoa decimal decimal_from
shelf_acyclic ref r h = elim (find_schema-cases ref r h) [
  | inl (k, e) ↦ below ref r order_schema (key_of order_reference) k e tt
  | inr (k, e) ↦ below ref r line_schema (key_of line_reference) k e (omega arith, tt)
]
