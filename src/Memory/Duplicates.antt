-- ===== src/Memory/Duplicates.antt =====
-- Registering the same record again.
use axonops_schema_registry.Common.{
  get, put, ℕ, String, ◌≡◌, refl, inl, inr, Bool, true, false, Option, none, some, List, [], ◌∷◌,
  arith, nat_eq_iff, Bool-cases, Option-cases, ◌==◌, ℕ_eq, string_eq, ==_iff, ==_self, ℤ, ℤ_eq,
  ◌<ℤ◌, max_int64, lt-inc64, Map, IsUnique, get-head, get-tail,
}
use axonops_schema_registry.Storage.{schema_exists, Metadata, Rule, SchemaRecord}
use axonops_schema_registry.Storage.DeepEqual.{
  option_eq, list_eq, size, entries_in, map_eq, strings_eq, string_map_eq, bool_eq, metadata_eq,
  rule_eq, rule_set_eq,
}
use axonops_schema_registry.Memory.State.{
  SubjectVersionInfo, ContextStore, or_zero, versions_of, last_version,
}
use axonops_schema_registry.Memory.Create.{
  normalize_metadata, normalize_rule_set, ensure_subject, same_contract, is_duplicate,
  find_duplicate, create_in,
}
use axonops_schema_registry.Memory.Invariant.{content_print, IsValid}
use axonops_schema_registry.Memory.Register.{above_counter_absent}
use axonops_schema_registry.Memory.Behaviour.{
  new_number, stored_info, registered, create_in_fresh, known_subject-registered,
  content-registered, kept-registered,
}

-- `reflect.DeepEqual` finds each value equal to itself, where its maps have one entry for a key.
module _ {ℓ} {A : Type ℓ} (eq : A → A → Bool) where
  abbrev AllSelf : List A → Type 0
  AllSelf [] = Unit
  AllSelf (a ∷ as') = (eq a a ≡ true) × AllSelf as'

  list_eq_self : (as' : List A) → AllSelf as' → list_eq eq as' as' ≡ true
  unfolding list_eq
  list_eq_self [] h = refl
  list_eq_self (a ∷ as') h = rw (h.0, list_eq_self as' h.1)

option_eq_self {ℓ} :
    {A : Type ℓ} (eq : A → A → Bool) (o : Option A)
    → ((a : A) → o ≡ some a → eq a a ≡ true)
    → option_eq eq o o ≡ true
unfolding option_eq
option_eq_self eq none h = refl
option_eq_self eq (some a) h = h a refl

strings_eq_self : (l : List String) → strings_eq l l ≡ true
unfolding strings_eq list_eq
strings_eq_self [] = refl
strings_eq_self (s ∷ l) = rw (==_self s, strings_eq_self l)

module _ {V : Type 0} (eq : V → V → Bool) (self : (v : V) → eq v v ≡ true) where
  entries_in_self :
      (l m : Map String V)
      → IsUnique l
      → ((k : String) (v : V) → get l k ≡ some v → get m k ≡ some v)
      → entries_in eq l m ≡ true
  unfolding map_eq
  entries_in_self [] m u h = refl
  entries_in_self ((k, v) ∷ l) m u h = rw (
    h k v (get-head l k v),
    self v,
    entries_in_self l m u.1 (λ j w p. h j w (ground (arith, p, get-tail l k j v u.0, ==_iff k j))),
  )

  map_eq_self : (m : Map String V) → IsUnique m → map_eq eq m m ≡ true
  unfolding map_eq
  map_eq_self m u = rw ((nat_eq_iff (size m) (size m)).1 refl) (entries_in_self m m u (λ k v p. p))

-- The maps of the record have one entry for each key, as a Go map has.
abbrev pub UniqueOpt : {V : Type 0} → Option (Map String V) → Type 0
UniqueOpt none = Unit
UniqueOpt (some m) = IsUnique m

abbrev pub UniqueRules : List Rule → Type 0
UniqueRules [] = Unit
UniqueRules (r ∷ rules) = UniqueOpt r.params × UniqueRules rules

abbrev pub UniqueRulesOpt : Option (List Rule) → Type 0
UniqueRulesOpt none = Unit
UniqueRulesOpt (some rules) = UniqueRules rules

pub record HasGoMaps (r : SchemaRecord) : Type 0 where
  pub tags : UniqueOpt (normalize_metadata r.metadata).tags
  pub properties : UniqueOpt (normalize_metadata r.metadata).properties
  pub migration : UniqueRulesOpt (normalize_rule_set r.rule_set).migration_rules
  pub domain : UniqueRulesOpt (normalize_rule_set r.rule_set).domain_rules
  pub encoding : UniqueRulesOpt (normalize_rule_set r.rule_set).encoding_rules

map_opt_self :
    {V : Type 0} (eq : V → V → Bool) (self : (v : V) → eq v v ≡ true) (o : Option (Map String V))
    → UniqueOpt o
    → option_eq (map_eq eq) o o ≡ true
unfolding option_eq
map_opt_self eq self none u = refl
map_opt_self eq self (some m) u = map_eq_self eq self m u

strings_opt_self : (o : Option (List String)) → option_eq strings_eq o o ≡ true
strings_opt_self o = option_eq_self strings_eq o (λ l p. strings_eq_self l)

metadata_eq_self :
    (m : Metadata) → UniqueOpt m.tags → UniqueOpt m.properties → metadata_eq m m ≡ true
unfolding metadata_eq string_map_eq
metadata_eq_self m t p = rw (
  map_opt_self (option_eq strings_eq) strings_opt_self m.tags t,
  map_opt_self ◌==◌ ==_self m.properties p,
  strings_opt_self m.sensitive,
)

bool_eq_self : (b : Bool) → bool_eq b b ≡ true
unfolding bool_eq
bool_eq_self true = refl
bool_eq_self false = refl

rule_eq_self : (r : Rule) → UniqueOpt r.params → rule_eq r r ≡ true
unfolding rule_eq string_map_eq
rule_eq_self r u = rw (
  ==_self r.name,
  ==_self r.doc,
  ==_self r.kind,
  ==_self r.mode,
  ==_self r.type,
  strings_opt_self r.tags,
  map_opt_self ◌==◌ ==_self r.params u,
  ==_self r.expr,
  ==_self r.on_success,
  ==_self r.on_failure,
  bool_eq_self r.disabled,
  option_eq_self ◌==◌ r.enable_at (λ i p. ==_self i),
)

rules_self : (l : List Rule) → UniqueRules l → list_eq rule_eq l l ≡ true
unfolding list_eq
rules_self [] u = refl
rules_self (r ∷ l) u = rw (rule_eq_self r u.0, rules_self l u.1)

rules_opt_self :
    (o : Option (List Rule)) → UniqueRulesOpt o → option_eq (list_eq rule_eq) o o ≡ true
unfolding option_eq
rules_opt_self none u = refl
rules_opt_self (some rules) u = rules_self rules u

pub same_contract_self :
    (r : SchemaRecord) (info : SubjectVersionInfo)
    → HasGoMaps r
    → info.metadata ≡ r.metadata
    → info.rule_set ≡ r.rule_set
    → same_contract info r ≡ true
unfolding same_contract rule_set_eq
same_contract_self r info g m s = rw (
  m,
  s,
  metadata_eq_self (normalize_metadata r.metadata) g.tags g.properties,
  rules_opt_self (normalize_rule_set r.rule_set).migration_rules g.migration,
  rules_opt_self (normalize_rule_set r.rule_set).domain_rules g.domain,
  rules_opt_self (normalize_rule_set r.rule_set).encoding_rules g.encoding,
)

-- Whether a version is a duplicate depends on the fingerprint of its content.
is_duplicate_same :
    (cs ds : ContextStore) (r : SchemaRecord) (info : SubjectVersionInfo)
    → content_print ds info.schema_id ≡ content_print cs info.schema_id
    → is_duplicate ds.schemas r info ≡ is_duplicate cs.schemas r info
unfolding is_duplicate
is_duplicate_same cs ds r info e = ground arith

-- A new version behind versions that are no duplicates is what the loop finds.
find_duplicate-put :
    (cs ds : ContextStore) (r : SchemaRecord) (m : Map ℤ SubjectVersionInfo) (v : ℤ)
    (info : SubjectVersionInfo)
    → IsUnique m
    → ((w : ℤ) (i : SubjectVersionInfo)
        → get m w ≡ some i
        → content_print ds i.schema_id ≡ content_print cs i.schema_id)
    → find_duplicate cs.schemas r m ≡ none
    → get m v ≡ none
    → is_duplicate ds.schemas r info ≡ true
    → find_duplicate ds.schemas r (put m v info) ≡ some info
unfolding find_duplicate put get
find_duplicate-put cs ds r [] v info u same none_yet absent dup = rw dup
find_duplicate-put cs ds r ((w, i) ∷ m) v info u same none_yet absent dup =
    elim (Bool-cases (is_duplicate cs.schemas r i)) [
      | inl yes_dup ↦ absurd (ground (arith, yes_dup, none_yet))
      | inr no_dup ↦
          let rest =
            find_duplicate-put cs ds r m v info u.1
              (λ x j p. same x j (ground (arith, p, u.0, ==_iff w x)))
              (ground (arith, no_dup, none_yet)) (ground (arith, absent)) dup in
          ground (
            arith,
            no_dup,
            rest,
            absent,
            is_duplicate_same cs ds r i (same w i (ground (arith, ==_self w))),
          )
    ]

is_duplicate-true :
    (cs : ContextStore) (r : SchemaRecord) (info : SubjectVersionInfo)
    → info.deleted ≡ false
    → content_print cs info.schema_id ≡ some r.fingerprint
    → same_contract info r ≡ true
    → is_duplicate cs.schemas r info ≡ true
unfolding is_duplicate
is_duplicate-true cs r info live print same = elim (Option-cases (get cs.schemas info.schema_id)) [
  | inl absent ↦ ground arith
  | inr (s, there) ↦ ground (arith, ==_iff s.fingerprint r.fingerprint)
]

ensure_subject_known :
    (cs : ContextStore) (subject : String) (m : Map ℤ SubjectVersionInfo)
    → get cs.subject_versions subject ≡ some m
    → ensure_subject cs subject ≡ cs
unfolding ensure_subject
ensure_subject_known cs subject m e = rw (e, ensure_subject)

-- A context in which the loop finds a duplicate, and the subject is known, is left as it is.
create_in_found :
    (cs : ContextStore) (now later : ℕ) (r : SchemaRecord) (m : Map ℤ SubjectVersionInfo)
    (info : SubjectVersionInfo)
    → get cs.subject_versions r.subject ≡ some m
    → find_duplicate cs.schemas r m ≡ some info
    → create_in cs now later r
      ≡ (some schema_exists, record r { id = info.schema_id; version = info.version }, cs)
unfolding create_in
create_in_found cs now later r m info known found =
    let same = ensure_subject_known cs r.subject m known in
    rw (same, known, or_zero, found, create_in) (rw same)

-- In a well-formed context, where the version counter of the subject has room: registering a record
-- that was no duplicate, and whose maps name no key twice, a second time answers that the schema
-- exists, with the ID and the version of the first time, and changes nothing.
pub create_in_again :
    (cs : ContextStore) (now later now' later' : ℕ) (r : SchemaRecord)
    → IsValid cs
    → last_version cs r.subject <ℤ max_int64
    → HasGoMaps r
    → find_duplicate cs.schemas r (versions_of cs r.subject) ≡ none
    → create_in (create_in cs now later r).2 now' later' r ≡ (
      some schema_exists,
      record r {
        id = (create_in cs now later r).1.id;
        version = (create_in cs now later r).1.version;
      },
      (create_in cs now later r).2,
    )
create_in_again cs now later now' later' r v room g fresh =
    let m = versions_of cs r.subject in
    let info = stored_info cs r now in
    let h = v.consistent in
    let dup =
      is_duplicate-true (registered cs r now) r info refl (content-registered cs r now h)
        (same_contract_self r info g refl refl) in
    rw (create_in_fresh cs r now later fresh) (
      create_in_found (registered cs r now) now' later' r (put m (new_number cs r now) info) info
        (known_subject-registered cs r now)
        (find_duplicate-put cs (registered cs r now) r m (new_number cs r now) info
          (h.unique r.subject)
          (λ w i p.
            kept-registered cs r now h i.schema_id
              (h.stored r.subject w i.schema_id (ground (arith, p))))
          fresh
          (above_counter_absent cs r.subject (new_number cs r now) h
            (lt-inc64 (last_version cs r.subject) room))
          dup))
