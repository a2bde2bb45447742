-- ===== src/Rules/Spec.antt =====
-- What a valid rule set is, and that the validation accepts exactly these.
use axonops_schema_registry.Common.{
  trim_space, split_comma, is_space, trim_left, trim_right, ℕ, ◌+◌, String, ◌≡◌, refl, sym, subst,
  ◌≢◌, ◌⊎◌, ◌↔◌, inl, inr, true, Option, none, some, List, [], ◌∷◌, arith, Bool-cases, Option-cases,
  ℕ_eq, string_eq, ==_iff, ℤ_eq,
}
use axonops_schema_registry.Storage.{Rule, RuleSet}
use axonops_schema_registry.Rules.{
  member, valid_kinds, valid_domain_modes, valid_migration_modes, valid_encoding_modes,
  valid_actions, all_actions, is_valid_action, RuleError, validate_rule, validate_rules, rules_of,
  validate_rule_set,
}

abbrev pub IsKind : String → Type 0
IsKind kind = (kind ≡ "CONDITION") ⊎ (kind ≡ "TRANSFORM")

-- The modes of rules on reading and writing, which the domain rules and the encoding rules have.
abbrev pub IsAccessMode : String → Type 0
IsAccessMode mode = (mode ≡ "WRITE") ⊎ ((mode ≡ "READ") ⊎ (mode ≡ "WRITEREAD"))

abbrev pub IsMigrationMode : String → Type 0
IsMigrationMode mode = (mode ≡ "UPGRADE") ⊎ ((mode ≡ "DOWNGRADE") ⊎ (mode ≡ "UPDOWN"))

abbrev pub IsAction : String → Type 0
IsAction action = (action ≡ "") ⊎ ((action ≡ "NONE") ⊎ ((action ≡ "DLQ") ⊎ (action ≡ "ERROR")))

abbrev pub EachIsAction : List String → Type 0
EachIsAction [] = Unit
EachIsAction (part ∷ rest) = IsAction (trim_space part) × EachIsAction rest

-- Each part between commas is an action, with spaces around it or not.
abbrev pub AreActions : String → Type 0
AreActions text = EachIsAction (split_comma text)

abbrev pub IsRule : (String → Type 0) → Rule → Type 0
IsRule IsMode r =
    (trim_space r.name ≢ "")
    × IsKind r.kind
    × IsMode r.mode
    × AreActions r.on_success
    × AreActions r.on_failure

abbrev pub EachIsRule : (String → Type 0) → List Rule → Type 0
EachIsRule IsMode [] = Unit
EachIsRule IsMode (r ∷ rest) = IsRule IsMode r × EachIsRule IsMode rest

abbrev pub IsRuleSet : RuleSet → Type 0
IsRuleSet rs =
    EachIsRule IsAccessMode (rules_of rs.domain_rules)
    × EachIsRule IsMigrationMode (rules_of rs.migration_rules)
    × EachIsRule IsAccessMode (rules_of rs.encoding_rules)

member-kinds : (s : String) → (member s valid_kinds ≡ true) ↔ IsKind s
member-kinds s = ground (arith, ==_iff s "CONDITION", ==_iff s "TRANSFORM")

member-domain_modes : (s : String) → (member s valid_domain_modes ≡ true) ↔ IsAccessMode s
member-domain_modes s = ground (arith, ==_iff s "WRITE", ==_iff s "READ", ==_iff s "WRITEREAD")

member-encoding_modes : (s : String) → (member s valid_encoding_modes ≡ true) ↔ IsAccessMode s
member-encoding_modes s = ground (arith, ==_iff s "WRITE", ==_iff s "READ", ==_iff s "WRITEREAD")

member-migration_modes : (s : String) → (member s valid_migration_modes ≡ true) ↔ IsMigrationMode s
member-migration_modes s =
    ground (arith, ==_iff s "UPGRADE", ==_iff s "DOWNGRADE", ==_iff s "UPDOWN")

member-actions : (s : String) → (member s valid_actions ≡ true) ↔ IsAction s
member-actions s = ground (arith, ==_iff s "", ==_iff s "NONE", ==_iff s "DLQ", ==_iff s "ERROR")

all_actions-EachIsAction : (l : List String) → (all_actions l ≡ true) ↔ EachIsAction l
unfolding all_actions
all_actions-EachIsAction [] = (λ h. tt, λ h. refl)
all_actions-EachIsAction (p ∷ rest) =
    let here = member-actions (trim_space p) in
    let later = all_actions-EachIsAction rest in
    (
      λ h. (here.0 (ground (arith, h)), later.0 (ground (arith, h))),
      λ h. ground (arith, here.1 h.0, later.1 h.1),
    )

-- A single action has one part.
IsAction-AreActions : (action : String) → IsAction action → AreActions action
unfolding split_comma trim_space trim_left trim_right is_space
IsAction-AreActions action (inl e) = subst AreActions (sym e) (inl refl, tt)
IsAction-AreActions action (inr (inl e)) = subst AreActions (sym e) (inr (inl refl), tt)
IsAction-AreActions action (inr (inr (inl e))) = subst AreActions (sym e) (inr (inr (inl refl)), tt)
IsAction-AreActions action (inr (inr (inr e))) = subst AreActions (sym e) (inr (inr (inr refl)), tt)

is_valid_action_iff : (action : String) → (is_valid_action action ≡ true) ↔ AreActions action
unfolding is_valid_action
is_valid_action_iff action =
    let parts = all_actions-EachIsAction (split_comma action) in
    (
      λ h. elim (Bool-cases (member action valid_actions)) [
        | inl single ↦ IsAction-AreActions action ((member-actions action).0 single)
        | inr other ↦ parts.0 (ground (arith, h, other))
      ],
      λ h. ground (arith, parts.1 h),
    )

-- The tests of one rule, for the modes of its category.
validate_rule_iff :
    (valid_modes : List String) (IsMode : String → Type 0)
    → ((s : String) → (member s valid_modes ≡ true) ↔ IsMode s)
    → (r : Rule) (category : String) (index : ℕ)
    → (validate_rule r category index valid_modes ≡ none) ↔ IsRule IsMode r
unfolding validate_rule
validate_rule_iff valid_modes IsMode modes r category index =
    let named = ==_iff (trim_space r.name) "" in
    let kinds = member-kinds r.kind in
    let mode = modes r.mode in
    let success = is_valid_action_iff r.on_success in
    let failure = is_valid_action_iff r.on_failure in
    (
      λ h. (
        λ e. absurd (ground (arith, h, named.1 e)),
        kinds.0 (ground (arith, h)),
        mode.0 (ground (arith, h)),
        success.0 (ground (arith, h)),
        failure.0 (ground (arith, h)),
      ),
      λ h. ground (arith, h.0, named, kinds.1 h.1, mode.1 h.2, success.1 h.3, failure.1 h.4),
    )

validate_rules_iff :
    (valid_modes : List String) (IsMode : String → Type 0)
    → ((s : String) → (member s valid_modes ≡ true) ↔ IsMode s)
    → (l : List Rule) (category : String) (index : ℕ)
    → (validate_rules l category index valid_modes ≡ none) ↔ EachIsRule IsMode l
unfolding validate_rules
validate_rules_iff valid_modes IsMode modes [] category index = (λ h. tt, λ h. refl)
validate_rules_iff valid_modes IsMode modes (r ∷ rest) category index =
    let here = validate_rule_iff valid_modes IsMode modes r category index in
    let later = validate_rules_iff valid_modes IsMode modes rest category (index + 1) in
    elim (Option-cases (validate_rule r category index valid_modes)) [
      | inl fine ↦ (
        λ h. (here.0 fine, later.0 (ground (arith, h, fine))),
        λ h. ground (arith, fine, later.1 h.1),
      )
      | inr (e, bad) ↦
          (λ h. absurd (ground (arith, h, bad)), λ h. absurd (ground (arith, bad, here.1 h.0)))
    ]

-- The validation of a rule set finds no error exactly if each rule has a name that is not only
-- spaces, the kind CONDITION or TRANSFORM, a mode of its category (WRITE, READ or WRITEREAD for
-- domain and encoding rules, UPGRADE, DOWNGRADE or UPDOWN for migration rules), and in both of its
-- texts of actions only NONE, DLQ, ERROR or nothing between the commas, up to spaces around them.
pub validate_rule_set-IsRuleSet : (rs : RuleSet) → (validate_rule_set rs ≡ none) ↔ IsRuleSet rs
unfolding validate_rule_set
validate_rule_set-IsRuleSet rs =
    let domain =
      validate_rules_iff valid_domain_modes IsAccessMode member-domain_modes
        (rules_of rs.domain_rules) "domainRules" 0 in
    let migration =
      validate_rules_iff valid_migration_modes IsMigrationMode member-migration_modes
        (rules_of rs.migration_rules) "migrationRules" 0 in
    let encoding =
      validate_rules_iff valid_encoding_modes IsAccessMode member-encoding_modes
        (rules_of rs.encoding_rules) "encodingRules" 0 in
    let (d, m, e) = all_none _ _ _ in
    (
      λ h. (domain.0 (d h), migration.0 (m h), encoding.0 (e h)),
      λ h. ground (arith, domain.1 h.0, migration.1 h.1, encoding.1 h.2),
    )
  where
    all_none :
        (a b c : Option RuleError)
        → (elim a [ some e ↦ some e | none ↦ elim b [ some e ↦ some e | none ↦ c ] ] ≡ none
            → a ≡ none)
          × (elim a [ some e ↦ some e | none ↦ elim b [ some e ↦ some e | none ↦ c ] ] ≡ none
              → b ≡ none)
          × (elim a [ some e ↦ some e | none ↦ elim b [ some e ↦ some e | none ↦ c ] ] ≡ none
              → c ≡ none)
    all_none (some e) b c = (λ h. absurd (cc h), λ h. absurd (cc h), λ h. absurd (cc h))
    all_none none (some e) c = (λ h. refl, λ h. absurd (cc h), λ h. absurd (cc h))
    all_none none none c = (λ h. refl, λ h. refl, λ h. h)
