-- ===== src/Storage/DeepEqual.antt =====
-- `reflect.DeepEqual` on the metadata and rule sets that internal/storage/memory/store.go compares:
-- nil differs from empty, maps are compared by key, slices in order, pointers by what they hold.
use axonops_schema_registry.Common.{
  string_eq, ℤ_eq, ℕ, suc, String, Bool, true, false, ◌&&◌, Option, none, some, List, [], ◌∷◌,
  Comparable, ◌==◌, Map, get, nat_eq,
}
use axonops_schema_registry.Storage.{Metadata, Rule, RuleSet}

module _ {ℓ} {A : Type ℓ} (eq : A → A → Bool) where
  -- nil against nil, or two values that are equal
  unfoldable pub option_eq : Option A → Option A → Bool
  option_eq none none = true
  option_eq (some a) (some b) = eq a b
  option_eq _ _ = false

  unfoldable pub list_eq : List A → List A → Bool
  list_eq [] [] = true
  list_eq (a ∷ as') (b ∷ bs) = eq a b && list_eq as' bs
  list_eq _ _ = false

module _ {ℓ κ} {K : Type ℓ} {V : Type κ} ⦃e : Comparable K⦄ where
  pub size : Map K V → ℕ
  size [] = 0
  size (p ∷ m) = suc (size m)

  -- each entry of the first map is in the second
  pub entries_in : (V → V → Bool) → Map K V → Map K V → Bool
  entries_in eq [] m = true
  entries_in eq ((k, v) ∷ l) m =
      elim (get m k) [ none ↦ false | some w ↦ eq v w ] && entries_in eq l m

  unfoldable pub map_eq : (V → V → Bool) → Map K V → Map K V → Bool
  unfolding size entries_in
  map_eq eq m n = nat_eq (size m) (size n) && entries_in eq m n

unfoldable pub strings_eq : List String → List String → Bool
strings_eq = list_eq ◌==◌

unfoldable pub string_map_eq : Map String String → Map String String → Bool
string_map_eq = map_eq ◌==◌

unfoldable pub bool_eq : Bool → Bool → Bool
bool_eq true b = b
bool_eq false true = false
bool_eq false false = true

unfoldable pub metadata_eq : Metadata → Metadata → Bool
metadata_eq a b =
    option_eq (map_eq (option_eq strings_eq)) a.tags b.tags
    && (option_eq string_map_eq a.properties b.properties
        && option_eq strings_eq a.sensitive b.sensitive)

unfoldable pub rule_eq : Rule → Rule → Bool
unfolding bool_eq
rule_eq a b =
    a.name == b.name
    && (a.doc == b.doc
        && (a.kind == b.kind
            && (a.mode == b.mode
                && (a.type == b.type
                    && (option_eq strings_eq a.tags b.tags
                        && (option_eq string_map_eq a.params b.params
                            && (a.expr == b.expr
                                && (a.on_success == b.on_success
                                    && (a.on_failure == b.on_failure
                                        && (bool_eq a.disabled b.disabled
                                            && option_eq ◌==◌ a.enable_at b.enable_at))))))))))

unfoldable pub rule_set_eq : RuleSet → RuleSet → Bool
rule_set_eq a b =
    option_eq (list_eq rule_eq) a.migration_rules b.migration_rules
    && (option_eq (list_eq rule_eq) a.domain_rules b.domain_rules
        && option_eq (list_eq rule_eq) a.encoding_rules b.encoding_rules)
