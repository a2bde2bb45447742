-- ===== src/Registry/Metadata/Merged.antt =====
-- What a merge of metadata and of rules keeps.
use axonops_schema_registry.Common.{
  get, put, String, ◌≡◌, refl, sym, ap, ◌∙◌, subst, inl, inr, true, false, Option, none, some, List,
  [], ◌∷◌, ◌++◌, map, arith, if◌then◌else◌, Bool-cases, ℕ_eq, string_eq, ◌==◌, ==_iff, ==-cases,
  ℤ_eq, Map, get-put, IsUnique,
}
use axonops_schema_registry.Rules.{member}
use axonops_schema_registry.Storage.{Metadata, Rule}
use axonops_schema_registry.Registry.Metadata.{
  no_metadata, or_else, entries, at_key, property_of, put_all, merge_maps, merge_metadata,
  rule_named, replaced, not_named, merge_two, merge_rules, or_keep,
}

module _ {V : Type 0} where
  get-put_all :
      (m n : Map String V) (k : String)
      → IsUnique n
      → get (put_all m n) k ≡ or_keep (get n k) (get m k)
  unfolding put_all get
  get-put_all m [] k h = refl
  get-put_all m ((j, v) ∷ n) k h =
      let later = get-put_all (put m j v) n k h.1 in
      let now = get-put m j k v in
      elim (==-cases j k) [
        | inl same ↦
            let hidden : get n k ≡ none = subst (λ i. get n i ≡ none) same h.0 in
            let here : (j == k) ≡ true = (==_iff j k).1 same in
            ground (arith, later, now, hidden, here)
        | inr (other, _) ↦ ground (arith, later, now, other)
      ]

pub or_keep-none : {A : Type 0} (a : Option A) → a ≡ or_keep a none
or_keep-none none = refl
or_keep-none (some a) = refl

at_key-merge_maps :
    (base override : Option (Map String String)) (k : String)
    → IsUnique (entries override)
    → at_key (merge_maps base override) k ≡ or_keep (at_key override k) (at_key base k)
unfolding get put_all
at_key-merge_maps none none k h = refl
at_key-merge_maps none (some o) k h = get-put_all [] o k h
at_key-merge_maps (some b) none k h = refl
at_key-merge_maps (some b) (some o) k h = get-put_all b o k h

-- A merged property is that of the override, or else that of the base.
pub property_of-merge_metadata :
    (base override : Option Metadata) (k : String)
    → IsUnique (entries (or_else override no_metadata).properties)
    → property_of (merge_metadata base override) k
      ≡ or_keep (property_of override k) (property_of base k)
unfolding merge_metadata
property_of-merge_metadata none none k h = refl
property_of-merge_metadata none (some o) k h = or_keep-none (property_of (some o) k)
property_of-merge_metadata (some b) none k h = refl
property_of-merge_metadata (some b) (some o) k h = at_key-merge_maps b.properties o.properties k h

or_keep_assoc : {A : Type 0} (a b c : Option A) → or_keep a (or_keep b c) ≡ or_keep (or_keep a b) c
or_keep_assoc none b c = refl
or_keep_assoc (some a) b c = refl

some-or_else : {A : Type 0} (o : Option A) (a : A) → some (or_else o a) ≡ or_keep o (some a)
some-or_else none a = refl
some-or_else (some b) a = refl

-- A list's first rule counts where no later one has its name.
abbrev if_named : Rule → String → Option Rule
if_named r n = if r.name == n then some r else none

rule_named-cons :
    (r : Rule) (rest : List Rule) (n : String)
    → rule_named (r ∷ rest) n ≡ or_keep (rule_named rest n) (if_named r n)
unfolding rule_named
rule_named-cons r rest n = go (rule_named rest n)
  where
    go :
        (o : Option Rule)
        → elim o [ some later ↦ some later | none ↦ if_named r n ] ≡ or_keep o (if_named r n)
    go none = refl
    go (some l) = refl

rule_named-++ :
    (xs ys : List Rule) (n : String)
    → rule_named (xs ++ ys) n ≡ or_keep (rule_named ys n) (rule_named xs n)
unfolding rule_named
rule_named-++ [] ys n = or_keep-none (rule_named ys n)
rule_named-++ (r ∷ xs) ys n =
    rule_named-cons r (xs ++ ys) n
    ∙ ap (λ o. or_keep o (if_named r n)) (rule_named-++ xs ys n)
    ∙ sym (or_keep_assoc (rule_named ys n) (rule_named xs n) (if_named r n))
    ∙ ap (or_keep (rule_named ys n)) (sym (rule_named-cons r xs n))

name_of-rule_named : (l : List Rule) (n : String) (r : Rule) → rule_named l n ≡ some r → r.name ≡ n
unfolding rule_named
name_of-rule_named [] n r h = absurd (cc h)
name_of-rule_named (x ∷ l) n r h =
    go (name_of-rule_named l n r) (rule_named l n) refl (sym (rule_named-cons x l n) ∙ h)
  where
    go :
        (rule_named l n ≡ some r → r.name ≡ n)
        → (o : Option Rule) → rule_named l n ≡ o
        → or_keep o (if_named x n) ≡ some r
        → r.name ≡ n
    go rest none e q = elim (==-cases x.name n) [
      | inl same ↦
          let here : (x.name == n) ≡ true = (==_iff x.name n).1 same in
          let it : x ≡ r = ground (arith, q, here) in ap (λ z. z.name) (sym it) ∙ same
      | inr (other, _) ↦ absurd (ground (arith, q, other))
    ]
    go rest (some y) e q = rest (e ∙ q)

name-replaced : (override : List Rule) (r : Rule) → (replaced override r).name ≡ r.name
name-replaced override r = go (rule_named override r.name) refl
  where
    go : (o : Option Rule) → rule_named override r.name ≡ o → (or_else o r).name ≡ r.name
    go none e = refl
    go (some x) e = name_of-rule_named override r.name x e

-- What a rule of the base becomes.
abbrev replaced_rule : List Rule → Option Rule → Option Rule
replaced_rule override none = none
replaced_rule override (some r) = some (replaced override r)

rule_named-map :
    (override base : List Rule) (n : String)
    → rule_named (map (replaced override) base) n ≡ replaced_rule override (rule_named base n)
unfolding rule_named
rule_named-map override [] n = refl
rule_named-map override (r ∷ base) n =
    rule_named-cons (replaced override r) (map (replaced override) base) n
    ∙ rw (rule_named-map override base n, name-replaced override r)
        (go (rule_named base n) ∙ ap (replaced_rule override) (sym (rule_named-cons r base n)))
  where
    go :
        (o : Option Rule)
        → or_keep
            (replaced_rule override o)
            (if r.name == n then some (replaced override r) else none)
          ≡ replaced_rule override (or_keep o (if_named r n))
    go (some x) = refl
    go none = elim (Bool-cases (r.name == n)) [
      | inl same ↦ rw same refl
      | inr other ↦ rw other refl
    ]

rule_named-not_named :
    (names : List String) (l : List Rule) (n : String)
    → rule_named (not_named names l) n ≡ (if member n names then none else rule_named l n)
unfolding rule_named not_named
rule_named-not_named names [] n = ground arith
rule_named-not_named names (r ∷ l) n =
    let later = rule_named-not_named names l n in
    elim (==-cases r.name n) [
      | inl same ↦
          let moved = ap (λ i. member i names) same in
          let here : (r.name == n) ≡ true = (==_iff r.name n).1 same in
          ground (arith, later, moved, here)
      | inr (other, _) ↦ ground (arith, later, other)
    ]

member-names :
    (base : List Rule) (n : String)
    → member n (map (λ r. r.name) base) ≡ elim (rule_named base n) [ none ↦ false | some _ ↦ true ]
unfolding rule_named
member-names [] n = refl
member-names (r ∷ base) n = ground (arith, member-names base n, ==_iff r.name n, ==_iff n r.name)

rule_named-merge_two :
    (base override : List Rule) (n : String)
    → rule_named (merge_two base override) n ≡ or_keep (rule_named override n) (rule_named base n)
unfolding merge_two
rule_named-merge_two base override n =
    rule_named-++ (map (replaced override) base) (not_named (map (λ r. r.name) base) override) n
    ∙ ap (λ o. or_keep o (rule_named (map (replaced override) base) n))
        (rule_named-not_named (map (λ r. r.name) base) override n)
    ∙ rw (rule_named-map override base n, member-names base n) (go (rule_named base n) refl)
  where
    go :
        (o : Option Rule)
        → rule_named base n ≡ o
        → or_keep
            (if elim o [ none ↦ false | some _ ↦ true ] then none else rule_named override n)
            (replaced_rule override o)
          ≡ or_keep (rule_named override n) o
    go none e = refl
    go (some r) e =
        ap (λ i. some (or_else (rule_named override i) r)) (name_of-rule_named base n r e)
        ∙ some-or_else (rule_named override n) r

-- Of the rules with one name, a merge keeps the override's, or else the base's.
pub rule_named-merge_rules :
    (base override : Option (List Rule)) (n : String)
    → rule_named (entries (merge_rules base override)) n
      ≡ or_keep (rule_named (entries override) n) (rule_named (entries base) n)
unfolding merge_rules rule_named
rule_named-merge_rules none none n = refl
rule_named-merge_rules none (some []) n = refl
rule_named-merge_rules none (some (o ∷ os)) n = or_keep-none (rule_named (o ∷ os) n)
rule_named-merge_rules (some []) none n = refl
rule_named-merge_rules (some []) (some []) n = refl
rule_named-merge_rules (some []) (some (o ∷ os)) n = or_keep-none (rule_named (o ∷ os) n)
rule_named-merge_rules (some (b ∷ bs)) none n = refl
rule_named-merge_rules (some (b ∷ bs)) (some []) n = refl
rule_named-merge_rules (some (b ∷ bs)) (some (o ∷ os)) n = rule_named-merge_two (b ∷ bs) (o ∷ os) n
