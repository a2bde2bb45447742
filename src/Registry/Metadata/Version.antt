-- ===== src/Registry/Metadata/Version.antt =====
-- `confluent:version`, which a response has and a stored version has not.
use axonops_schema_registry.Common.{
  itoa, get, delete, ℕ, ◌^◌, ◌<◌, String, ◌≡◌, refl, sym, ap, ◌∙◌, subst, inl, inr, Bool, true,
  false, Option, none, some, List, [], ◌∷◌, arith, if◌then◌else◌, ℕ_eq, string_eq, ◌==◌, ==-cases,
  ℤ, pos, ℤ_eq, leb_ℤ, Map, get-delete, get-put,
}
use axonops_schema_registry.Common.TextRead.{atoi-itoa}
use axonops_schema_registry.Storage.{Metadata, SchemaRecord}
use axonops_schema_registry.Registry.Metadata.{
  no_metadata, or_else, entries, at_key, property_of, version_property, nil_if_empty, nil_if_bare,
  strip_confluent_version, target_of, extract_confluent_version_target, with_version_property,
  auto_populate_confluent_version,
}

at_key-nil_if_empty : (ps : Map String String) (k : String) → at_key (nil_if_empty ps) k ≡ get ps k
unfolding get
at_key-nil_if_empty [] k = refl
at_key-nil_if_empty (p ∷ ps) k = refl

property_of-nil_if_bare :
    (m : Metadata) (k : String) → property_of (nil_if_bare m) k ≡ at_key m.properties k
property_of-nil_if_bare m k = go m.properties refl m.tags m.sensitive
  where
    go :
        (ps : Option (Map String String))
        → m.properties ≡ ps
        → (tags : Option (Map String (Option (List String)))) (sensitive : Option (List String))
        → property_of
            (elim ps [
              | some _ ↦ some m
              | none ↦ elim tags [
                | some _ ↦ some m
                | none ↦ elim sensitive [ some _ ↦ some m | none ↦ none ]
              ]
            ])
            k
          ≡ at_key m.properties k
    go (some ps) e tags sensitive = refl
    go none e (some tags) sensitive = refl
    go none e none (some l) = refl
    go none e none none = ap (λ ps. at_key ps k) (sym e)

get-delete_same :
    (ps : Map String String) (k : String)
    → get ps version_property ≡ none
    → get ps k ≡ (if version_property == k then none else get ps k)
get-delete_same ps k absent = elim (==-cases version_property k) [
  | inl same ↦ ground (arith, subst (λ i. get ps i ≡ none) same absent)
  | inr (other, _) ↦ ground (arith, other)
]

-- A stripped version's properties are all but `confluent:version`.
pub property_of-strip_confluent_version :
    (m : Option Metadata) (k : String)
    → property_of (strip_confluent_version m) k
      ≡ (if version_property == k then none else property_of m k)
unfolding strip_confluent_version
property_of-strip_confluent_version none k = ground arith
property_of-strip_confluent_version (some m) k = go m.properties refl
  where
    kept :
        (ps : Map String String)
        → m.properties ≡ some ps
        → get ps version_property ≡ none
        → at_key m.properties k ≡ (if version_property == k then none else at_key m.properties k)
    kept ps e absent = rw e (get-delete_same ps k absent)

    dropped :
        (ps : Map String String)
        → m.properties ≡ some ps
        → property_of
            (nil_if_bare (record m { properties = nil_if_empty (delete ps version_property) }))
            k
          ≡ (if version_property == k then none else at_key m.properties k)
    dropped ps e =
        property_of-nil_if_bare
          (record m { properties = nil_if_empty (delete ps version_property) }) k
        ∙ at_key-nil_if_empty (delete ps version_property) k
        ∙ rw e (get-delete ps version_property k)

    at_version :
        (ps : Map String String)
        → m.properties ≡ some ps
        → (o : Option String) → get ps version_property ≡ o
        → property_of
            (elim o [
              | none ↦ some m
              | some _ ↦
                  nil_if_bare (record m { properties = nil_if_empty (delete ps version_property) })
            ])
            k
          ≡ (if version_property == k then none else at_key m.properties k)
    at_version ps e none absent = kept ps e absent
    at_version ps e (some v) there = dropped ps e

    go :
        (o : Option (Map String String))
        → m.properties ≡ o
        → property_of
            (elim o [
              | none ↦ some m
              | some ps ↦ elim (get ps version_property) [
                | none ↦ some m
                | some _ ↦
                    nil_if_bare
                      (record m { properties = nil_if_empty (delete ps version_property) })
              ]
            ])
            k
          ≡ (if version_property == k then none else at_key m.properties k)
    go none e = rw e (ground arith)
    go (some ps) e = at_version ps e (get ps version_property) refl

target_of-itoa : (n : ℕ) → 0 < n → n < 2 ^ 63 → target_of (some (itoa (pos n))) ≡ pos n
target_of-itoa n positive small = ap named (atoi-itoa n small) ∙ ground (arith, positive)
  where
    named : Option ℤ → ℤ
    named none = pos 0
    named (some cv) = if leb_ℤ cv (pos 0) then pos 0 else cv

-- The target that is read from a response's metadata is the version of the response, where that is
-- positive and below 2 ^ 63.
pub extract-auto_populate_confluent_version :
    (r : SchemaRecord) (n : ℕ)
    → r.version ≡ pos n
    → 0 < n
    → n < 2 ^ 63
    → extract_confluent_version_target (auto_populate_confluent_version r).metadata ≡ r.version
unfolding extract_confluent_version_target auto_populate_confluent_version
extract-auto_populate_confluent_version r n e positive small = go (leb_ℤ r.version (pos 0)) not_zero
  where
    not_zero : leb_ℤ r.version (pos 0) ≡ false
    not_zero = ap (λ z. leb_ℤ z (pos 0)) e ∙ ground (arith, positive)

    named : target_of (some (itoa r.version)) ≡ r.version
    named = ap (λ v. target_of (some (itoa v))) e ∙ target_of-itoa n positive small ∙ sym e

    go :
        (x : Bool)
        → x ≡ false
        → extract_confluent_version_target (if x then r else with_version_property r).metadata
          ≡ r.version
    go true h = absurd (cc h)
    go false h =
        ap target_of (
          get-put (entries (or_else r.metadata no_metadata).properties) version_property
            version_property (itoa r.version))
        ∙ named
