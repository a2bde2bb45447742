-- ===== src/Common/Maps.antt =====
-- Go's `map[K]V`: an association list. Its order is one of the orders that `range` may take.
use mathlib.Core.Path.{◌≡◌, refl, subst}
use mathlib.Core.Logic.{inl, inr}
use mathlib.Core.Option.{Option, none, some}
use mathlib.Core.List.{List, [], ◌∷◌}
use native.Mathlib.Omega.{arith}
use axonops_schema_registry.Common.Tests.{if◌then◌else◌, Bool-cases}
use axonops_schema_registry.Common.Equality.{Comparable, ◌==◌, ==-cases, ==_self}

abbrev pub Map {ℓ κ} : Type ℓ → Type κ → Type (ℓ ⊔ κ)
Map K V = List (K × V)

module _ {ℓ κ} {K : Type ℓ} {V : Type κ} ⦃e : Comparable K⦄ where
  -- `v, ok := m[k]`
  unfoldable pub get : Map K V → K → Option V
  get [] k = none
  get ((j, v) ∷ m) k = if j == k then some v else get m k

  -- `delete(m, k)`
  unfoldable pub delete : Map K V → K → Map K V
  delete [] k = []
  delete ((j, v) ∷ m) k = let rest = delete m k in if j == k then rest else (j, v) ∷ rest

  -- `m[k] = v`: an old value is replaced where it stands, a new key goes to the end.
  unfoldable pub put : Map K V → K → V → Map K V
  put [] k v = (k, v) ∷ []
  put ((j, w) ∷ m) k v = if j == k then (j, v) ∷ m else (j, w) ∷ put m k v

  pub get-delete : (m : Map K V) (k j : K) → get (delete m k) j ≡ (if k == j then none else get m j)
  unfolding get delete
  get-delete [] k j = ground arith
  get-delete ((i, v) ∷ m) k j =
      ground (arith, e.equal_iff i k, e.equal_iff i j, e.equal_iff k j, get-delete m k j)

  pub get-put :
      (m : Map K V) (k j : K) (v : V) → get (put m k v) j ≡ (if k == j then some v else get m j)
  unfolding get put
  get-put [] k j v = refl
  get-put ((i, w) ∷ m) k j v =
      ground (arith, e.equal_iff i k, e.equal_iff i j, e.equal_iff k j, get-put m k j v)

  -- Each key has one entry, as in a Go map.
  abbrev pub IsUnique : Map K V → Type κ
  IsUnique [] = Unit
  IsUnique ((k, v) ∷ m) = (get m k ≡ none) × IsUnique m

  pub put-IsUnique : (m : Map K V) (k : K) (v : V) → IsUnique m → IsUnique (put m k v)
  unfolding get put
  put-IsUnique [] k v h = (refl, tt)
  put-IsUnique ((j, w) ∷ m) k v h = elim (==-cases j k) [
    | inl same ↦ ground (arith, e.equal_iff j k)
    | inr other ↦
        rw other.0 (
          rw get-put (ground (arith, h.0, e.equal_iff k j, e.equal_iff j k)),
          put-IsUnique m k v h.1,
        )
  ]

  pub delete-IsUnique : (m : Map K V) (k : K) → IsUnique m → IsUnique (delete m k)
  unfolding get delete
  delete-IsUnique [] k h = tt
  delete-IsUnique ((j, w) ∷ m) k h = elim (==-cases j k) [
    | inl same ↦ rw same (rw (==_self k) (delete-IsUnique m k h.1))
    | inr other ↦ rw other.0 (rw get-delete (ground (arith, h.0)), delete-IsUnique m k h.1)
  ]

  pub delete_absent : (m : Map K V) (k : K) → get m k ≡ none → delete m k ≡ m
  unfolding get delete
  delete_absent [] k h = refl
  delete_absent ((j, w) ∷ m) k h = ground (arith, delete_absent m k)

  pub get-nil : (k : K) → get [] k ≡ none
  unfolding get
  get-nil k = refl

  pub get-head : (m : Map K V) (k : K) (v : V) → get ((k, v) ∷ m) k ≡ some v
  unfolding get
  get-head m k v = rw (==_self k)

  pub get-tail :
      (m : Map K V) (k j : K) (v : V)
      → get m k ≡ none
      → get m j ≡ (if k == j then none else get ((k, v) ∷ m) j)
  unfolding get
  get-tail m k j v h = ground (arith, e.equal_iff k j)

module _ {ℓ κ μ} {K : Type ℓ} {V : Type κ} (P : V → Type μ) where
  -- Each value of the map has the property.
  abbrev pub AllValues : Map K V → Type μ
  AllValues [] = Unit
  AllValues ((k, v) ∷ m) = P v × AllValues m

module _ {ℓ κ μ} {K : Type ℓ} {V : Type κ} ⦃e : Comparable K⦄ (P : V → Type μ) where
  pub AllValues-put : (m : Map K V) (k : K) (v : V) → AllValues P m → P v → AllValues P (put m k v)
  unfolding put
  AllValues-put [] k v h p = (p, tt)
  AllValues-put ((j, w) ∷ m) k v h p = elim (Bool-cases (j == k)) [
    | inl same ↦ rw same (p, h.1)
    | inr other ↦ rw other (h.0, AllValues-put m k v h.1 p)
  ]

  pub AllValues-delete : (m : Map K V) (k : K) → AllValues P m → AllValues P (delete m k)
  unfolding delete
  AllValues-delete [] k h = tt
  AllValues-delete ((j, w) ∷ m) k h = elim (Bool-cases (j == k)) [
    | inl same ↦ rw same (AllValues-delete m k h.1)
    | inr other ↦ rw other (h.0, AllValues-delete m k h.1)
  ]

  pub AllValues-get : (m : Map K V) (k : K) (v : V) → AllValues P m → get m k ≡ some v → P v
  unfolding get
  AllValues-get [] k v h p = absurd (cc p)
  AllValues-get ((j, w) ∷ m) k v h p = elim (Bool-cases (j == k)) [
    | inl same ↦ let q : w ≡ v = ground (arith, p, same) in subst P q h.0
    | inr other ↦ AllValues-get m k v h.1 (ground (arith, p, other))
  ]
