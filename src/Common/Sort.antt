-- ===== src/Common/Sort.antt =====
-- Go's `sort.Slice`, `sort.Ints` and `sort.Strings`, as an insertion sort. Texts are ordered by their
-- code points, which is the order of their UTF-8 bytes.
use Prim.Native.Char.{code}
use Prim.Native.String.{String}
use mathlib.Core.List.Perm
use mathlib.Core.List.{List, [], ◌∷◌, Perm}
use Prim.Native.Nat.{ℕ}
use mathlib.Core.Bool.{Bool, true, false}
use mathlib.Core.Path.{◌≡◌, refl}
use native.Mathlib.Omega.{arith}
use mathlib.Core.Logic.{inl, inr}
use axonops_schema_registry.Common.Tests.{ltb, if◌then◌else◌, Bool-cases}
use axonops_schema_registry.Common.Int.{ℤ, ℤ_eq, leb_ℤ}

module _ {ℓ} {A : Type ℓ} (le : A → A → Bool) where
  unfoldable pub insert_sorted : A → List A → List A
  insert_sorted a [] = a ∷ []
  insert_sorted a (b ∷ bs) = if le a b then a ∷ b ∷ bs else b ∷ insert_sorted a bs

  unfoldable pub sort : List A → List A
  sort [] = []
  sort (a ∷ bs) = insert_sorted a (sort bs)

  -- No element stands behind one that it comes before.
  abbrev pub AtMostAll : A → List A → Type 0
  AtMostAll a [] = Unit
  AtMostAll a (b ∷ bs) = (le a b ≡ true) × AtMostAll a bs

  abbrev pub IsSorted : List A → Type 0
  IsSorted [] = Unit
  IsSorted (a ∷ bs) = AtMostAll a bs × IsSorted bs

  pub insert_sorted-perm : (a : A) (bs : List A) → Perm (insert_sorted a bs) (a ∷ bs)
  unfolding insert_sorted
  insert_sorted-perm a [] = Perm.refl _
  insert_sorted-perm a (b ∷ bs) =
      elim (le a b) as (λ t. Perm (if t then a ∷ b ∷ bs else b ∷ insert_sorted a bs) (a ∷ b ∷ bs)) [
        | true ↦ Perm.refl _
        | false ↦ Perm.trans (Perm.cons b (insert_sorted-perm a bs)) (Perm.swap a b bs)
      ]

  pub sort-perm : (as' : List A) → Perm (sort as') as'
  unfolding sort
  sort-perm [] = Perm.refl _
  sort-perm (a ∷ bs) = Perm.trans (insert_sorted-perm a (sort bs)) (Perm.cons a (sort-perm bs))

  module _ (total : (a b : A) → le a b ≡ false → le b a ≡ true)
      (trans : (a b c : A) → le a b ≡ true → le b c ≡ true → le a c ≡ true) where
    AtMostAll-trans : (a b : A) (cs : List A) → le a b ≡ true → AtMostAll b cs → AtMostAll a cs
    AtMostAll-trans a b [] h k = tt
    AtMostAll-trans a b (c ∷ cs) h k = (trans a b c h k.0, AtMostAll-trans a b cs h k.1)

    AtMostAll-insert :
        (a b : A) (cs : List A) → le a b ≡ true → AtMostAll a cs → AtMostAll a (insert_sorted b cs)
    unfolding insert_sorted
    AtMostAll-insert a b [] h k = (h, tt)
    AtMostAll-insert a b (c ∷ cs) h k = elim (Bool-cases (le b c)) [
      | inl p ↦ rw p (h, k)
      | inr p ↦ rw p (k.0, AtMostAll-insert a b cs h k.1)
    ]

    insert-IsSorted : (a : A) (bs : List A) → IsSorted bs → IsSorted (insert_sorted a bs)
    unfolding insert_sorted
    insert-IsSorted a [] h = (tt, tt)
    insert-IsSorted a (b ∷ bs) h = elim (Bool-cases (le a b)) [
      | inl p ↦ rw p ((p, AtMostAll-trans a b bs p h.0), h)
      | inr p ↦ rw p (AtMostAll-insert b a bs (total a b p) h.0, insert-IsSorted a bs h.1)
    ]

    pub sort-IsSorted : (as' : List A) → IsSorted (sort as')
    unfolding sort
    sort-IsSorted [] = tt
    sort-IsSorted (a ∷ bs) = insert-IsSorted a (sort bs) (sort-IsSorted bs)

-- The code points of a text.
abbrev pub codes : String → List ℕ
codes String.[] = []
codes (String.◌∷◌ c s) = code c ∷ codes s

abbrev pub codes_leb : List ℕ → List ℕ → Bool
codes_leb [] ys = true
codes_leb (x ∷ xs) [] = false
codes_leb (x ∷ xs) (y ∷ ys) =
    let rest = codes_leb xs ys in if ltb x y then true else if ltb y x then false else rest

unfoldable pub string_leb : String → String → Bool
string_leb s t = codes_leb (codes s) (codes t)

codes_total : (a b : List ℕ) → codes_leb a b ≡ false → codes_leb b a ≡ true
codes_total [] b h = cc
codes_total (x ∷ xs) [] h = refl
codes_total (x ∷ xs) (y ∷ ys) h = ground (arith, codes_total xs ys)

codes_trans : (a b c : List ℕ) → codes_leb a b ≡ true → codes_leb b c ≡ true → codes_leb a c ≡ true
codes_trans [] b c h k = refl
codes_trans (x ∷ xs) [] c h k = cc
codes_trans (x ∷ xs) (y ∷ ys) [] h k = cc
codes_trans (x ∷ xs) (y ∷ ys) (z ∷ zs) h k = ground (arith, codes_trans xs ys zs)

pub string_leb_total : (a b : String) → string_leb a b ≡ false → string_leb b a ≡ true
unfolding string_leb
string_leb_total a b h = codes_total (codes a) (codes b) h

pub string_leb_trans :
    (a b c : String) → string_leb a b ≡ true → string_leb b c ≡ true → string_leb a c ≡ true
unfolding string_leb
string_leb_trans a b c h k = codes_trans (codes a) (codes b) (codes c) h k

pub leb_ℤ_total : (a b : ℤ) → leb_ℤ a b ≡ false → leb_ℤ b a ≡ true
leb_ℤ_total a b h = ground arith

pub leb_ℤ_trans : (a b c : ℤ) → leb_ℤ a b ≡ true → leb_ℤ b c ≡ true → leb_ℤ a c ≡ true
leb_ℤ_trans a b c h k = ground arith
