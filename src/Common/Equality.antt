-- ===== src/Common/Equality.antt =====
-- Go's `==` on comparable values, as an interface with its law.
use Prim.Native.Nat.{ℕ}
use Prim.Native.String.{String}
use mathlib.Core.Path.{◌≡◌, refl}
use mathlib.Core.Logic.{◌↔◌, ◌⊎◌, inl, inr, ◌≢◌}
use mathlib.Core.Bool.{Bool, true, false}
use text.Mathlib.Text.{◌==◌ as str_eq}
use text.Mathlib.TextEquality.{eq_iff}
use native.Mathlib.Omega.{arith}
use axonops_schema_registry.Common.Tests.{nat_eq, nat_eq_iff, Bool-cases}

-- A type whose values Go compares with `==`: the test, and that it decides equality.
pub record Comparable {ℓ} (T : Type ℓ) : Type ℓ where
  pub equal : T → T → Bool
  pub equal_iff : (x y : T) → (equal x y ≡ true) ↔ (x ≡ y)

instance abbrev pub ℕ_eq : Comparable ℕ
ℕ_eq = record { equal = nat_eq; equal_iff = nat_eq_iff }

instance abbrev pub string_eq : Comparable String
string_eq = record { equal = str_eq; equal_iff = eq_iff }

infix 50 ◌==◌
abbrev pub ◌==◌ {ℓ} : {T : Type ℓ} ⦃c : Comparable T⦄ (x y : T) → Bool
◌==◌ ⦃c⦄ x y = c.equal x y

module _ {ℓ} {A : Type ℓ} ⦃e : Comparable A⦄ where
  pub ==_iff : (a b : A) → ((a == b) ≡ true) ↔ (a ≡ b)
  ==_iff a b = e.equal_iff a b

  pub ==_self : (a : A) → (a == a) ≡ true
  ==_self a = (e.equal_iff a a).1 refl

  -- To split on a test of equality.
  pub ==-cases : (a b : A) → (a ≡ b) ⊎ (((a == b) ≡ false) × (a ≢ b))
  ==-cases a b = elim (Bool-cases (a == b)) [
    | inl same ↦ inl ((e.equal_iff a b).0 same)
    | inr other ↦ inr (other, λ p. ground (arith, (e.equal_iff a b).1 p))
  ]
