-- ===== src/Common/Int.antt =====
-- Go's `int` and `int64`: integers over the native numbers, with the increment's wrap-around.
use Prim.Native.Nat.{ℕ, zero, suc, ◌+◌, ◌-◌, ◌^◌, ◌≤◌, ◌<◌}
use mathlib.Core.Path.{◌≡◌, refl}
use mathlib.Core.Logic.{◌↔◌, ◌≢◌}
use mathlib.Core.Bool.{Bool, true, false}
use native.Mathlib.Omega.{arith}
use axonops_schema_registry.Common.Tests.{nat_eq, ltb, leb, if◌then◌else◌}
use axonops_schema_registry.Common.Equality.{Comparable}

-- `negsuc n` is -(n + 1).
pub data ℤ : Type 0 where
  pos : ℕ → ℤ
  negsuc : ℕ → ℤ

abbrev pub pos_part : ℤ → ℕ
pos_part (pos n) = n
pos_part (negsuc n) = 0

abbrev pub neg_part : ℤ → ℕ
neg_part (pos n) = 0
neg_part (negsuc n) = suc n

abbrev pub int_eq : ℤ → ℤ → Bool
int_eq (pos a) (pos b) = nat_eq a b
int_eq (negsuc a) (negsuc b) = nat_eq a b
int_eq (pos a) (negsuc b) = false
int_eq (negsuc a) (pos b) = false

pub int_eq_iff : (a b : ℤ) → (int_eq a b ≡ true) ↔ (a ≡ b)
int_eq_iff (pos a) (pos b) = ground arith
int_eq_iff (negsuc a) (negsuc b) = ground arith
int_eq_iff (pos a) (negsuc b) = ground arith
int_eq_iff (negsuc a) (pos b) = ground arith

instance abbrev pub ℤ_eq : Comparable ℤ
ℤ_eq = record { equal = int_eq; equal_iff = int_eq_iff }

infix 50 ◌≤ℤ◌ ◌<ℤ◌
abbrev pub ◌≤ℤ◌ : ℤ → ℤ → Type 0
a ≤ℤ b = pos_part a + neg_part b ≤ pos_part b + neg_part a

abbrev pub ◌<ℤ◌ : ℤ → ℤ → Type 0
a <ℤ b = pos_part a + neg_part b < pos_part b + neg_part a

abbrev pub ltb_ℤ : ℤ → ℤ → Bool
ltb_ℤ a b = ltb (pos_part a + neg_part b) (pos_part b + neg_part a)

abbrev pub leb_ℤ : ℤ → ℤ → Bool
leb_ℤ a b = leb (pos_part a + neg_part b) (pos_part b + neg_part a)

-- The largest value of a 64-bit integer.
abbrev pub max_int64 : ℤ
max_int64 = pos (2 ^ 63 - 1)

-- `x++` on a 64-bit integer: past the largest value it wraps to the smallest.
unfoldable pub inc64 : ℤ → ℤ
inc64 (pos n) = if nat_eq n (2 ^ 63 - 1) then negsuc (2 ^ 63 - 1) else pos (n + 1)
inc64 (negsuc zero) = pos 0
inc64 (negsuc (suc n)) = negsuc n

-- `x - 1` on a 64-bit integer.
unfoldable pub dec64 : ℤ → ℤ
dec64 (pos zero) = negsuc 0
dec64 (pos (suc n)) = pos n
dec64 (negsuc n) = if nat_eq n (2 ^ 63 - 1) then pos (2 ^ 63 - 1) else negsuc (n + 1)

pub lt-inc64 : (a : ℤ) → a <ℤ max_int64 → a <ℤ inc64 a
unfolding inc64
lt-inc64 (pos n) h = ground arith
lt-inc64 (negsuc zero) h = omega arith
lt-inc64 (negsuc (suc n)) h = omega arith

-- Below the increment of `a` there is nothing above `a`.
pub inc64_least : (a b : ℤ) → a <ℤ max_int64 → a <ℤ b → inc64 a ≤ℤ b
unfolding inc64
inc64_least (pos n) b h k = ground arith
inc64_least (negsuc zero) b h k = omega arith
inc64_least (negsuc (suc n)) b h k = omega arith

pub dec64-inc64 : (a : ℤ) → a <ℤ max_int64 → neg_part a ≤ 2 ^ 63 → dec64 (inc64 a) ≡ a
unfolding inc64 dec64
dec64-inc64 (pos n) h _ = ground arith
dec64-inc64 (negsuc zero) h _ = refl
dec64-inc64 (negsuc (suc n)) h k = ground arith

pub ne_of_lt_ℤ : {a b : ℤ} → a <ℤ b → a ≢ b
ne_of_lt_ℤ {a} {b} h p = omega (arith, ap_pos a b p, ap_neg a b p)
  where
    ap_pos : (x y : ℤ) → x ≡ y → pos_part x ≡ pos_part y
    ap_pos x y q = cc

    ap_neg : (x y : ℤ) → x ≡ y → neg_part x ≡ neg_part y
    ap_neg x y q = cc
