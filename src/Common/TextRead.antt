-- ===== src/Common/TextRead.antt =====
-- A number that is written is read back.
use Prim.Native.Nat.{ℕ, zero, suc, ◌+◌, ◌*◌, ◌/◌, ◌%◌, ◌^◌, ◌<◌}
use Prim.Native.Char.{code}
use Prim.Native.String.{String, [], ◌∷◌, char_at}
use mathlib.Core.Path.{◌≡◌, refl, sym, ap, ◌∙◌}
use mathlib.Core.Logic.{inl, inr}
use mathlib.Core.Bool.{false}
use mathlib.Core.Option.{some}
use native.Mathlib.Numerals.{add-one}
use native.Mathlib.Omega.{arith}
use axonops_schema_registry.Common.Tests.{ltb, Bool-cases, lt→ltb}
use axonops_schema_registry.Common.Int.{pos}
use axonops_schema_registry.Common.Text.{
  digits_from, digits, signed, atoi, decimal_from, decimal, itoa,
}

digit_code : (d : ℕ) → d < 10 → code (char_at "0123456789" d) ≡ b'0' + d
digit_code zero h = refl
digit_code (suc zero) h = refl
digit_code (suc (suc zero)) h = refl
digit_code (suc (suc (suc zero))) h = refl
digit_code (suc (suc (suc (suc zero)))) h = refl
digit_code (suc (suc (suc (suc (suc zero))))) h = refl
digit_code (suc (suc (suc (suc (suc (suc zero)))))) h = refl
digit_code (suc (suc (suc (suc (suc (suc (suc zero))))))) h = refl
digit_code (suc (suc (suc (suc (suc (suc (suc (suc zero)))))))) h = refl
digit_code (suc (suc (suc (suc (suc (suc (suc (suc (suc zero))))))))) h = refl
digit_code (suc (suc (suc (suc (suc (suc (suc (suc (suc (suc n)))))))))) h = absurd (omega arith)

-- Reading a digit before other text.
digits_from_digit :
    (acc d : ℕ) (s : String)
    → d < 10
    → digits_from acc (char_at "0123456789" d ∷ s) ≡ digits_from (acc * 10 + d) s
unfolding digits_from
digits_from_digit acc d s h = ground (arith, digit_code d h)

digits_from-decimal_from :
    (f n : ℕ) (s : String) → n < f → digits_from 0 (decimal_from f n s) ≡ digits_from n s
unfolding decimal_from
digits_from-decimal_from zero n s h = absurd (omega arith)
digits_from-decimal_from (suc f) n s h = elim (Bool-cases (ltb n 10)) [
  | inl small ↦
      let e : 0 * 10 + n % 10 ≡ n = ground (arith, small) in
      rw (small, decimal_from)
        (digits_from_digit 0 (n % 10) s (omega arith) ∙ ap (λ k. digits_from k s) e)
  | inr large ↦
      let e : n / 10 * 10 + n % 10 ≡ n = omega arith in
      rw (large, decimal_from)
        (digits_from-decimal_from f (n / 10) (char_at "0123456789" (n % 10) ∷ s)
            (ground (arith, large))
          ∙ digits_from_digit (n / 10) (n % 10) s (omega arith)
          ∙ ap (λ k. digits_from k s) e)
]

abbrev BeginsWithDigit : String → Type 0
BeginsWithDigit s = (d : ℕ) × (t : String) × (d < 10) × (s ≡ char_at "0123456789" d ∷ t)

BeginsWithDigit-decimal_from :
    (f n d : ℕ) (s : String)
    → d < 10
    → BeginsWithDigit (decimal_from f n (char_at "0123456789" d ∷ s))
unfolding decimal_from
BeginsWithDigit-decimal_from zero n d s h = (d, s, h, refl)
BeginsWithDigit-decimal_from (suc f) n d s h = elim (Bool-cases (ltb n 10)) [
  | inl small ↦ rw (small, decimal_from) (n % 10, char_at "0123456789" d ∷ s, omega arith, refl)
  | inr large ↦
      rw (large, decimal_from)
        (BeginsWithDigit-decimal_from f (n / 10) (n % 10) (char_at "0123456789" d ∷ s)
          (omega arith))
]

decimal-BeginsWithDigit : (n : ℕ) → BeginsWithDigit (decimal n)
unfolding decimal decimal_from
decimal-BeginsWithDigit n = elim (Bool-cases (ltb n 10)) [
  | inl small ↦ rw (add-one, small, decimal_from) (n % 10, [], omega arith, refl)
  | inr large ↦
      rw (add-one, large, decimal_from)
        (BeginsWithDigit-decimal_from n (n / 10) (n % 10) [] (omega arith))
]

atoi_of_digit :
    (d : ℕ) (t : String)
    → d < 10
    → atoi (char_at "0123456789" d ∷ t) ≡ signed false (digits_from 0 (char_at "0123456789" d ∷ t))
unfolding atoi digits
atoi_of_digit d t h = ground (arith, digit_code d h)

-- A number that is written is read back, where 64 bits hold it.
pub atoi-itoa : (n : ℕ) → n < 2 ^ 63 → atoi (itoa (pos n)) ≡ some (pos n)
unfolding itoa signed
atoi-itoa n h =
    let (d, t, small, e) = decimal-BeginsWithDigit n in
    let read : digits_from 0 (decimal n) ≡ some n =
      unfold decimal digits_from in digits_from-decimal_from (n + 1) n [] (omega arith) in
    rw e (
      atoi_of_digit d t small
      ∙ ap (λ k. signed false (digits_from 0 k)) (sym e)
      ∙ ap (signed false) read
      ∙ ground (arith, lt→ltb n (2 ^ 63) h))
