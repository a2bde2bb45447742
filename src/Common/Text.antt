-- ===== src/Common/Text.antt =====
-- Go's `strings` and `strconv` on texts, as the repository calls them.
use Prim.Native.Nat.{ℕ, zero, suc, ◌+◌, ◌-◌, ◌*◌, ◌/◌, ◌%◌, ◌^◌}
use Prim.Native.Char.{Char, code}
use Prim.Native.String
use Prim.Native.String.{String, [], ◌∷◌, char_at}
use mathlib.Core.Path.{◌≡◌, refl}
use mathlib.Core.Bool.{Bool, true, false, ◌&&◌, ◌||◌}
use mathlib.Core.Option.{Option, none, some}
use mathlib.Core.List.{List, [], ◌∷◌}
use axonops_schema_registry.Common.Tests.{ltb, leb, nat_eq, if◌then◌else◌}
use axonops_schema_registry.Common.Int.{ℤ, pos, negsuc}

-- `strings.ToUpper`. Two letters that are not ASCII have an ASCII upper case, and no other text that
-- is not ASCII becomes ASCII; the upper case of the others is not worked out.
unfoldable pub upper : Char → Char
upper c =
    if leb b'a' (code c) && leb (code c) b'z'
    then char_at "ABCDEFGHIJKLMNOPQRSTUVWXYZ" (code c - b'a')
    else if nat_eq (code c) 0x131
    then char_at "I" 0
    else if nat_eq (code c) 0x17F
    then char_at "S" 0
    else c

unfoldable pub to_upper : String → String
to_upper [] = []
to_upper (c ∷ s) = upper c ∷ to_upper s

-- `unicode.IsSpace`
unfoldable pub is_space : Char → Bool
is_space c =
    let n = code c in
    leb 9 n && leb n 13
    || (nat_eq n 32
        || (nat_eq n 0x85
            || (nat_eq n 0xA0
                || (nat_eq n 0x1680
                    || (leb 0x2000 n && leb n 0x200A
                        || (nat_eq n 0x2028
                            || (nat_eq n 0x2029
                                || (nat_eq n 0x202F || (nat_eq n 0x205F || nat_eq n 0x3000)))))))))

unfoldable pub trim_left : String → String
trim_left [] = []
trim_left (c ∷ s) = let rest = trim_left s in if is_space c then rest else c ∷ s

-- A space is dropped where nothing but spaces comes after it.
unfoldable pub trim_right : String → String
trim_right [] = []
trim_right (c ∷ s) =
    let rest = trim_right s in
    elim rest [ [] ↦ if is_space c then [] else c ∷ [] | d ∷ t ↦ c ∷ d ∷ t ]

unfoldable pub trim_space : String → String
trim_space s = trim_right (trim_left s)

-- The first part is put before those of the rest.
abbrev longer : Char → List String → List String
longer c [] = (c ∷ []) ∷ []
longer c (s ∷ parts) = (c ∷ s) ∷ parts

-- `strings.Split(s, ",")`
unfoldable pub split_comma : String → List String
split_comma [] = [] ∷ []
split_comma (c ∷ s) =
    let parts = split_comma s in if nat_eq (code c) b',' then [] ∷ parts else longer c parts

unfoldable pub digits_from : ℕ → String → Option ℕ
digits_from acc [] = some acc
digits_from acc (c ∷ s) =
    let rest = digits_from (acc * 10 + (code c - b'0')) s in
    if leb b'0' (code c) && leb (code c) b'9' then rest else none

-- At least one digit, and nothing else.
unfoldable pub digits : String → Option ℕ
digits [] = none
digits (c ∷ s) = digits_from 0 (c ∷ s)

-- A number that 64 bits hold, with its sign.
unfoldable pub signed : Bool → Option ℕ → Option ℤ
signed negative none = none
signed false (some n) = if ltb n (2 ^ 63) then some (pos n) else none
signed true (some zero) = some (pos 0)
signed true (some (suc n)) = if ltb n (2 ^ 63) then some (negsuc n) else none

-- `strconv.Atoi`
unfoldable pub atoi : String → Option ℤ
atoi [] = none
atoi (c ∷ s) =
    if nat_eq (code c) b'-'
    then signed true (digits s)
    else if nat_eq (code c) b'+'
    then signed false (digits s)
    else signed false (digits (c ∷ s))

-- The decimal digits of a number, before what is there already; the fuel bounds the digits.
unfoldable pub decimal_from : ℕ → ℕ → String → String
decimal_from zero n acc = acc
decimal_from (suc f) n acc =
    let acc' : String = char_at "0123456789" (n % 10) ∷ acc in
    let more = decimal_from f (n / 10) acc' in if ltb n 10 then acc' else more

unfoldable pub decimal : ℕ → String
decimal n = decimal_from (n + 1) n []

-- `strconv.Itoa`
unfoldable pub itoa : ℤ → String
itoa (pos n) = decimal n
itoa (negsuc n) = String.◌++◌ "-" (decimal (n + 1))

trimmed : trim_space "  a b " ≡ "a b"
unfolding trim_space trim_left trim_right is_space
trimmed = refl

read_back : atoi (itoa (negsuc 41)) ≡ some (negsuc 41)
unfolding atoi itoa signed digits digits_from decimal decimal_from
read_back = refl

shouted : to_upper "full_Transitive" ≡ "FULL_TRANSITIVE"
unfolding to_upper upper
shouted = refl

parts_of : split_comma "a,,b" ≡ "a" ∷ "" ∷ "b" ∷ []
unfolding split_comma
parts_of = refl
