-- ===== src/Analysis/Fuzzy.antt =====
-- The edit distance: internal/analysis/fuzzy.go, `LevenshteinDistance`. Texts are lists of bytes; a
-- distance is at most the length of a text, so no `int` wraps around.
use axonops_schema_registry.Common.{
  ℕ, zero, suc, ◌+◌, Bool, List, [], ◌∷◌, length, if◌then◌else◌, ℕ_eq, ◌==◌,
}
use axonops_schema_registry.Context.{Bytes}
use Prim.Native.Nat.{min}
pub mod Least
pub mod Tests

abbrev pub cost : ℕ → ℕ → ℕ
cost x y = if x == y then 0 else 1

-- `n, n + 1, …`, one more than the bytes.
abbrev pub count_from : ℕ → Bytes → List ℕ
count_from n [] = n ∷ []
count_from n (y ∷ ys) = n ∷ count_from (suc n) ys

-- The inner loop from some `j` on: `left` is `curr[j-1]`, and `diagonal ∷ prev` is `prev[j-1:]`.
unfoldable pub fill : ℕ → Bytes → ℕ → ℕ → List ℕ → List ℕ
fill x (y ∷ ys) left diagonal (up ∷ prev) =
    let here = min (left + 1) (min (up + 1) (diagonal + cost x y)) in here ∷ fill x ys here up prev
fill x _ left diagonal _ = []

-- `curr`, with `i` for `curr[0]`.
abbrev pub next_row : ℕ → ℕ → Bytes → List ℕ → List ℕ
next_row i x b [] = i ∷ []
next_row i x b (first ∷ prev) = i ∷ fill x b i first prev

-- The outer loop from `i` on.
unfoldable pub rows : ℕ → Bytes → Bytes → List ℕ → List ℕ
rows i [] b prev = prev
rows i (x ∷ a) b prev = rows (i + 1) a b (next_row i x b prev)

-- A row has `len(b) + 1` entries, so `prev[lb]` is in range.
abbrev pub row_entry : List ℕ → ℕ → ℕ
row_entry [] j = 0
row_entry (e ∷ es) zero = e
row_entry (e ∷ es) (suc j) = row_entry es j

unfoldable pub levenshtein_distance : Bytes → Bytes → ℕ
levenshtein_distance [] b = length b
levenshtein_distance a [] = length a
levenshtein_distance a b = row_entry (rows 1 a b (count_from 0 b)) (length b)
