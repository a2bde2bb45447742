-- ===== src/Analysis/Fuzzy/Tests.antt =====
-- Edit distances of concrete texts.
use axonops_schema_registry.Common.{◌≤◌, [], ◌∷◌, ◌≡◌, refl}
use axonops_schema_registry.Context.{Bytes}
use axonops_schema_registry.Analysis.Fuzzy.{levenshtein_distance, fill, rows}
use axonops_schema_registry.Analysis.Fuzzy.Least.{
  Edit, nothing, change, add_byte, levenshtein_distance_least,
}

-- "kitten"
abbrev kitten : Bytes
kitten = 107 ∷ 105 ∷ 116 ∷ 116 ∷ 101 ∷ 110 ∷ []

-- "knitting"
abbrev knitting : Bytes
knitting = 107 ∷ 110 ∷ 105 ∷ 116 ∷ 116 ∷ 105 ∷ 110 ∷ 103 ∷ []

levenshtein_distance-kitten : levenshtein_distance kitten knitting ≡ 3
unfolding levenshtein_distance fill rows
levenshtein_distance-kitten = refl

kitten-Edit : Edit kitten knitting 3
kitten-Edit = change 107 107 (
    add_byte 110 (
      change 105 105
        (change 116 116 (change 116 116 (change 101 105 (change 110 110 (add_byte 103 nothing)))))))

levenshtein_distance_least_example :
    Edit kitten knitting (levenshtein_distance kitten knitting)
    × (levenshtein_distance kitten knitting ≤ 3)
levenshtein_distance_least_example = levenshtein_distance_least kitten knitting 3 kitten-Edit
