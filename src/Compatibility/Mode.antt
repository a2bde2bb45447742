-- ===== src/Compatibility/Mode.antt =====
-- internal/compatibility/modes.go. A mode is a text, as in the source.
use axonops_schema_registry.Common.{
  String, Bool, false, ◌||◌, List, [], ◌∷◌, ◌==◌, ℕ_eq, string_eq, ℤ_eq,
}

abbrev pub Mode : Type 0
Mode = String

abbrev pub mode_none : Mode
mode_none = "NONE"

abbrev pub mode_backward : Mode
mode_backward = "BACKWARD"

abbrev pub mode_backward_transitive : Mode
mode_backward_transitive = "BACKWARD_TRANSITIVE"

abbrev pub mode_forward : Mode
mode_forward = "FORWARD"

abbrev pub mode_forward_transitive : Mode
mode_forward_transitive = "FORWARD_TRANSITIVE"

abbrev pub mode_full : Mode
mode_full = "FULL"

abbrev pub mode_full_transitive : Mode
mode_full_transitive = "FULL_TRANSITIVE"

-- The test of a `switch` case with several values.
abbrev pub one_of : Mode → List Mode → Bool
one_of m [] = false
one_of m (a ∷ rest) = m == a || one_of m rest

unfoldable pub is_valid : Mode → Bool
is_valid m = one_of m (
    mode_none ∷ mode_backward ∷ mode_backward_transitive ∷ mode_forward ∷ mode_forward_transitive
    ∷ mode_full ∷ mode_full_transitive ∷ [])

unfoldable pub is_transitive : Mode → Bool
is_transitive m =
    one_of m (mode_backward_transitive ∷ mode_forward_transitive ∷ mode_full_transitive ∷ [])

unfoldable pub requires_backward : Mode → Bool
requires_backward m =
    one_of m (mode_backward ∷ mode_backward_transitive ∷ mode_full ∷ mode_full_transitive ∷ [])

unfoldable pub requires_forward : Mode → Bool
requires_forward m =
    one_of m (mode_forward ∷ mode_forward_transitive ∷ mode_full ∷ mode_full_transitive ∷ [])

unfoldable pub parse_mode : String → Mode × Bool
parse_mode s = (s, is_valid s)
