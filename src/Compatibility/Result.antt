-- ===== src/Compatibility/Result.antt =====
-- internal/compatibility/result.go. A message is kept as its format and what is put into it.
use axonops_schema_registry.Common.{
  ℕ, String, Bool, true, false, not, List, [], ◌∷◌, ◌++◌, if◌then◌else◌, ℕ_eq, string_eq, ℤ_eq,
}

pub data Message : Type 0 where
  -- `fmt.Sprintf(format, args...)` of texts
  plain : String → List String → Message
  -- "... compatibility check failed against version %d: %s"
  against : String → ℕ → Message → Message

pub record CheckResult : Type 0 where
  pub is_compatible : Bool
  pub messages : List Message

unfoldable pub new_compatible_result : CheckResult
new_compatible_result = record { is_compatible = true; messages = [] }

unfoldable pub new_incompatible_result : List Message → CheckResult
new_incompatible_result messages = record { is_compatible = false; messages = messages }

unfoldable pub add_message : CheckResult → Message → CheckResult
add_message r m = record { is_compatible = false; messages = r.messages ++ m ∷ [] }

unfoldable pub merge : CheckResult → CheckResult → CheckResult
merge r other =
    if not other.is_compatible
    then record { is_compatible = false; messages = r.messages ++ other.messages }
    else r
