-- ===== src/Compatibility/Checker.antt =====
-- internal/compatibility/checker.go: which pairs of schemas a mode checks, and how the results join.
use axonops_schema_registry.Common.{
  get, put, ℕ, ◌+◌, String, not, none, some, List, [], ◌∷◌, if◌then◌else◌, ◌==◌, ℕ_eq, string_eq,
  ℤ_eq, Map,
}
use axonops_schema_registry.Storage.{Reference}
use axonops_schema_registry.Compatibility.Result.{
  Message, plain, against, CheckResult, new_compatible_result, new_incompatible_result, add_message,
}
use axonops_schema_registry.Compatibility.Mode.{
  Mode, mode_none, is_transitive, requires_backward, requires_forward,
}

pub record SchemaWithRefs : Type 0 where
  pub schema : String
  pub references : List Reference

-- A checker of one schema type: reader first, writer second.
abbrev pub SchemaChecker : Type 0
SchemaChecker = SchemaWithRefs → SchemaWithRefs → CheckResult

abbrev pub Checkers : Type 0
Checkers = Map String SchemaChecker

unfoldable pub register : Checkers → String → SchemaChecker → Checkers
register c schema_type checker = put c schema_type checker

-- The inner loops: each message of a failed check is added, with the direction and the number.
unfoldable pub add_each : CheckResult → String → ℕ → List Message → CheckResult
add_each result direction number [] = result
add_each result direction number (m ∷ rest) =
    add_each (add_message result (against direction number m)) direction number rest

unfoldable pub add_failures : CheckResult → String → ℕ → CheckResult → CheckResult
add_failures result direction number check_result =
    if not check_result.is_compatible
    then add_each result direction number check_result.messages
    else result

-- The body of the loop over the existing schemas; `i` is the index.
unfoldable pub check_one :
    Mode → SchemaChecker → SchemaWithRefs → ℕ → SchemaWithRefs → CheckResult → CheckResult
check_one mode checker new_schema i existing result =
    let backward =
      if requires_backward mode
      then add_failures result "BACKWARD" (i + 1) (checker new_schema existing)
      else result in
    if requires_forward mode
    then add_failures backward "FORWARD" (i + 1) (checker existing new_schema)
    else backward

unfoldable pub check_each :
    Mode → SchemaChecker → SchemaWithRefs → ℕ → List SchemaWithRefs → CheckResult → CheckResult
check_each mode checker new_schema i [] result = result
check_each mode checker new_schema i (existing ∷ rest) result =
    check_each mode checker new_schema (i + 1) rest
      (check_one mode checker new_schema i existing result)

-- `existingSchemas[len(existingSchemas)-1:]`
unfoldable pub last_only : List SchemaWithRefs → List SchemaWithRefs
last_only [] = []
last_only (a ∷ []) = a ∷ []
last_only (a ∷ b ∷ rest) = last_only (b ∷ rest)

unfoldable pub schemas_to_check : Mode → List SchemaWithRefs → List SchemaWithRefs
schemas_to_check mode existing = if is_transitive mode then existing else last_only existing

unfoldable pub check : Checkers → Mode → String → SchemaWithRefs → List SchemaWithRefs → CheckResult
check c mode schema_type new_schema [] = new_compatible_result
check c mode schema_type new_schema (a ∷ rest) =
    if mode == mode_none then new_compatible_result else elim (get c schema_type) [
      | none ↦
          new_incompatible_result
            (plain "no compatibility checker for schema type: %s" (schema_type ∷ []) ∷ [])
      | some checker ↦
          check_each mode checker new_schema 0 (schemas_to_check mode (a ∷ rest))
            new_compatible_result
    ]

unfoldable pub check_pair : Checkers → Mode → String → SchemaWithRefs → SchemaWithRefs → CheckResult
check_pair c mode schema_type new_schema existing =
    check c mode schema_type new_schema (existing ∷ [])
