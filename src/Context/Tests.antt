-- ===== src/Context/Tests.antt =====
-- The theorems on contexts at concrete names.
use axonops_schema_registry.Common.{◌≡◌, refl, [], ◌∷◌, ℕ_eq, string_eq, ℤ_eq}
use axonops_schema_registry.Context.{
  Bytes, cut_at_colon, is_qualified, resolve_subject, format_subject, is_alpha_numeric,
  has_valid_characters, is_valid_context_name,
}
use axonops_schema_registry.Context.RoundTrip.{
  format_subject-resolve_subject, resolve_subject-format_subject,
}

-- ".ab"
abbrev tenant : Bytes
tenant = 46 ∷ 97 ∷ 98 ∷ []

-- ":.x:y"
abbrev qualified_text : Bytes
qualified_text = 58 ∷ 46 ∷ 120 ∷ 58 ∷ 121 ∷ []

-- A subject that looks qualified, under a context of its own.
resolve_subject-format_subject_example :
    resolve_subject (format_subject tenant qualified_text) ≡ (tenant, qualified_text)
unfolding is_valid_context_name has_valid_characters is_alpha_numeric is_qualified
resolve_subject-format_subject_example =
    resolve_subject-format_subject tenant qualified_text refl refl refl

format_subject-resolve_subject_example :
    format_subject (resolve_subject qualified_text).0 (resolve_subject qualified_text).1
    ≡ qualified_text
format_subject-resolve_subject_example = format_subject-resolve_subject qualified_text

-- ".x" and "y"
qualified_text_resolved : resolve_subject qualified_text ≡ (46 ∷ 120 ∷ [], 121 ∷ [])
unfolding resolve_subject is_qualified cut_at_colon
qualified_text_resolved = refl
