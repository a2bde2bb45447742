-- ===== src/Context.antt =====
-- internal/context/context.go: the names of contexts, and subjects that carry one. A text is the list
-- of its bytes; a character that is not ASCII is made of bytes of 128 and above, as in the source.
use axonops_schema_registry.Common.{
  ℕ, ◌+◌, Bool, true, false, not, ◌&&◌, ◌||◌, Option, none, some, List, [], ◌∷◌, ◌++◌, ltb, leb,
  if◌then◌else◌, ℕ_eq, string_eq, ◌==◌, ℤ_eq,
}
pub mod RoundTrip
pub mod Tests

abbrev pub Bytes : Type 0
Bytes = List ℕ

-- The byte ':'
abbrev pub colon : ℕ
colon = 58

-- The byte '.'
abbrev pub dot : ℕ
dot = 46

abbrev pub default_context_name : Bytes
default_context_name = dot ∷ []

abbrev pub bytes_eq : Bytes → Bytes → Bool
bytes_eq [] [] = true
bytes_eq (x ∷ l) (y ∷ k) = x == y && bytes_eq l k
bytes_eq _ _ = false

abbrev pub no_bytes : Bytes → Bool
no_bytes [] = true
no_bytes (x ∷ l) = false

abbrev pub bytes_length : Bytes → ℕ
bytes_length [] = 0
bytes_length (x ∷ l) = 1 + bytes_length l

-- `rest[:idx]` and `rest[idx+1:]`, where `idx` is the index of the first colon, if there is one.
unfoldable pub cut_at_colon : Bytes → Option (Bytes × Bytes)
cut_at_colon [] = none
cut_at_colon (x ∷ l) =
    let later = cut_at_colon l in
    if x == colon
    then some ([], l)
    else elim later [ none ↦ none | some (before, after) ↦ some (x ∷ before, after) ]

-- `strings.HasPrefix(subject, ":.")`
unfoldable pub is_qualified : Bytes → Bool
is_qualified (x ∷ y ∷ l) = x == colon && y == dot
is_qualified _ = false

unfoldable pub resolve_subject : Bytes → Bytes × Bytes
resolve_subject (x ∷ y ∷ rest) =
    if is_qualified (x ∷ y ∷ rest)
    then elim (cut_at_colon rest) [
      | none ↦ (default_context_name, x ∷ y ∷ rest)
      | some (name, subject) ↦
          if no_bytes name then (default_context_name, x ∷ y ∷ rest) else (dot ∷ name, subject)
    ]
    else (default_context_name, x ∷ y ∷ rest)
resolve_subject subject = (default_context_name, subject)

unfoldable pub format_subject : Bytes → Bytes → Bytes
format_subject registry_ctx subject =
    if bytes_eq registry_ctx default_context_name || no_bytes registry_ctx
    then subject
    else colon ∷ registry_ctx ++ colon ∷ subject

unfoldable pub is_alpha_numeric : ℕ → Bool
is_alpha_numeric c = leb 97 c && leb c 122 || (leb 65 c && leb c 90 || leb 48 c && leb c 57)

-- The loop over the characters: letters, digits, '-', '_' and '.'
unfoldable pub has_valid_characters : Bytes → Bool
has_valid_characters [] = true
has_valid_characters (c ∷ rest) =
    (is_alpha_numeric c || (c == 45 || (c == 95 || c == dot))) && has_valid_characters rest

unfoldable pub is_valid_context_name : Bytes → Bool
is_valid_context_name name =
    if no_bytes name || ltb 255 (bytes_length name)
    then false
    else if bytes_eq name default_context_name
    then true
    else has_valid_characters name

-- `strings.HasPrefix(name, ".")`
abbrev pub starts_with_dot : Bytes → Bool
starts_with_dot [] = false
starts_with_dot (x ∷ l) = x == dot

unfoldable pub normalize_context_name : Bytes → Bytes
normalize_context_name name =
    if bytes_eq name (colon ∷ dot ∷ colon ∷ []) || no_bytes name
    then default_context_name
    else if not (starts_with_dot name)
    then dot ∷ name
    else name
