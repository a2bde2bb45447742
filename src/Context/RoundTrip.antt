-- ===== src/Context/RoundTrip.antt =====
-- A subject with its context in front, written and read back.
use axonops_schema_registry.Common.{
  ℕ, ◌≡◌, refl, ap, subst, inl, inr, true, false, ◌&&◌, Option, some, [], ◌∷◌, ◌++◌, arith, ltb,
  Bool-cases, Option-cases, ℕ_eq, string_eq, ◌==◌, ==_iff, ℤ_eq,
}
use axonops_schema_registry.Context.{
  Bytes, colon, dot, default_context_name, bytes_eq, bytes_length, cut_at_colon, is_qualified,
  resolve_subject, format_subject, is_alpha_numeric, has_valid_characters, is_valid_context_name,
  starts_with_dot, normalize_context_name,
}

-- A name has no colon, so the first colon after it is the one that ends it.
cut_at_colon-append :
    (name subject : Bytes)
    → has_valid_characters name ≡ true
    → cut_at_colon (name ++ colon ∷ subject) ≡ some (name, subject)
unfolding cut_at_colon has_valid_characters is_alpha_numeric
cut_at_colon-append [] subject h = refl
cut_at_colon-append (c ∷ name) subject h =
    let tail : has_valid_characters name ≡ true = ground (arith, h) in
    let other : (c == colon) ≡ false = ground (arith, h) in
    rw (cut_at_colon, cut_at_colon-append name subject tail, other) refl

cut_at_colon_joined :
    (l before after : Bytes) → cut_at_colon l ≡ some (before, after) → before ++ colon ∷ after ≡ l
unfolding cut_at_colon
cut_at_colon_joined [] before after h = cc
cut_at_colon_joined (x ∷ l) before after h = elim (Bool-cases (x == colon)) [
  | inl same ↦
      let at : x ≡ colon = ground (arith, same, ==_iff x colon) in
      let e : ◌≡◌ {A = Option (Bytes × Bytes)} (some ([], l)) (some (before, after)) =
        ground (arith, h, same) in
      cc
  | inr other ↦ elim (Option-cases (cut_at_colon l)) [
    | inl absent ↦ absurd (ground (arith, h, other, absent))
    | inr ((b, a), found) ↦
        let e : ◌≡◌ {A = Option (Bytes × Bytes)} (some (x ∷ b, a)) (some (before, after)) =
          ground (arith, h, other, found) in
        let ih : b ++ colon ∷ a ≡ l = cut_at_colon_joined l b a found in cc
  ]
]

format_qualified :
    (rest before after : Bytes)
    → cut_at_colon rest ≡ some (before, after)
    → format_subject
        (resolve_subject (colon ∷ dot ∷ rest)).0
        (resolve_subject (colon ∷ dot ∷ rest)).1
      ≡ colon ∷ dot ∷ rest
unfolding format_subject resolve_subject is_qualified
format_qualified rest [] after e = rw e refl
format_qualified rest (x ∷ before) after e =
    rw e (ap (λ l. colon ∷ dot ∷ l) (cut_at_colon_joined rest (x ∷ before) after e))

format_prefixed :
    (rest : Bytes)
    → format_subject
        (resolve_subject (colon ∷ dot ∷ rest)).0
        (resolve_subject (colon ∷ dot ∷ rest)).1
      ≡ colon ∷ dot ∷ rest
unfolding format_subject resolve_subject is_qualified
format_prefixed rest = elim (Option-cases (cut_at_colon rest)) [
  | inl absent ↦ rw absent refl
  | inr ((before, after), found) ↦ format_qualified rest before after found
]

-- Formatting the context and the subject that any text is resolved into gives the text back.
pub format_subject-resolve_subject :
    (text : Bytes) → format_subject (resolve_subject text).0 (resolve_subject text).1 ≡ text
unfolding format_subject resolve_subject is_qualified
format_subject-resolve_subject [] = refl
format_subject-resolve_subject (x ∷ []) = refl
format_subject-resolve_subject (x ∷ y ∷ rest) = elim (Bool-cases (is_qualified (x ∷ y ∷ rest))) [
  | inr plain_text ↦ rw (plain_text, resolve_subject, is_qualified) refl
  | inl prefixed ↦
      let first : colon ≡ x = ground (arith, prefixed, ==_iff x colon) in
      let second : dot ≡ y = ground (arith, prefixed, ==_iff y dot) in
      subst
        (λ a.
          format_subject (resolve_subject (a ∷ y ∷ rest)).0 (resolve_subject (a ∷ y ∷ rest)).1
          ≡ a ∷ y ∷ rest)
        first
        (subst
          (λ b.
            format_subject (resolve_subject (colon ∷ b ∷ rest)).0
              (resolve_subject (colon ∷ b ∷ rest)).1
            ≡ colon ∷ b ∷ rest)
          second (format_prefixed rest))
]

has_valid_characters_tail :
    (c : ℕ) (l : Bytes) → has_valid_characters (c ∷ l) ≡ true → has_valid_characters l ≡ true
unfolding has_valid_characters
has_valid_characters_tail c l h = ground (arith, h)

valid_characters :
    (x y : ℕ) (name : Bytes)
    → is_valid_context_name (x ∷ y ∷ name) ≡ true
    → has_valid_characters (x ∷ y ∷ name) ≡ true
unfolding is_valid_context_name
valid_characters x y name v = elim (Bool-cases (ltb 255 (bytes_length (x ∷ y ∷ name)))) [
  | inl long ↦ ground (arith, v, long)
  | inr short ↦ elim (Bool-cases (x == dot)) [
    | inl is_dot ↦ ground (arith, v, short, is_dot)
    | inr not_dot ↦ ground (arith, v, short, not_dot)
  ]
]

-- Where a valid context name starts with a dot, and it is not the default context with a subject
-- that itself looks qualified, the formatted subject is resolved into the name and the subject that
-- it was made of.
pub resolve_subject-format_subject :
    (name subject : Bytes)
    → is_valid_context_name name ≡ true
    → starts_with_dot name ≡ true
    → (bytes_eq name default_context_name && is_qualified subject) ≡ false
    → resolve_subject (format_subject name subject) ≡ (name, subject)
unfolding format_subject resolve_subject is_qualified is_valid_context_name
resolve_subject-format_subject [] subject v d q = cc
resolve_subject-format_subject (x ∷ []) subject v d q = ground (arith, v, d, q)
resolve_subject-format_subject (x ∷ y ∷ name) subject v d q =
    let tail : has_valid_characters (y ∷ name) ≡ true =
      has_valid_characters_tail x (y ∷ name) (valid_characters x y name v) in
    ground (arith, v, d, cut_at_colon-append (y ∷ name) subject tail)

-- A normalized context name starts with a dot, and normalizing it again changes nothing.
normalize_context_name_idempotent :
    (name : Bytes)
    → (starts_with_dot (normalize_context_name name) ≡ true)
      × (normalize_context_name (normalize_context_name name) ≡ normalize_context_name name)
unfolding normalize_context_name
normalize_context_name_idempotent [] = (refl, refl)
normalize_context_name_idempotent (x ∷ name) = ground arith
