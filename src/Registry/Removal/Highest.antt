-- ===== src/Registry/Removal/Highest.antt =====
-- The highest version that is soft-deleted.
use axonops_schema_registry.Common.{
  zero, suc, ◌≡◌, refl, sym, ap, ◌∙◌, subst, ◌≢◌, ◌⊎◌, inl, inr, true, ◌&&◌, List, [], ◌∷◌, arith,
  if◌then◌else◌, Bool-cases, ℕ_eq, string_eq, ℤ, pos, negsuc, ℤ_eq, ◌≤ℤ◌, ◌<ℤ◌, ltb_ℤ,
}
use axonops_schema_registry.Storage.{SchemaRecord}
use axonops_schema_registry.Registry.Backend.{Registry}
use axonops_schema_registry.Registry.Removal.{latest_deleted}

-- A version that is soft-deleted, and that no soft-deleted one is above.
abbrev pub HasDeleted : ℤ → List SchemaRecord → Type 0
HasDeleted target [] = ⊥
HasDeleted target (v ∷ rest) = ((v.deleted ≡ true) × (v.version ≡ target)) ⊎ HasDeleted target rest

abbrev pub DeletedUpTo : ℤ → List SchemaRecord → Type 0
DeletedUpTo bound [] = Unit
DeletedUpTo bound (v ∷ rest) = (v.deleted ≡ true → v.version ≤ℤ bound) × DeletedUpTo bound rest

abbrev pub IsHighestDeleted : ℤ → List SchemaRecord → Type 0
IsHighestDeleted target versions =
    (negsuc 0 <ℤ target) × HasDeleted target versions × DeletedUpTo target versions

HasDeleted-below :
    (target bound : ℤ) (l : List SchemaRecord)
    → HasDeleted target l
    → DeletedUpTo bound l
    → target ≤ℤ bound
HasDeleted-below target bound [] h g = elim h [ ]
HasDeleted-below target bound (v ∷ rest) (inl h) g = subst (λ x. x ≤ℤ bound) h.1 (g.0 h.0)
HasDeleted-below target bound (v ∷ rest) (inr h) g = HasDeleted-below target bound rest h g.1

le_antisym_ℤ : (a b : ℤ) → a ≤ℤ b → b ≤ℤ a → a ≡ b
le_antisym_ℤ (pos m) (pos n) h k = ap pos (omega (arith, h, k))
le_antisym_ℤ (pos m) (negsuc n) h k = absurd (omega (arith, h, k))
le_antisym_ℤ (negsuc m) (pos n) h k = absurd (omega (arith, h, k))
le_antisym_ℤ (negsuc m) (negsuc n) h k = ap negsuc (omega (arith, h, k))

above_minus_one : (a : ℤ) → negsuc 0 ≤ℤ a → a ≢ negsuc 0 → negsuc 0 <ℤ a
above_minus_one (pos n) h other = omega arith
above_minus_one (negsuc zero) h other = absurd (other refl)
above_minus_one (negsuc (suc n)) h other = absurd (omega (arith, h))

module _ {S P : Type 0} (r : Registry S P) where
  latest_deleted_from :
      (resolved : ℤ) (l : List SchemaRecord) → resolved ≤ℤ latest_deleted r resolved l
  unfolding latest_deleted
  latest_deleted_from resolved [] = omega arith
  latest_deleted_from resolved (v ∷ rest) =
      let start = if v.deleted && ltb_ℤ resolved v.version then v.version else resolved in
      let first : resolved ≤ℤ start = ground arith in
      omega (arith, first, latest_deleted_from start rest)

  latest_deleted-DeletedUpTo :
      (resolved : ℤ) (l : List SchemaRecord) → DeletedUpTo (latest_deleted r resolved l) l
  unfolding latest_deleted
  latest_deleted-DeletedUpTo resolved [] = tt
  latest_deleted-DeletedUpTo resolved (v ∷ rest) =
      let start = if v.deleted && ltb_ℤ resolved v.version then v.version else resolved in
      (
        λ deleted.
            let first : v.version ≤ℤ start = ground (arith, deleted) in
            omega (arith, first, latest_deleted_from start rest),
        latest_deleted-DeletedUpTo start rest,
      )

  latest_deleted-HasDeleted :
      (resolved : ℤ) (l : List SchemaRecord)
      → (latest_deleted r resolved l ≡ resolved) ⊎ HasDeleted (latest_deleted r resolved l) l
  unfolding latest_deleted
  latest_deleted-HasDeleted resolved [] = inl refl
  latest_deleted-HasDeleted resolved (v ∷ rest) =
      let start = if v.deleted && ltb_ℤ resolved v.version then v.version else resolved in
      elim (latest_deleted-HasDeleted start rest) [
        | inr later ↦ inr (inr later)
        | inl same ↦ elim (Bool-cases (v.deleted && ltb_ℤ resolved v.version)) [
          | inl taken ↦ inr (inl (ground (arith, taken), sym (same ∙ rw taken refl)))
          | inr passed ↦ inl (same ∙ rw passed refl)
        ]
      ]

  pub latest_deleted-IsHighestDeleted :
      (l : List SchemaRecord)
      → latest_deleted r (negsuc 0) l ≢ negsuc 0
      → IsHighestDeleted (latest_deleted r (negsuc 0) l) l
  latest_deleted-IsHighestDeleted l other =
      let above = latest_deleted_from (negsuc 0) l in
      (
        above_minus_one _ above other,
        elim (latest_deleted-HasDeleted (negsuc 0) l) [
          | inl same ↦ absurd (other same)
          | inr there ↦ there
        ],
        latest_deleted-DeletedUpTo (negsuc 0) l,
      )

  pub highest_deleted_unique :
      (target : ℤ) (l : List SchemaRecord)
      → IsHighestDeleted target l
      → target ≡ latest_deleted r (negsuc 0) l
  highest_deleted_unique target l h =
      let up = HasDeleted-below target _ l h.1 (latest_deleted-DeletedUpTo (negsuc 0) l) in
      elim (latest_deleted-HasDeleted (negsuc 0) l) [
        | inl same ↦ absurd (omega (arith, h.0, subst (λ x. target ≤ℤ x) same up))
        | inr there ↦ le_antisym_ℤ target _ up (HasDeleted-below _ target l there h.2)
      ]
