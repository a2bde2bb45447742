-- ===== src/Registry/Imports/Counting.antt =====
-- What an import counts, and where it puts the next ID.
use axonops_schema_registry.Common.{
  ℕ, suc, ◌+◌, ◌<◌, String, ◌≡◌, refl, sym, ap, ◌∙◌, subst, ◌⊎◌, inl, inr, true, false, Option,
  none, some, List, [], ◌∷◌, ◌++◌, arith, if◌then◌else◌, Bool-cases, ℕ_eq, string_eq, ℤ, pos, ℤ_eq,
  ◌≤ℤ◌, ◌<ℤ◌, ltb_ℤ, leb_ℤ, max_int64, lt-inc64, length,
}
use axonops_schema_registry.Storage.{Result, ok, err}
use axonops_schema_registry.Registry.Backend.{Registry}
use axonops_schema_registry.Registry.Imports.{
  ImportSchemaRequest, ImportError, ImportSchemaResult, ImportResult, bad_field, result_of,
  import_one, tally, import_each, next_id_after, advance, import_schemas,
}

-- Each ID that was imported is at most a bound.
abbrev pub ImportedUpTo : ℤ → List ImportSchemaResult → Type 0
ImportedUpTo bound [] = Unit
ImportedUpTo bound (x ∷ rest) = (x.success ≡ true → x.id ≤ℤ bound) × ImportedUpTo bound rest

ImportedUpTo-mono :
    (m n : ℤ) (l : List ImportSchemaResult) → m ≤ℤ n → ImportedUpTo m l → ImportedUpTo n l
ImportedUpTo-mono m n [] h g = tt
ImportedUpTo-mono m n (x ∷ l) h g = ((λ p. omega (arith, h, g.0 p)), ImportedUpTo-mono m n l h g.1)

ImportedUpTo-snoc :
    (m : ℤ) (l : List ImportSchemaResult) (x : ImportSchemaResult)
    → ImportedUpTo m l
    → (x.success ≡ true → x.id ≤ℤ m)
    → ImportedUpTo m (l ++ x ∷ [])
ImportedUpTo-snoc m [] x g h = (h, tt)
ImportedUpTo-snoc m (y ∷ l) x g h = (g.0, ImportedUpTo-snoc m l x g.1 h)

length-snoc : {A : Type 0} (l : List A) (x : A) → length (l ++ x ∷ []) ≡ suc (length l)
length-snoc [] x = refl
length-snoc (y ∷ l) x = omega (arith, length-snoc l x)

-- The counters of a result agree with its list, and each imported ID is at most the greatest.
abbrev pub IsCounted : ImportResult → ℤ → ℕ → Type 0
IsCounted result max_id n =
    (result.imported + result.errors ≡ n)
    × (length result.results ≡ n)
    × ImportedUpTo max_id result.results
    × ((result.imported ≡ 0) ⊎ (pos 0 <ℤ max_id))

module _ {S P : Type 0} (r : Registry S P) (fuel : ℕ) where
  tally-IsCounted :
      (result : ImportResult) (max_id : ℤ) (req : ImportSchemaRequest) (e : Option ImportError)
      (n : ℕ)
      → (e ≡ none → leb_ℤ req.id (pos 0) ≡ false)
      → IsCounted result max_id n
      → IsCounted (tally r fuel result max_id req e).0 (tally r fuel result max_id req e).1 (suc n)
  unfolding tally
  tally-IsCounted result max_id req (some x) n positive h = (
    omega (arith, h.0),
    length-snoc result.results (result_of req (some x)) ∙ ap suc h.1,
    ImportedUpTo-snoc max_id result.results (result_of req (some x)) h.2 (λ p. absurd (cc p)),
    h.3,
  )
  tally-IsCounted result max_id req none n positive h =
      let greatest : ℤ = if ltb_ℤ max_id req.id then req.id else max_id in
      (
        omega (arith, h.0),
        length-snoc result.results (result_of req none) ∙ ap suc h.1,
        ImportedUpTo-snoc greatest result.results (result_of req none)
            (ImportedUpTo-mono max_id greatest result.results (ground arith) h.2)
            (λ p. ground arith),
        inr (ground (arith, positive refl)),
      )

  import_one_positive :
      (s : S) (registry_ctx : String) (req : ImportSchemaRequest)
      → (import_one r fuel s registry_ctx req).0 ≡ none
      → leb_ℤ req.id (pos 0) ≡ false
  unfolding import_one bad_field
  import_one_positive s registry_ctx req h = elim (Bool-cases (leb_ℤ req.id (pos 0))) [
    | inl low ↦ absurd (ground (arith, h, low))
    | inr high ↦ high
  ]

  import_each-IsCounted :
      (s : S) (registry_ctx : String) (schemas : List ImportSchemaRequest) (result : ImportResult)
      (max_id : ℤ) (n : ℕ)
      → IsCounted result max_id n
      → IsCounted
          (import_each r fuel s registry_ctx schemas result max_id).0
          (import_each r fuel s registry_ctx schemas result max_id).1
          (n + length schemas)
  unfolding import_each
  import_each-IsCounted s registry_ctx [] result max_id n h =
      subst (IsCounted result max_id) (omega arith) h
  import_each-IsCounted s registry_ctx (req ∷ rest) result max_id n h =
      let (e, s') = import_one r fuel s registry_ctx req in
      let (result', max_id') = tally r fuel result max_id req e in
      let after = import_each r fuel s' registry_ctx rest result' max_id' in
      subst (IsCounted after.0 after.1) (omega arith) (
        import_each-IsCounted s' registry_ctx rest result' max_id' (suc n)
          (tally-IsCounted result max_id req e n (import_one_positive s registry_ctx req) h))

  -- Each schema of an import is counted once, as imported or as an error, and has one result.
  pub import_schemas_counted :
      (s : S) (registry_ctx : String) (schemas : List ImportSchemaRequest)
      → ((import_schemas r fuel s registry_ctx schemas).0.imported
            + (import_schemas r fuel s registry_ctx schemas).0.errors
          ≡ length schemas)
        × (length (import_schemas r fuel s registry_ctx schemas).0.results ≡ length schemas)
  unfolding import_schemas
  import_schemas_counted s registry_ctx schemas =
      let counted =
        import_each-IsCounted s registry_ctx schemas
          (record { imported = 0; errors = 0; results = [] }) (pos 0) 0
          (refl, refl, tt, inl refl) in
      (omega (arith, counted.0), omega (arith, counted.1))

  -- Each ID is small enough to have a next one.
  abbrev pub SmallIds : List ImportSchemaRequest → Type 0
  SmallIds [] = Unit
  SmallIds (req ∷ rest) = (req.id <ℤ max_int64) × SmallIds rest

  tally_small :
      (result : ImportResult) (max_id : ℤ) (req : ImportSchemaRequest) (e : Option ImportError)
      → max_id <ℤ max_int64
      → req.id <ℤ max_int64
      → (tally r fuel result max_id req e).1 <ℤ max_int64
  unfolding tally
  tally_small result max_id req (some x) h k = h
  tally_small result max_id req none h k = ground (arith, h, k)

  greatest_small :
      (s : S) (registry_ctx : String) (schemas : List ImportSchemaRequest) (result : ImportResult)
      (max_id : ℤ)
      → max_id <ℤ max_int64
      → SmallIds schemas
      → (import_each r fuel s registry_ctx schemas result max_id).1 <ℤ max_int64
  unfolding import_each
  greatest_small s registry_ctx [] result max_id small h = small
  greatest_small s registry_ctx (req ∷ rest) result max_id small h =
      let (e, s') = import_one r fuel s registry_ctx req in
      let (result', max_id') = tally r fuel result max_id req e in
      greatest_small s' registry_ctx rest result' max_id'
        (tally_small result max_id req e small h.0) h.1

  -- Each ID that was imported is below a bound.
  abbrev pub ImportedBelow : ℤ → List ImportSchemaResult → Type 0
  ImportedBelow bound [] = Unit
  ImportedBelow bound (x ∷ rest) = (x.success ≡ true → x.id <ℤ bound) × ImportedBelow bound rest

  ImportedUpTo-below :
      (m n : ℤ) (l : List ImportSchemaResult) → m <ℤ n → ImportedUpTo m l → ImportedBelow n l
  ImportedUpTo-below m n [] h g = tt
  ImportedUpTo-below m n (x ∷ l) h g =
      ((λ p. omega (arith, h, g.0 p)), ImportedUpTo-below m n l h g.1)

  next_above :
      (current : Result ℤ) (max_id : ℤ)
      → max_id <ℤ max_int64
      → max_id <ℤ next_id_after r fuel current max_id
  next_above (ok current) max_id h = ground (arith, lt-inc64 max_id h)
  next_above (err _) max_id h = lt-inc64 max_id h

  -- The greatest ID of the store, where the store tells one, is below a bound.
  abbrev pub StoredBelow : ℤ → Result ℤ → Type 0
  StoredBelow bound (ok current) = current <ℤ bound
  StoredBelow bound (err _) = Unit

  next_above_stored :
      (current : Result ℤ) (max_id : ℤ)
      → StoredBelow max_int64 current
      → StoredBelow (next_id_after r fuel current max_id) current
  next_above_stored (ok current) max_id h = ground (arith, lt-inc64 current h)
  next_above_stored (err _) max_id h = tt

  -- The state after the schemas were imported one after the other, each into what the one before left.
  abbrev pub after_imports : S → String → List ImportSchemaRequest → S
  after_imports s registry_ctx [] = s
  after_imports s registry_ctx (req ∷ rest) =
      after_imports (import_one r fuel s registry_ctx req).1 registry_ctx rest

  import_each-after_imports :
      (s : S) (registry_ctx : String) (schemas : List ImportSchemaRequest) (result : ImportResult)
      (max_id : ℤ)
      → (import_each r fuel s registry_ctx schemas result max_id).2
        ≡ after_imports s registry_ctx schemas
  unfolding import_each
  import_each-after_imports s registry_ctx [] result max_id = refl
  import_each-after_imports s registry_ctx (req ∷ rest) result max_id =
      let (e, s') = import_one r fuel s registry_ctx req in
      let (result', max_id') = tally r fuel result max_id req e in
      import_each-after_imports s' registry_ctx rest result' max_id'

  -- Where each ID of an import, and the greatest ID that the storage has after the imports, are
  -- below the largest 64-bit integer, and some schema was imported: in the state that the imports
  -- leave, one after the other, the next ID is set to a number above each imported ID and above the
  -- greatest that the storage has, and nothing else is written.
  pub import_schemas_next_id :
      (s : S) (registry_ctx : String) (schemas : List ImportSchemaRequest)
      → SmallIds schemas
      → StoredBelow max_int64
          (r.storage.get_max_schema_id (after_imports s registry_ctx schemas) registry_ctx)
      → 0 < (import_schemas r fuel s registry_ctx schemas).0.imported
      → (next : ℤ) × (r.storage.set_next_id (after_imports s registry_ctx schemas) registry_ctx next
          ≡ (
            (import_schemas r fuel s registry_ctx schemas).1,
            (import_schemas r fuel s registry_ctx schemas).2,
          ))
        × ImportedBelow next (import_schemas r fuel s registry_ctx schemas).0.results
        × StoredBelow next
            (r.storage.get_max_schema_id (after_imports s registry_ctx schemas) registry_ctx)
  unfolding import_schemas
  import_schemas_next_id s registry_ctx schemas small small_stored some_imported =
      let initial : ImportResult = record { imported = 0; errors = 0; results = [] } in
      let counted =
        import_each-IsCounted s registry_ctx schemas initial (pos 0) 0 (refl, refl, tt, inl refl) in
      let (result, max_id, left) = import_each r fuel s registry_ctx schemas initial (pos 0) in
      let bounded = greatest_small s registry_ctx schemas initial (pos 0) (omega arith) small in
      let state = after_imports s registry_ctx schemas in
      let same : left ≡ state = import_each-after_imports s registry_ctx schemas initial (pos 0) in
      let current = r.storage.get_max_schema_id state registry_ctx in
      let positive : pos 0 <ℤ max_id = elim counted.3 [
        | inl nothing ↦ absurd (omega (arith, nothing, some_imported))
        | inr positive ↦ positive
      ] in
      let tested : ltb_ℤ (pos 0) max_id ≡ true = ground (arith, positive) in
      (
        next_id_after r fuel current max_id,
        ap (λ x. advance r fuel x registry_ctx max_id) (sym same) ∙ rw tested refl,
        ImportedUpTo-below max_id (next_id_after r fuel current max_id) result.results
            (next_above current max_id bounded) counted.2,
        next_above_stored current max_id small_stored,
      )
