-- ===== src/Registry/References/Depth.antt =====
-- How deep references are followed: `resolve` ends in each store.
use axonops_schema_registry.Common.{
  ℕ, zero, suc, ◌+◌, ◌≤◌, ◌<◌, String, ◌≡◌, refl, sym, subst, ◌≢◌, inl, inr, true, false, List, [],
  ◌∷◌, arith, if◌then◌else◌, Bool-cases, ℕ_eq, string_eq, ◌==◌, ==_iff, ==-cases, ℤ_eq, length,
}
use axonops_schema_registry.Rules.{member}
use axonops_schema_registry.Storage.{Result, ok, err, Reference, SchemaRecord}
use axonops_schema_registry.Registry.Backend.{
  Backend, failed_resolve_references, too_deep, done, failed,
}
use axonops_schema_registry.Registry.References.{
  key_of, Resolving, Walk, walked, failed_at, fuel_end, and_then, mark, append_resolved, visit,
  walk, resolve, start, looked_up, resolve_references,
}

-- How many of the keys are not seen yet.
abbrev room : List String → List String → ℕ
room [] seen = 0
room (k ∷ keys) seen = (if member k seen then 0 else 1) + room keys seen

abbrev Within : List String → List String → Type 0
Within seen seen' = (k : String) → member k seen ≡ true → member k seen' ≡ true

room_mono : (keys seen seen' : List String) → Within seen seen' → room keys seen' ≤ room keys seen
room_mono [] seen seen' h = omega arith
room_mono (k ∷ keys) seen seen' h = ground (arith, room_mono keys seen seen' h, h k)

grown : (seen : List String) (k : String) → Within seen (k ∷ seen)
grown seen k j h = ground (arith, h)

-- A key that is seen for the first time leaves less room.
room_less :
    (keys seen : List String) (k : String)
    → member k keys ≡ true
    → member k seen ≡ false
    → suc (room keys (k ∷ seen)) ≤ room keys seen
room_less [] seen k known fresh = absurd (cc known)
room_less (j ∷ keys) seen k known fresh =
    let rest = room_mono keys seen (k ∷ seen) (grown seen k) in
    elim (==-cases j k) [
      | inl same ↦
          let here : (j == k) ≡ true = (==_iff j k).1 same in
          let moved : member j seen ≡ false = subst (λ i. member i seen ≡ false) (sym same) fresh in
          ground (arith, rest, here, moved)
      | inr (other, _) ↦
          let later : member k keys ≡ true = ground (arith, known, other, ==_iff j k, ==_iff k j) in
          ground (arith, room_less keys seen k later fresh, other)
    ]

-- A walk that does not run out of fuel, and only adds to what is seen.
abbrev Ends : List String → Walk → Type 0
Ends seen (walked st) = Within seen st.seen
Ends seen (failed_at e) = Unit
Ends seen fuel_end = ⊥

Ends-widen : (seen seen' : List String) (w : Walk) → Within seen seen' → Ends seen' w → Ends seen w
Ends-widen seen seen' (walked st) h g = λ k p. g k (h k p)
Ends-widen seen seen' (failed_at e) h g = tt
Ends-widen seen seen' fuel_end h g = g

Ends-and_then :
    (seen : List String) (w : Walk) (k : Resolving → Walk)
    → Ends seen w
    → ((st : Resolving) → Within seen st.seen → Ends st.seen (k st))
    → Ends seen (and_then w k)
Ends-and_then seen (walked st) k h next = Ends-widen seen st.seen (k st) h (next st h)
Ends-and_then seen (failed_at e) k h next = tt
Ends-and_then seen fuel_end k h next = h

module _ (lookup : Reference → Result SchemaRecord) (keys : List String)
    (known : (ref : Reference) (r : SchemaRecord)
      → lookup ref ≡ ok r
      → member (key_of ref) keys ≡ true) where
  visit-Ends :
      (fuel : ℕ) (nested : List Reference → Resolving → Walk)
      → ((refs : List Reference) (st : Resolving)
          → room keys st.seen < fuel
          → Ends st.seen (nested refs st))
      → (ref : Reference) (st : Resolving) → room keys st.seen < suc fuel
      → member (key_of ref) st.seen ≡ false
      → Ends st.seen (visit lookup nested ref st)
  visit-Ends fuel nested h ref st enough fresh = go (lookup ref) refl
    where
      go :
          (o : Result SchemaRecord)
          → lookup ref ≡ o
          → Ends st.seen (elim o [
            | err e ↦ failed_at e
            | ok r ↦
                and_then
                  (nested r.references (mark st ref))
                  (λ st'. walked (append_resolved st' ref r))
          ])
      go (err e) found = tt
      go (ok r) found =
          let less = room_less keys st.seen (key_of ref) (known ref r found) fresh in
          let marked = key_of ref ∷ st.seen in
          Ends-widen st.seen marked
            (and_then (nested r.references (mark st ref))
              (λ st'. walked (append_resolved st' ref r)))
            (grown st.seen (key_of ref))
            (Ends-and_then marked (nested r.references (mark st ref))
              (λ st'. walked (append_resolved st' ref r))
              (h r.references (mark st ref) (omega (arith, enough, less))) (λ st' within k p. p))

  walk-Ends :
      (fuel : ℕ) (nested : List Reference → Resolving → Walk)
      → ((refs : List Reference) (st : Resolving)
          → room keys st.seen < fuel
          → Ends st.seen (nested refs st))
      → (refs : List Reference) (st : Resolving) → room keys st.seen < suc fuel
      → Ends st.seen (walk lookup nested refs st)
  unfolding walk
  walk-Ends fuel nested h [] st enough = λ k p. p
  walk-Ends fuel nested h (ref ∷ rest) st enough =
      Ends-and_then st.seen
        (if member (key_of ref) st.seen then walked st else visit lookup nested ref st)
        (walk lookup nested rest)
        (elim (Bool-cases (member (key_of ref) st.seen)) [
          | inl old ↦ rw old (λ k p. p)
          | inr fresh ↦ rw fresh (visit-Ends fuel nested h ref st enough fresh)
        ])
        (λ st' within.
          walk-Ends fuel nested h rest st'
            (omega (arith, enough, room_mono keys st.seen st'.seen within)))

  resolve-Ends :
      (fuel : ℕ) (refs : List Reference) (st : Resolving)
      → room keys st.seen < fuel
      → Ends st.seen (resolve lookup fuel refs st)
  unfolding resolve
  resolve-Ends zero refs st enough = omega (arith, enough)
  resolve-Ends (suc fuel) refs st enough =
      walk-Ends fuel (resolve lookup fuel) (resolve-Ends fuel) refs st enough

room_all : (keys : List String) → room keys [] ≡ length keys
room_all [] = refl
room_all (k ∷ keys) = omega (arith, room_all keys)

module _ {S : Type 0} (b : Backend S) (s : S) (registry_ctx : String) where
  -- With a list that names each subject and version that the store has, and fuel above its length,
  -- the references are resolved or one is found missing: the recursion never reaches the end of the
  -- fuel, whether the schemas refer to each other in a circle or not.
  pub resolve_references_ends :
      (keys : List String) (fuel : ℕ) (refs : List Reference)
      → ((ref : Reference) (r : SchemaRecord)
          → looked_up b s registry_ctx ref ≡ ok r
          → member (key_of ref) keys ≡ true)
      → length keys < fuel
      → resolve_references b fuel s registry_ctx refs ≢ failed too_deep
  unfolding resolve_references
  resolve_references_ends keys fuel refs known enough =
      go (resolve (looked_up b s registry_ctx) fuel refs start) (
        resolve-Ends (looked_up b s registry_ctx) keys known fuel refs start
          (omega (arith, enough, room_all keys)))
    where
      go :
          (w : Walk)
          → Ends [] w
          → elim w [
            | walked st ↦ done st.resolved
            | failed_at e ↦ failed (failed_resolve_references e)
            | fuel_end ↦ failed too_deep
          ]
            ≢ failed too_deep
      go (walked st) g = λ p. cc p
      go (failed_at e) g = λ p. cc p
      go fuel_end g = absurd g
