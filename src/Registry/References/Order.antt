-- ===== src/Registry/References/Order.antt =====
-- The order of the resolved references.
use axonops_schema_registry.Common.{
  ℕ, zero, suc, ◌+◌, ◌≤◌, ◌<◌, String, ◌≡◌, refl, sym, ap, ◌∙◌, subst, ◌⊎◌, inl, inr, true, ◌||◌,
  List, [], ◌∷◌, ◌++◌, arith, if◌then◌else◌, Bool-cases, ℕ_eq, string_eq, ◌==◌, ==_self, ==-cases,
  ℤ_eq,
}
use axonops_schema_registry.Rules.{member}
use axonops_schema_registry.Storage.{Result, ok, err, Reference, SchemaRecord}
use axonops_schema_registry.Registry.Backend.{
  Backend, failed_resolve_references, too_deep, done, failed,
}
use axonops_schema_registry.Registry.References.{
  key_of, Resolving, Walk, walked, failed_at, fuel_end, and_then, mark, append_resolved, visit,
  walk, resolve, start, looked_up, resolve_references,
}

abbrev pub keys_of : List Reference → List String
keys_of [] = []
keys_of (ref ∷ rest) = key_of ref ∷ keys_of rest

-- Each of the references has its key among the keys.
abbrev pub AllAmong : List String → List Reference → Type 0
AllAmong keys [] = Unit
AllAmong keys (ref ∷ rest) = (member (key_of ref) keys ≡ true) × AllAmong keys rest

abbrev Within : List String → List String → Type 0
Within xs ys = (k : String) → member k xs ≡ true → member k ys ≡ true

AllAmong-mono :
    (xs ys : List String) (refs : List Reference)
    → Within xs ys
    → AllAmong xs refs
    → AllAmong ys refs
AllAmong-mono xs ys [] h g = tt
AllAmong-mono xs ys (ref ∷ rest) h g = (h (key_of ref) g.0, AllAmong-mono xs ys rest h g.1)

member-keys_of-++ :
    (xs ys : List Reference) (k : String)
    → member k (keys_of (xs ++ ys)) ≡ (member k (keys_of xs) || member k (keys_of ys))
member-keys_of-++ [] ys k = refl
member-keys_of-++ (x ∷ xs) ys k = ground (arith, member-keys_of-++ xs ys k)

module _ {S : Type 0} (b : Backend S) (s : S) (registry_ctx : String) where
  -- The record that a reference names has all its own references among the keys.
  abbrev pub Met : List String → Reference → Type 0
  Met before ref =
      (r : SchemaRecord) → looked_up b s registry_ctx ref ≡ ok r → AllAmong before r.references

  -- Each reference stands behind all that its record refers to; `before` are the keys that come first.
  abbrev pub InOrder : List String → List Reference → Type 0
  InOrder before [] = Unit
  InOrder before (ref ∷ rest) = Met before ref × InOrder (key_of ref ∷ before) rest

  -- The keys that stand before the end.
  abbrev behind : List String → List Reference → List String
  behind before [] = before
  behind before (ref ∷ rest) = behind (key_of ref ∷ before) rest

  InOrder-snoc :
      (before : List String) (xs : List Reference) (ref : Reference)
      → InOrder before xs
      → Met (behind before xs) ref
      → InOrder before (xs ++ ref ∷ [])
  InOrder-snoc before [] ref h g = (g, tt)
  InOrder-snoc before (x ∷ xs) ref h g = (h.0, InOrder-snoc (key_of x ∷ before) xs ref h.1 g)

  before-behind : (before : List String) (xs : List Reference) → Within before (behind before xs)
  before-behind before [] k p = p
  before-behind before (x ∷ xs) k p = before-behind (key_of x ∷ before) xs k (ground (arith, p))

  keys_of-behind :
      (before : List String) (xs : List Reference) → Within (keys_of xs) (behind before xs)
  keys_of-behind before [] k p = absurd (cc p)
  keys_of-behind before (x ∷ xs) k p = elim (Bool-cases (k == key_of x)) [
    | inl same ↦ before-behind (key_of x ∷ before) xs k (ground (arith, same))
    | inr other ↦ keys_of-behind (key_of x ∷ before) xs k (ground (arith, p, other))
  ]

  -- The last reference is behind all that are resolved before it.
  Met-last :
      (xs : List Reference) (ref : Reference) (r : SchemaRecord)
      → looked_up b s registry_ctx ref ≡ ok r
      → AllAmong (keys_of xs) r.references
      → Met (behind [] xs) ref
  Met-last xs ref r found g r' found' =
      let same : r ≡ r' = ap (λ o. elim o [ ok x ↦ x | err _ ↦ r ]) (sym found ∙ found') in
      AllAmong-mono (keys_of xs) (behind [] xs) r'.references (keys_of-behind [] xs)
        (subst (λ x. AllAmong (keys_of xs) x.references) same g)

  module _ (rank : String → ℕ) where
    -- Each of the references has a smaller rank.
    abbrev pub Below : ℕ → List Reference → Type 0
    Below n [] = Unit
    Below n (ref ∷ rest) = (rank (key_of ref) < n) × Below n rest

    -- Of what is seen, all but what has a rank of at least `n` is resolved.
    abbrev Settled : ℕ → Resolving → Type 0
    Settled n st =
        (k : String)
        → member k st.seen ≡ true
        → (member k (keys_of st.resolved) ≡ true) ⊎ (n ≤ rank k)

    -- A walk from `st` leaves the references resolved, and all in order.
    abbrev After : List Reference → Resolving → Walk → Type 0
    After refs st (walked st') =
        InOrder [] st'.resolved
        × AllAmong (keys_of st'.resolved) refs
        × Within (keys_of st.resolved) (keys_of st'.resolved)
        × ((k : String)
            → member k st'.seen ≡ true
            → (member k st.seen ≡ true) ⊎ (member k (keys_of st'.resolved) ≡ true))
    After refs st (failed_at e) = Unit
    After refs st fuel_end = Unit

    Settled-After :
        (n : ℕ) (refs : List Reference) (st st' : Resolving)
        → Settled n st
        → After refs st (walked st')
        → Settled n st'
    Settled-After n refs st st' h g k p = elim (g.3 k p) [
      | inl old ↦ elim (h k old) [ inl done_before ↦ inl (g.2 k done_before) | inr high ↦ inr high ]
      | inr new ↦ inl new
    ]

    module _ (nested : List Reference → Resolving → Walk)
        (nested-After : (n : ℕ) (refs : List Reference) (st : Resolving)
          → Below n refs
          → Settled n st
          → InOrder [] st.resolved
          → After refs st (nested refs st))
        (acyclic : (ref : Reference) (r : SchemaRecord)
          → looked_up b s registry_ctx ref ≡ ok r
          → Below (rank (key_of ref)) r.references) where
      visit-After :
          (n : ℕ) (ref : Reference) (st : Resolving)
          → rank (key_of ref) < n
          → Settled n st
          → InOrder [] st.resolved
          → After (ref ∷ []) st (visit (looked_up b s registry_ctx) nested ref st)
      unfolding key_of
      visit-After n ref st low h o = go (looked_up b s registry_ctx ref) refl
        where
          settled : Settled (rank (key_of ref)) (mark st ref)
          settled k p = elim (==-cases k (key_of ref)) [
            | inl same ↦ inr (omega (arith, ap rank same))
            | inr (other, _) ↦ elim (h k (ground (arith, p, other))) [
              | inl old ↦ inl old
              | inr high ↦ inr (omega (arith, high, low))
            ]
          ]

          last :
              (r : SchemaRecord) (st' : Resolving)
              → (member (key_of ref) (keys_of (append_resolved st' ref r).resolved) ≡ true)
                × Within (keys_of st'.resolved) (keys_of (append_resolved st' ref r).resolved)
          last r st' = (
            ground (
              arith,
              member-keys_of-++ st'.resolved (record ref { schema = r.schema } ∷ []) (key_of ref),
              ==_self (key_of ref),
            ),
            λ k p. ground (
              arith,
              member-keys_of-++ st'.resolved (record ref { schema = r.schema } ∷ []) k,
              p,
            ),
          )

          finish :
              (r : SchemaRecord)
              → looked_up b s registry_ctx ref ≡ ok r
              → (w : Walk) → After r.references (mark st ref) w
              → After (ref ∷ []) st (and_then w (λ st'. walked (append_resolved st' ref r)))
          finish r found (walked st') g = (
            InOrder-snoc [] st'.resolved (record ref { schema = r.schema }) g.0
                (Met-last st'.resolved (record ref { schema = r.schema }) r found g.1),
            ((last r st').0, tt),
            (λ k p. (last r st').1 k (g.2 k p)),
            λ k p. elim (g.3 k p) [
              | inr new ↦ inr ((last r st').1 k new)
              | inl old ↦ elim (==-cases k (key_of ref)) [
                | inl same ↦ inr (
                    subst (λ i. member i (keys_of (append_resolved st' ref r).resolved) ≡ true)
                      (sym same) (last r st').0)
                | inr (other, _) ↦ inl (ground (arith, old, other))
              ]
            ],
          )
          finish r found (failed_at e) g = tt
          finish r found fuel_end g = tt

          go :
              (x : Result SchemaRecord)
              → looked_up b s registry_ctx ref ≡ x
              → After (ref ∷ []) st (elim x [
                | err e ↦ failed_at e
                | ok r ↦
                    and_then
                      (nested r.references (mark st ref))
                      (λ st'. walked (append_resolved st' ref r))
              ])
          go (err e) found = tt
          go (ok r) found = finish r found (nested r.references (mark st ref)) (
              nested-After (rank (key_of ref)) r.references (mark st ref) (acyclic ref r found)
                settled o)

      walk-After :
          (n : ℕ) (refs : List Reference) (st : Resolving)
          → Below n refs
          → Settled n st
          → InOrder [] st.resolved
          → After refs st (walk (looked_up b s registry_ctx) nested refs st)
      unfolding walk
      walk-After n [] st low h o = (o, tt, (λ k p. p), λ k p. inl p)
      walk-After n (ref ∷ rest) st low h o =
          go (λ st'. walk-After n rest st' low.1)
            (if member (key_of ref) st.seen
              then walked st
              else visit (looked_up b s registry_ctx) nested ref st)
            (elim (Bool-cases (member (key_of ref) st.seen)) [
              | inl old ↦ rw old (o, (resolved_before old, tt), (λ k p. p), λ k p. inl p)
              | inr fresh ↦ rw fresh (visit-After n ref st low.0 h o)
            ])
        where
          resolved_before :
              member (key_of ref) st.seen ≡ true → member (key_of ref) (keys_of st.resolved) ≡ true
          resolved_before old = elim (h (key_of ref) old) [
            | inl there ↦ there
            | inr high ↦ absurd (omega (arith, high, low.0))
          ]

          join :
              (st' : Resolving)
              → After (ref ∷ []) st (walked st')
              → (w : Walk) → After rest st' w
              → After (ref ∷ rest) st w
          join st' g (walked st'') g' = (
            g'.0,
            (g'.2 (key_of ref) g.1.0, g'.1),
            (λ k p. g'.2 k (g.2 k p)),
            λ k p. elim (g'.3 k p) [
              | inr new ↦ inr new
              | inl old ↦ elim (g.3 k old) [ inl older ↦ inl older | inr new ↦ inr (g'.2 k new) ]
            ],
          )
          join st' g (failed_at e) g' = tt
          join st' g fuel_end g' = tt

          go :
              ((st' : Resolving)
                → Settled n st'
                → InOrder [] st'.resolved
                → After rest st' (walk (looked_up b s registry_ctx) nested rest st'))
              → (w : Walk) → After (ref ∷ []) st w
              → After (ref ∷ rest) st (and_then w (walk (looked_up b s registry_ctx) nested rest))
          go later (walked st') g =
              join st' g (walk (looked_up b s registry_ctx) nested rest st')
                (later st' (Settled-After n (ref ∷ []) st st' h g) g.0)
          go later (failed_at e) g = tt
          go later fuel_end g = tt

    -- A rank above those of all the references.
    abbrev top : List Reference → ℕ
    top [] = 0
    top (ref ∷ rest) = suc (rank (key_of ref)) + top rest

    Below-top : (n : ℕ) (refs : List Reference) → top refs ≤ n → Below n refs
    Below-top n [] h = tt
    Below-top n (ref ∷ rest) h = (omega (arith, h), Below-top n rest (omega (arith, h)))

    module _
        (acyclic : (ref : Reference) (r : SchemaRecord)
          → looked_up b s registry_ctx ref ≡ ok r
          → Below (rank (key_of ref)) r.references) where
      resolve-After :
          (fuel n : ℕ) (refs : List Reference) (st : Resolving)
          → Below n refs
          → Settled n st
          → InOrder [] st.resolved
          → After refs st (resolve (looked_up b s registry_ctx) fuel refs st)
      unfolding resolve
      resolve-After zero n refs st low h o = tt
      resolve-After (suc fuel) n refs st low h o =
          walk-After (resolve (looked_up b s registry_ctx) fuel) (resolve-After fuel) acyclic n refs
            st low h o

      -- Where some ranking of the subjects and versions falls from each stored schema to all that
      -- it refers to, and the references are resolved: each given reference is among the resolved
      -- ones, and each resolved one stands behind everything that its own schema refers to.
      pub resolve_references-InOrder :
          (fuel : ℕ) (refs resolved : List Reference)
          → resolve_references b fuel s registry_ctx refs ≡ done resolved
          → InOrder [] resolved × AllAmong (keys_of resolved) refs
      unfolding resolve_references
      resolve_references-InOrder fuel refs resolved h =
          go (resolve (looked_up b s registry_ctx) fuel refs start) h (
            resolve-After fuel (top refs) refs start (Below-top (top refs) refs (omega arith))
              (λ k p. absurd (cc p)) tt)
        where
          go :
              (w : Walk)
              → elim w [
                | walked st ↦ done st.resolved
                | failed_at e ↦ failed (failed_resolve_references e)
                | fuel_end ↦ failed too_deep
              ]
                ≡ done resolved
              → After refs start w
              → InOrder [] resolved × AllAmong (keys_of resolved) refs
          go (walked st) e g =
              subst (λ l. InOrder [] l × AllAmong (keys_of l) refs)
                (ap (λ a. elim a [ done l ↦ l | failed _ ↦ resolved ]) e) (g.0, g.1)
          go (failed_at x) e g = absurd (cc e)
          go fuel_end e g = absurd (cc e)
