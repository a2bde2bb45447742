-- ===== src/Registry/References.antt =====
-- References: internal/registry/registry.go, `resolveReferences` and `computeGlobalFingerprint`.
use axonops_schema_registry.Common.{
  itoa, sort, string_leb, ℕ, zero, suc, String, Bool, not, List, [], ◌∷◌, ◌++◌, if◌then◌else◌, ℕ_eq,
  string_eq, ◌==◌, ℤ_eq, leb_ℤ,
}
use axonops_schema_registry.Rules.{member}
use axonops_schema_registry.Storage.{Error, Result, ok, err, Reference, SchemaRecord}
use axonops_schema_registry.Registry.Backend.{
  Backend, failed_resolve_references, too_deep, Answer, done, failed,
}
use Prim.Native.String.{◌++◌ as append}
pub mod Depth
pub mod Order

-- `fmt.Sprintf("%s:%d", ref.Subject, ref.Version)`
unfoldable pub key_of : Reference → String
key_of ref = append ref.subject (append ":" (itoa ref.version))

-- The variables that the calls of `resolve` share.
pub record Resolving : Type 0 where
  pub seen : List String
  pub resolved : List Reference

-- `fuel_end` is no outcome of the code: the depth that was given is reached.
pub data Walk : Type 0 where
  walked : Resolving → Walk
  failed_at : Error → Walk
  fuel_end : Walk

abbrev pub and_then : Walk → (Resolving → Walk) → Walk
and_then (walked st) k = k st
and_then (failed_at e) k = failed_at e
and_then fuel_end k = fuel_end

abbrev pub mark : Resolving → Reference → Resolving
mark st ref = record st { seen = key_of ref ∷ st.seen }

abbrev pub append_resolved : Resolving → Reference → SchemaRecord → Resolving
append_resolved st ref r = record st {
  resolved = st.resolved ++ record ref { schema = r.schema } ∷ [];
}

module _ (lookup : Reference → Result SchemaRecord) where
  -- A reference that is not seen; `nested` is the call for the references of its record.
  abbrev pub visit : (List Reference → Resolving → Walk) → Reference → Resolving → Walk
  visit nested ref st = elim (lookup ref) [
    | err e ↦ failed_at e
    | ok r ↦
        and_then (nested r.references (mark st ref)) (λ st'. walked (append_resolved st' ref r))
  ]

  -- The loop over the references.
  unfoldable pub walk : (List Reference → Resolving → Walk) → List Reference → Resolving → Walk
  walk nested [] st = walked st
  walk nested (ref ∷ rest) st =
      and_then (if member (key_of ref) st.seen then walked st else visit nested ref st)
        (walk nested rest)

  unfoldable pub resolve : ℕ → List Reference → Resolving → Walk
  resolve zero refs st = fuel_end
  resolve (suc fuel) refs st = walk (resolve fuel) refs st

abbrev pub start : Resolving
start = record { seen = []; resolved = [] }

abbrev pub looked_up : {S : Type 0} → Backend S → S → String → Reference → Result SchemaRecord
looked_up b s registry_ctx ref =
    b.get_schema_by_subject_version s registry_ctx ref.subject ref.version

module _ {S : Type 0} (b : Backend S) (fuel : ℕ) where
  unfoldable pub resolve_references : S → String → List Reference → Answer (List Reference)
  resolve_references s registry_ctx refs =
      elim (resolve (looked_up b s registry_ctx) fuel refs start) [
        | walked st ↦ done st.resolved
        | failed_at e ↦ failed (failed_resolve_references e)
        | fuel_end ↦ failed too_deep
      ]

abbrev pub comes_before : Reference → Reference → Bool
comes_before a b =
    if not (a.subject == b.subject)
    then string_leb a.subject b.subject
    else if not (a.version == b.version)
    then leb_ℤ a.version b.version
    else string_leb a.name b.name

-- What the digest is taken of. `\x00` is the separator.
unfoldable pub hashed : String → List Reference → String
hashed text [] = text
hashed text (ref ∷ rest) =
    hashed
      (append text (
        append "\0"
          (append ref.name (append "\0" (append ref.subject (append "\0" (itoa ref.version)))))))
      rest

unfoldable pub compute_global_fingerprint : (String → String) → String → List Reference → String
compute_global_fingerprint digest schema_fingerprint [] = schema_fingerprint
compute_global_fingerprint digest schema_fingerprint (ref ∷ refs) =
    digest (hashed schema_fingerprint (sort comes_before (ref ∷ refs)))
