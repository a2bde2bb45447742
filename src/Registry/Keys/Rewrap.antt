-- ===== src/Registry/Keys/Rewrap.antt =====
-- A key that is wrapped anew is the same key.
use axonops_schema_registry.Common.{
  ℕ, String, ◌≡◌, refl, sym, ap, ◌∙◌, subst, inl, inr, false, Option, none, some, arith, Bool-cases,
  ℕ_eq, string_eq, ◌==◌, ℤ, ℤ_eq, Map,
}
use axonops_schema_registry.Storage.{Error, Result, ok, err, KekRecord, DekRecord}
use axonops_schema_registry.Registry.Backend.{
  KeyBackend, RegistryError, no_kms_provider, kms_failed, bad_key_material, Answer, done, failed,
  pass, pass_write, Answer-cases, chain_done,
}
use axonops_schema_registry.Registry.Keys.{
  Provider, Kms, need, rewrapped_text, rewrapped, rewrapped_dek, rewrap_dek,
}

-- What is encoded or wrapped is decoded or unwrapped to itself.
pub record KmsLaws {B : Type 0} (k : Kms B) : Type 0 where
  pub decoded : (x : B) → k.decode (k.encode x) ≡ some x
  pub unwrapped :
      (type id : String) (p : Provider B) (x y : B) (props : Option (Map String String))
      → k.provider type ≡ some p
      → p.wrap id x props ≡ some y
      → p.unwrap id y props ≡ some x

need_done : {A : Type 0} (o : Option A) (e : RegistryError) (a : A) → need o e ≡ done a → o ≡ some a
need_done none e a h = absurd (cc h)
need_done (some x) e a h = ap (λ r. elim r [ done y ↦ some y | failed _ ↦ some x ]) h

pass_done : {A : Type 0} (r : Result A) (a : A) → pass r ≡ done a → r ≡ ok a
pass_done (ok x) a h = ap (λ r. elim r [ done y ↦ ok y | failed _ ↦ ok x ]) h
pass_done (err e) a h = absurd (cc h)

pass_write_done :
    {A : Type 0} (e : Option Error) (a x : A) → pass_write e a ≡ done x → (e ≡ none) × (a ≡ x)
pass_write_done none a x h = (refl, ap (λ r. elim r [ done y ↦ y | failed _ ↦ a ]) h)
pass_write_done (some e) a x h = absurd (cc h)

abbrev unwrap_with : {B : Type 0} → Provider B → KekRecord → Option B → Option B
unwrap_with p kek none = none
unwrap_with p kek (some c) = p.unwrap kek.kms_key_id c kek.kms_props

-- The plaintext of a data encryption key.
abbrev pub plaintext_of : {B : Type 0} → Kms B → Provider B → KekRecord → String → Option B
plaintext_of k p kek text = unwrap_with p kek (k.decode text)

module _ {S B : Type 0} (b : KeyBackend S) (k : Kms B) (laws : KmsLaws k) where
  rewrapped_plaintext :
      (p : Provider B) (kek : KekRecord) (dek : DekRecord) (material : String)
      → k.provider kek.kms_type ≡ some p
      → rewrapped b (some k) k p kek dek ≡ done material
      → (x : B) × (plaintext_of k p kek dek.encrypted_key_material ≡ some x)
        × (plaintext_of k p kek material ≡ some x)
  unfolding rewrapped
  rewrapped_plaintext p kek dek material found h =
      elim (Bool-cases (dek.encrypted_key_material == "")) [
        | inl empty ↦ absurd (ground (arith, h, empty))
        | inr there ↦
            let started : rewrapped_text b (some k) k p kek dek.encrypted_key_material
                ≡ done material =
              ground (arith, h, there) in
            let (old, decoded_old, h1) =
              chain_done (need (k.decode dek.encrypted_key_material) bad_key_material) _ material
                started in
            let (x, opened, h2) =
              chain_done (need (p.unwrap kek.kms_key_id old kek.kms_props) kms_failed) _ material
                h1 in
            let (new, closed, h3) =
              chain_done (need (p.wrap kek.kms_key_id x kek.kms_props) kms_failed) _ material h2 in
            let read_old =
              need_done (k.decode dek.encrypted_key_material) bad_key_material old decoded_old in
            let open_old =
              need_done (p.unwrap kek.kms_key_id old kek.kms_props) kms_failed x opened in
            let wrapped_new =
              need_done (p.wrap kek.kms_key_id x kek.kms_props) kms_failed new closed in
            let text : k.encode new ≡ material =
              ap (λ r. elim r [ done y ↦ y | failed _ ↦ k.encode new ]) h3 in
            (
              x,
              ap (unwrap_with p kek) read_old ∙ open_old,
              ap (plaintext_of k p kek) (sym text)
                  ∙ ap (unwrap_with p kek) (laws.decoded new)
                  ∙ laws.unwrapped kek.kms_type kek.kms_key_id p x new kek.kms_props found
                      wrapped_new,
            )
      ]

  -- Where base64 and the providers undo what they did, and a data encryption key is wrapped anew
  -- without an error: the stored key and the answered one open to the same plaintext with the
  -- provider of its key encryption key, and what is answered is what was written to the store.
  pub rewrap_keeps_plaintext :
      (s s' : S) (now : ℕ) (kek_name subject : String) (version : ℤ) (algorithm : String)
      (stored : DekRecord)
      → rewrap_dek b (some k) s now kek_name subject version algorithm ≡ (done stored, s')
      → (kek : KekRecord) × (p : Provider B) × (dek : DekRecord) × (x : B) × (b.get_kek s kek_name
            false
          ≡ ok kek)
        × (k.provider kek.kms_type ≡ some p)
        × (b.get_dek s kek_name subject version algorithm false ≡ ok dek)
        × (plaintext_of k p kek dek.encrypted_key_material ≡ some x)
        × (plaintext_of k p kek stored.encrypted_key_material ≡ some x)
        × (b.update_dek s stored ≡ (none, s'))
  unfolding rewrap_dek rewrapped_dek
  rewrap_keeps_plaintext s s' now kek_name subject version algorithm stored h =
      elim (Answer-cases (rewrapped_dek b (some k) s now k kek_name subject version algorithm)) [
        | inr (e, bad) ↦ absurd (ground (arith, h, bad))
        | inl (d, made) ↦
            let write = b.update_dek s d in
            let answered : ◌≡◌ {A = Answer DekRecord × S} (pass_write write.0 d, write.1)
                (done stored, s') =
              sym (ap after_rewrap made) ∙ h in
            let (no_error, same) = pass_write_done write.0 d stored (ap (λ r. r.0) answered) in
            let (kek, e1, h1) = chain_done (pass (b.get_kek s kek_name false)) _ d made in
            let (p, e2, h2) = chain_done (need (k.provider kek.kms_type) no_kms_provider) _ d h1 in
            let (dek, e3, h3) =
              chain_done (pass (b.get_dek s kek_name subject version algorithm false)) _ d h2 in
            let (material, e4, h4) = chain_done (rewrapped b (some k) k p kek dek) _ d h3 in
            let found = need_done (k.provider kek.kms_type) no_kms_provider p e2 in
            let (x, before, after) = rewrapped_plaintext p kek dek material found e4 in
            let text : material ≡ stored.encrypted_key_material =
              ap material_of h4 ∙ ap (λ z. z.encrypted_key_material) same in
            (
              kek,
              p,
              dek,
              x,
              pass_done (b.get_kek s kek_name false) kek e1,
              found,
              pass_done (b.get_dek s kek_name subject version algorithm false) dek e3,
              before,
              subst (λ t. plaintext_of k p kek t ≡ some x) text after,
              subst (λ z. b.update_dek s z ≡ (none, s')) same
                  (ap (λ e. (e, write.1)) no_error ∙ ap (λ y. (none, y)) (ap (λ r. r.1) answered)),
            )
      ]
    where
      after_rewrap : Answer DekRecord → Answer DekRecord × S
      after_rewrap (failed e) = (failed e, s)
      after_rewrap (done dek) = let (e, s1) = b.update_dek s dek in (pass_write e dek, s1)

      material_of : Answer DekRecord → String
      material_of (done z) = z.encrypted_key_material
      material_of (failed e) = ""
