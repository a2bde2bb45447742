-- ===== src/Registry/Keys.antt =====
-- Encryption keys in the service: internal/registry/registry_dek.go, over internal/kms/provider.go,
-- `Provider`. Byte strings are a type `B`.
use axonops_schema_registry.Common.{
  trim_space, ℕ, String, Bool, false, not, Option, none, some, List, [], ◌∷◌, if◌then◌else◌, ℕ_eq,
  string_eq, ◌==◌, ℤ, ℤ_eq, Map,
}
use axonops_schema_registry.Rules.{member}
use axonops_schema_registry.Storage.{KekRecord, DekRecord}
use axonops_schema_registry.Registry.Backend.{
  KeyBackend, RegistryError, key_field_missing, invalid_algorithm, kms_not_configured,
  no_kms_provider, kms_failed, no_key_material, bad_key_material, kms_mismatch, Answer, done,
  failed, pass, pass_write, chain,
}
pub mod Rewrap
pub mod Tests

-- A key management service: what it answers, or nothing where it fails.
pub record Provider (B : Type 0) : Type 0 where
  pub wrap : String → B → Option (Map String String) → Option B
  pub unwrap : String → B → Option (Map String String) → Option B
  pub generate_data_key : String → String → Option (Map String String) → Option (B × B)

-- The registered providers, and base64 of the standard library.
pub record Kms (B : Type 0) : Type 0 where
  pub provider : String → Option (Provider B)
  pub encode : B → String
  pub decode : String → Option B

abbrev pub valid_algorithms : List String
valid_algorithms = "AES128_GCM" ∷ "AES256_GCM" ∷ "AES256_SIV" ∷ []

abbrev pub need {ℓ} : {A : Type ℓ} → Option A → RegistryError → Answer A
need none e = failed e
need (some a) e = done a

module _ {S B : Type 0} (b : KeyBackend S) (kms : Option (Kms B)) where
  unfoldable pub create_kek : S → KekRecord → Answer (Unit {0}) × S
  create_kek s kek =
      let (e, s') = b.create_kek s kek in
      if trim_space kek.name == ""
      then (failed (key_field_missing "name"), s)
      else if trim_space kek.kms_type == ""
      then (failed (key_field_missing "kmsType"), s)
      else if trim_space kek.kms_key_id == ""
      then (failed (key_field_missing "kmsKeyId"), s)
      else (pass_write e tt, s')

  unfoldable pub update_kek : S → KekRecord → Answer (Unit {0}) × S
  update_kek s kek =
      let (e, s') = b.update_kek s kek in
      if trim_space kek.name == ""
      then (failed (key_field_missing "name"), s)
      else (pass_write e tt, s')

  -- The key material that the service generates, where a shared key encryption key has a provider.
  unfoldable pub with_material : S → DekRecord → Answer DekRecord
  with_material s dek = elim kms [
    | none ↦ done dek
    | some k ↦ chain (pass (b.get_kek s dek.kek_name false)) (λ kek.
        if not kek.shared then done dek else elim (k.provider kek.kms_type) [
          | none ↦ done dek
          | some p ↦
              chain
                (need (p.generate_data_key kek.kms_key_id dek.algorithm kek.kms_props) kms_failed)
                (λ keys. done (record dek {
                  encrypted_key_material = k.encode keys.1;
                  key_material = k.encode keys.0;
                }))
        ])
  ]

  unfoldable pub create_dek : S → DekRecord → Answer DekRecord × S
  create_dek s dek =
      let algorithm = if dek.algorithm == "" then "AES256_GCM" else dek.algorithm in
      let dek' : DekRecord = record dek { algorithm = algorithm } in
      let filled = if dek.encrypted_key_material == "" then with_material s dek' else done dek' in
      if trim_space dek.kek_name == ""
      then (failed (key_field_missing "kekName"), s)
      else if trim_space dek.subject == ""
      then (failed (key_field_missing "subject"), s)
      else if not (member algorithm valid_algorithms)
      then (failed (invalid_algorithm algorithm), s)
      else elim filled [
        | failed e ↦ (failed e, s)
        | done d ↦ let (e, d', s') = b.create_dek s d in (pass_write e d', s')
      ]

  -- The text of a data encryption key, wrapped anew.
  abbrev pub rewrapped_text : Kms B → Provider B → KekRecord → String → Answer String
  rewrapped_text k p kek text = chain (need (k.decode text) bad_key_material) (λ old.
      chain (need (p.unwrap kek.kms_key_id old kek.kms_props) kms_failed) (λ plaintext.
        chain (need (p.wrap kek.kms_key_id plaintext kek.kms_props) kms_failed)
          (λ new. done (k.encode new))))

  unfoldable pub rewrapped : Kms B → Provider B → KekRecord → DekRecord → Answer String
  rewrapped k p kek dek =
      if dek.encrypted_key_material == ""
      then failed no_key_material
      else rewrapped_text k p kek dek.encrypted_key_material

  -- The key to be stored, with the clock's reading.
  unfoldable pub rewrapped_dek : S → ℕ → Kms B → String → String → ℤ → String → Answer DekRecord
  rewrapped_dek s now k kek_name subject version algorithm =
      chain (pass (b.get_kek s kek_name false)) (λ kek.
        chain (need (k.provider kek.kms_type) no_kms_provider) (λ p.
          chain (pass (b.get_dek s kek_name subject version algorithm false)) (λ dek.
            chain (rewrapped k p kek dek)
              (λ material. done (record dek { encrypted_key_material = material; ts = now })))))

  unfoldable pub rewrap_dek : S → ℕ → String → String → ℤ → String → Answer DekRecord × S
  rewrap_dek s now kek_name subject version algorithm = elim kms [
    | none ↦ (failed kms_not_configured, s)
    | some k ↦ elim (rewrapped_dek s now k kek_name subject version algorithm) [
      | failed e ↦ (failed e, s)
      | done dek ↦ let (e, s') = b.update_dek s dek in (pass_write e dek, s')
    ]
  ]

  -- The round trip that tests a key; `same` compares byte strings and `probe` is the text that is tried.
  unfoldable pub test_kek : (B → B → Bool) → B → KekRecord → Answer (Unit {0})
  test_kek same probe kek = elim kms [
    | none ↦ failed kms_not_configured
    | some k ↦ chain (need (k.provider kek.kms_type) no_kms_provider) (λ p.
        chain (need (p.wrap kek.kms_key_id probe kek.kms_props) kms_failed) (λ wrapped.
          chain (need (p.unwrap kek.kms_key_id wrapped kek.kms_props) kms_failed)
            (λ unwrapped. if not (same probe unwrapped) then failed kms_mismatch else done tt)))
  ]
