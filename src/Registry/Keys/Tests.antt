-- ===== src/Registry/Keys/Tests.antt =====
-- The theorem on rewrapping at a concrete key and a concrete service.
use axonops_schema_registry.Common.{
  String, ◌≡◌, refl, sym, ap, subst, inl, inr, true, false, Option, none, some, [], ◌∷◌, arith,
  if◌then◌else◌, Bool-cases, ℕ_eq, string_eq, ◌==◌, pos, ℤ_eq,
}
use axonops_schema_registry.Storage.{ok, KekRecord, DekRecord}
use axonops_schema_registry.Registry.Backend.{KeyBackend}
use axonops_schema_registry.Registry.Keys.{Provider, Kms, rewrapped, rewrapped_dek, rewrap_dek}
use axonops_schema_registry.Registry.Keys.Rewrap.{KmsLaws, plaintext_of, rewrap_keeps_plaintext}
use Prim.Native.String.{[], ◌∷◌, char_at}

-- A wrapped text has one character more.
abbrev sealed : String → String
sealed text = char_at "#" 0 ∷ text

abbrev unsealed : String → Option String
unsealed [] = none
unsealed (c ∷ text) = some text

abbrev seal_provider : Provider String
seal_provider = record {
  wrap = λ id text props. some (sealed text);
  unwrap = λ id text props. unsealed text;
  generate_data_key = λ id algorithm props. some ("key", sealed "key");
}

abbrev seals : Kms String
seals = record {
  provider = λ type. if type == "seal" then some seal_provider else none;
  encode = λ text. text;
  decode = λ text. some text;
}

some_injective : {A : Type 0} (x y : A) → some x ≡ some y → x ≡ y
some_injective x y h = ap (λ o. elim o [ some z ↦ z | none ↦ x ]) h

seals-KmsLaws : KmsLaws seals
seals-KmsLaws = record {
  decoded = λ x. refl;
  unwrapped = λ type id p x y props found wrapped. elim (Bool-cases (type == "seal")) [
    | inr other ↦ absurd (ground (arith, found, other))
    | inl known ↦
        let same : some seal_provider ≡ some p = ground (arith, found, known) in
        let provider = some_injective seal_provider p same in
        let written =
          some_injective (sealed x) y
            (subst (λ z. z.wrap id x props ≡ some y) (sym provider) wrapped) in
        subst (λ z. z.unwrap id y props ≡ some x) provider (ap unsealed (sym written))
  ];
}

abbrev seal_kek : KekRecord
seal_kek = record {
  name = "main";
  kms_type = "seal";
  kms_key_id = "k1";
  kms_props = none;
  doc = "";
  shared = true;
  deleted = false;
  ts = 0;
  created_at = 0;
  updated_at = 0;
}

abbrev card_dek : DekRecord
card_dek = record {
  kek_name = "main";
  subject = "cards";
  version = pos 1;
  algorithm = "AES256_GCM";
  encrypted_key_material = "#secret";
  key_material = "";
  deleted = false;
  ts = 0;
}

-- A backend with one key of each kind.
abbrev one_key : KeyBackend DekRecord
one_key = record {
  create_kek = λ s kek. (none, s);
  get_kek = λ s name deleted. ok seal_kek;
  update_kek = λ s kek. (none, s);
  create_dek = λ s dek. (none, dek, dek);
  get_dek = λ s name subject version algorithm deleted. ok s;
  update_dek = λ s dek. (none, dek);
}

rewrap_keeps_plaintext_example :
    (kek : KekRecord) × (p : Provider String) × (dek : DekRecord) × (x : String) × (one_key.get_kek
        card_dek "main" false
      ≡ ok kek)
    × (seals.provider kek.kms_type ≡ some p)
    × (one_key.get_dek card_dek "main" "cards" (pos 1) "AES256_GCM" false ≡ ok dek)
    × (plaintext_of seals p kek dek.encrypted_key_material ≡ some x)
    × (plaintext_of seals p kek (record card_dek { ts = 9 }).encrypted_key_material ≡ some x)
    × (one_key.update_dek card_dek (record card_dek { ts = 9 })
        ≡ (none, record card_dek { ts = 9 }))
unfolding rewrap_dek rewrapped_dek rewrapped
rewrap_keeps_plaintext_example =
    rewrap_keeps_plaintext one_key seals seals-KmsLaws card_dek (record card_dek { ts = 9 }) 9
      "main" "cards" (pos 1) "AES256_GCM" (record card_dek { ts = 9 }) refl
