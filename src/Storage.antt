-- ===== src/Storage.antt =====
-- internal/storage/storage.go: the records and errors that every storage backend shares.
-- A time is a number of nanoseconds since the epoch. A nil map, slice or pointer is `none`.
pub mod DeepEqual
use axonops_schema_registry.Common.{
  ℕ, String, Bool, Option, List, ℤ, Map, ◌==◌, true, false, if◌then◌else◌,
}

-- The sentinel errors that the in-memory store and the registry service return.
pub data Error : Type 0 where
  not_found subject_not_found schema_not_found version_not_found : Error
  subject_deleted subject_not_soft_deleted version_not_soft_deleted : Error
  schema_exists schema_id_conflict : Error
  user_not_found user_exists api_key_not_found api_key_exists : Error
  exporter_not_found exporter_exists : Error
  kek_not_found kek_exists dek_not_found dek_exists : Error
  invalid_version operation_not_permitted : Error
  -- any other error of a backend, such as a lost connection
  backend_failure : Error

pub data Result {ℓ} (A : Type ℓ) : Type ℓ where
  ok : A → Result A
  err : Error → Result A

pub record Metadata : Type 0 where
  pub tags : Option (Map String (Option (List String)))
  pub properties : Option (Map String String)
  pub sensitive : Option (List String)

pub record Rule : Type 0 where
  pub name : String
  pub doc : String
  pub kind : String
  pub mode : String
  pub type : String
  pub tags : Option (List String)
  pub params : Option (Map String String)
  pub expr : String
  pub on_success : String
  pub on_failure : String
  pub disabled : Bool
  pub enable_at : Option ℤ

pub record RuleSet : Type 0 where
  pub migration_rules : Option (List Rule)
  pub domain_rules : Option (List Rule)
  pub encoding_rules : Option (List Rule)

pub record Reference : Type 0 where
  pub name : String
  pub subject : String
  pub version : ℤ
  pub schema : String

pub record SchemaRecord : Type 0 where
  pub id : ℤ
  pub subject : String
  pub version : ℤ
  pub schema_type : String
  pub schema : String
  pub references : List Reference
  pub metadata : Option Metadata
  pub rule_set : Option RuleSet
  pub fingerprint : String
  pub deleted : Bool
  pub created_at : ℕ

pub record SubjectVersion : Type 0 where
  pub subject : String
  pub version : ℤ

pub record ConfigRecord : Type 0 where
  pub subject : String
  pub compatibility_level : String
  pub normalize : Option Bool
  pub validate_fields : Option Bool
  pub alias : String
  pub compatibility_group : String
  pub default_metadata : Option Metadata
  pub override_metadata : Option Metadata
  pub default_rule_set : Option RuleSet
  pub override_rule_set : Option RuleSet
  pub alias_for_deks : String
  pub compatibility_policy : String

pub record ModeRecord : Type 0 where
  pub subject : String
  pub mode : String

pub record UserRecord : Type 0 where
  pub id : ℤ
  pub username : String
  pub email : String
  pub password_hash : String
  pub role : String
  pub enabled : Bool
  pub created_at : ℕ
  pub updated_at : ℕ

pub record ApiKeyRecord : Type 0 where
  pub id : ℤ
  pub user_id : ℤ
  pub key_hash : String
  pub key_prefix : String
  pub name : String
  pub role : String
  pub enabled : Bool
  pub created_at : ℕ
  pub expires_at : ℕ
  pub last_used : Option ℕ

pub record ExporterRecord : Type 0 where
  pub name : String
  pub context_type : String
  pub context : String
  pub subjects : List String
  pub subject_rename_format : String
  pub config : Map String String
  pub created_at : ℕ
  pub updated_at : ℕ

pub record ExporterStatusRecord : Type 0 where
  pub name : String
  pub state : String
  pub offset : ℤ
  pub ts : ℤ
  pub trace : String

pub record KekRecord : Type 0 where
  pub name : String
  pub kms_type : String
  pub kms_key_id : String
  pub kms_props : Option (Map String String)
  pub doc : String
  pub shared : Bool
  pub deleted : Bool
  pub ts : ℕ
  pub created_at : ℕ
  pub updated_at : ℕ

pub record DekRecord : Type 0 where
  pub kek_name : String
  pub subject : String
  pub version : ℤ
  pub algorithm : String
  pub encrypted_key_material : String
  pub key_material : String
  pub deleted : Bool
  pub ts : ℕ

pub record ListSchemasParams : Type 0 where
  pub subject_prefix : String
  pub deleted : Bool
  pub latest_only : Bool
  pub offset : ℤ
  pub limit : ℤ
