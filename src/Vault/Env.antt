-- ===== src/Vault/Env.antt =====
-- What the vault takes from outside: errors, items, the libraries that it calls (age, memguard,
-- uuid, semver, the hashes, ciphers and JSON of Go's library), and the interface of a backend.
use borg_collective.Base.{ℕ, String, Bool, Option, List, Bytes}
use borg_collective.Base.Exec.{Outcome, Exec}

-- The errors of the store, and `external` for those of libraries and of the operating system.
pub data Error : Type 0 where
  vault_is_locked item_not_found value_is_empty : Error
  passphrase_not_verified recovery_not_set item_not_created : Error
  credentials_mismatch no_credentials : Error
  recovery_sum_missing recovery_sum_mismatch recovery_sum_exists : Error
  metadata_checksum metadata_path_mismatch value_checksum invalid_key_size : Error
  metadata_not_found value_not_found file_not_found is_directory : Bytes → Error
  external : Bytes → Error
  wrapped : String → Error → Error

abbrev pub Result : Type 0 → Type 0
Result = Outcome Error

-- A UUID is its 16 bytes.
abbrev pub Uuid : Type 0
Uuid = Bytes

-- `modified_at` is the wall clock in nanoseconds since 1970.
pub record Item : Type 0 where
  pub id : Uuid
  pub description : Bytes
  pub peer : Option Bytes
  pub checksum : Bytes
  pub modified_at : ℕ

-- The libraries. What depends on randomness, the clock or the state of another library takes the
-- number of the call, so that each call may answer differently.
pub record Env : Type 1 where
  -- filippo.io/age
  pub Identity : Type 0
  pub Recipient : Type 0
  pub generate_identity : ℕ → Result Identity
  pub identity_string : Identity → Bytes
  pub parse_identity : Bytes → Result Identity
  pub recipient : Identity → Recipient
  pub recipient_string : Recipient → Bytes
  pub parse_recipient : Bytes → Result Recipient
  -- `Encrypt` and `Decrypt` with the copying of all data; a recipient may be a nil pointer.
  pub age_encrypt : ℕ → List (Option Recipient) → Bytes → Result Bytes
  pub age_decrypt : Identity → Bytes → Result Bytes
  -- memguard: the error of `Enclave.Open` at a call, `Open` on a nil `*Enclave`, and the bytes and
  -- the string of a nil `*LockedBuffer`.
  pub open_error : ℕ → Option Error
  pub nil_enclave : Result Bytes
  pub nil_buffer : Result Bytes
  -- crypto/sha256, crypto/hmac, crypto/cipher (AES-GCM with key, nonce and text), crypto/rand
  pub sha256 : Bytes → Bytes
  pub hmac_sha256 : Bytes → Bytes → Bytes
  pub gcm_seal : Bytes → Bytes → Bytes → Bytes
  pub gcm_open : Bytes → Bytes → Bytes → Result Bytes
  pub random_bytes : ℕ → ℕ → Result Bytes
  pub random_text : ℕ → Bytes
  -- google/uuid
  pub uuid_new : ℕ → Uuid
  pub uuid_string : Uuid → Bytes
  pub uuid_parse : Bytes → Result Uuid
  -- encoding/json on `Item`, and the clock in nanoseconds
  pub json_marshal : Item → Result Bytes
  pub json_unmarshal : Bytes → Result Item
  pub now : ℕ → ℕ
  -- Masterminds/semver, and the version of the program
  pub Version : Type 0
  pub parse_version : Bytes → Result Version
  pub less_than_equal : Version → Version → Bool
  pub version_before_recovery_verified : Version
  pub version : Bytes

-- The `Backend` interface. Reading changes nothing; a nil result is `none`.
pub record Backend : Type 1 where
  pub State : Type 0
  pub init : Exec Error State Unit
  pub list_files : Bytes → State → Result (List Bytes)
  pub read_file : Bytes → State → Result (Option Bytes)
  pub write_file : Bytes → Bytes → Exec Error State Unit
  pub delete_file : Bytes → Exec Error State Bool
