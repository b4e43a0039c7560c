-- ===== src/Vault/Files.antt =====
-- credentials/internal/store/vault/utils.go: the files of a vault.
use borg_collective.Base.{
  ℕ, ◌-◌, ◌/◌, Bool, ◌||◌, Option, none, some, List, [], ◌∷◌, ◌++◌, Bytes, codes, ◌==◌, eqb, ltb,
  if◌then◌else◌, length, take, drop, encode_to_string, format_decimal, filepath_ext,
}
use borg_collective.Base.Exec.{pure, raise, panics, lift, on_error, attempt, ignore, ◌>>=◌, ◌>>◌}
use borg_collective.Base.Assoc.{Assoc, insert}
use borg_collective.Vault.Env.{
  Item, Env, Backend, recovery_sum_missing, recovery_sum_mismatch, invalid_key_size,
  metadata_not_found, metadata_checksum, metadata_path_mismatch, file_not_found, wrapped,
}
use borg_collective.Vault.State.{
  M, draw, list_files, read_file, write_file, delete_file, buffer_bytes,
}

abbrev pub identity_path : Bytes
identity_path = codes ".identity"

abbrev pub recovery_path : Bytes
recovery_path = codes ".recovery"

abbrev pub recovery_sum_path : Bytes
recovery_sum_path = codes ".recovery.sum"

-- The key sizes that `aes.NewCipher` takes; on AES `cipher.NewGCM` does not fail.
abbrev is_key_size : ℕ → Bool
is_key_size n = eqb n 16 || eqb n 24 || eqb n 32

module _ ⦃E : Env⦄ where
  unfoldable pub sum : Bytes → Bytes
  sum bytes = encode_to_string (E.sha256 bytes)

  unfoldable pub create_recovery_hash : E.Recipient → Bytes → Bytes
  create_recovery_hash recipient secret = sum (E.recipient_string recipient ++ secret)

  unfoldable pub derive_metadata_hmac_secret : E.Identity → Bytes
  derive_metadata_hmac_secret identity = E.sha256 (E.identity_string identity)

  -- `now` is the time of the call in nanoseconds.
  unfoldable pub backup_path : Item → ℕ → Bytes
  backup_path item now =
      codes ".bak/"
      ++ (E.uuid_string item.id
          ++ (codes "." ++ (format_decimal (now / 1_000_000) ++ codes ".json")))

  unfoldable pub metadata_path : Item → Bytes
  metadata_path item = E.uuid_string item.id ++ codes ".json"

  unfoldable pub value_path : Item → Bytes
  value_path item = E.uuid_string item.id ++ codes ".age"

module _ ⦃E : Env⦄ ⦃B : Backend⦄ where
  unfoldable pub load_recovery_recipient : Bytes → M (Option E.Recipient)
  load_recovery_recipient secret = do
    rec_bytes ← read_file recovery_path
    elim rec_bytes [
      | none ↦ pure none
      | some rec_bytes ↦ do
        rec_sum_bytes ← read_file recovery_sum_path
        elim rec_sum_bytes [
          | none ↦ raise recovery_sum_missing
          | some rec_sum_bytes ↦ do
            recipient ← lift (E.parse_recipient rec_bytes)
            if rec_sum_bytes == create_recovery_hash recipient secret
                then pure (some recipient)
                else raise recovery_sum_mismatch
        ]
    ]

  unfoldable pub write_recovery_recipient : E.Recipient → Bytes → M Unit
  write_recovery_recipient recipient secret = do
    write_file recovery_path (E.recipient_string recipient)
    on_error (write_file recovery_sum_path (create_recovery_hash recipient secret))
        λ e. do ignore (delete_file recovery_path); raise e

  -- The slices `cryptBytes[:12]` and `cryptBytes[12:]` panic on a shorter file.
  unfoldable pub read_identity : Option Bytes → M E.Identity
  read_identity identity_key = do
    crypt_bytes ← read_file identity_path
    elim crypt_bytes [
      | none ↦ panics
      | some crypt_bytes ↦ do
        key ← buffer_bytes identity_key
        if is_key_size (length key)
            then (if ltb (length crypt_bytes) 12 then panics else do
              raw_identity ← lift (E.gcm_open key (take 12 crypt_bytes) (drop 12 crypt_bytes))
              lift (E.parse_identity raw_identity))
            else panics
    ]

  unfoldable pub write_identity : Option Bytes → E.Identity → M Unit
  write_identity identity_key identity = do
    key ← buffer_bytes identity_key
    if is_key_size (length key)
        then (do
          seed ← draw
          nonce ← on_error (lift (E.random_bytes seed 12)) (λ _. panics)
          write_file identity_path (nonce ++ E.gcm_seal key nonce (E.identity_string identity)))
        else raise invalid_key_size

  -- The slice `metadataBytes[:len(metadataBytes)-32]` panics on a shorter file.
  unfoldable pub read_item_metadata : Bytes → Bytes → M Item
  read_item_metadata path hmac_secret = do
    metadata_bytes ← read_file path
    elim metadata_bytes [
      | none ↦ raise (metadata_not_found path)
      | some bytes ↦
          if ltb (length bytes) 32
          then panics
          else if E.hmac_sha256 hmac_secret (take (length bytes - 32) bytes)
              == drop (length bytes - 32) bytes
          then (do
            metadata ← lift (E.json_unmarshal (take (length bytes - 32) bytes))
            if path == metadata_path metadata then pure metadata else raise metadata_path_mismatch)
          else raise metadata_checksum
    ]

  unfoldable pub write_item_metadata : Item → Bytes → M Unit
  write_item_metadata item hmac_secret = do
    metadata_bytes ← lift (E.json_marshal item)
    write_file (metadata_path item) (metadata_bytes ++ E.hmac_sha256 hmac_secret metadata_bytes)

  -- One round of the loop in `readAllMetadataUnsafe`.
  unfoldable pub read_entry : Bytes → Bytes → Assoc Item → M (Assoc Item)
  read_entry hmac_secret entry items =
      if filepath_ext entry == codes ".json"
      then (do
        read ← attempt (read_item_metadata entry hmac_secret)
        elim read [ none ↦ pure items | some metadata ↦ pure (insert metadata.id metadata items) ])
      else pure items

  unfoldable pub read_entries : Bytes → List Bytes → Assoc Item → M (Assoc Item)
  read_entries hmac_secret [] items = pure items
  read_entries hmac_secret (entry ∷ listing) items = do
    items' ← read_entry hmac_secret entry items
    read_entries hmac_secret listing items'

  unfoldable pub read_all_metadata : Bytes → M (Assoc Item)
  read_all_metadata hmac_secret = do
    listing ← on_error (list_files []) (λ e. raise (wrapped "error reading directory" e))
    read_entries hmac_secret listing []

  unfoldable pub copy_file : Bytes → Bytes → M Unit
  copy_file src dest = do
    src_bytes ← read_file src
    elim src_bytes [ none ↦ raise (file_not_found src) | some bytes ↦ write_file dest bytes ]
