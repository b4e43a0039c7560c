-- ===== src/Vault/Values.antt =====
-- The methods of vault.go that read and write item values at rest, without taking the lock.
use borg_collective.Base.{suc, Bool, true, false, none, some, [], ◌∷◌, Bytes, ◌==◌, if◌then◌else◌}
use borg_collective.Base.Exec.{pure, raise, exits, lift, on_error, attempt, ◌>>=◌, ◌>>◌}
use borg_collective.Vault.Env.{
  Item, Uuid, Env, Backend, value_not_found, value_checksum, credentials_mismatch, wrapped,
}
use borg_collective.Vault.State.{
  M, draw, time_now, get_vault, modify_metrics, read_file, write_file, delete_file, open_enclave,
  put_item, remove_item, find_item,
}
use borg_collective.Vault.Files.{
  sum, backup_path, metadata_path, value_path, load_recovery_recipient, read_identity,
  write_item_metadata, copy_file,
}

module _ ⦃E : Env⦄ ⦃B : Backend⦄ where
  -- An error of `Open` is dropped; those of the rest end the process.
  unfoldable pub decrypt_from_rest : Bytes → M Bytes
  decrypt_from_rest bytes = do
    v ← get_vault
    identity_key ← attempt (open_enclave v.identity_key)
    identity ← on_error (read_identity identity_key) (λ _. exits)
    on_error (lift (E.age_decrypt identity bytes)) (λ _. exits)

  -- Every error ends the process.
  unfoldable pub encrypt_for_rest : Bytes → M Bytes
  encrypt_for_rest value = do
    v ← get_vault
    secret ← on_error (open_enclave v.metadata_hmac_secret) (λ _. exits)
    recovery_recipient ← on_error (load_recovery_recipient secret) (λ _. exits)
    seed ← draw
    on_error
        (lift (
          E.age_encrypt seed
            (v.primary_recipient
              ∷ elim recovery_recipient [ none ↦ [] | some recipient ↦ some recipient ∷ [] ])
            value))
        (λ _. exits)

  unfoldable pub read_item_value : Item → M Bytes
  read_item_value item = do
    age_bytes ←
        on_error (read_file (value_path item)) (λ e. raise (wrapped "failed to read item value" e))
    elim age_bytes [
      | none ↦ raise (value_not_found (E.uuid_string item.id))
      | some age_bytes ↦ do
        value ←
            on_error (decrypt_from_rest age_bytes)
              (λ e. raise (wrapped "failed to read item value" e))
        if sum value == item.checksum
            then (do modify_metrics (λ m. record m { item_reads = suc m.item_reads }); pure value)
            else raise value_checksum
    ]

  unfoldable pub verify_peer : Item → Bytes → M Unit
  verify_peer item peer = do
    v ← get_vault
    metadata_hmac_secret ←
        on_error (open_enclave v.metadata_hmac_secret)
          (λ e. raise (wrapped "failed to verify peer" e))
    elim item.peer [
      | none ↦ do
        on_error (write_item_metadata (record item { peer = some peer }) metadata_hmac_secret)
            (λ e. raise (wrapped "failed to write item metadata" e))
        put_item (record item { peer = some peer })
      | some bound ↦ if bound == peer then pure tt else raise credentials_mismatch
    ]

  unfoldable pub backup_value : Item → M Unit
  backup_value item = if item.checksum == [] then pure tt else do
    now ← time_now
    on_error (copy_file (value_path item) (backup_path item now))
        (λ e. raise (wrapped "failed to create backup of previous value" e))

  -- `writeItemValueUnsafe` from the backup on.
  unfoldable pub store_value : Item → Bytes → Bytes → M Unit
  store_value item value age_bytes = do
    backup_value item
    now ← time_now
    let written : Item = record item { checksum = sum value; modified_at = now }
    on_error (write_file (value_path item) age_bytes)
        (λ e. raise (wrapped "failed to write item value" e))
    v ← get_vault
    metadata_hmac_secret ←
        on_error (open_enclave v.metadata_hmac_secret)
          (λ e. raise (wrapped "failed to write item value" e))
    on_error (write_item_metadata written metadata_hmac_secret)
        (λ e. raise (wrapped "failed to write item metadata" e))
    put_item written

  unfoldable pub write_item_value : Item → Bytes → M Unit
  write_item_value item value = do
    age_bytes ←
        on_error (encrypt_for_rest value) (λ e. raise (wrapped "failed to encrypt item value" e))
    store_value item value age_bytes

  -- An error of either deletion is logged at debug level and dropped.
  unfoldable pub delete_item_unsafe : Uuid → M Bool
  delete_item_unsafe id = do
    v ← get_vault
    elim (find_item id v) [
      | none ↦ pure false
      | some item ↦ do
        remove_item id
        attempt (delete_file (metadata_path item))
        attempt (delete_file (value_path item))
        pure true
    ]
