-- ===== src/Vault/Unlock.antt =====
-- `upgrade` of upgrade.go, and `Unlock`, `VerifyPassphrase` and `Lock` of vault.go.
use borg_collective.Base.{
  Bool, true, Option, none, some, [], ◌++◌, Bytes, codes, ◌==◌, if◌then◌else◌,
}
use borg_collective.Base.Exec.{pure, raise, lift, on_error, attempt, ◌>>=◌, ◌>>◌}
use borg_collective.Vault.Env.{
  Env, Backend, vault_is_locked, passphrase_not_verified, recovery_sum_exists, wrapped,
}
use borg_collective.Vault.State.{
  M, is_locked, draw, get_vault, modify_vault, modify_metrics, read_file, write_file, open_enclave,
  set_items_count,
}
use borg_collective.Vault.Files.{
  recovery_path, recovery_sum_path, identity_path, create_recovery_hash,
  derive_metadata_hmac_secret, read_identity, write_identity, read_all_metadata,
}

abbrev pub version_path : Bytes
version_path = codes ".version"

module _ ⦃E : Env⦄ where
  -- The key that `Unlock` and `VerifyPassphrase` compute.
  unfoldable pub passphrase_key : Bool → Bytes → Bytes
  passphrase_key secure passphrase =
      E.sha256 (passphrase ++ (if secure then codes "sentinel" else []))

  abbrev pub is_outdated : Option E.Version → Bool
  is_outdated current = elim current [
    | none ↦ true
    | some version ↦ E.less_than_equal version E.version_before_recovery_verified
  ]

module _ ⦃E : Env⦄ ⦃B : Backend⦄ where
  unfoldable pub read_version : M (Option E.Version)
  read_version = do
    current_version_bytes ← read_file version_path
    elim current_version_bytes [
      | none ↦ pure none
      | some bytes ↦ do version ← lift (E.parse_version bytes); pure (some version)
    ]

  -- The body of the branch for a version without `.recovery.sum`.
  unfoldable pub add_recovery_sum : Bytes → M Unit
  add_recovery_sum secret = do
    existing_recovery_hash ← read_file recovery_sum_path
    elim existing_recovery_hash [
      | some _ ↦ raise recovery_sum_exists
      | none ↦ do
        rec_bytes ← read_file recovery_path
        elim rec_bytes [
          | none ↦ pure tt
          | some rec_bytes ↦ do
            recipient ← lift (E.parse_recipient rec_bytes)
            write_file recovery_sum_path (create_recovery_hash recipient secret)
        ]
    ]

  unfoldable pub upgrade : Bytes → M Unit
  upgrade secret = do
    current_version ← read_version
    if is_outdated current_version then add_recovery_sum secret else pure tt
    write_file version_path E.version

  unfoldable pub set_identity_key : Option Bytes → M Unit
  set_identity_key key = modify_vault (λ v. record v { identity_key = key })

  -- All keys and, as `items` is nil after them, the items.
  unfoldable pub clear_keys : M Unit
  clear_keys =
      modify_vault
        λ v. record v { identity_key = none; metadata_hmac_secret = none; primary_recipient = none }

  unfoldable pub set_identity : E.Identity → M Unit
  set_identity identity = modify_vault λ v. record v {
    metadata_hmac_secret = some (derive_metadata_hmac_secret identity);
    primary_recipient = some (E.recipient identity);
  }

  -- The branch of `Unlock` for a vault with an identity file.
  unfoldable pub open_identity : Bytes → M Unit
  open_identity raw_sum = do
    identity_key ← attempt (open_enclave (some raw_sum))
    identity ←
        on_error (read_identity identity_key)
          λ _. do set_identity_key none; raise passphrase_not_verified
    set_identity identity

  -- The branch of `Unlock` for a new vault. A failed `writeIdentity` keeps the identity key.
  unfoldable pub create_identity : Bytes → M Unit
  create_identity raw_sum = do
    seed ← draw
    identity ←
        on_error (lift (E.generate_identity seed))
          λ _. do set_identity_key none; raise passphrase_not_verified
    identity_key ← attempt (open_enclave (some raw_sum))
    on_error (write_identity identity_key identity) (λ _. raise passphrase_not_verified)
    set_identity identity

  unfoldable pub load_identity : Bytes → M Unit
  load_identity raw_sum = do
    identity_bytes ←
        on_error (read_file identity_path)
          λ _. do set_identity_key none; raise passphrase_not_verified
    elim identity_bytes [ some _ ↦ open_identity raw_sum | none ↦ create_identity raw_sum ]

  -- The rest of `Unlock`, once the keys are set. A failed `upgrade` keeps the keys.
  unfoldable pub load_items : M Unit
  load_items = do
    v ← get_vault
    metadata_hmac_secret ←
        on_error (open_enclave v.metadata_hmac_secret)
          λ _. do clear_keys; raise passphrase_not_verified
    on_error (upgrade metadata_hmac_secret) (λ e. raise (wrapped "failed to upgrade vault" e))
    items ← on_error (read_all_metadata metadata_hmac_secret) λ _. do
      clear_keys
      modify_vault (λ v. record v { items = none })
      raise passphrase_not_verified
    modify_vault (λ v. record v { items = some items })
    modify_metrics (λ m. record m { vault_open = 1 })
    set_items_count

  unfoldable pub unlock : Bytes → M Unit
  unlock passphrase = do
    v ← get_vault
    if is_locked v
        then (do
          set_identity_key (some (passphrase_key v.secure passphrase))
          load_identity (passphrase_key v.secure passphrase)
          load_items)
        else pure tt

  unfoldable pub verify_passphrase : Bytes → M Unit
  verify_passphrase passphrase = do
    v ← get_vault
    if is_locked v then raise vault_is_locked else do
      identity_key ← on_error (open_enclave v.identity_key) (λ _. raise passphrase_not_verified)
      if passphrase_key v.secure passphrase == identity_key
          then pure tt
          else raise passphrase_not_verified

  unfoldable pub lock : M Unit
  lock = do
    v ← get_vault
    if is_locked v then raise vault_is_locked else do
      modify_vault λ v. record v {
        identity_key = none;
        metadata_hmac_secret = none;
        primary_recipient = none;
        items = none;
      }
      modify_metrics (λ m. record m { vault_open = 0 })
