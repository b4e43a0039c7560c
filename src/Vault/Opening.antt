-- ===== src/Vault/Opening.antt =====
-- `Unlock` and `VerifyPassphrase` of credentials/internal/store/vault/vault.go.
use borg_collective.Base.{
  ◌≡◌, ◌↔◌, ◌≤◌, true, false, none, some, Bytes, Option, Bool, ==_iff, arith, length, take, drop,
}
use borg_collective.Base.Exec.{err, ok}
use borg_collective.Vault.Env.{Env, Backend, Error, passphrase_not_verified, wrapped}
use borg_collective.Vault.State.{World, Vault, is_locked}
use borg_collective.Vault.Files.{identity_path, read_identity, write_identity}
use borg_collective.Vault.Unlock.{
  passphrase_key, read_version, add_recovery_sum, upgrade, set_identity_key, clear_keys,
  set_identity, open_identity, create_identity, load_identity, load_items, unlock,
  verify_passphrase,
}
use borg_collective.Vault.Frames.{read_identity-frame, read_all_metadata-frame}
use borg_collective.Vault.Laws.{EnclavesOpen}

abbrev present {ℓ} : {A : Type ℓ} → Option A → Bool
present none = false
present (some _) = true

module _ ⦃E : Env⦄ where
  -- The keys and the items are there together, or not at all.
  pub record IsConsistent (v : Vault) : Type 0 where
    pub secret : present v.metadata_hmac_secret ≡ present v.identity_key
    pub recipient : present v.primary_recipient ≡ present v.identity_key
    pub items : present v.items ≡ present v.identity_key

module _ ⦃E : Env⦄ ⦃B : Backend⦄ where
  pub write_identity-vault :
      (key : Option Bytes) (identity : E.Identity) (w : World)
      → (write_identity key identity w).1.vault ≡ w.vault
  unfolding write_identity
  write_identity-vault key identity w = ground arith

  read_version-frame : (w : World) → (read_version w).1 ≡ w
  unfolding read_version
  read_version-frame w = ground arith

  add_recovery_sum-vault :
      (secret : Bytes) (w : World) → (add_recovery_sum secret w).1.vault ≡ w.vault
  unfolding add_recovery_sum
  add_recovery_sum-vault secret w = ground arith

  pub upgrade-vault : (secret : Bytes) (w : World) → (upgrade secret w).1.vault ≡ w.vault
  unfolding upgrade
  upgrade-vault secret w = ground (arith, read_version-frame w, add_recovery_sum-vault secret w)

  -- What the steps after the identity key was set leave.
  record Identified (w w' : World) : Type 0 where
    key : w'.vault.identity_key ≡ w.vault.identity_key
    items : w'.vault.items ≡ w.vault.items
    secure : w'.vault.secure ≡ w.vault.secure
    secret : present w'.vault.metadata_hmac_secret ≡ true
    recipient : present w'.vault.primary_recipient ≡ true

  open_identity-Identified :
      (raw_sum : Bytes) (w : World)
      → (open_identity raw_sum w).0 ≡ ok tt
      → Identified w (open_identity raw_sum w).1
  unfolding open_identity set_identity set_identity_key
  open_identity-Identified raw_sum w h = grind (arith, read_identity-frame)

  create_identity-Identified :
      (raw_sum : Bytes) (w : World)
      → (create_identity raw_sum w).0 ≡ ok tt
      → Identified w (create_identity raw_sum w).1
  unfolding create_identity set_identity set_identity_key
  create_identity-Identified raw_sum w h = grind (arith, write_identity-vault)

  load_identity-Identified :
      (raw_sum : Bytes) (w : World)
      → (load_identity raw_sum w).0 ≡ ok tt
      → Identified w (load_identity raw_sum w).1
  unfolding load_identity set_identity_key
  load_identity-Identified raw_sum w h =
      ground (arith, open_identity-Identified raw_sum w, create_identity-Identified raw_sum w)

  load_identity-err :
      (raw_sum : Bytes) (w : World) (e : Error)
      → (load_identity raw_sum w).0 ≡ err e
      → e ≡ passphrase_not_verified
  unfolding load_identity open_identity create_identity set_identity set_identity_key
  load_identity-err raw_sum w e h = grind (arith, read_identity-frame, write_identity-vault)

  load_items-ok :
      (w : World)
      → (load_items w).0 ≡ ok tt
      → ((load_items w).1.vault.identity_key ≡ w.vault.identity_key)
        × ((load_items w).1.vault.metadata_hmac_secret ≡ w.vault.metadata_hmac_secret)
        × ((load_items w).1.vault.primary_recipient ≡ w.vault.primary_recipient)
        × ((load_items w).1.vault.secure ≡ w.vault.secure)
        × (present (load_items w).1.vault.items ≡ true)
  unfolding load_items clear_keys
  load_items-ok w h = grind (arith, upgrade-vault, read_all_metadata-frame)

  load_items-half_open :
      (w : World) (e : Error)
      → (load_items w).0 ≡ err (wrapped "failed to upgrade vault" e)
      → (load_items w).1.vault ≡ w.vault
  unfolding load_items clear_keys
  load_items-half_open w e h = grind (arith, upgrade-vault, read_all_metadata-frame)

  -- The state in which `Unlock` loads the identity.
  abbrev keyed : Bytes → World → World
  keyed key w = record w { vault = record w.vault { identity_key = some key } }

  abbrev identified : Bytes → World → World
  identified key w = (load_identity key (keyed key w)).1

  -- If `Unlock` succeeds on a vault without an identity key, the vault has all its keys and items,
  -- and its identity key is that of the passphrase.
  pub unlock-IsConsistent :
      (passphrase : Bytes) (w : World)
      → w.vault.identity_key ≡ none
      → (unlock passphrase w).0 ≡ ok tt
      → IsConsistent (unlock passphrase w).1.vault
        × ((unlock passphrase w).1.vault.identity_key
            ≡ some (passphrase_key w.vault.secure passphrase))
        × ((unlock passphrase w).1.vault.secure ≡ w.vault.secure)
  unfolding unlock set_identity_key
  unlock-IsConsistent passphrase w locked h =
      let key = passphrase_key w.vault.secure passphrase in
      ground (arith, load_identity-Identified key (keyed key w), load_items-ok (identified key w))

  -- If `Unlock` fails in the upgrade, on a vault without identity key and items, the vault counts as
  -- unlocked but has no items, and a second `Unlock` with any passphrase succeeds and changes
  -- nothing.
  pub unlock_half_open :
      (passphrase other : Bytes) (w : World) (e : Error)
      → w.vault.identity_key ≡ none
      → w.vault.items ≡ none
      → (unlock passphrase w).0 ≡ err (wrapped "failed to upgrade vault" e)
      → (is_locked (unlock passphrase w).1.vault ≡ false)
        × ((unlock passphrase w).1.vault.items ≡ none)
        × (unlock other (unlock passphrase w).1 ≡ (ok tt, (unlock passphrase w).1))
  unfolding unlock set_identity_key
  unlock_half_open passphrase other w e locked none_yet h =
      let key = passphrase_key w.vault.secure passphrase in
      ground (
        arith,
        load_identity-Identified key (keyed key w),
        load_identity-err key (keyed key w) (wrapped "failed to upgrade vault" e),
        load_items-half_open (identified key w) e,
      )

  -- If the identity file is there and does not open with the key of the passphrase, `Unlock` on a
  -- vault without an identity key fails with "failed to verify passphrase" and changes neither
  -- the vault nor the files.
  pub unlock_wrong_passphrase :
      EnclavesOpen E
      → (passphrase crypt_bytes : Bytes) (e : Error) (w : World) → w.vault.identity_key ≡ none
      → B.read_file identity_path w.files ≡ ok (some crypt_bytes)
      → 12 ≤ length crypt_bytes
      → length (passphrase_key w.vault.secure passphrase) ≡ 32
      → E.gcm_open
          (passphrase_key w.vault.secure passphrase)
          (take 12 crypt_bytes)
          (drop 12 crypt_bytes)
        ≡ err e
      → ((unlock passphrase w).0 ≡ err passphrase_not_verified)
        × ((unlock passphrase w).1.vault ≡ w.vault)
        × ((unlock passphrase w).1.files ≡ w.files)
  unfolding unlock set_identity_key load_identity open_identity read_identity
  unlock_wrong_passphrase opens passphrase crypt_bytes e w locked file long size wrong =
      ground (arith, opens w.draws)

  -- If `Unlock` succeeds on a vault without an identity key, and enclaves open, then
  -- `VerifyPassphrase` accepts exactly the passphrases with the same key.
  pub verify_passphrase-unlock :
      EnclavesOpen E
      → (passphrase other : Bytes) (w : World) → w.vault.identity_key ≡ none
      → (unlock passphrase w).0 ≡ ok tt
      → ((verify_passphrase other (unlock passphrase w).1).0 ≡ ok tt)
        ↔ (passphrase_key w.vault.secure other ≡ passphrase_key w.vault.secure passphrase)
  unfolding verify_passphrase
  verify_passphrase-unlock opens passphrase other w locked h =
      let (_, key, secure) = unlock-IsConsistent passphrase w locked h in
      ground (
        arith,
        opens (unlock passphrase w).1.draws,
        ==_iff (passphrase_key w.vault.secure other) (passphrase_key w.vault.secure passphrase),
      )
