-- ===== src/Vault/Opened.antt =====
-- What an unlocked vault with a readable identity is.
use borg_collective.Base.{◌≡◌, some, Bytes, arith}
use borg_collective.Base.Exec.{ok}
use borg_collective.Vault.Env.{Env, Backend, Uuid, Item}
use borg_collective.Vault.State.{World, find_item}
use borg_collective.Vault.Files.{identity_path, read_identity, derive_metadata_hmac_secret}

module _ ⦃E : Env⦄ ⦃B : Backend⦄ where
  -- The identity file opens with the vault's key, the other keys are those of the identity, and
  -- each item is kept under its id.
  pub record IsOpenFor (identity : E.Identity) (key : Bytes) (w : World) : Type 0 where
    pub keyed : w.vault.identity_key ≡ some key
    pub secret : w.vault.metadata_hmac_secret ≡ some (derive_metadata_hmac_secret identity)
    pub recipient : w.vault.primary_recipient ≡ some (E.recipient identity)
    pub readable : (read_identity (some key) w).0 ≡ ok identity
    pub ids : (id : Uuid) (item : Item) → find_item id w.vault ≡ some item → item.id ≡ id

  -- Reading the identity depends on its file only.
  pub read_identity-cong :
      (key : Bytes) (w w' : World)
      → B.read_file identity_path w'.files ≡ B.read_file identity_path w.files
      → (read_identity (some key) w').0 ≡ (read_identity (some key) w).0
  unfolding read_identity
  read_identity-cong key w w' e = ground arith
