-- ===== src/Vault/Frames.antt =====
-- The reading methods of vault.go, and the part of the state that they use.
use borg_collective.Base.{◌≡◌, refl, List, [], ◌∷◌, Bytes, Option, arith}
use borg_collective.Base.Exec.{err, ok, panic, fatal, Outcome, continue}
use borg_collective.Base.Assoc.{Assoc}
use borg_collective.Vault.Env.{Env, Backend, Item}
use borg_collective.Vault.State.{World}
use borg_collective.Vault.Files.{
  load_recovery_recipient, read_identity, read_item_metadata, read_entry, read_entries,
  read_all_metadata,
}
use borg_collective.Vault.Values.{decrypt_from_rest, encrypt_for_rest, read_item_value}
use borg_collective.Vault.Unlock.{verify_passphrase}

module _ ⦃E : Env⦄ ⦃B : Backend⦄ where
  pub load_recovery_recipient-frame :
      (secret : Bytes) (w : World) → (load_recovery_recipient secret w).1 ≡ w
  unfolding load_recovery_recipient
  load_recovery_recipient-frame secret w = ground arith

  pub read_identity-frame : (key : Option Bytes) (w : World) → (read_identity key w).1 ≡ w
  unfolding read_identity
  read_identity-frame key w = ground arith

  pub read_item_metadata-frame :
      (path secret : Bytes) (w : World) → (read_item_metadata path secret w).1 ≡ w
  unfolding read_item_metadata
  read_item_metadata-frame path secret w = ground arith

  pub read_entry-frame :
      (secret entry : Bytes) (items : Assoc Item) (w : World)
      → (read_entry secret entry items w).1 ≡ w
  unfolding read_entry
  read_entry-frame secret entry items w = ground (arith, read_item_metadata-frame entry secret w)

  pub read_entries-frame :
      (secret : Bytes) (listing : List Bytes) (items : Assoc Item) (w : World)
      → (read_entries secret listing items w).1 ≡ w
  unfolding read_entries
  read_entries-frame secret [] items w = refl
  read_entries-frame secret (entry ∷ listing) items w =
      go (read_entry secret entry items w).0 (read_entry secret entry items w).1
        (read_entry-frame secret entry items w)
        (λ items'. read_entries-frame secret listing items' w)
    where
      go :
          (r : Outcome _ (Assoc Item)) (w' : World)
          → w' ≡ w
          → ((items' : Assoc Item) → (read_entries secret listing items' w).1 ≡ w)
          → (continue r (λ items'. read_entries secret listing items') w').1 ≡ w
      go (ok items') w' e ih = rw e (ih items')
      go (err x) w' e ih = e
      go panic w' e ih = e
      go fatal w' e ih = e

  pub read_all_metadata-frame : (secret : Bytes) (w : World) → (read_all_metadata secret w).1 ≡ w
  unfolding read_all_metadata
  read_all_metadata-frame secret w = grind (arith, read_entries-frame)

  -- The vault and the files of two worlds agree.
  pub record SameStore (w w' : World) : Type 0 where
    pub vault : w'.vault ≡ w.vault
    pub files : w'.files ≡ w.files

  pub decrypt_from_rest-frame :
      (bytes : Bytes) (w : World) → SameStore w (decrypt_from_rest bytes w).1
  unfolding decrypt_from_rest
  decrypt_from_rest-frame bytes w = grind (arith, read_identity-frame)

  pub encrypt_for_rest-frame :
      (value : Bytes) (w : World) → SameStore w (encrypt_for_rest value w).1
  unfolding encrypt_for_rest
  encrypt_for_rest-frame value w = grind (arith, load_recovery_recipient-frame)

  pub read_item_value-frame : (item : Item) (w : World) → SameStore w (read_item_value item w).1
  unfolding read_item_value
  read_item_value-frame item w = grind (arith, decrypt_from_rest-frame)

  pub verify_passphrase-frame :
      (passphrase : Bytes) (w : World) → SameStore w (verify_passphrase passphrase w).1
  unfolding verify_passphrase
  verify_passphrase-frame passphrase w = ground arith
