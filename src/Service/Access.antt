-- ===== src/Service/Access.antt =====
-- The checks of credentials in credentials/internal/store/service.
use borg_collective.Base.{◌≡◌, some, Bytes, arith}
use borg_collective.Base.Exec.{err, ok}
use borg_collective.Vault.Env.{Env, Backend, Error, Uuid}
use borg_collective.Vault.State.{World}
use borg_collective.Vault.Unlock.{verify_passphrase}
use borg_collective.Vault.Methods.{get_item}
use borg_collective.Vault.Frames.{SameStore, verify_passphrase-frame}
use borg_collective.Service.Requests.{
  RecoveryRecipient, ItemCreation, ItemSearch, ItemDeletion, ClientCreation, admin,
}
use borg_collective.Service.Methods.{
  verify_admin, set_recovery_recipient_service, create_vault_item, list_vault_items,
  delete_vault_items, create_client_credentials, verify_request, read_for, read_vault_item,
}

module _ ⦃E : Env⦄ ⦃B : Backend⦄ where
  -- If the passphrase does not verify, then setting the recovery recipient, creating, listing and
  -- deleting items and creating client credentials with it all fail with the error of the check,
  -- and leave the vault and its files as they were.
  pub admin_methods_refuse :
      (passphrase : Bytes) (w : World) (e : Error) (recovery : RecoveryRecipient)
      (creation : ItemCreation) (search : ItemSearch) (deletion : ItemDeletion)
      (client : ClientCreation)
      → recovery.credentials ≡ some passphrase
      → creation.credentials ≡ some passphrase
      → search.credentials ≡ some passphrase
      → deletion.credentials ≡ some passphrase
      → client.credentials ≡ some passphrase
      → (verify_passphrase passphrase w).0 ≡ err e
      → ((set_recovery_recipient_service recovery w).0 ≡ err e)
        × SameStore w (set_recovery_recipient_service recovery w).1
        × ((create_vault_item creation w).0 ≡ err e)
        × SameStore w (create_vault_item creation w).1
        × ((list_vault_items search w).0 ≡ err e)
        × SameStore w (list_vault_items search w).1
        × ((delete_vault_items deletion w).0 ≡ err e)
        × SameStore w (delete_vault_items deletion w).1
        × ((create_client_credentials client w).0 ≡ err e)
        × SameStore w (create_client_credentials client w).1
  unfolding verify_admin set_recovery_recipient_service create_vault_item list_vault_items
      delete_vault_items create_client_credentials
  admin_methods_refuse passphrase w e recovery creation search deletion client h1 h2 h3 h4 h5 h =
      ground (arith, verify_passphrase-frame passphrase w)

  -- `ReadVaultItem` treats all admin passphrases alike: two requests for one item that differ in the
  -- passphrase alone have the same result and the same effect.
  pub read_vault_item_ignores_passphrase :
      (p q item_id peer : Bytes) (w : World)
      → read_vault_item (record { credentials = admin p; item_id = item_id }) peer w
        ≡ read_vault_item (record { credentials = admin q; item_id = item_id }) peer w
  unfolding read_vault_item verify_request read_for verify_passphrase
  read_vault_item_ignores_passphrase p q item_id peer w = ground arith

  -- A wrong passphrase reads an item: if the passphrase does not verify, the id parses, and
  -- `GetItem` after the check returns a value, then `ReadVaultItem` returns that value.
  pub read_vault_item_without_passphrase :
      (passphrase item_id peer value : Bytes) (id : Uuid) (w : World) (e : Error)
      → (verify_passphrase passphrase w).0 ≡ err e
      → E.uuid_parse item_id ≡ ok id
      → (get_item id (verify_passphrase passphrase w).1).0 ≡ ok (some value)
      → (read_vault_item (record { credentials = admin passphrase; item_id = item_id }) peer w).0
        ≡ ok value
  unfolding read_vault_item verify_request read_for
  read_vault_item_without_passphrase passphrase item_id peer value id w e h hp hv = ground arith
