-- ===== src/Service/Methods.antt =====
-- The methods of `State` in service.go, vault.go and clients.go, over the state of the vault.
use borg_collective.Base.{
  Bool, true, false, Option, none, some, List, [], ◌∷◌, ◌++◌, ◌/◌, Bytes, codes, ◌==◌,
  if◌then◌else◌,
}
use borg_collective.Base.Exec.{
  pure, raise, panics, lift, on_error, attempt, ignore, ok, err, panic, fatal, ◌>>=◌, ◌>>◌,
}
use borg_collective.Vault.Env.{
  Env, Backend, Result, Item, Uuid, credentials_mismatch, no_credentials,
}
use borg_collective.Vault.State.{M, draw, get_vault, is_locked, buffer_bytes}
use borg_collective.Vault.Unlock.{unlock, verify_passphrase, lock}
use borg_collective.Vault.Methods.{
  list_items, set_recovery_recipient, create_item, delete_item, get_item, get_item_for_peer,
  set_item_value,
}
use borg_collective.Service.Requests.{
  RecoveryRecipient, ItemCreation, ItemSearch, ItemDeletion, ClientCreation, ClientCredentials,
  RequestCredentials, admin, client, nobody, ItemRequest, ItemMessage, StoreInfo,
}

module _ ⦃E : Env⦄ ⦃B : Backend⦄ where
  -- `is_production` is the field of `State`.
  unfoldable pub store_info : Bool → M StoreInfo
  store_info is_production = do
    v ← get_vault
    pure (record {
      version = E.version;
      is_vault_locked = is_locked v;
      is_production = is_production;
    })

  unfoldable pub unlock_service : Bytes → M Unit
  unlock_service passphrase = unlock passphrase

  abbrev is_ok : Result Unit → Result Bool
  is_ok (ok _) = ok true
  is_ok (err _) = ok false
  is_ok panic = panic
  is_ok fatal = fatal

  unfoldable pub lock_service : M Bool
  lock_service w = let (r, w') = lock w in (is_ok r, w')

  -- `s.vault.VerifyPassphrase(request.GetCredentials().Passphrase)`, with the nil pointer.
  unfoldable pub verify_admin : Option Bytes → M Unit
  verify_admin credentials = elim credentials [
    | none ↦ panics
    | some passphrase ↦ verify_passphrase passphrase
  ]

  unfoldable pub set_recovery_recipient_service : RecoveryRecipient → M Unit
  set_recovery_recipient_service request = do
    verify_admin request.credentials
    recipient ← lift (E.parse_recipient request.recipient)
    set_recovery_recipient recipient

  unfoldable pub create_vault_item : ItemCreation → M ItemMessage
  create_vault_item request = do
    verify_admin request.credentials
    item ← create_item request.description
    on_error (set_item_value item.id request.value) λ e. do ignore (delete_item item.id); raise e
    pure (record {
      id = E.uuid_string item.id;
      description = item.description;
      checksum = item.checksum;
      created_at = item.modified_at / 1_000_000;
    })

  unfoldable pub list_vault_items : ItemSearch → M (List Item)
  list_vault_items request = do verify_admin request.credentials; list_items

  -- The loop of `DeleteVaultItems`: it ends at the first id that does not parse or delete.
  unfoldable pub delete_each : List Bytes → M (List Uuid)
  delete_each [] = pure []
  delete_each (id_raw ∷ ids) = do
    id ← lift (E.uuid_parse id_raw)
    delete_item id
    deleted ← delete_each ids
    pure (id ∷ deleted)

  unfoldable pub delete_vault_items : ItemDeletion → M (List Uuid)
  delete_vault_items request = do verify_admin request.credentials; delete_each request.ids

  unfoldable pub verify_client_credentials : ClientCredentials → M Unit
  verify_client_credentials credentials = do
    item_id ← on_error (lift (E.uuid_parse credentials.id)) (λ _. raise credentials_mismatch)
    item ← on_error (get_item item_id) (λ _. raise credentials_mismatch)
    secret ← buffer_bytes item
    if credentials.secret == secret then pure tt else raise credentials_mismatch

  -- The checks at the head of `ReadVaultItem`.
  unfoldable pub verify_request : RequestCredentials → M Unit
  verify_request (admin passphrase) = verify_passphrase passphrase
  verify_request (client credentials) = verify_client_credentials credentials
  verify_request nobody = raise no_credentials

  unfoldable pub read_for : RequestCredentials → Uuid → Bytes → M (Option Bytes)
  read_for (client credentials) item_id peer = get_item_for_peer item_id peer
  read_for (admin passphrase) item_id peer = get_item item_id
  read_for nobody item_id peer = get_item item_id

  -- `itemId, err := uuid.Parse(…)` assigns to the `err` that holds the result of the checks, so
  -- that their error is dropped. `peer` is `p.Addr.String()`.
  unfoldable pub read_vault_item : ItemRequest → Bytes → M Bytes
  read_vault_item request peer = do
    attempt (verify_request request.credentials)
    item_id ← lift (E.uuid_parse request.item_id)
    value ← read_for request.credentials item_id peer
    buffer_bytes value

  unfoldable pub create_client_credentials : ClientCreation → M ClientCredentials
  create_client_credentials request = do
    verify_admin request.credentials
    seed ← draw
    item ← create_item (codes "CC[" ++ (request.description ++ codes "]"))
    set_item_value item.id (E.random_text seed)
    secret ← get_item item.id
    bytes ← buffer_bytes secret
    pure (record { id = E.uuid_string item.id; secret = bytes })
