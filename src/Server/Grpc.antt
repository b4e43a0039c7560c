-- ===== src/Server/Grpc.antt =====
-- The handlers of server/grpc.go, over the state of the vault and, where items are streamed, over the
-- stream. All their errors have the code `Internal`.
use borg_collective.Base.{Bool, Option, none, some, List, [], ◌∷◌, ◌/◌, Bytes, map}
use borg_collective.Base.Exec.{Outcome, ok, err, panic, fatal, Exec}
use borg_collective.Vault.Env.{Env, Backend, Error, Item, Uuid, external}
use borg_collective.Vault.State.{World, M}
use borg_collective.Service.Requests.{
  RecoveryRecipient, ItemCreation, ItemSearch, ItemDeletion, ClientCreation, ClientCredentials,
  ItemRequest, ItemMessage, StoreInfo,
}
use borg_collective.Service.Methods.{
  store_info, unlock_service, lock_service, set_recovery_recipient_service, create_vault_item,
  list_vault_items, delete_vault_items, read_vault_item, create_client_credentials,
}

-- `status.Error(codes.Internal, …)`
pub data Status : Type 0 where
  internal : Error → Status

-- `grpc.ServerStreamingServer`: `send` gives the error, if there is one.
pub record Stream : Type 1 where
  pub State : Type 0
  pub send : ItemMessage → State → Option Bytes × State

abbrev pub with_status : {A : Type 0} → Outcome Error A → Outcome Status A
with_status (ok a) = ok a
with_status (err e) = err (internal e)
with_status panic = panic
with_status fatal = fatal

module _ ⦃E : Env⦄ ⦃B : Backend⦄ where
  -- A handler that replies once.
  abbrev pub reply : {A : Type 0} → M A → Exec Status World A
  reply method w = let (r, w') = method w in (with_status r, w')

  unfoldable pub get_info_rpc : Bool → Exec Status World StoreInfo
  get_info_rpc is_production = reply (store_info is_production)

  unfoldable pub unlock_vault_rpc : Bytes → Exec Status World Unit
  unlock_vault_rpc passphrase = reply (unlock_service passphrase)

  abbrev ignore_result : Outcome Status Bool → Outcome Status Unit
  ignore_result (ok _) = ok tt
  ignore_result (err e) = err e
  ignore_result panic = panic
  ignore_result fatal = fatal

  -- A vault that cannot be locked is logged.
  unfoldable pub lock_vault_rpc : Exec Status World Unit
  lock_vault_rpc w = let (r, w') = reply lock_service w in (ignore_result r, w')

  unfoldable pub set_recovery_recipient_rpc : RecoveryRecipient → Exec Status World Unit
  set_recovery_recipient_rpc request = reply (set_recovery_recipient_service request)

  unfoldable pub create_vault_item_rpc : ItemCreation → Exec Status World ItemMessage
  create_vault_item_rpc request = reply (create_vault_item request)

  -- `peer` is the address of the peer in the context.
  unfoldable pub read_vault_item_rpc : ItemRequest → Bytes → Exec Status World Bytes
  read_vault_item_rpc request peer = reply (read_vault_item request peer)

  unfoldable pub create_client_credentials_rpc :
      ClientCreation → Exec Status World ClientCredentials
  create_client_credentials_rpc request = reply (create_client_credentials request)

  unfoldable pub item_message : Item → ItemMessage
  item_message item = record {
    id = E.uuid_string item.id;
    description = item.description;
    checksum = item.checksum;
    created_at = item.modified_at / 1_000_000;
  }

  -- An item of which only the id is set; the other fields have their zero values.
  unfoldable pub id_message : Uuid → ItemMessage
  id_message id = record { id = E.uuid_string id; description = []; checksum = []; created_at = 0 }

  module _ ⦃S : Stream⦄ where
    -- The loop that sends.
    unfoldable pub send_all : List ItemMessage → Exec Status S.State Unit
    send_all [] stream = (ok tt, stream)
    send_all (message ∷ messages) stream =
        let (e, stream') = S.send message stream in
        let rest = send_all messages stream' in
        elim e [ none ↦ rest | some problem ↦ (err (internal (external problem)), stream') ]

    -- A handler that streams the messages of a result.
    abbrev pub stream_of :
        {A : Type 0} → M (List A) → (A → ItemMessage) → Exec Status (World × S.State) Unit
    stream_of method message (w, stream) =
        let (r, w') = method w in
        elim r [
          | ok items ↦
              let (sent, stream') = send_all (map message items) stream in (sent, (w', stream'))
          | err e ↦ (err (internal e), (w', stream))
          | panic ↦ (panic, (w', stream))
          | fatal ↦ (fatal, (w', stream))
        ]

    unfoldable pub list_vault_items_rpc : ItemSearch → Exec Status (World × S.State) Unit
    list_vault_items_rpc request = stream_of (list_vault_items request) item_message

    unfoldable pub delete_vault_items_rpc : ItemDeletion → Exec Status (World × S.State) Unit
    delete_vault_items_rpc request = stream_of (delete_vault_items request) id_message
