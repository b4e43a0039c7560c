-- ===== src/Tests/ServiceExamples.antt =====
-- The service at concrete inputs, in memory.
use borg_collective.Base.{◌≡◌, refl, none, some, [], ◌∷◌, codes, Bytes, arith}
use borg_collective.Base.Exec.{ok, err}
use borg_collective.Vault.Env.{Uuid, passphrase_not_verified, credentials_mismatch}
use borg_collective.Vault.State.{find_item}
use borg_collective.Vault.Frames.{SameStore}
use borg_collective.Vault.Methods.{get_item}
use borg_collective.Vault.Memory.{in_memory, in_memory-IsFileStore}
use borg_collective.Service.Requests.{
  RecoveryRecipient, ItemCreation, ItemSearch, ItemDeletion, ClientCreation, ClientCredentials,
  admin, ItemMessage,
}
use borg_collective.Service.Methods.{
  set_recovery_recipient_service, create_vault_item, list_vault_items, delete_each,
  delete_vault_items, read_vault_item, create_client_credentials, verify_client_credentials,
  verify_admin,
}
use borg_collective.Service.Access.{admin_methods_refuse, read_vault_item_without_passphrase}
use borg_collective.Service.Items.{get_item-create_vault_item, delete_each-finds}
use borg_collective.Service.Clients.{client_credentials_accepted}
use borg_collective.Tests.Toy.{toy, toy-IsLawful, toy-EnclavesOpen}
use borg_collective.Tests.Worlds.{
  passphrase, unlocked, with_item, item_id, secret_value, with_value,
}
use borg_collective.Tests.VaultExamples.{identity}
use borg_collective.Tests.PeerExamples.{key, alice, unlocked-IsOpenFor}

abbrev wrong : Bytes
wrong = codes "open barley"

abbrev creation : Bytes → ItemCreation
creation p = record { credentials = some p; description = codes "db"; value = secret_value }

abbrev recovery : RecoveryRecipient
recovery = record { credentials = some wrong; recipient = codes "age1recovery" }

abbrev search : ItemSearch
search = record { credentials = some wrong; query = codes "db" }

abbrev deletion : ItemDeletion
deletion = record { credentials = some wrong; ids = item_id ∷ [] }

abbrev client_creation : Bytes → ClientCreation
client_creation p = record { credentials = some p; description = codes "laptop" }

admin_methods_refuse_example :
    ((set_recovery_recipient_service recovery with_item).0 ≡ err passphrase_not_verified)
    × SameStore with_item (set_recovery_recipient_service recovery with_item).1
    × ((create_vault_item (creation wrong) with_item).0 ≡ err passphrase_not_verified)
    × SameStore with_item (create_vault_item (creation wrong) with_item).1
    × ((list_vault_items search with_item).0 ≡ err passphrase_not_verified)
    × SameStore with_item (list_vault_items search with_item).1
    × ((delete_vault_items deletion with_item).0 ≡ err passphrase_not_verified)
    × SameStore with_item (delete_vault_items deletion with_item).1
    × ((create_client_credentials (client_creation wrong) with_item).0
        ≡ err passphrase_not_verified)
    × SameStore with_item (create_client_credentials (client_creation wrong) with_item).1
unfolding with_item
admin_methods_refuse_example =
    admin_methods_refuse wrong with_item passphrase_not_verified recovery (creation wrong) search
      deletion (client_creation wrong) refl refl refl refl refl refl

read_vault_item_without_passphrase_example :
    (read_vault_item
      (record { credentials = admin wrong; item_id = toy.uuid_string item_id })
      alice
      with_value).0
    ≡ ok secret_value
unfolding with_value
read_vault_item_without_passphrase_example =
    read_vault_item_without_passphrase wrong (toy.uuid_string item_id) alice secret_value item_id
      with_value passphrase_not_verified refl refl refl

-- The item that the service creates first has this id.
abbrev created_id : Uuid
created_id = toy.uuid_new 5

abbrev created : ItemMessage
created = record {
  id = toy.uuid_string created_id;
  description = codes "db";
  checksum = [];
  created_at = 6;
}

get_item-create_vault_item_example :
    (id : Uuid) × (toy.uuid_string created_id ≡ toy.uuid_string id)
    × ((get_item id (create_vault_item (creation passphrase) unlocked).1).0
        ≡ ok (some secret_value))
unfolding unlocked create_vault_item verify_admin
get_item-create_vault_item_example =
    get_item-create_vault_item toy-IsLawful in_memory-IsFileStore toy-EnclavesOpen identity key
      passphrase (creation passphrase) unlocked created unlocked-IsOpenFor refl refl

delete_each-finds_example :
    find_item item_id (delete_each (toy.uuid_string item_id ∷ []) with_item).1.vault ≡ none
unfolding with_item delete_each
delete_each-finds_example =
    delete_each-finds (toy.uuid_string item_id ∷ []) item_id with_item (item_id ∷ []) refl

abbrev credentials : ClientCredentials
credentials = record { id = toy.uuid_string (toy.uuid_new 6); secret = toy.random_text 5 }

client_credentials_accepted_example :
    ((verify_client_credentials credentials
        (create_client_credentials (client_creation passphrase) unlocked).1).0
      ≡ ok tt)
    × ((verify_client_credentials
          (record credentials { secret = codes "guess" })
          (create_client_credentials (client_creation passphrase) unlocked).1).0
        ≡ err credentials_mismatch)
unfolding unlocked create_client_credentials verify_admin
client_credentials_accepted_example =
    client_credentials_accepted toy-IsLawful in_memory-IsFileStore toy-EnclavesOpen identity key
      passphrase (codes "guess") (client_creation passphrase) unlocked credentials
      unlocked-IsOpenFor refl (λ e. absurd (ground (arith, e))) refl
