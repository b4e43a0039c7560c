-- ===== src/Service/Requests.antt =====
-- The messages of credentials/internal/proto that the service takes and returns.
use borg_collective.Base.{ℕ, Bool, Option, List, Bytes}

-- In a request `credentials` is the admin's passphrase, and `none` where `GetCredentials()` is nil.
pub record RecoveryRecipient : Type 0 where
  pub credentials : Option Bytes
  pub recipient : Bytes

pub record ItemCreation : Type 0 where
  pub credentials : Option Bytes
  pub description : Bytes
  pub value : Bytes

pub record ItemSearch : Type 0 where
  pub credentials : Option Bytes
  pub query : Bytes

-- `ids` is the field `Id`, which is repeated.
pub record ItemDeletion : Type 0 where
  pub credentials : Option Bytes
  pub ids : List Bytes

pub record ClientCreation : Type 0 where
  pub credentials : Option Bytes
  pub description : Bytes

pub record ClientCredentials : Type 0 where
  pub id : Bytes
  pub secret : Bytes

-- The `oneof` of an item request.
pub data RequestCredentials : Type 0 where
  admin : Bytes → RequestCredentials
  client : ClientCredentials → RequestCredentials
  nobody : RequestCredentials

pub record ItemRequest : Type 0 where
  pub credentials : RequestCredentials
  pub item_id : Bytes

-- `proto.Item`, with the time in milliseconds.
pub record ItemMessage : Type 0 where
  pub id : Bytes
  pub description : Bytes
  pub checksum : Bytes
  pub created_at : ℕ

pub record StoreInfo : Type 0 where
  pub version : Bytes
  pub is_vault_locked : Bool
  pub is_production : Bool
