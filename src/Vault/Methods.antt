-- ===== src/Vault/Methods.antt =====
-- The methods of vault.go on items and on the recovery recipient. Each runs under the vault's
-- lock, so that it is one step.
use borg_collective.Base.{
  ℕ, zero, suc, Option, none, some, List, [], ◌∷◌, Bytes, ◌==◌, if◌then◌else◌,
}
use borg_collective.Base.Exec.{Outcome, lift, pure, raise, exits, on_error, ◌>>=◌, ◌>>◌}
use borg_collective.Base.Assoc.{values}
use borg_collective.Vault.Env.{
  Error, Item, Uuid, Env, Backend, vault_is_locked, item_not_found, value_is_empty,
  recovery_not_set, item_not_created,
}
use borg_collective.Vault.State.{
  M, is_locked, find_item, draw, time_now, get_vault, modify_metrics, open_enclave, put_item,
  set_items_count,
}
use borg_collective.Vault.Files.{
  load_recovery_recipient, write_recovery_recipient, read_all_metadata, write_item_metadata,
}
use borg_collective.Vault.Values.{
  read_item_value, write_item_value, verify_peer, delete_item_unsafe,
}

module _ ⦃E : Env⦄ ⦃B : Backend⦄ where
  -- `Items`. A nil map has no items.
  unfoldable pub list_items : M (List Item)
  list_items = do v ← get_vault; pure (elim v.items [ none ↦ [] | some m ↦ values m ])

  -- The loop that writes the previous recipient back, with the tries left; the process ends when
  -- all have failed.
  unfoldable pub restore_recovery : ℕ → E.Recipient → Bytes → M Unit
  restore_recovery zero old secret = exits
  restore_recovery (suc tries) old secret =
      on_error (write_recovery_recipient old secret) (λ _. restore_recovery tries old secret)

  -- The body of the loop over the items: errors are logged and dropped.
  unfoldable pub rewrite_value : Item → M Unit
  rewrite_value item =
      on_error (do value ← read_item_value item; write_item_value item value) (λ _. pure tt)

  unfoldable pub rewrite_values : List Item → M Unit
  rewrite_values [] = pure tt
  rewrite_values (item ∷ items) = do rewrite_value item; rewrite_values items

  -- The part of `SetRecoveryRecipient` that writes the recipient, or restores the previous one.
  unfoldable pub replace_recovery : E.Recipient → Bytes → M Unit
  replace_recovery recipient secret = do
    old_recovery_recipient ← load_recovery_recipient secret
    on_error (write_recovery_recipient recipient secret) λ _. do
      elim old_recovery_recipient [ none ↦ pure tt | some old ↦ restore_recovery 3 old secret ]
      raise recovery_not_set

  -- The part that encrypts the values anew.
  unfoldable pub rewrite_all : Bytes → M Unit
  rewrite_all secret = do
    items ← on_error (read_all_metadata secret) (λ _. raise recovery_not_set)
    rewrite_values (values items)

  unfoldable pub set_recovery_recipient : E.Recipient → M Unit
  set_recovery_recipient recipient = do
    v ← get_vault
    if is_locked v then raise vault_is_locked else do
      secret ← on_error (open_enclave v.metadata_hmac_secret) (λ _. raise recovery_not_set)
      replace_recovery recipient secret
      rewrite_all secret

  unfoldable pub create_item : Bytes → M Item
  create_item description = do
    v ← get_vault
    if is_locked v then raise vault_is_locked else do
      seed ← draw
      now ← time_now
      let item : Item = record {
        id = E.uuid_new seed;
        description = description;
        peer = none;
        checksum = [];
        modified_at = now;
      }
      secret ← on_error (open_enclave v.metadata_hmac_secret) (λ _. raise item_not_created)
      on_error (write_item_metadata item secret) (λ _. raise item_not_created)
      put_item item
      set_items_count
      pure item

  unfoldable pub delete_item : Uuid → M Unit
  delete_item id = do
    v ← get_vault
    if is_locked v then raise vault_is_locked else do delete_item_unsafe id; set_items_count

  abbrev count_attempt : M Unit
  count_attempt = modify_metrics (λ m. record m { item_read_attempts = suc m.item_read_attempts })

  -- The value of an item, or nil for an item that has none yet.
  unfoldable pub value_of_item : Item → M (Option Bytes)
  value_of_item item =
      if item.checksum == [] then pure none else do value ← read_item_value item; pure (some value)

  unfoldable pub get_item : Uuid → M (Option Bytes)
  get_item id = do
    count_attempt
    v ← get_vault
    if is_locked v
        then raise vault_is_locked
        else elim (find_item id v) [ none ↦ raise item_not_found | some item ↦ value_of_item item ]

  unfoldable pub get_item_for_peer : Uuid → Bytes → M (Option Bytes)
  get_item_for_peer id peer = do
    count_attempt
    v ← get_vault
    if is_locked v then raise vault_is_locked else elim (find_item id v) [
      | none ↦ raise item_not_found
      | some item ↦ do verify_peer item peer; value_of_item item
    ]

  unfoldable pub set_item_value : Uuid → Bytes → M Unit
  set_item_value id value = if value == [] then raise value_is_empty else do
    v ← get_vault
    if is_locked v then raise vault_is_locked else elim (find_item id v) [
      | none ↦ raise item_not_found
      | some item ↦ write_item_value item value
    ]

  -- `WriteItemValue`, on what reading the whole of its reader returns.
  unfoldable pub write_item_value_from : Uuid → Outcome Error Bytes → M Unit
  write_item_value_from id read = do value ← lift read; set_item_value id value
