-- ===== src/Tests/Worlds.antt =====
-- A vault in memory: new, unlocked for the first time, with one item, and with its value.
use borg_collective.Base.{◌≡◌, refl, none, some, [], false, codes, Bytes}
use borg_collective.Base.Exec.{ok}
use borg_collective.Vault.Env.{Uuid}
use borg_collective.Vault.State.{World}
use borg_collective.Vault.Files.{
  sum, create_recovery_hash, derive_metadata_hmac_secret, backup_path, metadata_path, value_path,
  load_recovery_recipient, write_recovery_recipient, read_identity, write_identity,
  read_item_metadata, write_item_metadata, read_entry, read_entries, read_all_metadata, copy_file,
}
use borg_collective.Vault.Values.{
  decrypt_from_rest, encrypt_for_rest, read_item_value, verify_peer, backup_value, store_value,
  write_item_value, delete_item_unsafe,
}
use borg_collective.Vault.Unlock.{
  passphrase_key, read_version, add_recovery_sum, upgrade, set_identity_key, clear_keys,
  set_identity, open_identity, create_identity, load_identity, load_items, unlock,
  verify_passphrase, lock,
}
use borg_collective.Vault.Methods.{
  list_items, restore_recovery, replace_recovery, rewrite_all, rewrite_value, rewrite_values,
  set_recovery_recipient, create_item, delete_item, value_of_item, get_item, get_item_for_peer,
  set_item_value,
}
use borg_collective.Vault.Memory.{
  in_memory, is_listed, list_keys, read_memory, write_memory, delete_memory,
}
use borg_collective.Base.{
  encode_to_string, format_decimal, filepath_ext, contains_byte, has_suffix, has_prefix, ◌==◌,
}
use borg_collective.Base.Assoc.{lookup, insert, erase, values, keys}
use borg_collective.Tests.Toy.{toy}

abbrev pub new_world : World
new_world = record {
  vault = record {
    secure = false;
    identity_key = none;
    metadata_hmac_secret = none;
    primary_recipient = none;
    items = none;
  };
  files = [];
  draws = 0;
  metrics = record { vault_open = 0; items_count = 0; item_reads = 0; item_read_attempts = 0 };
}

abbrev pub passphrase : Bytes
passphrase = codes "open sesame"

-- Its line opens every method for the examples.
unfoldable pub unlocked : World
unfolding sum create_recovery_hash derive_metadata_hmac_secret backup_path metadata_path value_path
    load_recovery_recipient write_recovery_recipient read_identity write_identity read_item_metadata
    write_item_metadata read_entry read_entries read_all_metadata copy_file decrypt_from_rest
    encrypt_for_rest read_item_value verify_peer backup_value store_value write_item_value
    delete_item_unsafe passphrase_key read_version add_recovery_sum upgrade set_identity_key
    clear_keys set_identity open_identity create_identity load_identity load_items unlock
    verify_passphrase lock list_items restore_recovery replace_recovery rewrite_all rewrite_value
    rewrite_values set_recovery_recipient create_item delete_item value_of_item get_item
    get_item_for_peer set_item_value is_listed list_keys read_memory write_memory delete_memory
    encode_to_string format_decimal filepath_ext contains_byte has_suffix has_prefix ◌==◌ lookup
    insert erase values keys
unlocked = (unlock passphrase new_world).1

unfoldable pub with_item : World
unfolding unlocked
with_item = (create_item (codes "backup key") unlocked).1

abbrev pub item_id : Uuid
item_id = toy.uuid_new 4

abbrev pub secret_value : Bytes
secret_value = codes "hunter2"

unfoldable pub with_value : World
unfolding with_item
with_value = (set_item_value item_id secret_value with_item).1

unlock_run : (unlock passphrase new_world).0 ≡ ok tt
unfolding unlocked
unlock_run = refl

get_run : (get_item item_id with_value).0 ≡ ok (some secret_value)
unfolding with_value
get_run = refl

relock_run : (get_item item_id (unlock passphrase (lock with_value).1).1).0 ≡ ok (some secret_value)
unfolding with_value
relock_run = refl
