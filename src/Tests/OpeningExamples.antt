-- ===== src/Tests/OpeningExamples.antt =====
-- Unlocking, verifying and the recovery recipient at concrete inputs, in memory.
use borg_collective.Base.{◌≡◌, ◌↔◌, refl, none, some, [], ◌∷◌, false, codes, Bytes, List}
use borg_collective.Base.Exec.{ok}
use borg_collective.Base.Assoc.{lookup}
use borg_collective.Vault.Env.{recovery_sum_exists}
use borg_collective.Vault.State.{World, is_locked}
use borg_collective.Vault.Unlock.{passphrase_key, unlock, verify_passphrase}
use borg_collective.Vault.Files.{metadata_path, recovery_sum_path, identity_path}
use borg_collective.Vault.Memory.{in_memory}
use borg_collective.Vault.Opening.{unlock_half_open, verify_passphrase-unlock}
use borg_collective.Vault.Metadata.{IsAuthentic, read_item_metadata-IsAuthentic}
use borg_collective.Vault.Listing.{Listed, read_all_metadata_iff}
use borg_collective.Tests.Toy.{toy, toy-EnclavesOpen}
use borg_collective.Tests.Worlds.{new_world, passphrase, unlocked, with_item, item_id}
use borg_collective.Tests.PeerExamples.{secret, item}

abbrev wrong : Bytes
wrong = codes "open barley"

-- A new vault with a stray hash of a recovery recipient.
abbrev with_stray_sum : World
with_stray_sum = record new_world { files = (recovery_sum_path, codes "stray") ∷ [] }

unlock_half_open_example :
    (is_locked (unlock passphrase with_stray_sum).1.vault ≡ false)
    × ((unlock passphrase with_stray_sum).1.vault.items ≡ none)
    × (unlock wrong (unlock passphrase with_stray_sum).1
        ≡ (ok tt, (unlock passphrase with_stray_sum).1))
unfolding unlocked
unlock_half_open_example =
    unlock_half_open passphrase wrong with_stray_sum recovery_sum_exists refl refl refl

verify_passphrase-unlock_example :
    ((verify_passphrase passphrase (unlock passphrase new_world).1).0 ≡ ok tt)
    ↔ (passphrase_key false passphrase ≡ passphrase_key false passphrase)
unfolding unlocked
verify_passphrase-unlock_example =
    verify_passphrase-unlock toy-EnclavesOpen passphrase passphrase new_world refl refl

abbrev recovery : Bytes
recovery = codes "age1recovery"

with_item-IsAuthentic : IsAuthentic secret (metadata_path item) item with_item
unfolding with_item
with_item-IsAuthentic =
    read_item_metadata-IsAuthentic (metadata_path item) secret item with_item refl

abbrev listing : List Bytes
listing = identity_path ∷ codes ".version" ∷ metadata_path item ∷ []

read_all_metadata_iff_example : (lookup item_id ((item_id, item) ∷ []) ≡ some item) ↔ (
    (item.id ≡ item_id)
    × Listed (metadata_path item) listing
    × IsAuthentic secret (metadata_path item) item with_item)
unfolding with_item
read_all_metadata_iff_example =
    read_all_metadata_iff secret with_item listing ((item_id, item) ∷ []) item_id item refl refl
