-- ===== src/Tests/VaultExamples.antt =====
-- The theorems on the vault at concrete inputs.
use borg_collective.Base.{◌==◌, ◌≡◌, refl, some, [], ◌∷◌, false, codes, Bytes, arith, ==_iff}
use borg_collective.Base.Exec.{ok}
use borg_collective.Base.{List, Option, Bytes, ◌≡◌, ◌∷◌, some}
use borg_collective.Vault.Env.{Result}
use borg_collective.Vault.Slices.{
  Act, makes, writes, overwrites, reads, bytes_read, no_slices, run_acts, act, act_on_values,
  read_slice, write_slice, read_slice-run_acts,
}
use borg_collective.Vault.Memory.{read_memory, write_memory}
use borg_collective.Base.Assoc.{lookup, insert}
use borg_collective.Vault.Env.{Uuid, Item}
use borg_collective.Vault.State.{find_item}
use borg_collective.Vault.Opened.{IsOpenFor}
use borg_collective.Vault.Unlock.{passphrase_key}
use borg_collective.Vault.Methods.{get_item, set_item_value}
use borg_collective.Vault.Memory.{in_memory, in_memory-IsFileStore}
use borg_collective.Vault.RoundTrip.{get_item-set_item_value}
use borg_collective.Tests.Toy.{toy, toy-IsLawful, toy-EnclavesOpen}
use borg_collective.Tests.Worlds.{passphrase, with_item, item_id, secret_value}

abbrev pub identity : Bytes
identity = 0 ∷ codes "AGE-SECRET-KEY"

pub find_with_item :
    (id : Uuid) (item : Item) → find_item id with_item.vault ≡ some item → item.id ≡ id
unfolding with_item
find_with_item id item h = ground (arith, ==_iff item_id id)

pub with_item-IsOpenFor : IsOpenFor identity (passphrase_key false passphrase) with_item
unfolding with_item
with_item-IsOpenFor = record {
  keyed = refl;
  secret = refl;
  recipient = refl;
  readable = refl;
  ids = find_with_item;
}

get_item-set_item_value_example :
    (get_item item_id (set_item_value item_id secret_value with_item).1).0 ≡ ok (some secret_value)
unfolding with_item
get_item-set_item_value_example =
    get_item-set_item_value toy-IsLawful in_memory-IsFileStore toy-EnclavesOpen identity
      (passphrase_key false passphrase) secret_value item_id with_item with_item-IsOpenFor refl

-- A slice is written, wiped, read, and what was read is wiped too.
abbrev wiping : List Act
wiping =
    makes (codes "key")
    ∷ writes (codes "f") 0
    ∷ overwrites 0 (0 ∷ 0 ∷ 0 ∷ [])
    ∷ reads (codes "f")
    ∷ overwrites 2 (0 ∷ 0 ∷ 0 ∷ [])
    ∷ []

read_slice-run_acts_example :
    ◌≡◌ {A = Result (Option Bytes)}
      (ok (bytes_read (codes "f") (run_acts wiping no_slices []).0))
      (ok (some (codes "key")))
unfolding run_acts act act_on_values read_slice write_slice read_memory write_memory lookup insert
    ◌==◌
read_slice-run_acts_example = read_slice-run_acts wiping (codes "f")
