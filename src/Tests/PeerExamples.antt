-- ===== src/Tests/PeerExamples.antt =====
-- Peers, histories and deletions at concrete inputs.
use borg_collective.Base.{
  refl, none, [], ◌∷◌, false, codes, Bytes, arith, true, Option-cases, inl, inr,
}
use borg_collective.Base.Assoc.{lookup}
use borg_collective.Vault.Recovery.{DeletesFiles}
use borg_collective.Vault.Env.{Item}
use borg_collective.Vault.Unlock.{passphrase_key}
use borg_collective.Vault.Files.{derive_metadata_hmac_secret}
use borg_collective.Vault.Memory.{delete_memory, in_memory}
use borg_collective.Vault.Opened.{IsOpenFor}
use borg_collective.Vault.History.{
  unlocks, creates, sets_value, gets_for_peer, deletes, locks, run, run-IsKeyed,
}
use borg_collective.Vault.Keyed.{IsKeyed}
use borg_collective.Tests.Toy.{toy}
use borg_collective.Tests.Worlds.{new_world, passphrase, unlocked, item_id, secret_value}
use borg_collective.Tests.VaultExamples.{identity}

abbrev pub alice : Bytes
alice = codes "10.0.0.1:22"

abbrev bob : Bytes
bob = codes "10.0.0.2:22"

abbrev pub key : Bytes
key = passphrase_key false passphrase

abbrev pub secret : Bytes
secret = derive_metadata_hmac_secret identity

run-IsKeyed_example :
    IsKeyed
      (run
        (unlocks passphrase
          ∷ creates (codes "a")
          ∷ creates (codes "b")
          ∷ sets_value item_id secret_value
          ∷ gets_for_peer item_id alice
          ∷ deletes item_id
          ∷ locks
          ∷ [])
        new_world).vault
run-IsKeyed_example = run-IsKeyed _ new_world refl

-- The vault unlocked for the first time, which has no items.
pub unlocked-IsOpenFor : IsOpenFor identity key unlocked
unfolding unlocked
unlocked-IsOpenFor = record {
  keyed = refl;
  secret = refl;
  recipient = refl;
  readable = refl;
  ids = λ id item h. ground arith;
}

abbrev pub item : Item
item = record {
  id = item_id;
  description = codes "backup key";
  peer = none;
  checksum = [];
  modified_at = 5_000_000;
}

deletes_files : DeletesFiles ⦃B = in_memory⦄
unfolding delete_memory
deletes_files path s = elim (Option-cases (lookup path s)) [
  | inl e ↦ (false, ground arith)
  | inr (bytes, e) ↦ (true, ground arith)
]
