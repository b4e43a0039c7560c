-- ===== src/Vault/Peers.antt =====
-- `GetItemForPeer` of credentials/internal/store/vault/vault.go.
use borg_collective.Base.{
  ◌≡◌, ◌≢◌, none, some, Bytes, Option, ==_iff, ==_refl, arith, Option-cases, inl, inr,
}
use borg_collective.Base.Exec.{err, ok}
use borg_collective.Base.Assoc.{lookup-insert}
use borg_collective.Vault.Env.{Env, Backend, Uuid, Item, credentials_mismatch}
use borg_collective.Vault.State.{World, find_item, after_attempt}
use borg_collective.Vault.Files.{write_item_metadata}
use borg_collective.Vault.Values.{verify_peer}
use borg_collective.Vault.Methods.{get_item_for_peer, value_of_item}
use borg_collective.Vault.Frames.{SameStore, read_item_value-frame}
use borg_collective.Vault.Laws.{EnclavesOpen}

module _ ⦃E : Env⦄ ⦃B : Backend⦄ where
  abbrev pub peer_of : Option Item → Option (Option Bytes)
  peer_of none = none
  peer_of (some item) = some item.peer

  pub write_item_metadata-vault :
      (item : Item) (secret : Bytes) (w : World)
      → (write_item_metadata item secret w).1.vault ≡ w.vault
  unfolding write_item_metadata
  write_item_metadata-vault item secret w = ground arith

  verify_peer-binds :
      (id : Uuid) (item : Item) (peer : Bytes) (w : World)
      → item.id ≡ id
      → find_item id w.vault ≡ some item
      → (verify_peer item peer w).0 ≡ ok tt
      → (peer_of (find_item id (verify_peer item peer w).1.vault) ≡ some (some peer))
        × ((verify_peer item peer w).1.vault.identity_key ≡ w.vault.identity_key)
        × ((verify_peer item peer w).1.vault.metadata_hmac_secret ≡ w.vault.metadata_hmac_secret)
  unfolding verify_peer
  verify_peer-binds id item peer w e found h =
      grind (arith, write_item_metadata-vault, lookup-insert, ==_refl, ==_iff)

  pub value_of_item-frame : (item : Item) (w : World) → SameStore w (value_of_item item w).1
  unfolding value_of_item
  value_of_item-frame item w = grind (arith, read_item_value-frame)

  -- An item that is bound to one peer is refused to any other, and nothing changes but the count of
  -- read attempts and the draws. The vault is unlocked, with its secret, and enclaves open.
  pub get_item_for_peer_refused :
      EnclavesOpen E
      → (id : Uuid) (item : Item) (bound peer key secret : Bytes) (w : World)
      → w.vault.identity_key ≡ some key
      → w.vault.metadata_hmac_secret ≡ some secret
      → find_item id w.vault ≡ some item
      → item.peer ≡ some bound
      → bound ≢ peer
      → ((get_item_for_peer id peer w).0 ≡ err credentials_mismatch)
        × SameStore w (get_item_for_peer id peer w).1
  unfolding get_item_for_peer verify_peer
  get_item_for_peer_refused opens id item bound peer key secret w hk hs hf hp ne =
      ground (arith, opens w.draws, ==_iff bound peer)

  -- If `GetItemForPeer` succeeds, on an unlocked vault with its secret that keeps the item under its
  -- id, then the item is bound to the peer, and the keys are as before.
  pub get_item_for_peer-binds :
      (id : Uuid) (peer key secret : Bytes) (w : World) (value : Option Bytes)
      → w.vault.identity_key ≡ some key
      → w.vault.metadata_hmac_secret ≡ some secret
      → ((item : Item) → find_item id w.vault ≡ some item → item.id ≡ id)
      → (get_item_for_peer id peer w).0 ≡ ok value
      → (peer_of (find_item id (get_item_for_peer id peer w).1.vault) ≡ some (some peer))
        × ((get_item_for_peer id peer w).1.vault.identity_key ≡ some key)
        × ((get_item_for_peer id peer w).1.vault.metadata_hmac_secret ≡ some secret)
  unfolding get_item_for_peer
  get_item_for_peer-binds id peer key secret w value hk hs ids h =
      elim (Option-cases (find_item id w.vault)) [
        | inl e ↦ absurd (ground arith)
        | inr (item, e) ↦
            let w' = (verify_peer item peer (after_attempt w)).1 in
            ground (
              arith,
              ids item e,
              verify_peer-binds id item peer (after_attempt w),
              value_of_item-frame item w',
            )
      ]
