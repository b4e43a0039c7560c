-- ===== src/Vault/Items.antt =====
-- `CreateItem` and `DeleteItem` of credentials/internal/store/vault/vault.go.
use borg_collective.Base.{
  ◌≡◌, sym, ◌∙◌, none, some, [], Bytes, ◌==◌, ==_iff, ==_refl, arith, if◌then◌else◌,
}
use borg_collective.Base.Exec.{ok}
use borg_collective.Base.Assoc.{lookup-insert, lookup-erase}
use borg_collective.Vault.Env.{Env, Backend, Uuid, Item}
use borg_collective.Vault.State.{World, find_item}
use borg_collective.Vault.Files.{identity_path, metadata_path, value_path}
use borg_collective.Vault.Values.{delete_item_unsafe}
use borg_collective.Vault.Methods.{create_item, delete_item}
use borg_collective.Vault.Memory.{IsFileStore}
use borg_collective.Vault.Laws
use borg_collective.Vault.Laws.{IsLawful, EnclavesOpen}
use borg_collective.Vault.Opened.{IsOpenFor, read_identity-cong}
use borg_collective.Vault.RoundTrip.{write_item_metadata-keeps}
use borg_collective.Vault.Keyed.{create_item-IsKeyed}
use borg_collective.Vault.Recovery.{DeletesFiles}

module _ ⦃E : Env⦄ ⦃B : Backend⦄ where
  create_item-keeps :
      IsLawful E
      → IsFileStore B
      → (description : Bytes) (w : World)
      → (B.read_file identity_path (create_item description w).1.files
          ≡ B.read_file identity_path w.files)
        × ((create_item description w).1.vault.identity_key ≡ w.vault.identity_key)
        × ((create_item description w).1.vault.metadata_hmac_secret ≡ w.vault.metadata_hmac_secret)
        × ((create_item description w).1.vault.primary_recipient ≡ w.vault.primary_recipient)
  unfolding create_item
  create_item-keeps L S description w = grind (arith, write_item_metadata-keeps L S)

  pub create_item-found :
      (description : Bytes) (w : World) (item : Item)
      → (create_item description w).0 ≡ ok item
      → (find_item item.id (create_item description w).1.vault ≡ some item)
        × (item.description ≡ description)
        × (item.checksum ≡ [])
        × (item.peer ≡ none)
  unfolding create_item
  create_item-found description w item h = grind (arith, lookup-insert, ==_refl)

  -- If the backend reads what it wrote and the libraries are lawful, `CreateItem` leaves an open
  -- vault open for the same identity, with the new item found under its id, with the given
  -- description, no value and no peer.
  pub create_item-IsOpenFor :
      IsLawful E
      → IsFileStore B
      → (identity : E.Identity) (key description : Bytes) (item : Item) (w : World)
      → IsOpenFor identity key w
      → (create_item description w).0 ≡ ok item
      → IsOpenFor identity key (create_item description w).1
        × (find_item item.id (create_item description w).1.vault ≡ some item)
        × (item.description ≡ description)
        × (item.checksum ≡ [])
        × (item.peer ≡ none)
  create_item-IsOpenFor L S identity key description item w o h =
      let (file, keys, secrets, recipients) = create_item-keeps L S description w in
      let (found, described, unset, unbound) = create_item-found description w item h in
      (
        record {
          keyed = keys ∙ o.keyed;
          secret = secrets ∙ o.secret;
          recipient = recipients ∙ o.recipient;
          readable = read_identity-cong key w _ file ∙ o.readable;
          ids = (create_item-IsKeyed description w (record { ids = o.ids })).ids;
        },
        found,
        described,
        unset,
        unbound,
      )

  -- If `DeleteItem` succeeds, then no item is found under its id, under any other id the same item
  -- is found as before, and the identity key of the vault is as before.
  pub delete_item-removes :
      (id other : Uuid) (w : World)
      → (delete_item id w).0 ≡ ok tt
      → (find_item other (delete_item id w).1.vault
          ≡ (if id == other then none else find_item other w.vault))
        × ((delete_item id w).1.vault.identity_key ≡ w.vault.identity_key)
  unfolding delete_item delete_item_unsafe
  delete_item-removes id other w h = (grind (arith, lookup-erase, ==_iff), ground arith)

  -- If the backend reads what it wrote and its deletions do not fail, and an item is deleted
  -- without an error, then neither its metadata file nor its value file is left.
  pub delete_item-files :
      IsLawful E
      → IsFileStore B
      → DeletesFiles
      → (id : Uuid) (item : Item) (w : World) → find_item id w.vault ≡ some item
      → (delete_item id w).0 ≡ ok tt
      → (B.read_file (metadata_path item) (delete_item id w).1.files ≡ ok none)
        × (B.read_file (value_path item) (delete_item id w).1.files ≡ ok none)
  unfolding delete_item delete_item_unsafe
  delete_item-files L S deletes id item w found h =
      let after = (B.delete_file (metadata_path item) w.files).1 in
      let (b, gone) = deletes (metadata_path item) w.files in
      let (b', gone') = deletes (value_path item) after in
      ground (
        arith,
        gone,
        gone',
        S.read-delete (metadata_path item) b w.files gone,
        S.read-delete (value_path item) b' after gone',
        S.read-delete_ne (value_path item) (metadata_path item) after
            (λ e. Laws.metadata_path-ne-value_path L item (sym e)),
      )
