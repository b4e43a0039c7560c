-- ===== src/Vault/RoundTrip.antt =====
-- `SetItemValue` and `GetItem` of credentials/internal/store/vault/vault.go.
use borg_collective.Base.{
  ◌≡◌, refl, sym, ap, ◌∙◌, none, some, suc, [], Bytes, Option, ==_iff, ==_refl, arith, Option-cases,
  inl, inr,
}
use borg_collective.Base.Exec.{ok}
use borg_collective.Base.Assoc.{lookup-insert}
use borg_collective.Vault.Env.{Env, Backend, Uuid, Item}
use borg_collective.Vault.State.{after_attempt, World, Vault, find_item}
use borg_collective.Vault.Files.{
  sum, identity_path, value_path, read_identity, write_item_metadata, copy_file,
}
use borg_collective.Vault.Values.{
  encrypt_for_rest, decrypt_from_rest, read_item_value, store_value, backup_value, write_item_value,
}
use borg_collective.Vault.Methods.{get_item, set_item_value, value_of_item}
use borg_collective.Vault.Memory.{IsFileStore}
use borg_collective.Vault.Laws
use borg_collective.Vault.Opened.{IsOpenFor, read_identity-cong}
use borg_collective.Vault.Laws.{IsLawful, EnclavesOpen}
use borg_collective.Vault.Frames.{
  load_recovery_recipient-frame, read_identity-frame, encrypt_for_rest-frame,
}

abbrev id_and_checksum : Option Item → Option (Bytes × Bytes)
id_and_checksum none = none
id_and_checksum (some item) = some (item.id, item.checksum)

module _ ⦃E : Env⦄ ⦃B : Backend⦄ (L : IsLawful E) (S : IsFileStore B) where
  encrypt_for_rest-decrypts :
      (identity : E.Identity) (value encrypted : Bytes) (w : World)
      → w.vault.primary_recipient ≡ some (E.recipient identity)
      → (encrypt_for_rest value w).0 ≡ ok encrypted
      → E.age_decrypt identity encrypted ≡ ok value
  unfolding encrypt_for_rest
  encrypt_for_rest-decrypts identity value encrypted w p h =
      grind (arith, load_recovery_recipient-frame, L.decrypt-encrypt)

  backup_value-keeps :
      (item : Item) (w : World)
      → ((backup_value item w).1.vault ≡ w.vault)
        × (B.read_file identity_path (backup_value item w).1.files
            ≡ B.read_file identity_path w.files)
  unfolding backup_value copy_file
  backup_value-keeps item w = grind (arith, S.read-write_ne, Laws.backup_path-ne-identity_path)

  pub write_item_metadata-keeps :
      (item : Item) (secret : Bytes) (w : World)
      → ((write_item_metadata item secret w).1.vault ≡ w.vault)
        × (B.read_file identity_path (write_item_metadata item secret w).1.files
            ≡ B.read_file identity_path w.files)
        × (B.read_file (value_path item) (write_item_metadata item secret w).1.files
            ≡ B.read_file (value_path item) w.files)
  unfolding write_item_metadata
  write_item_metadata-keeps item secret w = grind (
    arith,
    S.read-write_ne,
    Laws.metadata_path-ne-identity_path L,
    Laws.metadata_path-ne-value_path L,
  )

  -- What `store_value` leaves when it succeeds.
  abbrev Stored : Item → Bytes → Bytes → World → World → Type 0
  Stored item value age_bytes w w' =
      (B.read_file (value_path item) w'.files ≡ ok (some age_bytes))
      × (w'.vault.identity_key ≡ w.vault.identity_key)
      × (id_and_checksum (find_item item.id w'.vault) ≡ some (item.id, sum value))

  store_value-keeps :
      (item : Item) (value age_bytes : Bytes) (w : World)
      → (B.read_file identity_path (store_value item value age_bytes w).1.files
          ≡ B.read_file identity_path w.files)
  unfolding store_value
  store_value-keeps item value age_bytes w = grind (
    arith,
    backup_value-keeps,
    write_item_metadata-keeps,
    S.read-write_ne,
    Laws.value_path-ne-identity_path L,
  )

  store_value-Stored :
      (item : Item) (value age_bytes : Bytes) (w : World)
      → (store_value item value age_bytes w).0 ≡ ok tt
      → Stored item value age_bytes w (store_value item value age_bytes w).1
  unfolding store_value value_path
  store_value-Stored item value age_bytes w h =
      grind
        (arith, backup_value-keeps, write_item_metadata-keeps, S.read-write, lookup-insert, ==_refl)

module _ ⦃E : Env⦄ ⦃B : Backend⦄ (L : IsLawful E) (opens : EnclavesOpen E) where
  -- Reading an item whose file decrypts to a value with the item's checksum.
  read_item_value-decrypts :
      (identity : E.Identity) (key value age_bytes : Bytes) (item : Item) (w : World)
      → w.vault.identity_key ≡ some key
      → (read_identity (some key) w).0 ≡ ok identity
      → B.read_file (value_path item) w.files ≡ ok (some age_bytes)
      → E.age_decrypt identity age_bytes ≡ ok value
      → sum value ≡ item.checksum
      → (read_item_value item w).0 ≡ ok value
  unfolding read_item_value decrypt_from_rest
  read_item_value-decrypts identity key value age_bytes item w hk hr hf hd hs = ground (
    arith,
    opens w.draws,
    ==_iff (sum value) item.checksum,
    read_identity-frame (some key) (record w { draws = suc w.draws }),
    read_identity-cong key w (record w { draws = suc w.draws }) refl,
  )

  value_of_item-reads :
      (item : Item) (w : World) (value : Bytes)
      → sum value ≡ item.checksum
      → (read_item_value item w).0 ≡ ok value
      → (value_of_item item w).0 ≡ ok (some value)
  unfolding value_of_item
  value_of_item-reads item w value hs hr =
      ground (arith, ==_iff item.checksum [], Laws.sum-ne-nil L value)

  get_item-value_of_item :
      (id : Uuid) (item : Item) (w : World) (key value : Bytes)
      → w.vault.identity_key ≡ some key
      → find_item id w.vault ≡ some item
      → (value_of_item item (after_attempt w)).0 ≡ ok (some value)
      → (get_item id w).0 ≡ ok (some value)
  unfolding get_item
  get_item-value_of_item id item w key value hk hf hv = ground arith

module _ ⦃E : Env⦄ ⦃B : Backend⦄ where
  set_item_value-inv :
      (id : Uuid) (value : Bytes) (w : World)
      → (set_item_value id value w).0 ≡ ok tt
      → (item : Item) × (find_item id w.vault ≡ some item)
        × (set_item_value id value w ≡ write_item_value item value w)
  unfolding set_item_value
  set_item_value-inv id value w h = elim (Option-cases (find_item id w.vault)) [
    | inl e ↦ absurd (ground arith)
    | inr (item, e) ↦ (item, e, ground arith)
  ]

  write_item_value-inv :
      (item : Item) (value : Bytes) (w : World)
      → (write_item_value item value w).0 ≡ ok tt
      → (encrypted : Bytes) × ((encrypt_for_rest value w).0 ≡ ok encrypted)
        × (write_item_value item value w
            ≡ store_value item value encrypted (encrypt_for_rest value w).1)
  unfolding write_item_value
  write_item_value-inv item value w h = ground arith

id_and_checksum-inv :
    (o : Option Item) (id : Uuid) (checksum : Bytes)
    → id_and_checksum o ≡ some (id, checksum)
    → (item : Item) × (o ≡ some item) × (item.id ≡ id) × (item.checksum ≡ checksum)
id_and_checksum-inv none id checksum h = absurd (cc)
id_and_checksum-inv (some item) id checksum h = (item, refl, cc, cc)

value_path-cong : ⦃E : Env⦄ (i j : Item) → i.id ≡ j.id → value_path i ≡ value_path j
unfolding value_path
value_path-cong i j e = cc

module _ ⦃E : Env⦄ ⦃B : Backend⦄ (L : IsLawful E) (opens : EnclavesOpen E) where
  get_item_of_stored :
      (identity : E.Identity) (key value encrypted : Bytes) (item : Item) (w : World)
      → w.vault.identity_key ≡ some key
      → (read_identity (some key) w).0 ≡ ok identity
      → B.read_file (value_path item) w.files ≡ ok (some encrypted)
      → E.age_decrypt identity encrypted ≡ ok value
      → id_and_checksum (find_item item.id w.vault) ≡ some (item.id, sum value)
      → (get_item item.id w).0 ≡ ok (some value)
  get_item_of_stored identity key value encrypted item w hk hr hf hd hs =
      let (item', found, ids, sums) = id_and_checksum-inv _ _ _ hs in
      get_item-value_of_item L opens item.id item' w key value hk found (
        value_of_item-reads L opens item' (after_attempt w) value (sym sums) (
          read_item_value-decrypts L opens identity key value encrypted item' (after_attempt w) hk
            (read_identity-cong key w (after_attempt w) refl ∙ hr)
            (rw (value_path-cong item' item ids) hf) hd (sym sums)))

module _ ⦃E : Env⦄ ⦃B : Backend⦄ (L : IsLawful E) (S : IsFileStore B) (opens : EnclavesOpen E) where
  get_item-write_item_value :
      (identity : E.Identity) (key value : Bytes) (item : Item) (w : World)
      → IsOpenFor identity key w
      → (write_item_value item value w).0 ≡ ok tt
      → (get_item item.id (write_item_value item value w).1).0 ≡ ok (some value)
  get_item-write_item_value identity key value item w o h =
      let (encrypted, made, e) = write_item_value-inv item value w h in
      let frame = encrypt_for_rest-frame value w in
      let stored =
        store_value-Stored L S item value encrypted (encrypt_for_rest value w).1 (rw e at h) in
      rw e (
        get_item_of_stored L opens identity key value encrypted item _
          (stored.1 ∙ ap (λ (v : Vault). v.identity_key) frame.vault ∙ o.keyed)
          (read_identity-cong key w _ (
              store_value-keeps L S item value encrypted (encrypt_for_rest value w).1
              ∙ ap (B.read_file identity_path) frame.files)
            ∙ o.readable)
          stored.0 (encrypt_for_rest-decrypts L S identity value encrypted w o.recipient made)
          stored.2)

  -- If the libraries are lawful, the backend reads what it wrote and enclaves open, then on a
  -- vault that is open for an identity, after `SetItemValue` has succeeded, `GetItem` of the same
  -- id returns the value that was set.
  pub get_item-set_item_value :
      (identity : E.Identity) (key value : Bytes) (id : Uuid) (w : World)
      → IsOpenFor identity key w
      → (set_item_value id value w).0 ≡ ok tt
      → (get_item id (set_item_value id value w).1).0 ≡ ok (some value)
  get_item-set_item_value identity key value id w o h =
      let (item, found, e) = set_item_value-inv id value w h in
      rw (e, ← o.ids id item found)
        (get_item-write_item_value identity key value item w o (rw e at h))
