-- ===== src/Vault/Keyed.antt =====
-- The ids of the items of a vault (credentials/internal/store/vault/vault.go).
use borg_collective.Base.{◌≡◌, ap, some, Bytes, ==_iff, arith, Option-cases, inl, inr}
use borg_collective.Base.Exec.{Outcome-cases}
use borg_collective.Base.Assoc.{Assoc, insert, lookup-insert, lookup-erase}
use borg_collective.Vault.Env.{Env, Backend, Uuid, Item}
use borg_collective.Vault.State.{after_attempt, World, Vault, find_item}
use borg_collective.Vault.Files.{copy_file}
use borg_collective.Vault.Values.{
  verify_peer, backup_value, store_value, encrypt_for_rest, write_item_value, delete_item_unsafe,
}
use borg_collective.Vault.Unlock.{
  passphrase_key, unlock, lock, load_identity, open_identity, create_identity, load_items,
  set_identity, set_identity_key, clear_keys,
}
use borg_collective.Vault.Methods.{
  create_item, delete_item, get_item, get_item_for_peer, set_item_value,
}
use borg_collective.Vault.Frames.{
  read_identity-frame, read_all_metadata-frame, encrypt_for_rest-frame,
}
use borg_collective.Vault.Opening.{write_identity-vault, upgrade-vault}
use borg_collective.Vault.Peers.{write_item_metadata-vault, value_of_item-frame}
use borg_collective.Vault.Listing.{read_all_metadata-ids}

module _ ⦃E : Env⦄ where
  pub record IsKeyed (v : Vault) : Type 0 where
    pub ids : (id : Uuid) (item : Item) → find_item id v ≡ some item → item.id ≡ id

  pub put-IsKeyed :
      (v : Vault) (item : Item) (m : Assoc Item)
      → v.items ≡ some m
      → IsKeyed v
      → IsKeyed (record v { items = some (insert item.id item m) })
  put-IsKeyed v item m e k = record {
    ids = λ id other found.
        ground (arith, lookup-insert item.id id item m, ==_iff item.id id, k.ids id other);
  }

  pub same-IsKeyed : (v v' : Vault) → v'.items ≡ v.items → IsKeyed v → IsKeyed v'
  same-IsKeyed v v' e k = record { ids = λ id item found. k.ids id item (rw (← e) found) }

module _ ⦃E : Env⦄ ⦃B : Backend⦄ where
  pub backup_value-vault : (item : Item) (w : World) → (backup_value item w).1.vault ≡ w.vault
  unfolding backup_value copy_file
  backup_value-vault item w = ground arith

  pub store_value-IsKeyed :
      (item : Item) (value age_bytes : Bytes) (w : World)
      → IsKeyed w.vault
      → IsKeyed (store_value item value age_bytes w).1.vault
  unfolding store_value
  store_value-IsKeyed item value age_bytes w k = record {
    ids = λ id other found. grind (
      arith,
      backup_value-vault,
      write_item_metadata-vault,
      lookup-insert,
      ==_iff,
      k.ids id other,
    );
  }

  pub write_item_value-IsKeyed :
      (item : Item) (value : Bytes) (w : World)
      → IsKeyed w.vault
      → IsKeyed (write_item_value item value w).1.vault
  unfolding write_item_value
  write_item_value-IsKeyed item value w k = elim (Outcome-cases (encrypt_for_rest value w).0) [
    | inl (encrypted, e) ↦
        rw (e, write_item_value)
          (store_value-IsKeyed item value encrypted _ (
            same-IsKeyed w.vault _
              (ap (λ (v : Vault). v.items) (encrypt_for_rest-frame value w).vault) k))
    | inr (inl (x, e)) ↦ same-IsKeyed w.vault _ (ground (arith, encrypt_for_rest-frame value w)) k
    | inr (inr (inl e)) ↦ same-IsKeyed w.vault _ (ground (arith, encrypt_for_rest-frame value w)) k
    | inr (inr (inr e)) ↦ same-IsKeyed w.vault _ (ground (arith, encrypt_for_rest-frame value w)) k
  ]

  pub verify_peer-IsKeyed :
      (item : Item) (peer : Bytes) (w : World)
      → IsKeyed w.vault
      → IsKeyed (verify_peer item peer w).1.vault
  unfolding verify_peer
  verify_peer-IsKeyed item peer w k = record {
    ids = λ id other found.
        grind (arith, write_item_metadata-vault, lookup-insert, ==_iff, k.ids id other);
  }

  pub create_item-IsKeyed :
      (description : Bytes) (w : World)
      → IsKeyed w.vault
      → IsKeyed (create_item description w).1.vault
  unfolding create_item
  create_item-IsKeyed description w k = record {
    ids = λ id other found.
        grind (arith, write_item_metadata-vault, lookup-insert, ==_iff, k.ids id other);
  }

  pub delete_item-IsKeyed :
      (id : Uuid) (w : World) → IsKeyed w.vault → IsKeyed (delete_item id w).1.vault
  unfolding delete_item delete_item_unsafe
  delete_item-IsKeyed gone w k = record {
    ids = λ id other found. grind (arith, lookup-erase, ==_iff, k.ids id other);
  }

  pub set_item_value-IsKeyed :
      (id : Uuid) (value : Bytes) (w : World)
      → IsKeyed w.vault
      → IsKeyed (set_item_value id value w).1.vault
  unfolding set_item_value
  set_item_value-IsKeyed id value w k = elim (Option-cases (find_item id w.vault)) [
    | inl e ↦ same-IsKeyed w.vault _ (ground arith) k
    | inr (item, e) ↦ record {
      ids = λ j other found.
          ground (arith, (write_item_value-IsKeyed item value w k).ids j other, k.ids j other);
    }
  ]

  pub get_item_for_peer-IsKeyed :
      (id : Uuid) (peer : Bytes) (w : World)
      → IsKeyed w.vault
      → IsKeyed (get_item_for_peer id peer w).1.vault
  unfolding get_item_for_peer
  get_item_for_peer-IsKeyed id peer w k = elim (Option-cases (find_item id w.vault)) [
    | inl e ↦ same-IsKeyed w.vault _ (ground arith) k
    | inr (item, e) ↦
        let after = (verify_peer item peer (after_attempt w)).1 in
        let k' = verify_peer-IsKeyed item peer (after_attempt w) k in
        record {
          ids = λ j other found.
              ground (arith, k'.ids j other, value_of_item-frame item after, k.ids j other);
        }
  ]

  pub get_item-IsKeyed : (id : Uuid) (w : World) → IsKeyed w.vault → IsKeyed (get_item id w).1.vault
  unfolding get_item
  get_item-IsKeyed id w k = elim (Option-cases (find_item id w.vault)) [
    | inl e ↦ same-IsKeyed w.vault _ (ground arith) k
    | inr (item, e) ↦
        same-IsKeyed w.vault _ (ground (arith, value_of_item-frame item (after_attempt w))) k
  ]

  pub lock-IsKeyed : (w : World) → IsKeyed w.vault → IsKeyed (lock w).1.vault
  unfolding lock
  lock-IsKeyed w k = record { ids = λ j other found. ground (arith, k.ids j other) }

  pub load_identity-items :
      (raw_sum : Bytes) (w : World) → (load_identity raw_sum w).1.vault.items ≡ w.vault.items
  unfolding load_identity open_identity create_identity set_identity set_identity_key
  load_identity-items raw_sum w = grind (arith, read_identity-frame, write_identity-vault)

  pub load_items-IsKeyed : (w : World) → IsKeyed w.vault → IsKeyed (load_items w).1.vault
  unfolding load_items clear_keys
  load_items-IsKeyed w k = record {
    ids = λ id other found.
        grind
          (arith, upgrade-vault, read_all_metadata-frame, read_all_metadata-ids, k.ids id other);
  }

  pub unlock-IsKeyed :
      (passphrase : Bytes) (w : World) → IsKeyed w.vault → IsKeyed (unlock passphrase w).1.vault
  unfolding unlock set_identity_key
  unlock-IsKeyed passphrase w k =
      let key = passphrase_key w.vault.secure passphrase in
      let begun : World = record w { vault = record w.vault { identity_key = some key } } in
      let k' : IsKeyed (load_identity key begun).1.vault =
        same-IsKeyed w.vault _ (load_identity-items key begun) k in
      record {
        ids = λ id other found. ground (
          arith,
          (load_items-IsKeyed (load_identity key begun).1 k').ids id other,
          load_identity-items key begun,
          k.ids id other,
        );
      }
