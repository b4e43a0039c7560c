-- ===== src/Service/Items.antt =====
-- Creation and deletion of items in credentials/internal/store/service/vault.go.
use borg_collective.Base.{
  ◌≡◌, refl, ap, ◌∙◌, none, some, List, [], ◌∷◌, Bytes, Option, ◌==◌, arith, inl, inr,
  if◌then◌else◌,
}
use borg_collective.Base.Exec.{ok, bind-inv, lift, pure, ◌>>=◌, ◌>>◌, Outcome-cases}
use borg_collective.Vault.Env.{Env, Backend, Uuid, Item}
use borg_collective.Vault.State.{World, find_item}
use borg_collective.Vault.Unlock.{verify_passphrase}
use borg_collective.Vault.Methods.{create_item, delete_item, set_item_value, get_item}
use borg_collective.Vault.Frames.{SameStore, verify_passphrase-frame}
use borg_collective.Vault.Memory.{IsFileStore}
use borg_collective.Vault.Laws.{IsLawful, EnclavesOpen}
use borg_collective.Vault.Opened.{IsOpenFor, read_identity-cong}
use borg_collective.Vault.RoundTrip.{get_item-set_item_value}
use borg_collective.Vault.Items.{create_item-IsOpenFor, create_item-found, delete_item-removes}
use borg_collective.Service.Requests.{ItemCreation, ItemMessage}
use borg_collective.Service.Methods.{verify_admin, create_vault_item, delete_each}

module _ ⦃E : Env⦄ ⦃B : Backend⦄ where
  pub SameStore-IsOpenFor :
      (identity : E.Identity) (key : Bytes) (w w' : World)
      → SameStore w w'
      → IsOpenFor identity key w
      → IsOpenFor identity key w'
  SameStore-IsOpenFor identity key w w' s o = record {
    keyed = rw s.vault o.keyed;
    secret = rw s.vault o.secret;
    recipient = rw s.vault o.recipient;
    readable = read_identity-cong key w w' (rw s.files refl) ∙ o.readable;
    ids = rw s.vault o.ids;
  }

  -- The checked passphrase, the new item and the set value behind a successful creation.
  create_vault_item-inv :
      (request : ItemCreation) (passphrase : Bytes) (w : World) (message : ItemMessage)
      → request.credentials ≡ some passphrase
      → (create_vault_item request w).0 ≡ ok message
      → (item : Item) × ((verify_passphrase passphrase w).0 ≡ ok tt)
        × ((create_item request.description (verify_passphrase passphrase w).1).0 ≡ ok item)
        × ((set_item_value item.id request.value
              (create_item request.description (verify_passphrase passphrase w).1).1).0
            ≡ ok tt)
        × ((create_vault_item request w).1
            ≡ (set_item_value item.id request.value
                (create_item request.description (verify_passphrase passphrase w).1).1).1)
        × (message.id ≡ E.uuid_string item.id)
        × (message.checksum ≡ item.checksum)
  unfolding create_vault_item verify_admin
  create_vault_item-inv request passphrase w message hc h =
      let w' = (verify_passphrase passphrase w).1 in
      elim (Outcome-cases (create_item request.description w').0) [
        | inl (item, e) ↦
            (item, ground arith, e, ground arith, ground arith, ground arith, ground arith)
        | inr (inl (x, e)) ↦ absurd (ground arith)
        | inr (inr (inl e)) ↦ absurd (ground arith)
        | inr (inr (inr e)) ↦ absurd (ground arith)
      ]

  -- If the libraries are lawful, the backend reads what it wrote and enclaves open, then on an open
  -- vault an item that `CreateVaultItem` has created can be read: its message names an id under
  -- which `GetItem` returns the value of the request.
  pub get_item-create_vault_item :
      IsLawful E
      → IsFileStore B
      → EnclavesOpen E
      → (identity : E.Identity) (key passphrase : Bytes) (request : ItemCreation) (w : World)
        (message : ItemMessage)
      → IsOpenFor identity key w
      → request.credentials ≡ some passphrase
      → (create_vault_item request w).0 ≡ ok message
      → (id : Uuid) × (message.id ≡ E.uuid_string id)
        × ((get_item id (create_vault_item request w).1).0 ≡ ok (some request.value))
  get_item-create_vault_item L S opens identity key passphrase request w message o hc h =
      let (item, verified, made, set, e, named, _) =
        create_vault_item-inv request passphrase w message hc h in
      let o' = SameStore-IsOpenFor identity key w _ (verify_passphrase-frame passphrase w) o in
      let o'' = (create_item-IsOpenFor L S identity key request.description item _ o' made).0 in
      (
        item.id,
        named,
        rw e (get_item-set_item_value L S opens identity key request.value item.id _ o'' set),
      )

  -- If `CreateVaultItem` succeeds its message has no checksum, although the item has a value.
  pub create_vault_item_checksum :
      (passphrase : Bytes) (request : ItemCreation) (w : World) (message : ItemMessage)
      → request.credentials ≡ some passphrase
      → (create_vault_item request w).0 ≡ ok message
      → message.checksum ≡ []
  create_vault_item_checksum passphrase request w message hc h =
      let (item, verified, made, set, e, named, sums) =
        create_vault_item-inv request passphrase w message hc h in
      sums ∙ (create_item-found request.description _ item made).2

  abbrev deleted_by : Uuid → List Uuid → Option Item → Option Item
  deleted_by id [] found = found
  deleted_by id (gone ∷ rest) found = if gone == id then none else deleted_by id rest found

  delete_each-inv :
      (id_raw : Bytes) (ids : List Bytes) (w : World) (deleted : List Uuid)
      → (delete_each (id_raw ∷ ids) w).0 ≡ ok deleted
      → (gone : Uuid) × (rest : List Uuid) × (E.uuid_parse id_raw ≡ ok gone)
        × ((delete_item gone w).0 ≡ ok tt)
        × ((delete_each ids (delete_item gone w).1).0 ≡ ok rest)
        × (deleted ≡ gone ∷ rest)
        × ((delete_each (id_raw ∷ ids) w).1 ≡ (delete_each ids (delete_item gone w).1).1)
  unfolding delete_each
  delete_each-inv id_raw ids w deleted h =
      let (gone, parsed, e) =
        bind-inv (lift (E.uuid_parse id_raw))
          (λ id. delete_item id >> (delete_each ids >>= λ rest. pure (id ∷ rest))) w deleted h in
      let (_, done, e') =
        bind-inv (delete_item gone) (λ _. delete_each ids >>= λ rest. pure (gone ∷ rest)) w deleted
          (rw e at h) in
      let (rest, more, e'') =
        bind-inv (delete_each ids) (λ rest. pure (gone ∷ rest)) (delete_item gone w).1 deleted
          (rw e' at (rw e at h)) in
      let chain = e ∙ e' ∙ e'' in (gone, rest, parsed, done, more, cc, ap (λ t. t.1) chain)

  deleted_by-none : (id : Uuid) (deleted : List Uuid) → deleted_by id deleted none ≡ none
  deleted_by-none id [] = refl
  deleted_by-none id (gone ∷ rest) = ground (arith, deleted_by-none id rest)

  -- If the loop of `DeleteVaultItems` succeeds, an id that it returns has no item afterwards, and any
  -- other id has the item that it had.
  pub delete_each-finds :
      (ids : List Bytes) (id : Uuid) (w : World) (deleted : List Uuid)
      → (delete_each ids w).0 ≡ ok deleted
      → find_item id (delete_each ids w).1.vault ≡ deleted_by id deleted (find_item id w.vault)
  delete_each-finds [] id w deleted h = unfold delete_each in ground arith
  delete_each-finds (id_raw ∷ ids) id w deleted h =
      let (gone, rest, parsed, done, more, e, state) = delete_each-inv id_raw ids w deleted h in
      ground (
        arith,
        delete_each-finds ids id (delete_item gone w).1 rest more,
        (delete_item-removes gone id w done).0,
        deleted_by-none id rest,
        state,
        e,
      )
