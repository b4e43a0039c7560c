-- ===== src/Vault/Stable.antt =====
-- Reads of vault.go on states with the same vault and files.
use borg_collective.Base.{◌≡◌, ◌+◌, none, some, Bytes, Option, arith, Option-cases, inl, inr, ap}
use borg_collective.Base.Exec.{ok, Outcome-cases}
use borg_collective.Vault.Env.{Env, Backend, Uuid, Item}
use borg_collective.Vault.State.{after_attempt, World, find_item}
use borg_collective.Vault.Files.{identity_path, read_identity, value_path}
use borg_collective.Vault.Values.{decrypt_from_rest, read_item_value}
use borg_collective.Vault.Methods.{value_of_item, get_item}
use borg_collective.Vault.Laws.{EnclavesOpen}
use borg_collective.Vault.Frames.{SameStore, read_identity-frame}
use borg_collective.Vault.Peers.{value_of_item-frame}

module _ ⦃E : Env⦄ ⦃B : Backend⦄ where
  pub get_item-frame : (id : Uuid) (w : World) → SameStore w (get_item id w).1
  unfolding get_item
  get_item-frame id w = elim (Option-cases (find_item id w.vault)) [
    | inl e ↦ ground arith
    | inr (item, e) ↦ ground (arith, value_of_item-frame item (after_attempt w))
  ]

  read_identity-same :
      (key : Option Bytes) (w w' : World)
      → w'.files ≡ w.files
      → (read_identity key w').0 ≡ (read_identity key w).0
  unfolding read_identity
  read_identity-same key w w' e = ground (arith, ap (B.read_file identity_path) e)

  decrypt_from_rest-same :
      EnclavesOpen E
      → (bytes : Bytes) (w w' : World) → SameStore w w'
      → (decrypt_from_rest bytes w').0 ≡ (decrypt_from_rest bytes w).0
  unfolding decrypt_from_rest
  decrypt_from_rest-same opens bytes w w' s = elim (Option-cases w.vault.identity_key) [
    | inl e ↦ elim (Outcome-cases E.nil_enclave) [
      | inl (key, n) ↦ ground (
        arith,
        read_identity-same (some key) w w' s.files,
        read_identity-frame (some key) w,
        read_identity-frame (some key) w',
      )
      | inr (inl (x, n)) ↦ ground (
        arith,
        read_identity-same none w w' s.files,
        read_identity-frame none w,
        read_identity-frame none w',
      )
      | inr (inr (inl n)) ↦ ground arith
      | inr (inr (inr n)) ↦ ground arith
    ]
    | inr (key, e) ↦
        let drawn : World = record w { draws = w.draws + 1 } in
        let drawn' : World = record w' { draws = w'.draws + 1 } in
        ground (
          arith,
          opens w.draws,
          opens w'.draws,
          read_identity-same (some key) drawn drawn' s.files,
          read_identity-frame (some key) drawn,
          read_identity-frame (some key) drawn',
        )
  ]

  read_item_value-same :
      EnclavesOpen E
      → (item : Item) (w w' : World) → SameStore w w'
      → (read_item_value item w').0 ≡ (read_item_value item w).0
  unfolding read_item_value
  read_item_value-same opens item w w' s =
      elim (Outcome-cases (B.read_file (value_path item) w.files)) [
        | inl (some bytes, e) ↦
            let e' : B.read_file (value_path item) w'.files ≡ ok (some bytes) = rw s.files e in
            ground (arith, decrypt_from_rest-same opens bytes w w' s)
        | inl (none, e) ↦ ground (arith, ap (B.read_file (value_path item)) s.files)
        | inr other ↦ ground (arith, ap (B.read_file (value_path item)) s.files)
      ]

  -- If enclaves open, `GetItem` has the same result on two states with one vault and the same files.
  pub get_item-same :
      EnclavesOpen E
      → (id : Uuid) (w w' : World) → SameStore w w'
      → (get_item id w').0 ≡ (get_item id w).0
  unfolding get_item value_of_item
  get_item-same opens id w w' s =
      let attempts : SameStore (after_attempt w) (after_attempt w') = record {
        vault = s.vault;
        files = s.files;
      } in
      elim (Option-cases (find_item id w.vault)) [
        | inl e ↦ let e' : find_item id w'.vault ≡ none = rw s.vault e in ground arith
        | inr (item, e) ↦
            let e' : find_item id w'.vault ≡ some item = rw s.vault e in
            ground
              (arith, read_item_value-same opens item (after_attempt w) (after_attempt w') attempts)
      ]
