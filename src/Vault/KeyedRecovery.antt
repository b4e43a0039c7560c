-- ===== src/Vault/KeyedRecovery.antt =====
-- The ids of the items in `SetRecoveryRecipient` of vault.go.
use borg_collective.Base.{
  ◌+◌, ◌≡◌, refl, ap, none, some, Bytes, List, [], ◌∷◌, arith, suc, zero, ℕ, Option-cases, inl, inr,
}
use borg_collective.Base.Exec.{◌>>◌, Outcome-cases}
use borg_collective.Base.Assoc.{values}
use borg_collective.Vault.Env.{Env, Backend, Item}
use borg_collective.Vault.State.{World, Vault}
use borg_collective.Vault.Files.{
  load_recovery_recipient, write_recovery_recipient, read_all_metadata,
}
use borg_collective.Vault.Values.{read_item_value}
use borg_collective.Vault.Methods.{
  replace_recovery, rewrite_all, restore_recovery, rewrite_value, rewrite_values,
  set_recovery_recipient,
}
use borg_collective.Vault.Frames.{
  load_recovery_recipient-frame, read_all_metadata-frame, read_item_value-frame,
}
use borg_collective.Vault.Keyed.{IsKeyed, same-IsKeyed, write_item_value-IsKeyed}

module _ ⦃E : Env⦄ ⦃B : Backend⦄ where
  pub write_recovery_recipient-vault :
      (recipient : E.Recipient) (secret : Bytes) (w : World)
      → (write_recovery_recipient recipient secret w).1.vault ≡ w.vault
  unfolding write_recovery_recipient
  write_recovery_recipient-vault recipient secret w = ground arith

  pub restore_recovery-vault :
      (tries : ℕ) (old : E.Recipient) (secret : Bytes) (w : World)
      → (restore_recovery tries old secret w).1.vault ≡ w.vault
  unfolding restore_recovery
  restore_recovery-vault zero old secret w = refl
  restore_recovery-vault (suc tries) old secret w =
      let after = (write_recovery_recipient old secret w).1 in
      ground (
        arith,
        write_recovery_recipient-vault old secret w,
        restore_recovery-vault tries old secret after,
      )

  pub rewrite_value-IsKeyed :
      (item : Item) (w : World) → IsKeyed w.vault → IsKeyed (rewrite_value item w).1.vault
  unfolding rewrite_value
  rewrite_value-IsKeyed item w k = elim (Outcome-cases (read_item_value item w).0) [
    | inl (value, e) ↦
        let k' : IsKeyed (read_item_value item w).1.vault =
          same-IsKeyed w.vault _ (ap (λ (v : Vault). v.items) (read_item_value-frame item w).vault)
            k in
        record {
          ids = λ id other found. ground (
            arith,
            (write_item_value-IsKeyed item value (read_item_value item w).1 k').ids id other,
          );
        }
    | inr (inl (x, e)) ↦ same-IsKeyed w.vault _ (ground (arith, read_item_value-frame item w)) k
    | inr (inr (inl e)) ↦ same-IsKeyed w.vault _ (ground (arith, read_item_value-frame item w)) k
    | inr (inr (inr e)) ↦ same-IsKeyed w.vault _ (ground (arith, read_item_value-frame item w)) k
  ]

  pub rewrite_values-IsKeyed :
      (items : List Item) (w : World) → IsKeyed w.vault → IsKeyed (rewrite_values items w).1.vault
  unfolding rewrite_values
  rewrite_values-IsKeyed [] w k = k
  rewrite_values-IsKeyed (item ∷ items) w k =
      let k' = rewrite_value-IsKeyed item w k in
      let k'' = rewrite_values-IsKeyed items (rewrite_value item w).1 k' in
      record { ids = λ id other found. ground (arith, k'.ids id other, k''.ids id other) }

  pub replace_recovery-vault :
      (recipient : E.Recipient) (secret : Bytes) (w : World)
      → (replace_recovery recipient secret w).1.vault ≡ w.vault
  unfolding replace_recovery
  replace_recovery-vault recipient secret w =
      let after = (write_recovery_recipient recipient secret w).1 in
      elim (Outcome-cases (load_recovery_recipient secret w).0) [
        | inl (none, e) ↦ ground (
          arith,
          load_recovery_recipient-frame secret w,
          write_recovery_recipient-vault recipient secret w,
        )
        | inl (some old, e) ↦ ground (
          arith,
          load_recovery_recipient-frame secret w,
          write_recovery_recipient-vault recipient secret w,
          restore_recovery-vault 3 old secret after,
        )
        | inr other ↦ ground (arith, load_recovery_recipient-frame secret w)
      ]

  pub rewrite_all-IsKeyed :
      (secret : Bytes) (w : World) → IsKeyed w.vault → IsKeyed (rewrite_all secret w).1.vault
  unfolding rewrite_all
  rewrite_all-IsKeyed secret w k = elim (Outcome-cases (read_all_metadata secret w).0) [
    | inl (items, e) ↦
        let rewritten = rewrite_values-IsKeyed (values items) w k in
        record {
          ids = λ id other found.
              ground (arith, read_all_metadata-frame secret w, rewritten.ids id other);
        }
    | inr (inl (x, e)) ↦ same-IsKeyed w.vault _ (ground (arith, read_all_metadata-frame secret w)) k
    | inr (inr (inl e)) ↦
        same-IsKeyed w.vault _ (ground (arith, read_all_metadata-frame secret w)) k
    | inr (inr (inr e)) ↦
        same-IsKeyed w.vault _ (ground (arith, read_all_metadata-frame secret w)) k
  ]

  -- The rest of the method once the secret is opened.
  pub after_secret-IsKeyed :
      (recipient : E.Recipient) (secret : Bytes) (w : World)
      → IsKeyed w.vault
      → IsKeyed ((replace_recovery recipient secret >> rewrite_all secret) w).1.vault
  after_secret-IsKeyed recipient secret w k =
      let after = (replace_recovery recipient secret w).1 in
      let items : after.vault.items ≡ w.vault.items =
        ap (λ (v : Vault). v.items) (replace_recovery-vault recipient secret w) in
      let k' : IsKeyed after.vault = same-IsKeyed w.vault after.vault items k in
      record {
        ids = λ id other found.
            ground (arith, k'.ids id other, (rewrite_all-IsKeyed secret after k').ids id other);
      }

  pub set_recovery_recipient-IsKeyed :
      (recipient : E.Recipient) (w : World)
      → IsKeyed w.vault
      → IsKeyed (set_recovery_recipient recipient w).1.vault
  unfolding set_recovery_recipient
  set_recovery_recipient-IsKeyed recipient w k = record {
    ids = λ id other found. elim (Option-cases w.vault.metadata_hmac_secret) [
      | inl absent ↦ elim (Outcome-cases E.nil_enclave) [
        | inl (secret, e) ↦
            ground (arith, (after_secret-IsKeyed recipient secret w k).ids id other, k.ids id other)
        | inr (inl (x, e)) ↦ ground (arith, k.ids id other)
        | inr (inr (inl e)) ↦ ground (arith, k.ids id other)
        | inr (inr (inr e)) ↦ ground (arith, k.ids id other)
      ]
      | inr (secret, e) ↦
          let drawn : World = record w { draws = w.draws + 1 } in
          ground
            (arith, (after_secret-IsKeyed recipient secret drawn k).ids id other, k.ids id other)
    ];
  }
