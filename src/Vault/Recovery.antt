-- ===== src/Vault/Recovery.antt =====
-- The recovery recipient: utils.go and `SetRecoveryRecipient` of vault.go.
use borg_collective.Base.{
  ◌≡◌, ◌≢◌, ◌↔◌, ap, none, some, Bytes, Bool, ==_iff, ==_refl, arith, suc, zero, ℕ, length,
}
use borg_collective.Base.Exec.{err, ok}
use borg_collective.Vault.Env.{Env, Backend, Error}
use borg_collective.Vault.State.{World}
use borg_collective.Vault.Files.{
  recovery_path, recovery_sum_path, create_recovery_hash, load_recovery_recipient,
  write_recovery_recipient,
}
use borg_collective.Vault.Methods.{restore_recovery, replace_recovery}
use borg_collective.Vault.Frames.{load_recovery_recipient-frame}
use borg_collective.Vault.Memory.{IsFileStore}
use borg_collective.Vault.Laws.{IsLawful}

module _ ⦃E : Env⦄ ⦃B : Backend⦄ where
  -- A recovery recipient loads exactly when both files are there, the first parses to it and the
  -- second is its hash under the secret.
  pub load_recovery_recipient_iff :
      (secret : Bytes) (recipient : E.Recipient) (w : World)
      → ((load_recovery_recipient secret w).0 ≡ ok (some recipient)) ↔ (
          (bytes : Bytes) × (B.read_file recovery_path w.files ≡ ok (some bytes))
          × (E.parse_recipient bytes ≡ ok recipient)
          × (B.read_file recovery_sum_path w.files
              ≡ ok (some (create_recovery_hash recipient secret))))
  unfolding load_recovery_recipient
  load_recovery_recipient_iff secret recipient w = (
    λ h. grind (arith, ==_iff),
    λ (bytes, file, parsed, hash). ground (arith, ==_refl (create_recovery_hash recipient secret)),
  )

  recovery_paths_ne : recovery_path ≢ recovery_sum_path
  recovery_paths_ne e = absurd (omega (arith, ap length e))

  -- If the backend reads what it wrote and recipients parse, a recovery recipient that was written
  -- without an error is loaded again under the same secret.
  pub load-write_recovery_recipient :
      IsLawful E
      → IsFileStore B
      → (secret : Bytes) (recipient : E.Recipient) (w : World)
      → (write_recovery_recipient recipient secret w).0 ≡ ok tt
      → (load_recovery_recipient secret (write_recovery_recipient recipient secret w).1).0
        ≡ ok (some recipient)
  unfolding write_recovery_recipient
  load-write_recovery_recipient L S secret recipient w h =
      (load_recovery_recipient_iff secret recipient _).1 (
        E.recipient_string recipient,
        grind (arith, recovery_paths_ne, S.read-write, S.read-write_ne),
        L.parse-recipient_string recipient,
        grind (arith, S.read-write),
      )

  -- Deletions do not fail.
  abbrev pub DeletesFiles : Type 0
  DeletesFiles = (path : Bytes) (s : B.State) → (b : Bool) × ((B.delete_file path s).0 ≡ ok b)

  -- If the recipient is written and its hash is not, and deletions do not fail, then no
  -- recovery recipient is left.
  pub load-write_recovery_recipient_failed :
      IsFileStore B
      → DeletesFiles
      → (secret : Bytes) (recipient : E.Recipient) (w : World) (e : Error)
      → (B.write_file recovery_path (E.recipient_string recipient) w.files).0 ≡ ok tt
      → (write_recovery_recipient recipient secret w).0 ≡ err e
      → (load_recovery_recipient secret (write_recovery_recipient recipient secret w).1).0 ≡ ok none
  unfolding write_recovery_recipient load_recovery_recipient
  load-write_recovery_recipient_failed S deletes secret recipient w e h f =
      let written = (B.write_file recovery_path (E.recipient_string recipient) w.files).1 in
      let failed =
        (B.write_file recovery_sum_path (create_recovery_hash recipient secret) written).1 in
      let (b, deleted) = deletes recovery_path failed in
      ground (arith, deleted, S.read-delete recovery_path b failed)

  -- When the loop that restores the previous recipient returns, that recipient loads.
  restore_recovery-loads :
      IsLawful E
      → IsFileStore B
      → (tries : ℕ) (old : E.Recipient) (secret : Bytes) (w : World)
      → (restore_recovery tries old secret w).0 ≡ ok tt
      → (load_recovery_recipient secret (restore_recovery tries old secret w).1).0 ≡ ok (some old)
  unfolding restore_recovery
  restore_recovery-loads L S zero old secret w h = absurd (ground arith)
  restore_recovery-loads L S (suc tries) old secret w h =
      let after = (write_recovery_recipient old secret w).1 in
      ground (
        arith,
        load-write_recovery_recipient L S secret old w,
        restore_recovery-loads L S tries old secret after,
      )

  restore_recovery-ne-err :
      (tries : ℕ) (old : E.Recipient) (secret : Bytes) (w : World) (e : Error)
      → (restore_recovery tries old secret w).0 ≢ err e
  unfolding restore_recovery
  restore_recovery-ne-err zero old secret w e h = absurd (ground arith)
  restore_recovery-ne-err (suc tries) old secret w e h =
      let after = (write_recovery_recipient old secret w).1 in
      ground (arith, restore_recovery-ne-err tries old secret after e)

  -- Let the backend read what it wrote, recipients parse, and an old recipient be loaded. If the
  -- replacement of it in `SetRecoveryRecipient` comes back with an error, as it does when one of the
  -- three attempts to write the old one again has succeeded, then the old one loads afterwards. The
  -- process that ends after three failed attempts is not meant.
  pub replace_recovery_restores :
      IsLawful E
      → IsFileStore B
      → (recipient old : E.Recipient) (secret : Bytes) (w : World) (e : Error)
      → (load_recovery_recipient secret w).0 ≡ ok (some old)
      → (replace_recovery recipient secret w).0 ≡ err e
      → (load_recovery_recipient secret (replace_recovery recipient secret w).1).0 ≡ ok (some old)
  unfolding replace_recovery
  replace_recovery_restores L S recipient old secret w e hl h =
      let after = (write_recovery_recipient recipient secret w).1 in
      ground (
        arith,
        load_recovery_recipient-frame secret w,
        restore_recovery-loads L S 3 old secret after,
        restore_recovery-ne-err 3 old secret after e,
      )
