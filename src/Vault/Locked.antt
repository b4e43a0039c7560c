-- ===== src/Vault/Locked.antt =====
-- Calls of the methods of vault.go while a vault is locked.
use borg_collective.Base.{
  Bool, true, false, not, ◌&&◌, List, [], ◌∷◌, Bytes, ◌≡◌, ◌==◌, if◌then◌else◌,
}
use borg_collective.Base.Exec.{Outcome, ok, err, panic, fatal}
use borg_collective.Vault.Env.{Env, Backend, Error, vault_is_locked, value_is_empty}
use borg_collective.Vault.State.{World}
use borg_collective.Vault.Unlock.{unlock, verify_passphrase, lock}
use borg_collective.Vault.Methods.{
  set_recovery_recipient, create_item, delete_item, get_item, get_item_for_peer, set_item_value,
  write_item_value_from,
}
use borg_collective.Vault.History.{
  Call, unlocks, verifies, creates, locks, sets_recovery, deletes, gets_item, gets_for_peer,
  sets_value, writes_value,
}

-- How a call ends, without its result.
abbrev pub ended : {A : Type 0} → Outcome Error A → Outcome Error Unit
ended (ok _) = ok tt
ended (err e) = err e
ended panic = panic
ended fatal = fatal

module _ ⦃E : Env⦄ ⦃B : Backend⦄ where
  pub answer : Call → World → Outcome Error Unit
  answer (unlocks passphrase) w = ended (unlock passphrase w).0
  answer (verifies passphrase) w = ended (verify_passphrase passphrase w).0
  answer (creates description) w = ended (create_item description w).0
  answer locks w = ended (lock w).0
  answer (sets_recovery recipient) w = ended (set_recovery_recipient recipient w).0
  answer (deletes id) w = ended (delete_item id w).0
  answer (gets_item id) w = ended (get_item id w).0
  answer (gets_for_peer id peer) w = ended (get_item_for_peer id peer w).0
  answer (sets_value id value) w = ended (set_item_value id value w).0
  answer (writes_value id read) w = ended (write_item_value_from id read w).0

  abbrev pub is_unlock : Call → Bool
  is_unlock (unlocks passphrase) = true
  is_unlock (verifies passphrase) = false
  is_unlock (creates description) = false
  is_unlock locks = false
  is_unlock (sets_recovery recipient) = false
  is_unlock (deletes id) = false
  is_unlock (gets_item id) = false
  is_unlock (gets_for_peer id peer) = false
  is_unlock (sets_value id value) = false
  is_unlock (writes_value id read) = false

  abbrev pub without_unlock : List Call → Bool
  without_unlock [] = true
  without_unlock (call ∷ calls) = not (is_unlock call) && without_unlock calls

  -- The refusal of a value that is to be stored in a locked vault.
  abbrev refused_value : Bytes → Outcome Error Unit
  refused_value value = if value == [] then err value_is_empty else err vault_is_locked

  -- How a locked vault answers a call other than `Unlock`.
  abbrev pub refusal : Call → Outcome Error Unit
  refusal (sets_value id value) = refused_value value
  refusal (writes_value id (ok value)) = refused_value value
  refusal (writes_value id (err e)) = err e
  refusal (writes_value id panic) = panic
  refusal (writes_value id fatal) = fatal
  refusal _ = err vault_is_locked

  -- The keys, the items, the files and the draws are the same; the metrics may differ.
  pub record SameVault (w w' : World) : Type 0 where
    pub vault : w'.vault ≡ w.vault
    pub files : w'.files ≡ w.files
    pub draws : w'.draws ≡ w.draws
