-- ===== src/Vault/History.antt =====
-- Sequences of calls of the methods of credentials/internal/store/vault/vault.go.
use borg_collective.Base.{◌≡◌, ap, none, Bytes, List, [], ◌∷◌, arith}
use borg_collective.Base.Exec.{Outcome, ok, err, panic, fatal}
use borg_collective.Vault.Env.{Env, Backend, Uuid, Error}
use borg_collective.Vault.State.{World, Vault}
use borg_collective.Vault.Unlock.{unlock, verify_passphrase, lock}
use borg_collective.Vault.Methods.{
  set_recovery_recipient, create_item, delete_item, get_item, get_item_for_peer, set_item_value,
  write_item_value_from,
}
use borg_collective.Vault.Frames.{verify_passphrase-frame}
use borg_collective.Vault.Keyed.{
  IsKeyed, same-IsKeyed, create_item-IsKeyed, delete_item-IsKeyed, set_item_value-IsKeyed,
  get_item_for_peer-IsKeyed, get_item-IsKeyed, lock-IsKeyed, unlock-IsKeyed,
}
use borg_collective.Vault.KeyedRecovery.{set_recovery_recipient-IsKeyed}

module _ ⦃E : Env⦄ ⦃B : Backend⦄ where
  -- The calls of a vault's methods.
  pub data Call : Type 0 where
    unlocks verifies creates : Bytes → Call
    locks : Call
    sets_recovery : E.Recipient → Call
    deletes gets_item : Uuid → Call
    gets_for_peer sets_value : Uuid → Bytes → Call
    writes_value : Uuid → Outcome Error Bytes → Call

  -- The state after a call, however the call ends.
  unfoldable pub perform : Call → World → World
  perform (unlocks passphrase) w = (unlock passphrase w).1
  perform (verifies passphrase) w = (verify_passphrase passphrase w).1
  perform (creates description) w = (create_item description w).1
  perform locks w = (lock w).1
  perform (sets_recovery recipient) w = (set_recovery_recipient recipient w).1
  perform (deletes id) w = (delete_item id w).1
  perform (gets_item id) w = (get_item id w).1
  perform (gets_for_peer id peer) w = (get_item_for_peer id peer w).1
  perform (sets_value id value) w = (set_item_value id value w).1
  perform (writes_value id read) w = (write_item_value_from id read w).1

  unfoldable pub run : List Call → World → World
  run [] w = w
  run (call ∷ calls) w = run calls (perform call w)

  write_item_value_from-IsKeyed :
      (id : Uuid) (read : Outcome Error Bytes) (w : World)
      → IsKeyed w.vault
      → IsKeyed (write_item_value_from id read w).1.vault
  unfolding write_item_value_from
  write_item_value_from-IsKeyed id (ok value) w k = set_item_value-IsKeyed id value w k
  write_item_value_from-IsKeyed id (err e) w k = k
  write_item_value_from-IsKeyed id panic w k = k
  write_item_value_from-IsKeyed id fatal w k = k

  perform-IsKeyed : (call : Call) (w : World) → IsKeyed w.vault → IsKeyed (perform call w).vault
  unfolding perform
  perform-IsKeyed (unlocks passphrase) w k = unlock-IsKeyed passphrase w k
  perform-IsKeyed (verifies passphrase) w k =
      same-IsKeyed w.vault _
        (ap (λ (v : Vault). v.items) (verify_passphrase-frame passphrase w).vault) k
  perform-IsKeyed (creates description) w k = create_item-IsKeyed description w k
  perform-IsKeyed locks w k = lock-IsKeyed w k
  perform-IsKeyed (sets_recovery recipient) w k = set_recovery_recipient-IsKeyed recipient w k
  perform-IsKeyed (deletes id) w k = delete_item-IsKeyed id w k
  perform-IsKeyed (gets_item id) w k = get_item-IsKeyed id w k
  perform-IsKeyed (gets_for_peer id peer) w k = get_item_for_peer-IsKeyed id peer w k
  perform-IsKeyed (sets_value id value) w k = set_item_value-IsKeyed id value w k
  perform-IsKeyed (writes_value id read) w k = write_item_value_from-IsKeyed id read w k

  -- From a vault without items, after any calls, whether they succeed, fail or panic, every item of
  -- the vault stands under its own id.
  pub run-IsKeyed :
      (calls : List Call) (w : World) → w.vault.items ≡ none → IsKeyed (run calls w).vault
  unfolding run
  run-IsKeyed calls w e = go calls w (record { ids = λ id item found. absurd (ground arith) })
    where
      go : (calls : List Call) (w : World) → IsKeyed w.vault → IsKeyed (run calls w).vault
      go [] w k = k
      go (call ∷ calls) w k = go calls (perform call w) (perform-IsKeyed call w k)
