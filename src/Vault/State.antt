-- ===== src/Vault/State.antt =====
-- The state of a vault, and the primitive steps of its methods (credentials/internal/store/vault).
use borg_collective.Base.{suc, ℕ, ◌+◌, Bool, true, false, Option, none, some, List, Bytes, length}
use borg_collective.Base.Exec.{ok, panic, Exec, pure, raise, lift, ◌>>=◌}
use borg_collective.Base.Assoc.{Assoc, lookup, insert, erase}
use borg_collective.Vault.Env.{Error, Item, Env, Backend, Uuid}

-- The Prometheus metrics that vault.go sets.
pub record Metrics : Type 0 where
  pub vault_open : ℕ
  pub items_count : ℕ
  pub item_reads : ℕ
  pub item_read_attempts : ℕ

module _ ⦃E : Env⦄ where
  -- `secure` is `options.Secure`. A nil pointer and a nil map are `none`; an enclave is the bytes
  -- that it holds.
  pub record Vault : Type 0 where
    pub secure : Bool
    pub identity_key : Option Bytes
    pub metadata_hmac_secret : Option Bytes
    pub primary_recipient : Option E.Recipient
    pub items : Option (Assoc Item)

  abbrev pub is_locked : Vault → Bool
  is_locked v = elim v.identity_key [ none ↦ true | some _ ↦ false ]

  -- `v.items[id]` on a map that may be nil.
  abbrev pub find_item : Uuid → Vault → Option Item
  find_item id v = elim v.items [ none ↦ none | some m ↦ lookup id m ]

  -- `len(v.items)`
  abbrev pub count_items : Vault → ℕ
  count_items v = elim v.items [ none ↦ 0 | some m ↦ length m ]

module _ ⦃E : Env⦄ ⦃B : Backend⦄ where
  -- `draws` counts the calls that ask for randomness, for the time or for an enclave.
  pub record World : Type 0 where
    pub vault : Vault
    pub files : B.State
    pub draws : ℕ
    pub metrics : Metrics

  abbrev pub M : Type 0 → Type 0
  M A = Exec Error World A

  abbrev pub draw : M ℕ
  draw w = (ok w.draws, record w { draws = w.draws + 1 })

  -- `time.Now()`
  abbrev pub time_now : M ℕ
  time_now = do seed ← draw; pure (E.now seed)

  abbrev pub get_vault : M Vault
  get_vault w = (ok w.vault, w)

  abbrev pub modify_vault : (Vault → Vault) → M Unit
  modify_vault f w = (ok tt, record w { vault = f w.vault })

  abbrev pub modify_metrics : (Metrics → Metrics) → M Unit
  modify_metrics f w = (ok tt, record w { metrics = f w.metrics })

  -- The state after a counted attempt to read an item.
  abbrev pub after_attempt : World → World
  after_attempt w = record w {
    metrics = record w.metrics { item_read_attempts = suc w.metrics.item_read_attempts };
  }

  abbrev pub list_files : Bytes → M (List Bytes)
  list_files path w = (B.list_files path w.files, w)

  abbrev pub read_file : Bytes → M (Option Bytes)
  read_file path w = (B.read_file path w.files, w)

  abbrev pub write_file : Bytes → Bytes → M Unit
  write_file path bytes w =
      let (r, s) = B.write_file path bytes w.files in (r, record w { files = s })

  abbrev pub delete_file : Bytes → M Bool
  delete_file path w = let (r, s) = B.delete_file path w.files in (r, record w { files = s })

  -- `enclave.Open()`
  abbrev pub open_enclave : Option Bytes → M Bytes
  open_enclave enclave = elim enclave [
    | none ↦ lift E.nil_enclave
    | some content ↦ do
      seed ← draw
      elim (E.open_error seed) [ none ↦ pure content | some e ↦ raise e ]
  ]

  -- `buffer.Bytes()`
  abbrev pub buffer_bytes : Option Bytes → M Bytes
  buffer_bytes buffer = elim buffer [ none ↦ lift E.nil_buffer | some bytes ↦ pure bytes ]

  -- `v.items[item.Id] = item`, which panics on a nil map.
  abbrev pub put_item : Item → M Unit
  put_item item w = elim w.vault.items [
    | none ↦ (panic, w)
    | some m ↦ (ok tt, record w { vault = record w.vault { items = some (insert item.id item m) } })
  ]

  -- `delete(v.items, id)`, which does nothing on a nil map.
  abbrev pub remove_item : Uuid → M Unit
  remove_item id w = elim w.vault.items [
    | none ↦ (ok tt, w)
    | some m ↦ (ok tt, record w { vault = record w.vault { items = some (erase id m) } })
  ]

  -- `vaultItemsCount.Set(float64(len(v.items)))`
  abbrev pub set_items_count : M Unit
  set_items_count w =
      (ok tt, record w { metrics = record w.metrics { items_count = count_items w.vault } })
