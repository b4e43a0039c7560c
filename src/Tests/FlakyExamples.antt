-- ===== src/Tests/FlakyExamples.antt =====
-- A backend whose writes fail at a given moment, and the recovery recipient on it.
use borg_collective.Base.{
  ℕ, zero, suc, ◌≡◌, ◌≢◌, refl, Bool, true, false, none, some, [], codes, Bytes, ◌==◌, ==_iff,
  ==_refl, arith, has_suffix, has_prefix, encode_to_string,
}
use borg_collective.Base.Exec.{Exec, ok, err}
use borg_collective.Base.Assoc.{lookup, insert, erase, keys, lookup-insert, lookup-erase}
use borg_collective.Vault.Env.{Error, Backend, external, recovery_not_set}
use borg_collective.Vault.State.{World}
use borg_collective.Vault.Files.{
  sum, create_recovery_hash, derive_metadata_hmac_secret, load_recovery_recipient,
  write_recovery_recipient,
}
use borg_collective.Vault.Methods.{restore_recovery, replace_recovery}
use borg_collective.Vault.Memory.{IsFileStore, Files, list_keys}
use borg_collective.Vault.Recovery.{DeletesFiles, replace_recovery_restores}
use borg_collective.Tests.Toy.{toy, toy-IsLawful}

abbrev no_space : Error
no_space = external (codes "no space left on device")

-- The state counts the writes up to the one that fails; from 0 on none does.
abbrev write_flaky : Bytes → Bytes → Exec Error (ℕ × Files) Unit
write_flaky path bytes (zero, files) = (ok tt, (zero, insert path bytes files))
write_flaky path bytes (suc zero, files) = (err no_space, (zero, files))
write_flaky path bytes (suc (suc n), files) = (ok tt, (suc n, insert path bytes files))

abbrev delete_flaky : Bytes → Exec Error (ℕ × Files) Bool
delete_flaky path (n, files) = (ok true, (n, erase path files))

instance abbrev flaky : Backend
flaky = record {
  State = ℕ × Files;
  init = λ s. (ok tt, (s.0, []));
  list_files = λ path s. ok (list_keys path (keys s.1));
  read_file = λ path s. ok (lookup path s.1);
  write_file = write_flaky;
  delete_file = delete_flaky;
}

read-write_flaky :
    (path bytes : Bytes) (s : ℕ × Files)
    → (write_flaky path bytes s).0 ≡ ok tt
    → flaky.read_file path (write_flaky path bytes s).1 ≡ ok (some bytes)
read-write_flaky path bytes (zero, files) h =
    ground (arith, lookup-insert path path bytes files, ==_refl path)
read-write_flaky path bytes (suc zero, files) h = absurd (ground (arith, h))
read-write_flaky path bytes (suc (suc n), files) h =
    ground (arith, lookup-insert path path bytes files, ==_refl path)

read-write_flaky_ne :
    (path other bytes : Bytes) (s : ℕ × Files)
    → path ≢ other
    → flaky.read_file other (write_flaky path bytes s).1 ≡ flaky.read_file other s
read-write_flaky_ne path other bytes (zero, files) ne =
    ground (arith, lookup-insert path other bytes files, ==_iff path other)
read-write_flaky_ne path other bytes (suc zero, files) ne = refl
read-write_flaky_ne path other bytes (suc (suc n), files) ne =
    ground (arith, lookup-insert path other bytes files, ==_iff path other)

flaky-IsFileStore : IsFileStore flaky
flaky-IsFileStore = record {
  read-write = read-write_flaky;
  read-write_ne = read-write_flaky_ne;
  read-delete = λ path b s _. ground (arith, lookup-erase path path s.1, ==_refl path);
  read-delete_ne =
      λ path other s ne. ground (arith, lookup-erase path other s.1, ==_iff path other);
}

flaky-DeletesFiles : DeletesFiles ⦃B = flaky⦄
flaky-DeletesFiles path s = (true, refl)

-- The given write of this new world is the one that fails.
abbrev failing_at : ℕ → World
failing_at n = record {
  vault = record {
    secure = false;
    identity_key = none;
    metadata_hmac_secret = none;
    primary_recipient = none;
    items = none;
  };
  files = (n, []);
  draws = 0;
  metrics = record { vault_open = 0; items_count = 0; item_reads = 0; item_read_attempts = 0 };
}

abbrev secret : Bytes
secret = derive_metadata_hmac_secret (codes "AGE-SECRET-KEY")

abbrev old : Bytes
old = codes "age1old"

abbrev recovery : Bytes
recovery = codes "age1new"

-- With the old recipient written by the first two writes, the fourth one fails.
unfoldable with_old : World
unfolding load_recovery_recipient write_recovery_recipient sum create_recovery_hash
    derive_metadata_hmac_secret lookup insert erase has_suffix has_prefix ◌==◌ restore_recovery
    replace_recovery
with_old = (write_recovery_recipient old secret (failing_at 4)).1

replace_recovery_restores_example :
    (load_recovery_recipient secret (replace_recovery recovery secret with_old).1).0 ≡ ok (some old)
unfolding with_old encode_to_string
replace_recovery_restores_example =
    replace_recovery_restores toy-IsLawful flaky-IsFileStore recovery old secret with_old
      recovery_not_set refl refl
