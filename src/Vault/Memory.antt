-- ===== src/Vault/Memory.antt =====
-- credentials/internal/store/vault/inmemorybackend.go, and what a backend promises.
-- Bytes are values here; Slices has the byte slices and their copies.
use borg_collective.Base.{
  ◌≡◌, ◌≢◌, Bool, true, false, not, Option, none, some, List, [], ◌∷◌, Bytes, ◌==◌, ==_iff, ==_refl,
  arith, has_suffix, contains_byte, if◌then◌else◌,
}
use borg_collective.Base.Exec.{ok, Exec}
use borg_collective.Base.Assoc.{Assoc, lookup, insert, erase, keys, lookup-insert, lookup-erase}
use borg_collective.Vault.Env.{Error, Result, Backend}

-- Files are read back as they were written, and a call touches the file that it names only,
-- whether or not it fails.
pub record IsFileStore (B : Backend) : Type 0 where
  pub read-write :
      (path bytes : Bytes) (s : B.State)
      → (B.write_file path bytes s).0 ≡ ok tt
      → B.read_file path (B.write_file path bytes s).1 ≡ ok (some bytes)
  pub read-write_ne :
      (path other bytes : Bytes) (s : B.State)
      → path ≢ other
      → B.read_file other (B.write_file path bytes s).1 ≡ B.read_file other s
  pub read-delete :
      (path : Bytes) (b : Bool) (s : B.State)
      → (B.delete_file path s).0 ≡ ok b
      → B.read_file path (B.delete_file path s).1 ≡ ok none
  pub read-delete_ne :
      (path other : Bytes) (s : B.State)
      → path ≢ other
      → B.read_file other (B.delete_file path s).1 ≡ B.read_file other s

abbrev pub Files : Type 0
Files = Assoc Bytes

unfoldable pub init_memory : Exec Error Files Unit
init_memory files = (ok tt, [])

-- The test of `ListFiles` for one key.
unfoldable pub is_listed : Bytes → Bytes → Bool
is_listed path key = if path == [] then not (contains_byte b'/' key) else has_suffix key path

unfoldable pub list_keys : Bytes → List Bytes → List Bytes
list_keys path [] = []
list_keys path (key ∷ rest) =
    let listed = list_keys path rest in if is_listed path key then key ∷ listed else listed

unfoldable pub read_memory : Bytes → Files → Result (Option Bytes)
read_memory path files = ok (lookup path files)

unfoldable pub write_memory : Bytes → Bytes → Exec Error Files Unit
write_memory path bytes files = (ok tt, insert path bytes files)

unfoldable pub delete_memory : Bytes → Exec Error Files Bool
delete_memory path files = elim (lookup path files) [
  | none ↦ (ok false, files)
  | some _ ↦ (ok true, erase path files)
]

instance abbrev pub in_memory : Backend
in_memory = record {
  State = Files;
  init = init_memory;
  list_files = λ path files. ok (list_keys path (keys files));
  read_file = read_memory;
  write_file = write_memory;
  delete_file = delete_memory;
}

-- The backend in memory is a file store: a file reads back as it was written without an error, a
-- file that was deleted without an error is gone, and a write or a deletion leaves every other
-- file as it was.
pub in_memory-IsFileStore : IsFileStore in_memory
unfolding read_memory write_memory delete_memory
in_memory-IsFileStore = record {
  read-write = λ path bytes s _. ground (arith, lookup-insert path path bytes s, ==_refl path);
  read-write_ne =
      λ path other bytes s ne. ground (arith, lookup-insert path other bytes s, ==_iff path other);
  read-delete = λ path b s _. ground (arith, lookup-erase path path s, ==_refl path);
  read-delete_ne = λ path other s ne. ground (arith, lookup-erase path other s, ==_iff path other);
}
