-- ===== src/Vault/Metadata.antt =====
-- `readItemMetadataUnsafe` and `writeItemMetadataUnsafe` of
-- credentials/internal/store/vault/utils.go.
use borg_collective.Base.{
  ◌≡◌, ◌-◌, ◌≤◌, some, ◌++◌, Bytes, ==_iff, ==_refl, arith, length, take, drop, length-append,
  take-before_tail, drop-before_tail, take-append-drop, length-drop,
}
use borg_collective.Base.Exec.{ok}
use borg_collective.Vault.Env.{Env, Backend, Item}
use borg_collective.Vault.State.{World}
use borg_collective.Vault.Files.{metadata_path, read_item_metadata, write_item_metadata}
use borg_collective.Vault.Memory.{IsFileStore}
use borg_collective.Vault.Laws.{IsLawful}

module _ ⦃E : Env⦄ ⦃B : Backend⦄ where
  -- The file at `path` is a body with its HMAC behind it, the body is the JSON of `item`, and the
  -- file has the name of the item's id.
  pub record IsAuthentic (secret path : Bytes) (item : Item) (w : World) : Type 0 where
    pub body : Bytes
    pub tag : Bytes
    pub written : B.read_file path w.files ≡ ok (some (body ++ tag))
    pub tagged : E.hmac_sha256 secret body ≡ tag
    pub tag_length : length tag ≡ 32
    pub parsed : E.json_unmarshal body ≡ ok item
    pub named : path ≡ metadata_path item

  -- If the backend reads what it wrote and the libraries are lawful, an item whose metadata was
  -- written is read back unchanged from its metadata path, under the same secret.
  pub read-write_item_metadata :
      IsLawful E
      → IsFileStore B
      → (item : Item) (secret : Bytes) (w : World) → (write_item_metadata item secret w).0 ≡ ok tt
      → (read_item_metadata (metadata_path item) secret (write_item_metadata item secret w).1).0
        ≡ ok item
  unfolding write_item_metadata read_item_metadata
  read-write_item_metadata L S item secret w h = grind (
    arith, S.read-write, L.length-hmac, L.unmarshal-marshal, take-before_tail, drop-before_tail,
    ==_refl, length-append,
  )

  read_item_metadata-inv :
      (path secret : Bytes) (item : Item) (w : World)
      → (read_item_metadata path secret w).0 ≡ ok item
      → (bytes : Bytes) × (B.read_file path w.files ≡ ok (some bytes))
        × (32 ≤ length bytes)
        × (E.hmac_sha256 secret (take (length bytes - 32) bytes) ≡ drop (length bytes - 32) bytes)
        × (E.json_unmarshal (take (length bytes - 32) bytes) ≡ ok item)
        × (path ≡ metadata_path item)
  unfolding read_item_metadata
  read_item_metadata-inv path secret item w h = grind (arith, ==_iff)

  -- Metadata that is read without an error is authentic.
  pub read_item_metadata-IsAuthentic :
      (path secret : Bytes) (item : Item) (w : World)
      → (read_item_metadata path secret w).0 ≡ ok item
      → IsAuthentic secret path item w
  read_item_metadata-IsAuthentic path secret item w h =
      let (bytes, read, long, tagged, parsed, named) =
        read_item_metadata-inv path secret item w h in
      record {
        body = take (length bytes - 32) bytes;
        tag = drop (length bytes - 32) bytes;
        written = rw (take-append-drop (length bytes - 32) bytes) read;
        tagged = tagged;
        tag_length = omega (arith, length-drop (length bytes - 32) bytes);
        parsed = parsed;
        named = named;
      }

  -- Metadata is read from a path without an error if it is authentic there: if the file is a body
  -- with its HMAC of 32 bytes under the secret, the body parses to the item, and the path is that
  -- of the item.
  pub IsAuthentic-read_item_metadata :
      (path secret : Bytes) (item : Item) (w : World)
      → IsAuthentic secret path item w
      → (read_item_metadata path secret w).0 ≡ ok item
  unfolding read_item_metadata
  IsAuthentic-read_item_metadata path secret item w a = ground (
    arith,
    take-before_tail a.body a.tag 32,
    drop-before_tail a.body a.tag 32,
    length-append a.body a.tag,
    ==_iff (E.hmac_sha256 secret a.body) a.tag,
    ==_iff path (metadata_path item),
  )
