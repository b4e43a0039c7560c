-- ===== src/Vault/Laws.antt =====
-- What the proofs take of the libraries: documented facts of age, uuid, JSON and the hashes.
use borg_collective.Base.{
  ◌≡◌, ◌≢◌, ◌<◌, [], encode_to_string, none, some, List, ◌∷◌, ap, Bytes, Option, codes, length,
  length-append, arith, ℕ,
}
use borg_collective.Base.Exec.{ok}
use borg_collective.Vault.Env.{Env, Item, Uuid}
use borg_collective.Vault.Files.{identity_path, metadata_path, value_path, backup_path, sum}

pub record IsLawful (E : Env) : Type 0 where
  -- age: the holder of one of the recipients' identities decrypts.
  pub decrypt-encrypt :
      (identity : E.Identity) (seed : ℕ) (recipients : List (Option E.Recipient))
      (value encrypted : Bytes)
      → E.age_encrypt seed (some (E.recipient identity) ∷ recipients) value ≡ ok encrypted
      → E.age_decrypt identity encrypted ≡ ok value
  -- A recipient is parsed from its own string.
  pub parse-recipient_string : (r : E.Recipient) → E.parse_recipient (E.recipient_string r) ≡ ok r
  pub length-sha256 : (bytes : Bytes) → length (E.sha256 bytes) ≡ 32
  pub length-hmac : (key bytes : Bytes) → length (E.hmac_sha256 key bytes) ≡ 32
  pub length-uuid_string : (id : Uuid) → length (E.uuid_string id) ≡ 36
  pub length-uuid_new : (seed : ℕ) → length (E.uuid_new seed) ≡ 16
  pub parse-uuid_string : (id : Uuid) → length id ≡ 16 → E.uuid_parse (E.uuid_string id) ≡ ok id
  pub unmarshal-marshal :
      (item : Item) (bytes : Bytes)
      → E.json_marshal item ≡ ok bytes
      → E.json_unmarshal bytes ≡ ok item

-- No enclave fails to open.
abbrev pub EnclavesOpen : Env → Type 0
EnclavesOpen E = (n : ℕ) → E.open_error n ≡ none

module _ ⦃E : Env⦄ (L : IsLawful E) (item : Item) where
  pub length-value_path : length (value_path item) ≡ 40
  unfolding value_path
  length-value_path =
      omega
        (arith, length-append (E.uuid_string item.id) (codes ".age"), L.length-uuid_string item.id)

  pub length-metadata_path : length (metadata_path item) ≡ 41
  unfolding metadata_path
  length-metadata_path =
      omega
        (arith, length-append (E.uuid_string item.id) (codes ".json"), L.length-uuid_string item.id)

  pub value_path-ne-identity_path : value_path item ≢ identity_path
  value_path-ne-identity_path e = absurd (omega (arith, length-value_path, ap length e))

  pub metadata_path-ne-identity_path : metadata_path item ≢ identity_path
  metadata_path-ne-identity_path e = absurd (omega (arith, length-metadata_path, ap length e))

  pub metadata_path-ne-value_path : metadata_path item ≢ value_path item
  metadata_path-ne-value_path e =
      absurd (omega (arith, length-metadata_path, length-value_path, ap length e))

module _ ⦃E : Env⦄ (L : IsLawful E) where
  encode-ne-nil : (bytes : Bytes) → 0 < length bytes → encode_to_string bytes ≢ []
  unfolding encode_to_string
  encode-ne-nil [] h = absurd (omega arith)
  encode-ne-nil (b ∷ bytes) h = λ e. cc

  pub sum-ne-nil : (bytes : Bytes) → sum bytes ≢ []
  unfolding sum
  sum-ne-nil bytes = encode-ne-nil (E.sha256 bytes) (omega (arith, L.length-sha256 bytes))

abbrev second_byte : Bytes → ℕ
second_byte (_ ∷ b ∷ _) = b
second_byte _ = 0

module _ ⦃E : Env⦄ where
  pub backup_path-ne-identity_path : (item : Item) (now : ℕ) → backup_path item now ≢ identity_path
  unfolding backup_path
  backup_path-ne-identity_path item now e = absurd (omega (arith, ap second_byte e))
