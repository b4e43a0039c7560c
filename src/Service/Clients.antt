-- ===== src/Service/Clients.antt =====
-- credentials/internal/store/service/clients.go.
use borg_collective.Base.{
  ◌≡◌, ◌≢◌, ap, ◌∙◌, ◌+◌, some, ◌++◌, Bytes, ◌==◌, ==_iff, arith, codes, length, inl, inr,
  if◌then◌else◌,
}
use borg_collective.Base.Exec.{err, ok, Outcome-cases}
use borg_collective.Vault.Env.{Env, Backend, Uuid, Item, credentials_mismatch}
use borg_collective.Vault.State.{World}
use borg_collective.Vault.Unlock.{verify_passphrase}
use borg_collective.Vault.Methods.{create_item, set_item_value, get_item}
use borg_collective.Vault.Frames.{SameStore, verify_passphrase-frame}
use borg_collective.Vault.Memory.{IsFileStore}
use borg_collective.Vault.Laws.{IsLawful, EnclavesOpen}
use borg_collective.Vault.Opened.{IsOpenFor}
use borg_collective.Vault.RoundTrip.{get_item-set_item_value}
use borg_collective.Vault.Items.{create_item-IsOpenFor}
use borg_collective.Vault.Stable.{get_item-frame, get_item-same}
use borg_collective.Service.Requests.{ClientCreation, ClientCredentials}
use borg_collective.Service.Methods.{
  verify_admin, verify_client_credentials, create_client_credentials,
}
use borg_collective.Service.Items.{SameStore-IsOpenFor}

module _ ⦃E : Env⦄ ⦃B : Backend⦄ where
  create_item-id :
      (description : Bytes) (w : World) (item : Item)
      → (create_item description w).0 ≡ ok item
      → item.id ≡ E.uuid_new w.draws
  unfolding create_item
  create_item-id description w item h = ground arith

  -- Credentials are checked against the value of their item.
  verify_client_credentials-value :
      (credentials : ClientCredentials) (id : Uuid) (secret : Bytes) (w : World)
      → E.uuid_parse credentials.id ≡ ok id
      → (get_item id w).0 ≡ ok (some secret)
      → (verify_client_credentials credentials w).0
        ≡ (if credentials.secret == secret then ok tt else err credentials_mismatch)
  unfolding verify_client_credentials
  verify_client_credentials-value credentials id secret w hp hv = ground arith

  -- The states after the check, and after the draw of the secret.
  abbrev checked : Bytes → World → World
  checked passphrase w = (verify_passphrase passphrase w).1

  abbrev drawn : Bytes → World → World
  drawn passphrase w = record (checked passphrase w) { draws = (checked passphrase w).draws + 1 }

  abbrev described : ClientCreation → Bytes
  described request = codes "CC[" ++ (request.description ++ codes "]")

  abbrev made : ClientCreation → Bytes → World → World
  made request passphrase w = (create_item (described request) (drawn passphrase w)).1

  create_client_credentials-inv :
      (request : ClientCreation) (passphrase : Bytes) (w : World) (credentials : ClientCredentials)
      → request.credentials ≡ some passphrase
      → (create_client_credentials request w).0 ≡ ok credentials
      → (item : Item) × ((create_item (described request) (drawn passphrase w)).0 ≡ ok item)
        × (credentials.id ≡ E.uuid_string item.id)
        × ((set_item_value item.id
              (E.random_text (checked passphrase w).draws)
              (made request passphrase w)).0
            ≡ ok tt)
        × (((get_item item.id
                (set_item_value item.id
                  (E.random_text (checked passphrase w).draws)
                  (made request passphrase w)).1).0
              ≡ ok (some (E.random_text (checked passphrase w).draws)))
            → (credentials.secret ≡ E.random_text (checked passphrase w).draws))
        × ((create_client_credentials request w).1
            ≡ (get_item item.id
                (set_item_value item.id
                  (E.random_text (checked passphrase w).draws)
                  (made request passphrase w)).1).1)
  unfolding create_client_credentials verify_admin
  create_client_credentials-inv request passphrase w credentials hc h =
      elim (Outcome-cases (create_item (described request) (drawn passphrase w)).0) [
        | inl (item, e) ↦ (item, e, ground arith, ground arith, λ got. ground arith, ground arith)
        | inr (inl (x, e)) ↦ absurd (ground arith)
        | inr (inr (inl e)) ↦ absurd (ground arith)
        | inr (inr (inr e)) ↦ absurd (ground arith)
      ]

  -- If the libraries are lawful, the backend reads what it wrote and enclaves open, then after
  -- `CreateClientCredentials` has succeeded on an open vault the credentials that it returned verify,
  -- and credentials with the same id and any other secret do not.
  pub client_credentials_accepted :
      IsLawful E
      → IsFileStore B
      → EnclavesOpen E
      → (identity : E.Identity) (key passphrase other : Bytes) (request : ClientCreation)
        (w : World) (credentials : ClientCredentials)
      → IsOpenFor identity key w
      → request.credentials ≡ some passphrase
      → other ≢ credentials.secret
      → (create_client_credentials request w).0 ≡ ok credentials
      → ((verify_client_credentials credentials (create_client_credentials request w).1).0 ≡ ok tt)
        × ((verify_client_credentials
              (record credentials { secret = other })
              (create_client_credentials request w).1).0
            ≡ err credentials_mismatch)
  client_credentials_accepted L S opens identity key passphrase other request w credentials o hc ne
        h =
      let (item, created, named, set, secret_is, state) =
        create_client_credentials-inv request passphrase w credentials hc h in
      let secret = E.random_text (checked passphrase w).draws in
      let stored = (set_item_value item.id secret (made request passphrase w)).1 in
      let same : SameStore w (drawn passphrase w) = record {
        vault = (verify_passphrase-frame passphrase w).vault;
        files = (verify_passphrase-frame passphrase w).files;
      } in
      let opened = SameStore-IsOpenFor identity key w (drawn passphrase w) same o in
      let ready =
        (create_item-IsOpenFor L S identity key (described request) item (drawn passphrase w) opened
          created).0 in
      let got : (get_item item.id stored).0 ≡ ok (some secret) =
        get_item-set_item_value L S opens identity key secret item.id _ ready set in
      let again : (get_item item.id (create_client_credentials request w).1).0 ≡ ok (some secret) =
        rw state (get_item-same opens item.id stored _ (get_item-frame item.id stored) ∙ got) in
      let sized : length item.id ≡ 16 =
        ap length (create_item-id (described request) (drawn passphrase w) item created)
        ∙ L.length-uuid_new _ in
      let parsed : E.uuid_parse credentials.id ≡ ok item.id =
        ap E.uuid_parse named ∙ L.parse-uuid_string item.id sized in
      let is_secret : credentials.secret ≡ secret = secret_is got in
      (
        verify_client_credentials-value credentials item.id secret _ parsed again
            ∙ ground (arith, ==_iff credentials.secret secret),
        verify_client_credentials-value (record credentials { secret = other }) item.id secret _
              parsed again
            ∙ ground (arith, ==_iff other secret),
      )
