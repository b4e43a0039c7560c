-- ===== src/Tests/Toy.antt =====
-- Concrete libraries for the examples, small and lawful: hashes pad, ciphers mark their key.
use borg_collective.Base.{
  ℕ, zero, suc, ◌+◌, ◌*◌, ◌≡◌, refl, ap, ◌∙◌, Option, none, some, [], ◌∷◌, ◌++◌, Bytes, codes, ◌==◌,
  has_prefix, if◌then◌else◌, length, take, drop, replicate, take-length-append, drop-length-append,
  arith,
}
use borg_collective.Base.Exec.{ok, err, panic}
use borg_collective.Vault.Env.{Env, Item, Result, external}
use borg_collective.Vault.Laws.{IsLawful, EnclavesOpen}

abbrev pub pad : ℕ → Bytes → Bytes
pad zero bytes = []
pad (suc n) [] = 0 ∷ pad n []
pad (suc n) (b ∷ bytes) = b ∷ pad n bytes

length-pad : (n : ℕ) (bytes : Bytes) → length (pad n bytes) ≡ n
length-pad zero bytes = refl
length-pad (suc n) [] = ap suc (length-pad n [])
length-pad (suc n) (b ∷ bytes) = ap suc (length-pad n bytes)

-- A field with its length before it.
abbrev frame : Bytes → Bytes → Bytes
frame bytes rest = length bytes ∷ (bytes ++ rest)

abbrev unframe {ℓ} : {A : Type ℓ} → A → (Bytes → Bytes → A) → Bytes → A
unframe fail use_both [] = fail
unframe fail use_both (n ∷ rest) = use_both (take n rest) (drop n rest)

unframe-frame {ℓ} :
    {A : Type ℓ} (fail : A) (f : Bytes → Bytes → A) (bytes rest : Bytes)
    → unframe fail f (frame bytes rest) ≡ f bytes rest
unframe-frame fail f bytes rest =
    ap (λ (t : Bytes). f t (drop (length bytes) (bytes ++ rest))) (take-length-append bytes rest)
    ∙ ap (f bytes) (drop-length-append bytes rest)

abbrev frame_peer : Option Bytes → Bytes → Bytes
frame_peer none rest = 0 ∷ rest
frame_peer (some peer) rest = 1 ∷ frame peer rest

abbrev marshal : Item → Bytes
marshal i =
    frame i.id (frame i.description (frame i.checksum (i.modified_at ∷ frame_peer i.peer [])))

abbrev malformed : Result Item
malformed = err (external (codes "json"))

abbrev unmarshal_peer : Bytes → Bytes → Bytes → ℕ → Bytes → Result Item
unmarshal_peer id description checksum modified_at [] = malformed
unmarshal_peer id description checksum modified_at (zero ∷ rest) = ok (record {
  id = id;
  description = description;
  peer = none;
  checksum = checksum;
  modified_at = modified_at;
})
unmarshal_peer id description checksum modified_at (suc _ ∷ rest) =
    unframe malformed
      (λ peer _. ok (record {
        id = id;
        description = description;
        peer = some peer;
        checksum = checksum;
        modified_at = modified_at;
      }))
      rest

abbrev unmarshal_time : Bytes → Bytes → Bytes → Bytes → Result Item
unmarshal_time id description checksum [] = malformed
unmarshal_time id description checksum (time ∷ rest) =
    unmarshal_peer id description checksum time rest

abbrev unmarshal : Bytes → Result Item
unmarshal = unframe malformed λ id.
    unframe malformed
      λ description. unframe malformed λ checksum. unmarshal_time id description checksum

unmarshal_peer-frame_peer :
    (id description checksum : Bytes) (time : ℕ) (peer : Option Bytes)
    → unmarshal_peer id description checksum time (frame_peer peer [])
      ≡ ok (record {
        id = id;
        description = description;
        peer = peer;
        checksum = checksum;
        modified_at = time;
      })
unmarshal_peer-frame_peer id description checksum time none = refl
unmarshal_peer-frame_peer id description checksum time (some peer) =
    unframe-frame malformed
      (λ x _. ok (record {
        id = id;
        description = description;
        peer = some x;
        checksum = checksum;
        modified_at = time;
      }))
      peer []

unmarshal-marshal : (i : Item) → unmarshal (marshal i) ≡ ok i
unmarshal-marshal i =
    unframe-frame malformed
      (λ x.
        unframe malformed
          λ description. unframe malformed λ checksum. unmarshal_time x description checksum)
      i.id (frame i.description (frame i.checksum (i.modified_at ∷ frame_peer i.peer [])))
    ∙ unframe-frame malformed (λ x. unframe malformed λ checksum. unmarshal_time i.id x checksum)
        i.description (frame i.checksum (i.modified_at ∷ frame_peer i.peer []))
    ∙ unframe-frame malformed (unmarshal_time i.id i.description) i.checksum
        (i.modified_at ∷ frame_peer i.peer [])
    ∙ unmarshal_peer-frame_peer i.id i.description i.checksum i.modified_at i.peer

take-pad : (n k : ℕ) (bytes : Bytes) → length bytes ≡ n → take n (pad (n + k) bytes) ≡ bytes
take-pad zero k [] h = refl
take-pad zero k (b ∷ bytes) h = absurd (omega arith)
take-pad (suc n) k [] h = absurd (omega arith)
take-pad (suc n) k (b ∷ bytes) h =
    let e : suc n + k ≡ suc (n + k) = omega arith in
    rw e (ap (◌∷◌ b) (take-pad n k bytes (omega arith)))

abbrev ok_bytes : Bytes → Result Bytes
ok_bytes bytes = ok bytes

parse-uuid_string : (id : Bytes) → length id ≡ 16 → ok_bytes (take 16 (pad 36 id)) ≡ ok_bytes id
parse-uuid_string id h = ap ok_bytes (take-pad 16 20 id h)

abbrev seal : Bytes → Bytes → Bytes → Bytes
seal key nonce text = key ++ text

abbrev unseal : Bytes → Bytes → Bytes → Result Bytes
unseal key nonce sealed =
    if has_prefix sealed key then ok (drop (length key) sealed) else err (external (codes "gcm"))

instance abbrev pub toy : Env
toy = record {
  Identity = Bytes;
  Recipient = Bytes;
  generate_identity = λ n. ok (n ∷ codes "AGE-SECRET-KEY");
  identity_string = λ i. i;
  parse_identity = λ b. ok b;
  recipient = λ i. i;
  recipient_string = λ r. r;
  parse_recipient = λ b. ok b;
  age_encrypt = λ n recipients value. ok value;
  age_decrypt = λ i encrypted. ok encrypted;
  open_error = λ n. none;
  nil_enclave = panic;
  nil_buffer = panic;
  sha256 = pad 32;
  hmac_sha256 = λ key bytes. pad 32 (key ++ bytes);
  gcm_seal = seal;
  gcm_open = unseal;
  random_bytes = λ n size. ok (replicate size n);
  random_text = λ n. n ∷ codes "SECRET";
  uuid_new = λ n. replicate 16 (n + 1);
  uuid_string = pad 36;
  uuid_parse = λ b. ok (take 16 b);
  json_marshal = λ i. ok (marshal i);
  json_unmarshal = unmarshal;
  now = λ n. n * 1_000_000;
  Version = Bytes;
  parse_version = λ b. ok b;
  less_than_equal = λ a b. a == b;
  version_before_recovery_verified = codes "0.2.0";
  version = codes "1.0.0";
}

pub toy-IsLawful : IsLawful toy
toy-IsLawful = record {
  decrypt-encrypt = λ i n rs value encrypted h. cc;
  parse-recipient_string = λ r. refl;
  length-sha256 = length-pad 32;
  length-hmac = λ key bytes. length-pad 32 (key ++ bytes);
  length-uuid_string = length-pad 36;
  length-uuid_new = λ n. refl;
  parse-uuid_string = parse-uuid_string;
  unmarshal-marshal = λ i bytes h. cc (unmarshal-marshal i);
}

pub toy-EnclavesOpen : EnclavesOpen toy
toy-EnclavesOpen n = refl
