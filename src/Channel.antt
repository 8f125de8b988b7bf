-- ===== src/Channel.antt =====
-- The keys of the encrypted channel, capsule-cli/src/encryption_key.rs: the DER form of a public key,
-- the key that two parties share, and what is encrypted under it.
pub mod Der
pub mod Shared
mod Tests
use nova_enclave_capsule.Prelude.{
  ℕ, ◌+◌, ◌*◌, ◌/◌, ◌%◌, ◌^◌, Bool, true, false, not, ◌||◌, Option, none, some, List, [], ◌∷◌, ◌++◌,
  Result, ok, err, ◌>>=◌, ◌>>◌, fail_if, map_err, ◌==◌, nat_eq, if◌then◌else◌, ltb, leb, length,
  take, drop,
}
use nova_enclave_capsule.Prelude.Text.{Text, codes, decimal}
use nova_enclave_capsule.Prelude.Action.{Fault, failed, panicked, raise, or_panic}

abbrev pub Bytes : Type 0
Bytes = List ℕ

-- The libraries for the curve P-384, HKDF over SHA-256 and AES-256-GCM.
pub record Crypto : Type 1 where
  pub SecretKey : Type 0
  pub PublicKey : Type 0
  pub public_key : SecretKey → PublicKey
  pub to_encoded_point : PublicKey → Bytes
  pub from_sec1_bytes : Bytes → Result Text PublicKey
  pub diffie_hellman : SecretKey → PublicKey → Bytes
  pub hkdf_expand : (salt secret info : Bytes) → Option Bytes
  pub seal : (key nonce plaintext : Bytes) → Result Text Bytes
  pub unseal : (key nonce ciphertext : Bytes) → Result Text Bytes
  -- `ChaCha20Rng::from_seed`, and the key drawn from it.
  pub from_seed : Bytes → SecretKey

abbrev pub oid_ec_pubkey : Bytes
oid_ec_pubkey = 0x06 ∷ 0x07 ∷ 0x2a ∷ 0x86 ∷ 0x48 ∷ 0xce ∷ 0x3d ∷ 0x02 ∷ 0x01 ∷ []

abbrev pub oid_secp384r1 : Bytes
oid_secp384r1 = 0x06 ∷ 0x05 ∷ 0x2b ∷ 0x81 ∷ 0x04 ∷ 0x00 ∷ 0x22 ∷ []

abbrev pub skip_zeros : Bytes → Bytes
skip_zeros [] = []
skip_zeros (b ∷ bs) = let rest = skip_zeros bs in if b == 0 then rest else b ∷ bs

-- `to_be_bytes` of a `u32`, without the zeros in front.
unfoldable pub len_bytes : ℕ → Bytes
len_bytes n =
    skip_zeros ((n / 2 ^ 24) % 256 ∷ (n / 2 ^ 16) % 256 ∷ (n / 2 ^ 8) % 256 ∷ n % 256 ∷ [])

unfoldable pub alg_seq : Bytes
alg_seq = 0x30 ∷ length (oid_ec_pubkey ++ oid_secp384r1) % 256 ∷ (oid_ec_pubkey ++ oid_secp384r1)

unfoldable pub bit_string : Bytes → Bytes
bit_string key =
    let len = 1 + length key in
    0x03 ∷ ((if ltb 127 len then 0x81 ∷ len % 256 ∷ [] else len % 256 ∷ []) ++ (0x00 ∷ key))

-- `public_key_as_der`, of the encoded point.
unfoldable pub public_key_as_der : Bytes → Bytes
unfolding alg_seq bit_string len_bytes
public_key_as_der key =
    let len = length alg_seq + length (bit_string key) in
    0x30
    ∷ ((if ltb 127 len then (0x80 + length (len_bytes len)) ∷ len_bytes len else len % 256 ∷ [])
        ++ (alg_seq ++ bit_string key))

abbrev long_one : Bytes → Result Text (ℕ × ℕ)
long_one [] = err (codes "Truncated DER length")
long_one (b ∷ rest) = ok (2, b)

abbrev long_two : Bytes → Result Text (ℕ × ℕ)
long_two [] = err (codes "Truncated DER length")
long_two (b ∷ []) = err (codes "Truncated DER length")
long_two (b ∷ c ∷ rest) = ok (3, b * 256 + c)

-- The bytes read, and the length.
unfoldable pub parse_der_length : Bytes → Result Text (ℕ × ℕ)
parse_der_length [] = err (codes "Empty data for DER length")
parse_der_length (b ∷ rest) =
    if ltb b 0x80
    then ok (1, b)
    else if b == 0x81
    then long_one rest
    else if b == 0x82
    then long_two rest
    else err (codes "Unsupported DER length encoding")

-- The text starts with the tag.
abbrev pub has_tag : ℕ → Bytes → Bool
has_tag tag [] = false
has_tag tag (b ∷ rest) = b == tag

-- The slices `[from..]` and `[from..to]`: `none` is a panic.
unfoldable pub slice_from : ℕ → Bytes → Option Bytes
slice_from from bytes = if leb from (length bytes) then some (drop from bytes) else none

unfoldable pub slice : ℕ → ℕ → Bytes → Option Bytes
slice from to bytes =
    if leb from to
    then (if leb to (length bytes) then some (drop from (take to bytes)) else none)
    else none

-- The last step: the key in a bit string whose tag and length stand in front.
unfoldable pub key_bytes : Bytes → Result Fault Bytes
unfolding parse_der_length slice
key_bytes bits = do
  (bs_len_size, bs_len) ← raise (parse_der_length (drop 1 bits))
  fail_if (ltb (length bits) ((1 + bs_len_size) + bs_len))
      (failed (codes "Invalid DER: BIT STRING length mismatch"))
  or_panic (slice ((1 + bs_len_size) + 1) ((1 + bs_len_size) + bs_len) bits)

-- What the outer sequence holds, and what follows the algorithm in it.
unfoldable pub content_of : Bytes → Result Fault Bytes
unfolding parse_der_length slice_from
content_of der = do
  fail_if (ltb (length der) 4 || not (has_tag 0x30 der))
      (failed (codes "Invalid DER: expected SEQUENCE"))
  (content_start, content_len) ← raise (parse_der_length (drop 1 der))
  or_panic (slice_from (1 + content_start) der)

unfoldable pub bits_of : Bytes → Result Fault Bytes
unfolding parse_der_length
bits_of content = do
  fail_if (not (has_tag 0x30 content))
      (failed (codes "Invalid DER: expected AlgorithmIdentifier SEQUENCE"))
  (alg_len_size, alg_len) ← raise (parse_der_length (drop 1 content))
  fail_if (not (has_tag 0x03 (drop ((1 + alg_len_size) + alg_len) content)))
      (failed (codes "Invalid DER: expected BIT STRING"))
  ok (drop ((1 + alg_len_size) + alg_len) content)

-- `parse_der_public_key`, up to the point.
unfoldable pub der_key_bytes : Bytes → Result Fault Bytes
unfolding content_of bits_of key_bytes
der_key_bytes der = do content ← content_of der; bits ← bits_of content; key_bytes bits

-- `as_slice` comparison of byte strings: the first is not greater.
unfoldable pub bytes_le : Bytes → Bytes → Bool
bytes_le [] bs = true
bytes_le (a ∷ as_) [] = false
bytes_le (a ∷ as_) (b ∷ bs) = let rest = bytes_le as_ bs in if a == b then rest else ltb a b

unfoldable pub salt_material : (self_pub peer_pub nonce : Bytes) → Bytes
unfolding bytes_le
salt_material self_pub peer_pub nonce =
    if bytes_le self_pub peer_pub
    then self_pub ++ (peer_pub ++ nonce)
    else peer_pub ++ (self_pub ++ nonce)

abbrev pub channel_info : Bytes
channel_info = codes "capsule-ecdh-aes256gcm-v1"

unfoldable pub validate_nonce : Bytes → Result Text (Unit {0})
validate_nonce nonce =
    fail_if (not (length nonce == 12))
      (codes "Nonce must be exactly 12 bytes, got " ++ decimal (length nonce))

module _ (crypto : Crypto) where
  -- `EncryptionKey::from_entropy`
  unfoldable pub from_entropy : Bytes → Result Text crypto.SecretKey
  from_entropy entropy = do
    fail_if (ltb (length entropy) 32)
        (codes "Entropy must be at least 32 bytes, got " ++ decimal (length entropy))
    ok (crypto.from_seed (take 32 entropy))

  abbrev pub own_bytes : crypto.SecretKey → Bytes
  own_bytes secret = crypto.to_encoded_point (crypto.public_key secret)

  unfoldable pub parse_der_public_key : Bytes → Result Fault crypto.PublicKey
  parse_der_public_key der = do
    bytes ← der_key_bytes der
    raise (
        map_err (λ e. codes "Failed to parse P-384 public key: " ++ e)
          (crypto.from_sec1_bytes bytes))

  abbrev pub expanded : Option Bytes → Result Fault Bytes
  expanded none = err (failed (codes "HKDF expand failed"))
  expanded (some key) = ok key

  unfoldable pub shared_with : crypto.SecretKey → crypto.PublicKey → Bytes → Result Fault Bytes
  shared_with secret peer nonce = expanded (
      crypto.hkdf_expand (salt_material (own_bytes secret) (crypto.to_encoded_point peer) nonce)
        (crypto.diffie_hellman secret peer) channel_info)

  unfoldable pub derive_shared_key :
      crypto.SecretKey → (peer_public_key_der nonce : Bytes) → Result Fault Bytes
  derive_shared_key secret peer_public_key_der nonce = do
    peer ← parse_der_public_key peer_public_key_der
    shared_with secret peer nonce

  unfoldable pub encrypt :
      crypto.SecretKey → (plaintext client_public_key_der nonce : Bytes) → Result Fault Bytes
  encrypt secret plaintext client_public_key_der nonce = do
    raise (validate_nonce nonce)
    key ← derive_shared_key secret client_public_key_der nonce
    raise (map_err (λ e. codes "Encryption failed: " ++ e) (crypto.seal key nonce plaintext))

  unfoldable pub decrypt :
      crypto.SecretKey → (nonce client_public_key_der encrypted_data : Bytes) → Result Fault Bytes
  decrypt secret nonce client_public_key_der encrypted_data = do
    raise (validate_nonce nonce)
    key ← derive_shared_key secret client_public_key_der nonce
    raise (map_err (λ e. codes "Decryption failed: " ++ e) (crypto.unseal key nonce encrypted_data))
