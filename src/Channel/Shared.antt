-- ===== src/Channel/Shared.antt =====
-- Both ends of the channel of capsule-cli/src/encryption_key.rs come to the same key, and what one
-- encrypts the other decrypts.
use nova_enclave_capsule.Prelude.{
  true, false, [], ◌∷◌, ◌++◌, Result, ok, ◌>>=◌, ◌>>◌, >>=-eq-ok, map_err, map_err-eq-ok, ◌≡◌, inl,
  inr, refl, sym, ap, ◌∙◌, arith, ◌==◌, nat_eq, nat_beq_iff, length, Bool-cases,
}
use nova_enclave_capsule.Prelude.Text.{codes}
use nova_enclave_capsule.Prelude.Action.{Fault, raise, raise-eq-ok}
use nova_enclave_capsule.Channel.{
  Bytes, Crypto, public_key_as_der, bytes_le, salt_material, channel_info, validate_nonce,
  own_bytes, parse_der_public_key, expanded, shared_with, derive_shared_key, encrypt, decrypt,
}
use nova_enclave_capsule.Channel.Der.{der_key_bytes-public_key_as_der}

bytes_le_antisym : (a b : Bytes) → bytes_le a b ≡ true → bytes_le b a ≡ true → a ≡ b
unfolding bytes_le
bytes_le_antisym [] [] p q = refl
bytes_le_antisym [] (b ∷ bs) p q = absurd (ground arith)
bytes_le_antisym (a ∷ as_) [] p q = absurd (ground arith)
bytes_le_antisym (a ∷ as_) (b ∷ bs) p q = elim (Bool-cases (a == b)) [
  | inl same ↦
      let heads : a ≡ b = (nat_beq_iff a b).0 same in
      let tails = bytes_le_antisym as_ bs (ground (arith, heads)) (ground (arith, heads)) in
      cc (heads, tails)
  | inr differ ↦ absurd (ground arith)
]

bytes_le_total : (a b : Bytes) → bytes_le a b ≡ false → bytes_le b a ≡ true
unfolding bytes_le
bytes_le_total [] b p = absurd (ground arith)
bytes_le_total (a ∷ as_) [] p = refl
bytes_le_total (a ∷ as_) (b ∷ bs) p = ground (arith, bytes_le_total as_ bs)

-- The salt does not depend on which end makes it.
salt_material_comm : (a b nonce : Bytes) → salt_material a b nonce ≡ salt_material b a nonce
unfolding salt_material
salt_material_comm a b nonce = elim (Bool-cases (bytes_le a b)) [
  | inr above ↦ let below = bytes_le_total a b above in ground (arith, above, below)
  | inl below ↦ elim (Bool-cases (bytes_le b a)) [
    | inr above ↦ ground (arith, above, below)
    | inl both ↦
        ap (λ x. salt_material x b nonce) (bytes_le_antisym a b below both)
        ∙ ap (λ x. salt_material b x nonce) (sym (bytes_le_antisym a b below both))
  ]
]

-- What is relied on of the libraries.
pub record IsLawful (crypto : Crypto) : Type 0 where
  pub point_length : (key : crypto.PublicKey) → length (crypto.to_encoded_point key) ≡ 97
  pub point_read :
      (key : crypto.PublicKey) → crypto.from_sec1_bytes (crypto.to_encoded_point key) ≡ ok key
  pub diffie_hellman_comm :
      (a b : crypto.SecretKey)
      → crypto.diffie_hellman a (crypto.public_key b)
        ≡ crypto.diffie_hellman b (crypto.public_key a)
  pub unsealed :
      (key nonce plaintext : Bytes) {sealed : Bytes}
      → crypto.seal key nonce plaintext ≡ ok sealed
      → crypto.unseal key nonce sealed ≡ ok plaintext

-- The public key in DER form.
abbrev pub der_of : (crypto : Crypto) → crypto.SecretKey → Bytes
der_of crypto secret = public_key_as_der (own_bytes crypto secret)

module _ (crypto : Crypto) (lawful : IsLawful crypto) where
  parse_der_public_key-public_key_as_der :
      (key : crypto.PublicKey)
      → parse_der_public_key crypto (public_key_as_der (crypto.to_encoded_point key)) ≡ ok key
  unfolding parse_der_public_key
  parse_der_public_key-public_key_as_der key =
      let read =
        der_key_bytes-public_key_as_der (crypto.to_encoded_point key) (lawful.point_length key) in
      ap
        (λ r. r >>= λ bytes. raise (
          map_err (λ e. codes "Failed to parse P-384 public key: " ++ e)
            (crypto.from_sec1_bytes bytes)))
        read
      ∙ ap (λ r. raise (map_err (λ e. codes "Failed to parse P-384 public key: " ++ e) r))
          (lawful.point_read key)

  shared_with_comm :
      (a b : crypto.SecretKey) (nonce : Bytes)
      → shared_with crypto a (crypto.public_key b) nonce
        ≡ shared_with crypto b (crypto.public_key a) nonce
  unfolding shared_with
  shared_with_comm a b nonce =
      ap
        (λ salt.
          expanded crypto
            (crypto.hkdf_expand salt (crypto.diffie_hellman a (crypto.public_key b)) channel_info))
        (salt_material_comm (own_bytes crypto a) (own_bytes crypto b) nonce)
      ∙ ap
          (λ secret. expanded crypto (
            crypto.hkdf_expand (salt_material (own_bytes crypto b) (own_bytes crypto a) nonce)
              secret channel_info))
          (lawful.diffie_hellman_comm a b)

  -- The two ends derive the same key from their own secret key and the other's public key in DER form,
  -- for the same nonce.
  pub derive_shared_key_comm :
      (a b : crypto.SecretKey) (nonce : Bytes)
      → derive_shared_key crypto a (der_of crypto b) nonce
        ≡ derive_shared_key crypto b (der_of crypto a) nonce
  unfolding derive_shared_key
  derive_shared_key_comm a b nonce =
      ap (λ r. r >>= λ peer. shared_with crypto a peer nonce)
        (parse_der_public_key-public_key_as_der (crypto.public_key b))
      ∙ shared_with_comm a b nonce
      ∙ sym (
          ap (λ r. r >>= λ peer. shared_with crypto b peer nonce)
            (parse_der_public_key-public_key_as_der (crypto.public_key a)))

  abbrev open_with : (nonce sealed key : Bytes) → Result Fault Bytes
  open_with nonce sealed key =
      raise (map_err (λ e. codes "Decryption failed: " ++ e) (crypto.unseal key nonce sealed))

  -- What one end encrypts for the other, the other decrypts from it with the same nonce.
  pub decrypt-encrypt :
      (a b : crypto.SecretKey) (plaintext nonce : Bytes) {sealed : Bytes}
      → encrypt crypto a plaintext (der_of crypto b) nonce ≡ ok sealed
      → decrypt crypto b nonce (der_of crypto a) sealed ≡ ok plaintext
  unfolding encrypt decrypt
  decrypt-encrypt a b plaintext nonce {sealed} h =
      let (u, valid, h1) = >>=-eq-ok (raise (validate_nonce nonce)) _ h in
      let (key, derived, h2) =
        >>=-eq-ok (derive_shared_key crypto a (der_of crypto b) nonce) _ h1 in
      let same : derive_shared_key crypto b (der_of crypto a) nonce ≡ ok key =
        sym (derive_shared_key_comm a b nonce) ∙ derived in
      let sealed_as = map_err-eq-ok _ (crypto.seal key nonce plaintext) (raise-eq-ok _ h2) in
      ap (λ r. r >> (derive_shared_key crypto b (der_of crypto a) nonce >>= open_with nonce sealed))
        valid
      ∙ ap (λ r. r >>= open_with nonce sealed) same
      ∙ ap (λ r. raise (map_err (λ e. codes "Decryption failed: " ++ e) r))
          (lawful.unsealed key nonce plaintext sealed_as)
