-- ===== src/Channel/Tests.antt =====
-- The channel of capsule-cli/src/encryption_key.rs between two keys of a group in which everything is
-- a number.
use nova_enclave_capsule.Prelude.{
  ℕ, ◌+◌, some, [], ◌∷◌, ok, ◌≡◌, refl, sym, ap, zero, suc, err, arith,
}
use nova_enclave_capsule.Prelude.Text.{codes}
use nova_enclave_capsule.Prelude.Action.{panicked}
use nova_enclave_capsule.Channel.{
  Bytes, Crypto, public_key_as_der, der_key_bytes, derive_shared_key, encrypt, decrypt,
}
use nova_enclave_capsule.Channel.Der.{der_key_bytes-public_key_as_der}
use nova_enclave_capsule.Channel.Shared.{IsLawful, der_of, decrypt-encrypt}

abbrev repeat : ℕ → Bytes → Bytes
repeat zero bytes = bytes
repeat (suc n) bytes = 4 ∷ repeat n bytes

abbrev last_of : Bytes → ℕ
last_of [] = 0
last_of (b ∷ []) = b
last_of (b ∷ c ∷ bs) = last_of (c ∷ bs)

abbrev demo : Crypto
demo = record {
  SecretKey = ℕ;
  PublicKey = ℕ;
  public_key = λ a. a;
  to_encoded_point = λ a. repeat 96 (a ∷ []);
  from_sec1_bytes = λ bytes. ok (last_of bytes);
  diffie_hellman = λ a b. (a + b) ∷ [];
  hkdf_expand = λ salt secret info. some secret;
  seal = λ key nonce plaintext. ok plaintext;
  unseal = λ key nonce ciphertext. ok ciphertext;
  from_seed = λ seed. 0;
}

demo-IsLawful : IsLawful demo
demo-IsLawful = record {
  point_length = λ key. refl;
  point_read = λ key. refl;
  diffie_hellman_comm = λ a b. ap (λ n. n ∷ []) (omega arith);
  unsealed = λ key nonce plaintext h. sym h;
}

abbrev nonce : Bytes
nonce = 1 ∷ 2 ∷ 3 ∷ 4 ∷ 5 ∷ 6 ∷ 7 ∷ 8 ∷ 9 ∷ 10 ∷ 11 ∷ 12 ∷ []

encrypted : encrypt demo 7 (codes "hi") (der_of demo 9) nonce ≡ ok (codes "hi")
unfolding encrypt nova_enclave_capsule.Channel.validate_nonce derive_shared_key
    nova_enclave_capsule.Channel.parse_der_public_key der_key_bytes public_key_as_der
    nova_enclave_capsule.Channel.shared_with
encrypted = refl

decrypt-encrypt_example : decrypt demo 9 nonce (der_of demo 7) (codes "hi") ≡ ok (codes "hi")
decrypt-encrypt_example = decrypt-encrypt demo demo-IsLawful 7 9 (codes "hi") nonce encrypted

der_key_bytes-public_key_as_der_example :
    der_key_bytes (public_key_as_der (repeat 96 (5 ∷ []))) ≡ ok (repeat 96 (5 ∷ []))
der_key_bytes-public_key_as_der_example = der_key_bytes-public_key_as_der (repeat 96 (5 ∷ [])) refl

-- A bit string of length 0 makes the slice of the key end before it starts.
empty_bit_string_panics : der_key_bytes (0x30 ∷ 4 ∷ 0x30 ∷ 0 ∷ 0x03 ∷ 0 ∷ []) ≡ err panicked
unfolding der_key_bytes
empty_bit_string_panics = refl
