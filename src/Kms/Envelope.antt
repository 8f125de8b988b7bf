-- ===== src/Kms/Envelope.antt =====
-- What capsule-cli/src/integrations/nova_kms.rs asks of the Capsule API for an exchange: a signature,
-- its address and its key, and the encryption and decryption of envelopes.
use nova_enclave_capsule.Prelude.{false, not, ◌++◌, ◌==◌, nat_eq, list_eq, if◌then◌else◌}
use nova_enclave_capsule.Prelude.Text.{Text, codes, is_empty}
use nova_enclave_capsule.Prelude.Action.{◌>>=◌, pure, lift, bail, expect}
use nova_enclave_capsule.Kms.Outside.{Outside, Json, string, boolean, object, end, member}
use nova_enclave_capsule.Kms.Address.{trim_0x, canonical_wallet, truncate_for_log}
use nova_enclave_capsule.Kms.Proxy.{Config, Do, text_field, capsule_api_get, capsule_api_post}
use nova_enclave_capsule.Kms.Identity.{get_json}

module _ (out : Outside) where
  unfoldable pub fetch_nonce : Text → Do out Text
  unfolding get_json text_field
  fetch_nonce base_url = do
    value ← get_json out (base_url ++ codes "/nonce")
    lift (text_field out value (codes "nonce") (codes "KMS /nonce response missing nonce"))

  unfoldable pub local_eth_address : Config → Do out Text
  unfolding capsule_api_get text_field canonical_wallet
  local_eth_address config = do
    value ← capsule_api_get out config (codes "/v1/eth/address")
    address ← lift (
        text_field out value (codes "address")
          (codes "Capsule API /v1/eth/address response missing address"))
    lift (canonical_wallet out address)

  unfoldable pub local_sign_message : Config → Text → Do out Text
  unfolding capsule_api_post text_field
  local_sign_message config message = do
    value ← capsule_api_post out config (codes "/v1/eth/sign") (
        object (
          member (codes "message") (string message)
            (member (codes "include_attestation") (boolean false) end)))
    lift (
        text_field out value (codes "signature")
          (codes "Capsule API /v1/eth/sign response missing signature"))

  unfoldable pub local_tee_pubkey : Config → Do out Text
  unfolding capsule_api_get text_field trim_0x
  local_tee_pubkey config = do
    value ← capsule_api_get out config (codes "/v1/encryption/public_key")
    pubkey ← lift (
        text_field out value (codes "public_key_der")
          (codes "Capsule API /v1/encryption/public_key response missing public_key_der"))
    pure (trim_0x pubkey)

  unfoldable pub encrypt_payload_for_node : Config → Json → Text → Do out Json
  unfolding local_tee_pubkey capsule_api_post text_field trim_0x
  encrypt_payload_for_node config payload node_tee_pubkey = do
    sender_pubkey ← local_tee_pubkey config
    plaintext ← lift (out.to_string payload)
    value ← capsule_api_post out config (codes "/v1/encryption/encrypt") (
        object (
          member (codes "plaintext") (string plaintext) (
            member (codes "client_public_key") (string (codes "0x" ++ trim_0x node_tee_pubkey))
              end)))
    nonce ← lift (
        text_field out value (codes "nonce")
          (codes "Capsule API /v1/encryption/encrypt response missing nonce"))
    encrypted_data ← lift (
        text_field out value (codes "encrypted_data")
          (codes "Capsule API /v1/encryption/encrypt response missing encrypted_data"))
    pure (
        object (
          member (codes "sender_tee_pubkey") (string sender_pubkey) (
            member (codes "nonce") (string (trim_0x nonce))
              (member (codes "encrypted_data") (string (trim_0x encrypted_data)) end))))

  unfoldable pub decrypt_fields : Config → Json → Text → Do out Json
  unfolding text_field capsule_api_post trim_0x
  decrypt_fields config envelope sender = do
    nonce ← lift (text_field out envelope (codes "nonce") (codes "KMS response missing nonce"))
    encrypted_data ← lift (
        text_field out envelope (codes "encrypted_data")
          (codes "KMS response missing encrypted_data"))
    value ← capsule_api_post out config (codes "/v1/encryption/decrypt") (
        object (
          member (codes "nonce") (string (codes "0x" ++ trim_0x nonce)) (
            member (codes "client_public_key") (string (codes "0x" ++ sender)) (
              member (codes "encrypted_data") (string (codes "0x" ++ trim_0x encrypted_data))
                end))))
    plaintext ← lift (
        text_field out value (codes "plaintext")
          (codes "Capsule API decrypt response missing plaintext"))
    lift (out.from_str plaintext)

  unfoldable pub key_mismatch : (sender expected : Text) → Do out Json
  unfolding truncate_for_log
  key_mismatch sender expected = do
    expected_text ← expect (truncate_for_log expected 24)
    observed_text ← expect (truncate_for_log sender 24)
    bail (
        codes "KMS response sender_tee_pubkey mismatch: expected="
        ++ (expected_text ++ (codes " observed=" ++ observed_text)))

  -- `decrypt_envelope`, once both keys are trimmed.
  unfoldable pub decrypt_from : Config → Json → (sender expected : Text) → Do out Json
  unfolding key_mismatch decrypt_fields
  decrypt_from config envelope sender expected =
      if is_empty sender
      then bail (codes "KMS response sender_tee_pubkey is empty")
      else if is_empty expected
      then bail (codes "expected sender tee_pubkey is empty")
      else if not (sender == expected)
      then key_mismatch sender expected
      else decrypt_fields config envelope sender

  unfoldable pub decrypt_envelope : Config → Json → Text → Do out Json
  unfolding text_field trim_0x decrypt_from
  decrypt_envelope config envelope expected = do
    sender ← lift (
        text_field out envelope (codes "sender_tee_pubkey")
          (codes "KMS response missing sender_tee_pubkey"))
    decrypt_from config envelope (trim_0x sender) (trim_0x expected)
