-- ===== src/Kms/Exchange/Opened.antt =====
-- What the envelopes of an exchange have behind them: `encrypt_payload_for_node` and
-- `decrypt_envelope` of capsule-cli/src/integrations/nova_kms.rs.
use nova_enclave_capsule.Prelude.{◌++◌, ok, ok-injective, ◌≡◌, sym, subst, nat_eq, list_eq}
use nova_enclave_capsule.Prelude.Text.{Text, codes, is_empty}
use nova_enclave_capsule.Prelude.Action.{lift, >>=-eq-ok, raise-eq-ok, if_bail-eq-ok}
use nova_enclave_capsule.Kms.Outside.{Outside, Json, string, object, end, member}
use nova_enclave_capsule.Kms.Address.{trim_0x}
use nova_enclave_capsule.Kms.Proxy.{Config, State, text_field, capsule_api_post}
use nova_enclave_capsule.Kms.Envelope.{
  local_tee_pubkey, encrypt_payload_for_node, decrypt_fields, decrypt_from, decrypt_envelope,
}
use nova_enclave_capsule.Kms.Exchange.Bound.{HasField, text_field-eq-ok, decrypt_from-same, differs}

-- The bodies of the calls for an encryption and for a decryption.
abbrev pub encrypt_request : (key plaintext : Text) → Json
encrypt_request key plaintext = object (
    member (codes "plaintext") (string plaintext)
      (member (codes "client_public_key") (string (codes "0x" ++ trim_0x key)) end))

abbrev pub decrypt_request : (sender nonce encrypted_data : Text) → Json
decrypt_request sender nonce encrypted_data = object (
    member (codes "nonce") (string (codes "0x" ++ trim_0x nonce)) (
      member (codes "client_public_key") (string (codes "0x" ++ sender))
        (member (codes "encrypted_data") (string (codes "0x" ++ trim_0x encrypted_data)) end)))

module _ (out : Outside) (config : Config) where
  -- The value that the Capsule API decrypts an envelope to, with the key given as the sender's.
  pub record Opened (envelope : Json) (sender : Text) (value : Json) : Type 0 where
    pub nonce : Text
    pub encrypted_data : Text
    pub has_nonce : HasField out envelope (codes "nonce") nonce
    pub has_data : HasField out envelope (codes "encrypted_data") encrypted_data
    pub before : State out.World
    pub reply : Json
    pub replied :
        (capsule_api_post out config
          (codes "/v1/encryption/decrypt")
          (decrypt_request sender nonce encrypted_data)
          before).1
        ≡ ok reply
    pub plaintext : Text
    pub has_plaintext : HasField out reply (codes "plaintext") plaintext
    pub value_eq : out.from_str plaintext ≡ ok value

  -- The envelope that the Capsule API encrypts a payload to, for a key.
  pub record Sealed (payload : Json) (key : Text) (envelope : Json) : Type 0 where
    pub plaintext : Text
    pub plaintext_eq : out.to_string payload ≡ ok plaintext
    pub at_key : State out.World
    pub own_key : Text
    pub own_key_eq : (local_tee_pubkey out config at_key).1 ≡ ok own_key
    pub before : State out.World
    pub reply : Json
    pub replied :
        (capsule_api_post out config
          (codes "/v1/encryption/encrypt")
          (encrypt_request key plaintext)
          before).1
        ≡ ok reply
    pub nonce : Text
    pub encrypted_data : Text
    pub has_nonce : HasField out reply (codes "nonce") nonce
    pub has_data : HasField out reply (codes "encrypted_data") encrypted_data
    pub envelope_eq :
        envelope
        ≡ object (
            member (codes "sender_tee_pubkey") (string own_key) (
              member
                (codes "nonce")
                (string (trim_0x nonce))
                (member (codes "encrypted_data") (string (trim_0x encrypted_data)) end)))

  decrypt_fields-Opened :
      (envelope : Json) (sender : Text) (s : State out.World) {value : Json}
      → (decrypt_fields out config envelope sender s).1 ≡ ok value
      → Opened envelope sender value
  unfolding decrypt_fields
  decrypt_fields-Opened envelope sender s done =
      let (nonce, e1, d1) =
        >>=-eq-ok
          (lift (text_field out envelope (codes "nonce") (codes "KMS response missing nonce"))) _ s
          done in
      let (encrypted_data, e2, d2) =
        >>=-eq-ok
          (lift (
            text_field out envelope (codes "encrypted_data")
              (codes "KMS response missing encrypted_data")))
          _ _ d1 in
      let (reply, replied, d3) =
        >>=-eq-ok
          (capsule_api_post out config (codes "/v1/encryption/decrypt")
            (decrypt_request sender nonce encrypted_data))
          _ _ d2 in
      let (plaintext, e4, d4) =
        >>=-eq-ok
          (lift (
            text_field out reply (codes "plaintext")
              (codes "Capsule API decrypt response missing plaintext")))
          _ _ d3 in
      record {
        nonce = nonce;
        encrypted_data = encrypted_data;
        has_nonce = text_field-eq-ok out envelope (codes "nonce") _ (raise-eq-ok _ e1);
        has_data = text_field-eq-ok out envelope (codes "encrypted_data") _ (raise-eq-ok _ e2);
        before = _;
        reply = reply;
        replied = replied;
        plaintext = plaintext;
        has_plaintext = text_field-eq-ok out reply (codes "plaintext") _ (raise-eq-ok _ e4);
        value_eq = raise-eq-ok _ d4;
      }

  decrypt_from-Opened :
      (envelope : Json) (sender expected : Text) (s : State out.World) {value : Json}
      → (decrypt_from out config envelope sender expected s).1 ≡ ok value
      → Opened envelope expected value
  unfolding decrypt_from
  decrypt_from-Opened envelope sender expected s {value} done =
      let same = decrypt_from-same out config envelope sender expected s done in
      let (_, d1) = if_bail-eq-ok (is_empty sender) _ _ s done in
      let (_, d2) = if_bail-eq-ok (is_empty expected) _ _ s d1 in
      subst (λ key. Opened envelope key value) same
        (decrypt_fields-Opened envelope sender s (cc (differs sender expected same, d2)))

  -- What an envelope is decrypted to is decrypted with the key that is expected as its sender's.
  pub decrypt_envelope-Opened :
      (envelope : Json) (key : Text) (s : State out.World) {value : Json}
      → (decrypt_envelope out config envelope key s).1 ≡ ok value
      → Opened envelope (trim_0x key) value
  unfolding decrypt_envelope
  decrypt_envelope-Opened envelope key s done =
      let (sender, _, d1) =
        >>=-eq-ok (lift (text_field out envelope (codes "sender_tee_pubkey") _))
          (λ sender. decrypt_from out config envelope (trim_0x sender) (trim_0x key)) s done in
      decrypt_from-Opened envelope (trim_0x sender) (trim_0x key) s d1

  pub encrypt_payload_for_node-Sealed :
      (payload : Json) (key : Text) (s : State out.World) {envelope : Json}
      → (encrypt_payload_for_node out config payload key s).1 ≡ ok envelope
      → Sealed payload key envelope
  unfolding encrypt_payload_for_node
  encrypt_payload_for_node-Sealed payload key s done =
      let (own_key, own_key_eq, d1) = >>=-eq-ok (local_tee_pubkey out config) _ s done in
      let (plaintext, e2, d2) = >>=-eq-ok (lift (out.to_string payload)) _ _ d1 in
      let (reply, replied, d3) =
        >>=-eq-ok
          (capsule_api_post out config (codes "/v1/encryption/encrypt")
            (encrypt_request key plaintext))
          _ _ d2 in
      let (nonce, e4, d4) =
        >>=-eq-ok
          (lift (
            text_field out reply (codes "nonce")
              (codes "Capsule API /v1/encryption/encrypt response missing nonce")))
          _ _ d3 in
      let (encrypted_data, e5, d5) =
        >>=-eq-ok
          (lift (
            text_field out reply (codes "encrypted_data")
              (codes "Capsule API /v1/encryption/encrypt response missing encrypted_data")))
          _ _ d4 in
      record {
        plaintext = plaintext;
        plaintext_eq = raise-eq-ok _ e2;
        at_key = s;
        own_key = own_key;
        own_key_eq = own_key_eq;
        before = _;
        reply = reply;
        replied = replied;
        nonce = nonce;
        encrypted_data = encrypted_data;
        has_nonce = text_field-eq-ok out reply (codes "nonce") _ (raise-eq-ok _ e4);
        has_data = text_field-eq-ok out reply (codes "encrypted_data") _ (raise-eq-ok _ e5);
        envelope_eq = sym (ok-injective d5);
      }
