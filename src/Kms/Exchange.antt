-- ===== src/Kms/Exchange.antt =====
-- One exchange with a node of the KMS in capsule-cli/src/integrations/nova_kms.rs: the identity of the
-- node, the signed and encrypted request, and what is asked of the answer.
pub mod Bound
pub mod Opened
pub mod Accepted
use nova_enclave_capsule.Prelude.{
  ℕ, Bool, true, false, not, Option, none, some, List, [], ◌∷◌, ◌++◌, Result, ok, err, ok_or, ◌==◌,
  nat_eq, list_eq, if◌then◌else◌, ltb,
}
use nova_enclave_capsule.Prelude.Words.{u64_mod, saturating_add}
use nova_enclave_capsule.Prelude.Text.{Text, codes, decimal, is_empty, trim, utf8_len}
use nova_enclave_capsule.Prelude.Action.{
  Action, ◌>>=◌, ◌>>◌, pure, lift, bail, expect, get_state, put_state,
}
use nova_enclave_capsule.Kms.Outside.{
  Outside, Bytes, Json, string, boolean, object, end, member, Client, default_client, Method,
  get_method, Response,
}
use nova_enclave_capsule.Kms.Address.{trim_0x, canonical_wallet, truncate_for_log}
use nova_enclave_capsule.Kms.Log.{preview_json_for_log, preview_text_for_log}
use nova_enclave_capsule.Kms.Nodes.{KmsNodeCacheEntry}
use nova_enclave_capsule.Kms.Proxy.{
  Config, State, KmsNodeIdentity, CachedNodeIdentity, is_success, Do, current_unix_millis,
  current_unix_timestamp, send, log, text_field, capsule_api_get, capsule_api_post,
}
use nova_enclave_capsule.Kms.Identity.{
  identity_ttl_ms, lookup, remove, fresh_identity, invalidate_node_identity_cache,
  cache_node_identity, dropped_if_none, cached_node_identity, get_json, fetch_node_identity,
  or_fetched, resolve_node_identity, of_node, check_binding, verify_node_identity_binding,
}
use nova_enclave_capsule.Kms.Envelope.{
  fetch_nonce, local_eth_address, local_sign_message, local_tee_pubkey, encrypt_payload_for_node,
  decrypt_fields, key_mismatch, decrypt_from, decrypt_envelope,
}

module _ (out : Outside) where
  unfoldable pub eip191_personal_message_bytes : Text → Bytes
  eip191_personal_message_bytes message =
      out.utf8 (25 ∷ codes "Ethereum Signed Message:\n" ++ decimal (utf8_len message))
      ++ out.utf8 message

  abbrev pub response_message : (client_signature wallet : Text) → Text
  response_message client_signature wallet =
      codes "NovaKMS:Response:" ++ (client_signature ++ (codes ":" ++ wallet))

  unfoldable pub verify_mutual_response_signature :
      (signature client_signature expected_wallet : Text) → Result Text (Unit {0})
  unfolding canonical_wallet eip191_personal_message_bytes
  verify_mutual_response_signature signature client_signature expected_wallet =
      elim (canonical_wallet out expected_wallet) [
        | err e ↦ err e
        | ok signer ↦
            if out.verify_message signature
              (eip191_personal_message_bytes (response_message client_signature signer)) signer
            then ok tt
            else err (
                codes "KMS mutual response signature verification failed (expected_signer="
                ++ (signer ++ codes ")"))
      ]

  unfoldable pub check_signature :
      Config → KmsNodeCacheEntry → Response → Text → Result Text (Unit {0})
  unfolding verify_mutual_response_signature
  check_signature config node response client_signature =
      if config.require_mutual_signature
      then elim response.signature [
        | none ↦ err (codes "KMS response missing X-KMS-Response-Signature")
        | some signature ↦ verify_mutual_response_signature signature client_signature node.wallet
      ]
      else ok tt

  -- The headers of a request, and its body when it has a payload.
  abbrev pub auth_headers : (client_signature nonce : Text) → ℕ → Text → List (Text × Text)
  auth_headers client_signature nonce timestamp app_wallet =
      (codes "x-app-signature", client_signature)
      ∷ (codes "x-app-nonce", nonce)
      ∷ (codes "x-app-timestamp", decimal timestamp)
      ∷ (codes "x-app-wallet", app_wallet)
      ∷ []

  unfoldable pub send_request :
      Config → Method → Text → List (Text × Text) → Text → Option Json → Do out Response
  unfolding send encrypt_payload_for_node preview_json_for_log
  send_request config method url headers key none = send out default_client method url headers none
  send_request config method url headers key (some payload) = do
    log out (preview_json_for_log out payload)
    envelope ← encrypt_payload_for_node out config payload key
    log out (preview_json_for_log out envelope)
    send out default_client method url
        (headers ++ (codes "content-type", codes "application/json") ∷ []) (some envelope)

  -- What is done with the response.
  unfoldable pub accept_response :
      Config → KmsNodeCacheEntry → (client_signature key : Text) → Response → Do out Json
  unfolding preview_text_for_log is_success check_signature preview_json_for_log decrypt_envelope
  accept_response config node client_signature key response = do
    body ← lift response.text
    log out (preview_text_for_log out body)
    if not (is_success response)
        then bail (codes "KMS HTTP " ++ (decimal response.status ++ (codes ": " ++ body)))
        else (do
          lift (check_signature config node response client_signature)
          envelope ← lift (out.from_str body)
          log out (preview_json_for_log out envelope)
          plaintext ← decrypt_envelope out config envelope key
          log out (preview_json_for_log out plaintext)
          pure plaintext)

  unfoldable pub call_kms_on_node :
      Config → KmsNodeCacheEntry → Method → Text → Option Json → Do out Json
  unfolding resolve_node_identity verify_node_identity_binding fetch_nonce canonical_wallet
      local_sign_message local_eth_address send_request accept_response
  call_kms_on_node config node method path payload = do
    identity ← resolve_node_identity out node
    key ← lift (verify_node_identity_binding out node identity)
    nonce ← fetch_nonce out node.base_url
    timestamp ← current_unix_timestamp out
    wallet ← lift (canonical_wallet out node.wallet)
    client_signature ← local_sign_message out config (
        codes "NovaKMS:AppAuth:"
        ++ (nonce ++ (codes ":" ++ (wallet ++ (codes ":" ++ decimal timestamp)))))
    app_wallet ← local_eth_address out config
    response ←
        send_request config method (node.base_url ++ path)
          (auth_headers client_signature nonce timestamp app_wallet) key payload
    accept_response config node client_signature key response
