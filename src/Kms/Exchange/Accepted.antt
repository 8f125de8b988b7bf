-- ===== src/Kms/Exchange/Accepted.antt =====
-- What a successful exchange with a node has behind it (`call_kms_on_node` of
-- capsule-cli/src/integrations/nova_kms.rs).
use nova_enclave_capsule.Prelude.{
  ℕ, true, not, Option, none, some, List, [], ◌∷◌, ◌++◌, ok, ◌≡◌, refl, sym, append-nil,
  not-eq-false, ok-injective, subst,
}
use nova_enclave_capsule.Prelude.Text.{Text, codes, decimal}
use nova_enclave_capsule.Prelude.Action.{raise, lift, >>=-eq-ok, raise-eq-ok, if_bail-eq-ok}
use nova_enclave_capsule.Kms.Outside.{Outside, Json, Method, Response, Client, default_client}
use nova_enclave_capsule.Kms.Address.{trim_0x, canonical_wallet}
use nova_enclave_capsule.Kms.Log.{preview_json_for_log, preview_text_for_log}
use nova_enclave_capsule.Kms.Nodes.{KmsNodeCacheEntry}
use nova_enclave_capsule.Kms.Proxy.{
  Config, State, KmsNodeIdentity, is_success, log, send, current_unix_timestamp,
}
use nova_enclave_capsule.Kms.Identity.{resolve_node_identity, verify_node_identity_binding}
use nova_enclave_capsule.Kms.Envelope.{
  decrypt_envelope, encrypt_payload_for_node, fetch_nonce, local_sign_message, local_eth_address,
}
use nova_enclave_capsule.Kms.Exchange.{
  auth_headers, check_signature, send_request, accept_response, call_kms_on_node,
}
use nova_enclave_capsule.Kms.Exchange.Bound.{
  IsBound, verify_node_identity_binding-IsBound, Signed, check_signature-Signed, SentBy,
  decrypt_envelope-SentBy,
}
use nova_enclave_capsule.Kms.Exchange.Opened.{
  Opened, decrypt_envelope-Opened, Sealed, encrypt_payload_for_node-Sealed,
}

-- The message that a request is signed with.
abbrev pub auth_message : (nonce wallet : Text) → ℕ → Text
auth_message nonce wallet timestamp =
    codes "NovaKMS:AppAuth:"
    ++ (nonce ++ (codes ":" ++ (wallet ++ (codes ":" ++ decimal timestamp))))

module _ (out : Outside) (config : Config) where
  -- What a request carries of its payload: nothing without one, else what it was encrypted to.
  abbrev pub Carries : Option Json → Text → Option Json → Type 0
  Carries none key body = body ≡ none
  Carries (some payload) key body =
      (envelope : Json) × (body ≡ some envelope) × Sealed out config payload key envelope

  -- A request as it was sent, and its response.
  pub record Sent (method : Method) (url : Text) (headers : List (Text × Text)) (key : Text)
      (payload : Option Json) (response : Response) : Type 0 where
    pub more : List (Text × Text)
    pub body : Option Json
    pub carries : Carries payload key body
    pub before : out.World
    pub sent : (out.send default_client method url (headers ++ more) body before).1 ≡ ok response

  -- A response that was let through, with the envelope that it carries and the value in it.
  pub record Accepted (node : KmsNodeCacheEntry) (client_signature key : Text) (response : Response)
      (value : Json) : Type 0 where
    pub is_ok : is_success response ≡ true
    pub signed : Signed out node response client_signature
    pub text : Text
    pub text_eq : response.text ≡ ok text
    pub envelope : Json
    pub envelope_eq : out.from_str text ≡ ok envelope
    pub sender : SentBy out envelope key
    pub opened : Opened out config envelope (trim_0x key) value

  -- An answer: the node is the one the registry knows, the request was signed over the node's nonce
  -- and wallet and carried the payload sealed for the node's key, the node has signed what the
  -- request was signed with, and the value is what the node's envelope opens to with that key.
  pub record Answer (node : KmsNodeCacheEntry) (method : Method) (path : Text)
      (payload : Option Json) (value : Json) : Type 0 where
    pub identity : KmsNodeIdentity
    pub key : Text
    pub is_bound : IsBound out node identity key
    pub at_nonce : State out.World
    pub nonce : Text
    pub nonce_eq : (fetch_nonce out node.base_url at_nonce).1 ≡ ok nonce
    pub timestamp : ℕ
    pub wallet : Text
    pub wallet_eq : canonical_wallet out node.wallet ≡ ok wallet
    pub at_sign : State out.World
    pub client_signature : Text
    pub signed_by_enclave :
        (local_sign_message out config (auth_message nonce wallet timestamp) at_sign).1
        ≡ ok client_signature
    pub app_wallet : Text
    pub response : Response
    pub request :
        Sent method
          (node.base_url ++ path)
          (auth_headers out client_signature nonce timestamp app_wallet)
          key
          payload
          response
    pub accepted : Accepted node client_signature key response value

  accept_response-Accepted :
      (node : KmsNodeCacheEntry) (client_signature key : Text) (response : Response)
      (s : State out.World) {value : Json}
      → config.require_mutual_signature ≡ true
      → (accept_response out config node client_signature key response s).1 ≡ ok value
      → Accepted node client_signature key response value
  unfolding accept_response
  accept_response-Accepted node client_signature key response s {value} required h =
      let (text, read, h1) = >>=-eq-ok (lift response.text) _ s h in
      let (_, _, h2) = >>=-eq-ok (log out (preview_text_for_log out text)) _ s h1 in
      let (success, h3) = if_bail-eq-ok (not (is_success response)) _ _ _ h2 in
      let (unit, checked, h4) =
        >>=-eq-ok (lift (check_signature out config node response client_signature)) _ _ h3 in
      let (envelope, parsed, h5) = >>=-eq-ok (lift (out.from_str text)) _ _ h4 in
      let (_, _, h6) = >>=-eq-ok (log out (preview_json_for_log out envelope)) _ _ h5 in
      let (plaintext, opened, h7) = >>=-eq-ok (decrypt_envelope out config envelope key) _ _ h6 in
      let (_, _, h9) = >>=-eq-ok (log out (preview_json_for_log out plaintext)) _ _ h7 in
      record {
        is_ok = not-eq-false (is_success response) success;
        signed =
            check_signature-Signed out config node response client_signature required
              (raise-eq-ok _ checked);
        text = text;
        text_eq = raise-eq-ok _ read;
        envelope = envelope;
        envelope_eq = raise-eq-ok _ parsed;
        sender = decrypt_envelope-SentBy out config envelope key _ opened;
        opened =
            subst (Opened out config envelope (trim_0x key)) (ok-injective h9)
              (decrypt_envelope-Opened out config envelope key _ opened);
      }

  send-sent :
      (client : Client) (method : Method) (url : Text) (headers : List (Text × Text))
      (body : Option Json) (w : out.World) {response : Response}
      → raise (out.send client method url headers body w).1 ≡ ok response
      → (before : out.World) × ((out.send client method url headers body before).1 ≡ ok response)
  send-sent client method url headers body w h = (w, raise-eq-ok _ h)

  send_request-Sent :
      (method : Method) (url : Text) (headers : List (Text × Text)) (key : Text)
      (payload : Option Json) (s : State out.World) {response : Response}
      → (send_request out config method url headers key payload s).1 ≡ ok response
      → Sent method url headers key payload response
  unfolding send_request send
  send_request-Sent method url headers key none s {response} h =
      let (before, sent) = send-sent _ _ _ _ _ _ h in
      record {
        more = [];
        body = none;
        carries = refl;
        before = before;
        sent =
            subst (λ hs. (out.send default_client method url hs none before).1 ≡ ok response)
              (sym (append-nil headers)) sent;
      }
  send_request-Sent method url headers key (some payload) s h =
      let (_, _, h1) = >>=-eq-ok (log out (preview_json_for_log out payload)) _ s h in
      let (envelope, sealed, h2) =
        >>=-eq-ok (encrypt_payload_for_node out config payload key) _ _ h1 in
      let (_, _, h3) = >>=-eq-ok (log out (preview_json_for_log out envelope)) _ _ h2 in
      let (before, sent) = send-sent _ _ _ _ _ _ h3 in
      record {
        more = (codes "content-type", codes "application/json") ∷ [];
        body = some envelope;
        carries = (envelope, refl, encrypt_payload_for_node-Sealed out config payload key _ sealed);
        before = before;
        sent = sent;
      }

  -- Whatever a node answers: when a call of it succeeds, then its identity was that of the registry,
  -- with the registry's key, which is not empty; a request at its URL was sent with the payload
  -- sealed for that key, under a signature of the enclave's over the node's nonce and wallet; and the
  -- response, whose status is a success, was signed by the registry's wallet over that signature, and
  -- carries an envelope that names the registry's key as its sender's and opens, with that key, to
  -- the value.
  pub call_kms_on_node-Answer :
      (node : KmsNodeCacheEntry) (method : Method) (path : Text) (payload : Option Json)
      (s : State out.World) {value : Json}
      → config.require_mutual_signature ≡ true
      → (call_kms_on_node out config node method path payload s).1 ≡ ok value
      → Answer node method path payload value
  unfolding call_kms_on_node
  call_kms_on_node-Answer node method path payload s required h =
      let (identity, _, h1) = >>=-eq-ok (resolve_node_identity out node) _ s h in
      let (key, bound, h2) =
        >>=-eq-ok (lift (verify_node_identity_binding out node identity)) _ _ h1 in
      let (nonce, nonce_eq, h3) = >>=-eq-ok (fetch_nonce out node.base_url) _ _ h2 in
      let (timestamp, _, h4) = >>=-eq-ok (current_unix_timestamp out) _ _ h3 in
      let (wallet, wallet_eq, h5) = >>=-eq-ok (lift (canonical_wallet out node.wallet)) _ _ h4 in
      let (client_signature, signs, h6) =
        >>=-eq-ok (local_sign_message out config (auth_message nonce wallet timestamp)) _ _ h5 in
      let (app_wallet, _, h7) = >>=-eq-ok (local_eth_address out config) _ _ h6 in
      let (response, asked, h8) =
        >>=-eq-ok
          (send_request out config method (node.base_url ++ path)
            (auth_headers out client_signature nonce timestamp app_wallet) key payload)
          _ _ h7 in
      record {
        identity = identity;
        key = key;
        is_bound = verify_node_identity_binding-IsBound out node identity (raise-eq-ok _ bound);
        at_nonce = _;
        nonce = nonce;
        nonce_eq = nonce_eq;
        timestamp = timestamp;
        wallet = wallet;
        wallet_eq = raise-eq-ok _ wallet_eq;
        at_sign = _;
        client_signature = client_signature;
        signed_by_enclave = signs;
        app_wallet = app_wallet;
        response = response;
        request = send_request-Sent method _ _ key payload _ asked;
        accepted = accept_response-Accepted node client_signature key response _ required h8;
      }
