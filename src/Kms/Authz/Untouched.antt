-- ===== src/Kms/Authz/Untouched.antt =====
-- What of capsule-cli/src/integrations/nova_kms.rs leaves the cached authorization as it is: the clock,
-- the Capsule API and the calls of the registry.
use nova_enclave_capsule.Prelude.{
  ℕ, zero, suc, ◌+◌, Bool, true, false, not, ◌&&◌, Option, none, some, List, [], ◌∷◌, ◌++◌, Result,
  ok, err, ◌≡◌, sym, subst, nat_eq, if_elim, ltb, length, arith,
}
use nova_enclave_capsule.Prelude.Text.{Text, codes, decimal}
use nova_enclave_capsule.Prelude.Action.{◌>>=◌, ◌>>◌, lift, bail, expect, attempt, >>=-keeps}
use nova_enclave_capsule.Kms.Outside.{
  Outside, Bytes, Json, Client, Method, Response, Function, RpcResponse, get_method,
  get_instance_by_wallet, get_app, uint, address, post_method,
}
use nova_enclave_capsule.Kms.Address.{
  parse_h160, http_client_for_url, looks_like_transient_registry_error,
}
use nova_enclave_capsule.Kms.Log.{preview_text_for_log}
use nova_enclave_capsule.Kms.Proxy.{
  Config, State, RegistryDiscoveryConfig, CachedAuthzContext, Do, current_unix_millis, sleep, send,
  send_or, about_call, is_success, text_or_default, text_field, read_body, capsule_api_get,
}
use nova_enclave_capsule.Kms.Registry.{
  eth_call_payload, rpc_result, parsed_body, eth_call_once, after_eth_call, error_of,
  eth_call_rounds, registry_eth_call, long_enough, nth, registry_call,
  registry_eth_call_max_attempts, registry_eth_call_retry_backoff_ms,
  registry_get_instance_by_wallet, registry_get_app,
}
use nova_enclave_capsule.Kms.Envelope.{local_eth_address}
use nova_enclave_capsule.Kms.Tokens.{
  token_to_u64, token_to_bool, token_to_string, token_to_address, token_to_bytes,
  extract_single_tuple,
}

module _ (out : Outside) (Q : Option CachedAuthzContext → Type 0) where
  -- The property of the cached authorization holds after the action when it holds before it.
  abbrev pub Kept : {A : Type 0} → Do out A → Type 0
  Kept m = (s : State out.World) → Q s.authz_cache → Q (m s).0.authz_cache

  Kept->>= :
      {A B : Type 0} (m : Do out A) (next : A → Do out B)
      → Kept m
      → ((x : A) → Kept (next x))
      → Kept (m >>= next)
  Kept->>= m next m-kept next-kept =
      >>=-keeps (λ (s : State out.World). Q s.authz_cache) m next m-kept next-kept

  -- An action that leaves the whole state.
  still : {A : Type 0} (m : Do out A) → ((s : State out.World) → (m s).0 ≡ s) → Kept m
  still m h s q = subst (λ (x : State out.World). Q x.authz_cache) (sym (h s)) q

  pub current_unix_millis-Kept : Kept (current_unix_millis out)
  unfolding current_unix_millis
  current_unix_millis-Kept s q = q

  sleep-Kept : (ms : ℕ) → Kept (sleep out ms)
  unfolding sleep
  sleep-Kept ms s q = q

  send-Kept :
      (client : Client) (method : Method) (url : Text) (headers : List (Text × Text))
      (body : Option Json)
      → Kept (send out client method url headers body)
  unfolding send
  send-Kept client method url headers body s q = q

  send_or-Kept :
      (before : Text) (client : Client) (method : Method) (url : Text)
      (headers : List (Text × Text)) (body : Option Json)
      → Kept (send_or out before client method url headers body)
  unfolding send_or
  send_or-Kept before client method url headers body s q = q

  read_body-still :
      (verb path url : Text) (response : Response) (s : State out.World)
      → (read_body out verb path url response s).0 ≡ s
  unfolding read_body
  read_body-still verb path url response s = ground arith

  capsule_api_get-Kept : (config : Config) (path : Text) → Kept (capsule_api_get out config path)
  unfolding capsule_api_get
  capsule_api_get-Kept config path =
      let url = config.capsule_api_endpoint ++ path in
      let before =
        about_call out (codes "GET") (codes " transport failed") path url ++ codes ": " in
      let client = http_client_for_url out url in
      Kept->>= (send_or out before client get_method url [] none)
        (read_body out (codes "GET") path url) (send_or-Kept before client get_method url [] none)
        (λ response.
          still (read_body out (codes "GET") path url response)
            (read_body-still (codes "GET") path url response))

  pub local_eth_address-Kept : (config : Config) → Kept (local_eth_address out config)
  unfolding local_eth_address
  local_eth_address-Kept config =
      Kept->>= (capsule_api_get out config (codes "/v1/eth/address")) _
        (capsule_api_get-Kept config (codes "/v1/eth/address"))
        (λ value.
          Kept->>=
            (lift (
              text_field out value (codes "address")
                (codes "Capsule API /v1/eth/address response missing address")))
            _ (λ s q. q) (λ address s q. q))

  rpc_result-still :
      (response : RpcResponse) (s : State out.World) → (rpc_result out response s).0 ≡ s
  unfolding rpc_result
  rpc_result-still response s = ground arith

  parsed_body-still :
      (body : Text) (r : Result Text RpcResponse) (s : State out.World)
      → (parsed_body out body r s).0 ≡ s
  unfolding parsed_body
  parsed_body-still body (ok response) s = rpc_result-still response s
  parsed_body-still body (err e) s = ground arith

  eth_call_once-Kept :
      (discovery : RegistryDiscoveryConfig) (calldata : Bytes)
      → Kept (eth_call_once out discovery calldata)
  unfolding eth_call_once
  eth_call_once-Kept discovery calldata =
      let client = http_client_for_url out discovery.rpc_url in
      let headers = (codes "content-type", codes "application/json") ∷ [] in
      let payload = eth_call_payload out discovery.registry_address calldata in
      Kept->>= (send out client post_method discovery.rpc_url headers (some payload)) _
        (send-Kept client post_method discovery.rpc_url headers (some payload))
        (λ response.
          let body = text_or_default response.text in
          if_elim Kept (is_success response) (parsed_body out body (out.rpc_from_str body)) _
            (λ _.
              still (parsed_body out body (out.rpc_from_str body))
                (parsed_body-still body (out.rpc_from_str body)))
            (λ _.
              Kept->>= (expect (preview_text_for_log out body)) _ (λ s q. q) (λ preview s q. q)))

  after_eth_call-Kept :
      (idx : ℕ) (again : Do out Bytes) (r : Result Text Bytes)
      → Kept again
      → Kept (after_eth_call out idx again r)
  unfolding after_eth_call
  after_eth_call-Kept idx again (ok raw) h = λ s q. q
  after_eth_call-Kept idx again (err e) h =
      if_elim Kept
        (ltb (idx + 1) registry_eth_call_max_attempts && looks_like_transient_registry_error e)
        (sleep out (registry_eth_call_retry_backoff_ms idx) >> again) (bail e)
        (λ _.
          Kept->>= (sleep out (registry_eth_call_retry_backoff_ms idx)) (λ _. again)
            (sleep-Kept (registry_eth_call_retry_backoff_ms idx)) (λ _. h))
        (λ _ s q. q)

  eth_call_rounds-Kept :
      (discovery : RegistryDiscoveryConfig) (calldata : Bytes) (left idx : ℕ) (last : Option Text)
      → Kept (eth_call_rounds out discovery calldata left idx last)
  unfolding eth_call_rounds
  eth_call_rounds-Kept discovery calldata zero idx last = λ s q. q
  eth_call_rounds-Kept discovery calldata (suc left) idx last =
      Kept->>= (attempt (eth_call_once out discovery calldata)) _
        (eth_call_once-Kept discovery calldata)
        (λ r.
          after_eth_call-Kept idx
            (eth_call_rounds out discovery calldata left (idx + 1) (error_of out r)) r
            (eth_call_rounds-Kept discovery calldata left (idx + 1) (error_of out r)))

  registry_call-Kept :
      (discovery : RegistryDiscoveryConfig) (function : Function) (args : List out.Abi)
      → Kept (registry_call out discovery function args)
  unfolding registry_call registry_eth_call
  registry_call-Kept discovery function args =
      Kept->>= (lift (out.encode_input function args)) _ (λ s q. q)
        (λ calldata.
          Kept->>= (registry_eth_call out discovery calldata) _
            (eth_call_rounds-Kept discovery calldata registry_eth_call_max_attempts 0 none)
            (λ raw s q. q))

  long_enough-Kept : (b : Bool) (message : Text) → Kept (long_enough out b message)
  long_enough-Kept true message s q = q
  long_enough-Kept false message s q = q

  pub registry_get_instance_by_wallet-Kept :
      (discovery : RegistryDiscoveryConfig) (wallet : Text)
      → Kept (registry_get_instance_by_wallet out discovery wallet)
  unfolding registry_get_instance_by_wallet
  registry_get_instance_by_wallet-Kept discovery wallet =
      Kept->>= (lift (parse_h160 out wallet)) _ (λ s q. q)
        (λ raw.
          let args = out.make (address raw) ∷ [] in
          Kept->>= (registry_call out discovery get_instance_by_wallet args) _
            (registry_call-Kept discovery get_instance_by_wallet args)
            (λ outputs.
              Kept->>= (lift (extract_single_tuple out outputs (codes "getInstanceByWallet"))) _
                (λ s q. q)
                (λ fields.
                  Kept->>=
                    (long_enough out (not (ltb (length fields) 10)) (
                      codes "registry getInstanceByWallet tuple too short: expected >=10, got "
                      ++ decimal (length fields)))
                    _ (long_enough-Kept _ _)
                    (λ _.
                      Kept->>= (expect (nth 1 fields)) _ (λ s q. q)
                        (λ app_token.
                          Kept->>=
                            (lift (token_to_u64 out app_token (codes "getInstanceByWallet.appId")))
                            _ (λ s q. q)
                            (λ app_id.
                              Kept->>= (expect (nth 4 fields)) _ (λ s q. q)
                                (λ url_token.
                                  Kept->>=
                                    (lift (
                                      token_to_string out url_token
                                        (codes "getInstanceByWallet.instanceUrl")))
                                    _ (λ s q. q)
                                    (λ url.
                                      Kept->>= (expect (nth 5 fields)) _ (λ s q. q)
                                        (λ key_token.
                                          Kept->>=
                                            (lift (
                                              token_to_bytes out key_token
                                                (codes "getInstanceByWallet.teePubkey")))
                                            _ (λ s q. q)
                                            (λ key.
                                              Kept->>= (expect (nth 7 fields)) _ (λ s q. q)
                                                (λ zk_token.
                                                  Kept->>=
                                                    (lift (
                                                      token_to_bool out zk_token
                                                        (codes "getInstanceByWallet.zkVerified")))
                                                    _ (λ s q. q)
                                                    (λ zk.
                                                      Kept->>= (expect (nth 8 fields)) _ (λ s q. q)
                                                        (λ status_token.
                                                          Kept->>=
                                                            (lift (
                                                            token_to_u64 out status_token
                                                            (codes "getInstanceByWallet.status")))
                                                            _ (λ s q. q)
                                                            (λ status s q. q))))))))))))))

  pub registry_get_app-Kept :
      (discovery : RegistryDiscoveryConfig) (app_id : ℕ)
      → Kept (registry_get_app out discovery app_id)
  unfolding registry_get_app
  registry_get_app-Kept discovery app_id =
      let args = out.make (uint app_id) ∷ [] in
      Kept->>= (registry_call out discovery get_app args) _
        (registry_call-Kept discovery get_app args)
        (λ outputs.
          Kept->>= (lift (extract_single_tuple out outputs (codes "getApp"))) _ (λ s q. q)
            (λ fields.
              Kept->>=
                (long_enough out (not (ltb (length fields) 9)) (
                  codes "registry getApp tuple too short: expected >=9, got "
                  ++ decimal (length fields)))
                _ (long_enough-Kept _ _)
                (λ _.
                  Kept->>= (expect (nth 7 fields)) _ (λ s q. q)
                    (λ status_token.
                      Kept->>= (lift (token_to_u64 out status_token (codes "getApp.status"))) _
                        (λ s q. q)
                        (λ status.
                          Kept->>= (expect (nth 8 fields)) _ (λ s q. q)
                            (λ wallet_token.
                              Kept->>=
                                (lift
                                  (token_to_address out wallet_token (codes "getApp.appWallet")))
                                _ (λ s q. q) (λ app_wallet s q. q)))))))
