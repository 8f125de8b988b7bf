-- ===== src/Kms/Registry.antt =====
-- What capsule-cli/src/integrations/nova_kms.rs reads from the registry contract: a call with its
-- retries, and the tokens of its output.
use nova_enclave_capsule.Prelude.{
  ℕ, zero, suc, ◌+◌, Bool, true, false, not, ◌&&◌, Option, none, some, List, [], ◌∷◌, ◌++◌, Result,
  ok, err, map_err, nat_eq, if◌then◌else◌, ltb, length,
}
use nova_enclave_capsule.Prelude.Words.{u64_mod, saturating_add, saturating_mul}
use nova_enclave_capsule.Prelude.Text.{Text, codes, decimal}
use nova_enclave_capsule.Prelude.Action.{◌>>=◌, ◌>>◌, pure, lift, bail, expect, attempt}
use nova_enclave_capsule.Kms.Outside.{
  Outside, Bytes, Json, string, number, array, nil, cons, object, end, member, post_method,
  Function, get_active_instances, get_instance_by_wallet, get_app, uint, address, tokens,
  RpcResponse,
}
use nova_enclave_capsule.Kms.Address.{
  trim_0x, parse_h160, http_client_for_url, looks_like_transient_registry_error,
}
use nova_enclave_capsule.Kms.Log.{preview_text_for_log}
use nova_enclave_capsule.Kms.Proxy.{
  RegistryDiscoveryConfig, is_success, text_or_default, Do, sleep, send,
}
use nova_enclave_capsule.Kms.Tokens.{
  token_to_u64, token_to_bool, token_to_string, token_to_address, token_to_bytes,
  extract_single_tuple,
}

abbrev pub registry_eth_call_max_attempts : ℕ
registry_eth_call_max_attempts = 5

unfoldable pub registry_eth_call_retry_backoff_ms : ℕ → ℕ
registry_eth_call_retry_backoff_ms idx = saturating_mul u64_mod 400 (saturating_add u64_mod idx 1)

pub record RegistryInstance : Type 0 where
  pub app_id : ℕ
  pub instance_url : Text
  pub tee_pubkey : Text
  pub zk_verified : Bool
  pub status : ℕ

pub record RegistryApp : Type 0 where
  pub status : ℕ
  pub app_wallet : Text

abbrev function_name : Function → Text
function_name get_active_instances = codes "getActiveInstances"
function_name get_instance_by_wallet = codes "getInstanceByWallet"
function_name get_app = codes "getApp"

abbrev pub nth : {A : Type 0} → ℕ → List A → Option A
nth n [] = none
nth zero (x ∷ xs) = some x
nth (suc n) (x ∷ xs) = nth n xs

module _ (out : Outside) where
  -- `{"to": …, "data": …}` and "latest", in the request that is sent.
  unfoldable pub eth_call_payload : Text → Bytes → Json
  eth_call_payload to calldata = object (
      member (codes "jsonrpc") (string (codes "2.0")) (
        member (codes "id") (number (codes "1")) (
          member (codes "method") (string (codes "eth_call")) (
            member (codes "params")
              (array (
                cons
                  (object (
                    member (codes "to") (string to)
                      (member (codes "data") (string (codes "0x" ++ out.hex_encode calldata)) end)))
                  (cons (string (codes "latest")) nil)))
              end))))

  unfoldable pub rpc_result : RpcResponse → Do out Bytes
  unfolding trim_0x
  rpc_result response = elim response.error [
    | some e ↦
        bail (
          codes "registry eth_call failed: "
          ++ (e.message ++ (codes " (" ++ (e.code ++ codes ")"))))
    | none ↦ elim response.result [
      | none ↦ bail (codes "registry eth_call missing result")
      | some result_hex ↦ lift (
          map_err (λ e. codes "registry eth_call invalid hex result: " ++ e)
            (out.hex_decode (trim_0x result_hex)))
    ]
  ]

  unfoldable pub parsed_body : Text → Result Text RpcResponse → Do out Bytes
  unfolding rpc_result preview_text_for_log
  parsed_body body (ok response) = rpc_result response
  parsed_body body (err e) = do
    preview ← expect (preview_text_for_log out body)
    bail (codes "registry eth_call invalid JSON response: " ++ (e ++ (codes " body=" ++ preview)))

  -- One round of the loop.
  unfoldable pub eth_call_once : RegistryDiscoveryConfig → Bytes → Do out Bytes
  unfolding send http_client_for_url eth_call_payload is_success preview_text_for_log parsed_body
  eth_call_once discovery calldata = do
    response ←
        send out (http_client_for_url out discovery.rpc_url) post_method discovery.rpc_url
          ((codes "content-type", codes "application/json") ∷ [])
          (some (eth_call_payload discovery.registry_address calldata))
    let body = text_or_default response.text in
        if is_success response then parsed_body body (out.rpc_from_str body) else do
          preview ← expect (preview_text_for_log out body)
          bail (
              codes "registry eth_call HTTP "
              ++ (decimal response.status ++ (codes " body=" ++ preview)))

  unfoldable pub after_eth_call : ℕ → Do out Bytes → Result Text Bytes → Do out Bytes
  unfolding sleep looks_like_transient_registry_error registry_eth_call_retry_backoff_ms
  after_eth_call idx again (ok raw) = pure raw
  after_eth_call idx again (err e) =
      if ltb (idx + 1) registry_eth_call_max_attempts && looks_like_transient_registry_error e
      then sleep out (registry_eth_call_retry_backoff_ms idx) >> again
      else bail e

  abbrev last_or_unknown : Option Text → Text
  last_or_unknown none = codes "registry eth_call failed with unknown error"
  last_or_unknown (some e) = e

  abbrev pub error_of : Result Text Bytes → Option Text
  error_of (ok raw) = none
  error_of (err e) = some e

  -- The rounds that are left, the index of the next one, and the last error.
  unfoldable pub eth_call_rounds :
      RegistryDiscoveryConfig → Bytes → (left idx : ℕ) → Option Text → Do out Bytes
  unfolding eth_call_once after_eth_call
  eth_call_rounds discovery calldata zero idx last = bail (last_or_unknown last)
  eth_call_rounds discovery calldata (suc left) idx last =
      attempt (eth_call_once discovery calldata) >>= λ r.
      after_eth_call idx (eth_call_rounds discovery calldata left (idx + 1) (error_of r)) r

  unfoldable pub registry_eth_call : RegistryDiscoveryConfig → Bytes → Do out Bytes
  unfolding eth_call_rounds
  registry_eth_call discovery calldata =
      eth_call_rounds discovery calldata registry_eth_call_max_attempts 0 none

  unfoldable pub registry_call :
      RegistryDiscoveryConfig → Function → List out.Abi → Do out (List out.Abi)
  unfolding registry_eth_call
  registry_call discovery function args = do
    calldata ← lift (out.encode_input function args)
    raw_output ← registry_eth_call discovery calldata
    lift (
        map_err
          (λ e. codes "registry decode " ++ (function_name function ++ (codes " failed: " ++ e)))
          (out.decode_output function raw_output))

  abbrev wallets : List out.Abi → Result Text (List Text)
  unfolding token_to_address
  wallets [] = ok []
  wallets (token ∷ rest) = elim (token_to_address out token (codes "getActiveInstances.wallet")) [
    | err e ↦ err e
    | ok wallet ↦ elim (wallets rest) [ err e ↦ err e | ok more ↦ ok (wallet ∷ more) ]
  ]

  abbrev first_as_wallets : List out.Abi → Result Text (List Text)
  unfolding wallets
  first_as_wallets [] = err (codes "registry getActiveInstances returned empty output")
  first_as_wallets (first ∷ rest) = elim (out.view first) [
    | tokens values ↦ wallets values
    | _ ↦ err (codes "registry getActiveInstances returned unexpected token: " ++ out.debug first)
  ]

  unfoldable pub registry_get_active_instances : RegistryDiscoveryConfig → ℕ → Do out (List Text)
  unfolding registry_call first_as_wallets
  registry_get_active_instances discovery app_id = do
    outputs ← registry_call discovery get_active_instances (out.make (uint app_id) ∷ [])
    lift (first_as_wallets outputs)

  abbrev pub long_enough : Bool → Text → Do out (Unit {0})
  long_enough true message = pure tt
  long_enough false message = bail message

  unfoldable pub registry_get_instance_by_wallet :
      RegistryDiscoveryConfig → Text → Do out RegistryInstance
  unfolding parse_h160 registry_call extract_single_tuple token_to_u64 token_to_string
      token_to_bytes token_to_bool
  registry_get_instance_by_wallet discovery wallet = do
    raw ← lift (parse_h160 out wallet)
    outputs ← registry_call discovery get_instance_by_wallet (out.make (address raw) ∷ [])
    fields ← lift (extract_single_tuple out outputs (codes "getInstanceByWallet"))
    long_enough (not (ltb (length fields) 10)) (
        codes "registry getInstanceByWallet tuple too short: expected >=10, got "
        ++ decimal (length fields))
    app_token ← expect (nth 1 fields)
    app_id ← lift (token_to_u64 out app_token (codes "getInstanceByWallet.appId"))
    url_token ← expect (nth 4 fields)
    instance_url ← lift (token_to_string out url_token (codes "getInstanceByWallet.instanceUrl"))
    key_token ← expect (nth 5 fields)
    key ← lift (token_to_bytes out key_token (codes "getInstanceByWallet.teePubkey"))
    zk_token ← expect (nth 7 fields)
    zk_verified ← lift (token_to_bool out zk_token (codes "getInstanceByWallet.zkVerified"))
    status_token ← expect (nth 8 fields)
    status ← lift (token_to_u64 out status_token (codes "getInstanceByWallet.status"))
    pure (record {
      app_id = app_id;
      instance_url = instance_url;
      tee_pubkey = out.hex_encode key;
      zk_verified = zk_verified;
      status = status;
    })

  unfoldable pub registry_get_app : RegistryDiscoveryConfig → ℕ → Do out RegistryApp
  unfolding registry_call extract_single_tuple token_to_u64 token_to_address
  registry_get_app discovery app_id = do
    outputs ← registry_call discovery get_app (out.make (uint app_id) ∷ [])
    fields ← lift (extract_single_tuple out outputs (codes "getApp"))
    long_enough (not (ltb (length fields) 9))
        (codes "registry getApp tuple too short: expected >=9, got " ++ decimal (length fields))
    status_token ← expect (nth 7 fields)
    status ← lift (token_to_u64 out status_token (codes "getApp.status"))
    wallet_token ← expect (nth 8 fields)
    app_wallet ← lift (token_to_address out wallet_token (codes "getApp.appWallet"))
    pure (record { status = status; app_wallet = app_wallet })
