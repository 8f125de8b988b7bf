-- ===== src/Kms/Authz.antt =====
-- Whether the enclave may use the KMS (`resolve_authz_context` of
-- capsule-cli/src/integrations/nova_kms.rs), and the handlers of the Capsule API that ask it first.
pub mod Untouched
pub mod Asked
pub mod Granted
pub mod Handled
use nova_enclave_capsule.Prelude.{
  ℕ, Bool, true, false, not, ◌||◌, Option, none, some, List, [], ◌∷◌, ◌++◌, Result, ok, err, ok_or,
  ◌==◌, nat_eq, if◌then◌else◌, ltb,
}
use nova_enclave_capsule.Prelude.Words.{u64_mod, saturating_add}
use nova_enclave_capsule.Prelude.Text.{Text, codes, decimal}
use nova_enclave_capsule.Prelude.Action.{Action, ◌>>=◌, ◌>>◌, pure, lift, bail, attempt, get_state}
use nova_enclave_capsule.Kms.Outside.{Outside, Bytes}
use nova_enclave_capsule.Kms.Address.{
  canonical_wallet, looks_like_transient_registry_error, looks_like_registry_not_ready_error,
  looks_like_registry_rpc_unavailable_error,
}
use nova_enclave_capsule.Kms.Proxy.{
  Config, State, RegistryDiscoveryConfig, AppAuthzContext, CachedAuthzContext, Do,
  current_unix_millis,
}
use nova_enclave_capsule.Kms.Registry.{
  RegistryInstance, RegistryApp, registry_get_instance_by_wallet, registry_get_app,
}
use nova_enclave_capsule.Kms.Envelope.{local_eth_address}
use nova_enclave_capsule.Kms.Call.{is_reserved_derive_path, derive_key, kv_get, kv_put, kv_delete}

abbrev pub authz_cache_ttl_ms : ℕ
authz_cache_ttl_ms = 10_000

-- The answers of the handlers. A derived key is given in base64.
pub data Reply : Type 0 where
  derived : Text → Reply
  got : Option Text → Reply
  success : Reply
  bad_request : Text → Reply
  unavailable : Text → Reply

-- `authz_error_response` and `kms_operation_error_response`, which are the same.
unfoldable pub error_response : Text → Reply
unfolding looks_like_transient_registry_error looks_like_registry_not_ready_error
    looks_like_registry_rpc_unavailable_error
error_response message =
    if looks_like_transient_registry_error message
      || (looks_like_registry_not_ready_error message
          || looks_like_registry_rpc_unavailable_error message)
    then unavailable message
    else bad_request message

-- The requests, once read (`serde_json::from_slice`).
pub record DeriveApiRequest : Type 0 where
  pub path : Text
  pub context : Text
  pub length : ℕ

pub record KvPutApiRequest : Type 0 where
  pub key : Text
  pub value : Text
  pub ttl_ms : ℕ

module _ (out : Outside) where
  unfoldable pub set_authz : Option CachedAuthzContext → Do out (Unit {0})
  set_authz entry s = (record s { authz_cache = entry }, ok tt)

  abbrev pub fresh_authz : ℕ → Option CachedAuthzContext → Option AppAuthzContext
  fresh_authz now_ms none = none
  fresh_authz now_ms (some cached) =
      if ltb now_ms cached.expires_at_ms then some cached.context else none

  abbrev pub cleared_if_none : Option AppAuthzContext → Do out (Option AppAuthzContext)
  unfolding set_authz
  cleared_if_none (some context) = pure (some context)
  cleared_if_none none = do set_authz none; pure none

  unfoldable pub cached_authz_context : Do out (Option AppAuthzContext)
  unfolding current_unix_millis cleared_if_none
  cached_authz_context = do
    now_ms ← current_unix_millis out
    s ← get_state
    cleared_if_none (fresh_authz now_ms s.authz_cache)

  unfoldable pub check_instance : Text → RegistryInstance → Result Text (Unit {0})
  check_instance wallet instance_ =
      if not instance_.zk_verified
      then err (codes "instance " ++ (wallet ++ codes " is not zk-verified on registry"))
      else if not (instance_.status == 0)
      then err (codes "instance " ++ (wallet ++ codes " is not ACTIVE on registry"))
      else ok tt

  unfoldable pub check_app : ℕ → RegistryApp → Result Text (Unit {0})
  check_app app_id app =
      if not (app.status == 0)
      then err (codes "app " ++ (decimal app_id ++ codes " is not ACTIVE on registry"))
      else ok tt

  -- The context that the registry supports, which is kept.
  unfoldable pub ask_registry : Config → RegistryDiscoveryConfig → Do out AppAuthzContext
  ask_registry config discovery = do
    instance_wallet ← local_eth_address out config
    instance_ ← registry_get_instance_by_wallet out discovery instance_wallet
    lift (check_instance instance_wallet instance_)
    app ← registry_get_app out discovery instance_.app_id
    lift (check_app instance_.app_id app)
    anchored_wallet ← lift (canonical_wallet out app.app_wallet)
    now_ms ← current_unix_millis out
    let context : AppAuthzContext = record {
      app_id = instance_.app_id;
      app_wallet = anchored_wallet;
      instance_wallet = instance_wallet;
    } in
        do
          set_authz (
              some (record {
                context = context;
                expires_at_ms = saturating_add u64_mod now_ms authz_cache_ttl_ms;
              }))
          pure context

  unfoldable pub or_asked : Config → Option AppAuthzContext → Do out AppAuthzContext
  or_asked config (some context) = pure context
  or_asked config none = do
    discovery ← lift (
        ok_or config.registry_discovery
          (codes "registry-based authz requires kms_app_id/nova_app_registry"))
    ask_registry config discovery

  unfoldable pub resolve_authz_context : Config → Do out AppAuthzContext
  resolve_authz_context config = do cached ← cached_authz_context; or_asked config cached

  -- What a handler does once access is granted, and what it answers when it is not.
  abbrev pub granted : Do out Reply → Result Text AppAuthzContext → Do out Reply
  unfolding error_response
  granted next (ok context) = next
  granted next (err e) = pure (error_response e)

  unfoldable pub authorized : Config → Do out Reply → Do out Reply
  unfolding granted
  authorized config next = attempt (resolve_authz_context config) >>= granted next

  abbrev pub replied : {A : Type 0} → (A → Reply) → Result Text A → Do out Reply
  unfolding error_response
  replied reply (ok a) = pure (reply a)
  replied reply (err e) = pure (error_response e)

  unfoldable pub handle_derive : Config → Result Text DeriveApiRequest → Do out Reply
  unfolding replied
  handle_derive config (err e) = pure (bad_request e)
  handle_derive config (ok request) = authorized config (
      if is_reserved_derive_path out config request.path
      then pure (bad_request (codes "KMS derive path is reserved and cannot be requested by app"))
      else attempt (derive_key out config request.path request.context request.length)
        >>= replied (λ key. derived (out.base64_encode key)))

  unfoldable pub handle_kv_get : Config → Result Text Text → Do out Reply
  unfolding replied
  handle_kv_get config (err e) = pure (bad_request e)
  handle_kv_get config (ok key) =
      authorized config (attempt (kv_get out config key) >>= replied got)

  unfoldable pub handle_kv_put : Config → Result Text KvPutApiRequest → Do out Reply
  unfolding replied
  handle_kv_put config (err e) = pure (bad_request e)
  handle_kv_put config (ok request) = authorized config (
      attempt (kv_put out config request.key request.value request.ttl_ms)
      >>= replied (λ done. success))

  unfoldable pub handle_kv_delete : Config → Result Text Text → Do out Reply
  unfolding replied
  handle_kv_delete config (err e) = pure (bad_request e)
  handle_kv_delete config (ok key) =
      authorized config (attempt (kv_delete out config key) >>= replied (λ done. success))
