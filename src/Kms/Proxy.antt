-- ===== src/Kms/Proxy.antt =====
-- The state of `NovaKmsProxy` in capsule-cli/src/integrations/nova_kms.rs, and what its operations
-- do with the clock, the log and HTTP.
use nova_enclave_capsule.Prelude.{
  ℕ, Bool, true, false, ◌&&◌, Option, none, some, List, [], ◌∷◌, ◌++◌, Result, ok, err, ok_or,
  map_err, nat_eq, list_eq, if◌then◌else◌, ltb, leb,
}
use nova_enclave_capsule.Prelude.Text.{Text, codes, decimal, is_empty, trim}
use nova_enclave_capsule.Prelude.Action.{Action, raise, ◌>>=◌, ◌>>◌, pure, lift, bail, expect}
use nova_enclave_capsule.Kms.Outside.{
  Outside, Json, Client, Method, get_method, post_method, Response,
}
use nova_enclave_capsule.Kms.Address.{canonical_wallet, http_client_for_url}
use nova_enclave_capsule.Kms.Log.{preview_json_for_log, preview_text_for_log}
use nova_enclave_capsule.Kms.Nodes.{DiscoveryCacheEntry}

pub record KmsNodeIdentity : Type 0 where
  pub wallet : Text
  pub tee_pubkey : Text

pub record CachedNodeIdentity : Type 0 where
  pub identity : KmsNodeIdentity
  pub expires_at_ms : ℕ

pub record AppAuthzContext : Type 0 where
  pub app_id : ℕ
  pub app_wallet : Text
  pub instance_wallet : Text

pub record CachedAuthzContext : Type 0 where
  pub context : AppAuthzContext
  pub expires_at_ms : ℕ

pub record RegistryDiscoveryConfig : Type 0 where
  pub kms_app_id : ℕ
  pub registry_address : Text
  pub rpc_url : Text
  pub ttl_ms : ℕ

pub record AppWalletMaterial : Type 0 where
  pub private_key_hex : Text
  pub address : Text

pub record CachedAppWallet : Type 0 where
  pub material : AppWalletMaterial
  pub expires_at_ms : ℕ

-- What a proxy keeps as it is made.
pub record Config : Type 0 where
  pub capsule_api_endpoint : Text
  pub use_app_wallet : Bool
  pub max_retries : ℕ
  pub require_mutual_signature : Bool
  pub reserved_derive_prefixes : List Text
  pub registry_discovery : Option RegistryDiscoveryConfig

-- `KmsIntegration`, of its fields those that the proxy reads.
pub record KmsIntegration : Type 0 where
  pub use_app_wallet : Bool
  pub kms_app_id : Option ℕ
  pub nova_app_registry : Option Text

-- The world and the caches.
pub record State (W : Type 0) : Type 0 where
  pub world : W
  pub discovery_cache : Option DiscoveryCacheEntry
  pub node_identity_cache : List (Text × CachedNodeIdentity)
  pub authz_cache : Option CachedAuthzContext
  pub app_wallet_cache : Option CachedAppWallet

abbrev pub default_registry_chain_rpc : Text
default_registry_chain_rpc = codes "http://127.0.0.1:18545"

abbrev pub default_kms_max_attempts : ℕ
default_kms_max_attempts = 3

abbrev pub default_kms_discovery_ttl_ms : ℕ
default_kms_discovery_ttl_ms = 60_000

abbrev pub default_kms_reserved_derive_prefixes : List Text
default_kms_reserved_derive_prefixes = codes "wallet/eth/app/" ∷ []

unfoldable pub is_success : Response → Bool
is_success response = leb 200 response.status && ltb response.status 300

-- `unwrap_or_default` of a text.
abbrev pub text_or_default : Result Text Text → Text
text_or_default (ok text) = text
text_or_default (err e) = []

module _ (out : Outside) where
  abbrev pub Do : Type 0 → Type 0
  Do A = Action (State out.World) A

  unfoldable pub current_unix_millis : Do ℕ
  current_unix_millis s = let (w, t) = out.unix_millis s.world in (record s { world = w }, ok t)

  unfoldable pub current_unix_timestamp : Do ℕ
  current_unix_timestamp s = let (w, t) = out.unix_secs s.world in (record s { world = w }, ok t)

  unfoldable pub sleep : ℕ → Do (Unit {0})
  sleep ms s = (record s { world = out.sleep ms s.world }, ok tt)

  unfoldable pub send : Client → Method → Text → List (Text × Text) → Option Json → Do Response
  send client method url headers body s =
      let (w, r) = out.send client method url headers body s.world in
      (record s { world = w }, raise r)

  -- A text made for the log: all that is done of a log line is the cut, which may panic.
  abbrev pub log : Option Text → Do (Unit {0})
  log line = do _ ← expect line; pure tt

  -- `get(field)` and `as_str` of a value, or an error.
  unfoldable pub text_field : Json → Text → Text → Result Text Text
  text_field value field message = elim (out.get value field) [
    | none ↦ err message
    | some v ↦ ok_or (out.as_str v) message
  ]

  -- `send().await.map_err`
  unfoldable pub send_or :
      Text → Client → Method → Text → List (Text × Text) → Option Json → Do Response
  send_or before client method url headers body s =
      let (w, r) = out.send client method url headers body s.world in
      (record s { world = w }, raise (map_err (λ e. before ++ e) r))

  -- A call of the Capsule API, the two methods alike: `verb` is GET or POST in its messages.
  unfoldable pub about_call : Text → Text → Text → Text → Text
  about_call verb problem path url =
      codes "capsule_api "
      ++ (verb ++ (problem ++ (codes " path=" ++ (path ++ (codes " url=" ++ url)))))

  unfoldable pub read_body : Text → Text → Text → Response → Do Json
  unfolding is_success preview_text_for_log about_call
  read_body verb path url response =
      let body = text_or_default response.text in
      if is_success response
      then lift (
          map_err (λ e. about_call verb (codes " invalid JSON") path url ++ (codes ": " ++ e))
            (out.from_str body))
      else do
        preview ← expect (preview_text_for_log out body)
        bail (
            about_call verb (codes " failed") path url
            ++ (codes " http=" ++ (decimal response.status ++ (codes " body=" ++ preview))))

  unfoldable pub capsule_api_get : Config → Text → Do Json
  unfolding send_or http_client_for_url read_body
  capsule_api_get config path =
      let url = config.capsule_api_endpoint ++ path in
      do
        response ←
            send_or (about_call (codes "GET") (codes " transport failed") path url ++ codes ": ")
              (http_client_for_url out url) get_method url [] none
        read_body (codes "GET") path url response

  unfoldable pub capsule_api_post : Config → Text → Json → Do Json
  unfolding send_or http_client_for_url read_body preview_json_for_log
  capsule_api_post config path payload =
      let url = config.capsule_api_endpoint ++ path in
      do
        log (preview_json_for_log out payload)
        response ←
            send_or (about_call (codes "POST") (codes " transport failed") path url ++ codes ": ")
              (http_client_for_url out url) post_method url
              ((codes "content-type", codes "application/json") ∷ []) (some payload)
        read_body (codes "POST") path url response

  abbrev present : Option Text → Option Text
  unfolding trim
  present none = none
  present (some text) = if is_empty (trim text) then none else some (trim text)

  abbrev has_any : Option ℕ → Option Text → Bool
  has_any none none = false
  has_any app registry = true

  abbrev discovery_of : Option ℕ → Option Text → Result Text RegistryDiscoveryConfig
  unfolding canonical_wallet
  discovery_of none registry =
      err (codes "kms_integration.kms_app_id is required for registry discovery")
  discovery_of (some app) none =
      err (codes "kms_integration.nova_app_registry is required for registry discovery")
  discovery_of (some app) (some registry) = elim (canonical_wallet out registry) [
    | err e ↦ err e
    | ok address ↦ ok (record {
      kms_app_id = app;
      registry_address = address;
      rpc_url = default_registry_chain_rpc;
      ttl_ms = default_kms_discovery_ttl_ms;
    })
  ]

  unfoldable pub build_registry_discovery :
      KmsIntegration → Result Text (Option RegistryDiscoveryConfig)
  unfolding discovery_of present
  build_registry_discovery config =
      if has_any config.kms_app_id config.nova_app_registry
      then elim (discovery_of config.kms_app_id (present config.nova_app_registry)) [
        | ok discovery ↦ ok (some discovery)
        | err e ↦ err e
      ]
      else ok none

  -- `NovaKmsProxy::new`, of the configuration what the calls depend on.
  unfoldable pub new_proxy : KmsIntegration → Text → Result Text Config
  unfolding build_registry_discovery
  new_proxy config capsule_api_endpoint = elim (build_registry_discovery config) [
    | err e ↦ err e
    | ok registry_discovery ↦ ok (record {
      capsule_api_endpoint = capsule_api_endpoint;
      use_app_wallet = config.use_app_wallet;
      max_retries = default_kms_max_attempts;
      require_mutual_signature = true;
      reserved_derive_prefixes = default_kms_reserved_derive_prefixes;
      registry_discovery = registry_discovery;
    })
  ]

  unfoldable pub new_state : out.World → State out.World
  new_state w = record {
    world = w;
    discovery_cache = none;
    node_identity_cache = [];
    authz_cache = none;
    app_wallet_cache = none;
  }
