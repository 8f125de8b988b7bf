-- ===== src/Kms/Tests.antt =====
-- The proxy of capsule-cli/src/integrations/nova_kms.rs in a world where every request is answered.
use nova_enclave_capsule.Prelude.{
  ℕ, suc, Bool, true, false, Option, none, some, List, [], ◌∷◌, ◌++◌, Result, ok, err, ◌≡◌, refl,
  ◌↔◌, ◌⊎◌, ◌≢◌, ◌<◌, ◌==◌, list_eq, nat_eq, if◌then◌else◌,
}
use nova_enclave_capsule.Prelude.Text.{Text, codes, utf8_len}
use nova_enclave_capsule.Kms.Outside.{
  Outside, Bytes, Json, string, object, Members, end, member, get_method, Response, Function,
  get_active_instances, get_instance_by_wallet, get_app, Token, uint, bool, text, address, bytes,
  tokens, tuple,
}
use nova_enclave_capsule.Kms.Proxy.{
  Config, RegistryDiscoveryConfig, AppAuthzContext, AppWalletMaterial, State, new_state,
}
use nova_enclave_capsule.Kms.Call.{call_kms_json_internal, derive_key, is_reserved_derive_path}
use nova_enclave_capsule.Kms.Call.Guards.{Derived, derive_key-Derived}
use nova_enclave_capsule.Kms.Nodes.{KmsNodeCacheEntry, new_node, resolve_connectable_nodes}
use nova_enclave_capsule.Kms.Nodes.Chosen.{Among, IsAvoided}
use nova_enclave_capsule.Kms.Discovery.{candidates_of, refresh_with, resolve_node_candidates}
use nova_enclave_capsule.Kms.Discovery.Chosen.{candidates_of_iff}
use nova_enclave_capsule.Kms.Discovery.Listed.{CacheListed}
use nova_enclave_capsule.Kms.Discovery.Refreshed.{refresh_with-CacheListed}
use nova_enclave_capsule.Kms.Exchange.{call_kms_on_node}
use nova_enclave_capsule.Kms.Authz.{derived, DeriveApiRequest, resolve_authz_context, handle_derive}
use nova_enclave_capsule.Kms.Authz.Asked.{CacheSupported}
use nova_enclave_capsule.Kms.Authz.Granted.{IsJustified, resolve_authz_context_granted}
use nova_enclave_capsule.Kms.Authz.Handled.{refuses, handle_derive_granted}
use nova_enclave_capsule.Kms.AppWallet.{cached_app_wallet_material, resolve_app_wallet_material}
use nova_enclave_capsule.Kms.AppWallet.Matched.{Held, Loaded, resolve_app_wallet_material_sound}
use nova_enclave_capsule.Kms.Log.{redact_json_for_log}
use nova_enclave_capsule.Kms.Log.Redacted.{NoSecrets, redact_json_for_log-NoSecrets}
use nova_enclave_capsule.Kms.Log.Cut.{HasBoundary, truncate_for_log-panics_iff}
use nova_enclave_capsule.Kms.Address.{truncate_for_log}
use nova_enclave_capsule.Prelude.Action.{failed}

abbrev forty : Text
forty = codes "aaaaaaaaaaaaaaaaaaaaaaaaaaaaaaaaaaaaaaaa"

abbrev wallet : Text
wallet = codes "0x" ++ forty

abbrev stored : Text
stored = codes "bbbbbbbbbbbbbbbbbbbbbbbbbbbbbbbb"

-- The document that answers everything.
abbrev document : Json
document = object (
    member (codes "node")
      (object (
        member (codes "tee_wallet") (string wallet)
          (member (codes "tee_pubkey") (string forty) end)))
      (member (codes "value") (string stored) (
        member (codes "nonce") (string (codes "n")) (
          member (codes "address") (string wallet) (
            member (codes "signature") (string (codes "s")) (
              member (codes "public_key_der") (string forty) (
                member (codes "encrypted_data") (string (codes "e")) (
                  member (codes "sender_tee_pubkey") (string forty) (
                    member (codes "plaintext") (string (codes "p"))
                      (member (codes "key") (string (codes "k")) end))))))))))

abbrev lookup : Members → Text → Option Json
lookup end name = none
lookup (member k v rest) name = let later = lookup rest name in if k == name then some v else later

abbrev get_field : Json → Text → Option Json
get_field (object members) name = lookup members name
get_field j name = none

abbrev as_text : Json → Option Text
as_text (string t) = some t
as_text j = none

data Cell : Type 0 where
  wallets_cell wallet_cell instance_cell app_cell url_cell key_cell flag_cell : Cell
  id_cell : ℕ → Cell

abbrev view_cell : Cell → Token Cell
view_cell wallets_cell = tokens (wallet_cell ∷ [])
view_cell wallet_cell = address []
view_cell instance_cell = tuple (
    id_cell 1
    ∷ id_cell 7
    ∷ id_cell 1
    ∷ wallet_cell
    ∷ url_cell
    ∷ key_cell
    ∷ wallet_cell
    ∷ flag_cell
    ∷ id_cell 0
    ∷ id_cell 0
    ∷ [])
view_cell app_cell = tuple (
    id_cell 7
    ∷ id_cell 0
    ∷ id_cell 0
    ∷ id_cell 0
    ∷ id_cell 0
    ∷ id_cell 0
    ∷ id_cell 0
    ∷ id_cell 0
    ∷ wallet_cell
    ∷ [])
view_cell url_cell = text (codes "https://kms")
view_cell key_cell = bytes []
view_cell flag_cell = bool true
view_cell (id_cell n) = uint n

abbrev outputs : Function → List Cell
outputs get_active_instances = wallets_cell ∷ []
outputs get_instance_by_wallet = instance_cell ∷ []
outputs get_app = app_cell ∷ []

abbrev answer : Response
answer = record { status = 200; signature = some (codes "s"); text = ok (codes "t") }

abbrev demo : Outside
demo = record {
  World = ℕ;
  get = get_field;
  as_str = as_text;
  from_str = λ t. ok document;
  to_string = λ j. ok (codes "j");
  display = λ j. codes "j";
  rpc_from_str = λ t. ok (record { result = some (codes "0x"); error = none });
  to_lowercase = λ t. t;
  hex_decode = λ t. ok [];
  hex_encode = λ b. forty;
  base64_decode = λ t. ok t;
  byte_serialize = λ t. t;
  parse_url = λ t. some (some (codes "h"));
  ipv4_is_loopback = λ t. none;
  ipv6_is_loopback = λ t. none;
  Abi = Cell;
  view = view_cell;
  make = λ t. wallet_cell;
  debug = λ c. codes "c";
  encode_input = λ f args. ok [];
  decode_output = λ f raw. ok (outputs f);
  unix_millis = λ w. (suc w, w);
  unix_secs = λ w. (w, w);
  sleep = λ ms w. w;
  send = λ client method url headers body w. (w, ok answer);
  error_for_status = λ r. ok r;
  json = λ r. ok document;
  verify_message = λ signature message signer. true;
  utf8 = λ t. t;
  from_utf8 = λ b. ok wallet;
  base64_encode = λ b. b;
  EthKey = Text;
  new_eth_key = λ w. (w, forty);
  eth_key_from_hex = λ t. ok t;
  private_key_hex = λ k. k;
  eth_address = λ k. wallet;
}

abbrev discovery : RegistryDiscoveryConfig
discovery = record {
  kms_app_id = 7;
  registry_address = wallet;
  rpc_url = codes "http://r";
  ttl_ms = 60_000;
}

abbrev config : Config
config = record {
  capsule_api_endpoint = codes "http://c";
  use_app_wallet = true;
  max_retries = 3;
  require_mutual_signature = true;
  reserved_derive_prefixes = codes "wallet/eth/app/" ∷ [];
  registry_discovery = some discovery;
}

abbrev start : State ℕ
start = record {
  world = 5;
  discovery_cache = none;
  node_identity_cache = [];
  authz_cache = none;
  app_wallet_cache = none;
}

key_derived : (derive_key demo config (codes "p") (codes "c") 32 start).1 ≡ ok (codes "k")
unfolding derive_key call_kms_json_internal is_reserved_derive_path
    nova_enclave_capsule.Kms.Call.call_derive nova_enclave_capsule.Prelude.Text.strip_prefix
    utf8_len nova_enclave_capsule.Kms.Proxy.current_unix_timestamp
key_derived = refl

derive_key-Derived_example : Derived demo config discovery (codes "p") (codes "c") 32 (codes "k")
derive_key-Derived_example =
    derive_key-Derived demo config discovery (codes "p") (codes "c") 32 start refl refl tt
      key_derived

reserved_refused :
    (derive_key demo config (codes " wallet/eth/app/main") (codes "c") 32 start).1
    ≡ err (failed (codes "KMS derive path ' wallet/eth/app/main' is reserved"))
unfolding derive_key nova_enclave_capsule.Prelude.Text.trim is_reserved_derive_path
reserved_refused = refl

abbrev node : KmsNodeCacheEntry
node = record {
  wallet = wallet;
  base_url = codes "https://kms";
  tee_pubkey = forty;
  reachable = some false;
  expires_at_ms = 9;
  last_checked_ms = 1;
  last_http_status = none;
  last_error = none;
}

node_answers :
    (call_kms_on_node demo config node get_method (codes "/kms/data/k") none start).1 ≡ ok document
unfolding call_kms_on_node nova_enclave_capsule.Prelude.Text.strip_prefix utf8_len
    nova_enclave_capsule.Kms.Proxy.current_unix_timestamp
node_answers = refl

candidates_found :
    (resolve_node_candidates demo config start).1
    ≡ ok (new_node wallet (codes "https://kms") forty ∷ [])
unfolding resolve_node_candidates nova_enclave_capsule.Kms.Proxy.current_unix_millis
    nova_enclave_capsule.Prelude.Text.strip_prefix nova_enclave_capsule.Prelude.Text.trim utf8_len
candidates_found = refl

candidates_of_iff_example : Among node (candidates_of demo 9 (node ∷ [])) ↔ (
    Among node (node ∷ [])
    × ((IsAvoided 9 node → ⊥) ⊎ ((n : KmsNodeCacheEntry) → Among n (node ∷ []) → IsAvoided 9 n)))
candidates_of_iff_example = candidates_of_iff demo 9 (node ∷ []) node

-- The status is kept until it expires.
fresh_unreachable : resolve_connectable_nodes 8 (node ∷ []) ≡ []
unfolding resolve_connectable_nodes
fresh_unreachable = refl

-- It is asked all the same, since there is no other.
asked_all_the_same : candidates_of demo 8 (node ∷ []) ≡ node ∷ []
unfolding candidates_of
asked_all_the_same = refl

abbrev context : AppAuthzContext
context = record { app_id = 7; app_wallet = wallet; instance_wallet = wallet }

access_granted : (resolve_authz_context demo config start).1 ≡ ok context
unfolding resolve_authz_context nova_enclave_capsule.Kms.Authz.cached_authz_context
    nova_enclave_capsule.Kms.Authz.or_asked nova_enclave_capsule.Kms.Authz.ask_registry
    nova_enclave_capsule.Kms.Envelope.local_eth_address
    nova_enclave_capsule.Prelude.Text.strip_prefix nova_enclave_capsule.Prelude.Text.trim utf8_len
    nova_enclave_capsule.Kms.Registry.registry_get_instance_by_wallet
    nova_enclave_capsule.Kms.Authz.check_instance nova_enclave_capsule.Kms.Registry.registry_get_app
    nova_enclave_capsule.Kms.Authz.check_app
access_granted = refl

resolve_authz_context_granted_example :
    CacheSupported demo config (resolve_authz_context demo config start).0.authz_cache
    × IsJustified demo config start (resolve_authz_context demo config start).1
resolve_authz_context_granted_example = resolve_authz_context_granted demo config start tt

abbrev request : DeriveApiRequest
request = record { path = codes "p"; context = codes "c"; length = 32 }

request_handled : (handle_derive demo config (ok request) start).1 ≡ ok (derived (codes "k"))
unfolding handle_derive nova_enclave_capsule.Kms.Authz.authorized resolve_authz_context
    nova_enclave_capsule.Kms.Authz.cached_authz_context nova_enclave_capsule.Kms.Authz.or_asked
    nova_enclave_capsule.Kms.Authz.ask_registry nova_enclave_capsule.Kms.Envelope.local_eth_address
    nova_enclave_capsule.Prelude.Text.strip_prefix nova_enclave_capsule.Prelude.Text.trim utf8_len
    nova_enclave_capsule.Kms.Registry.registry_get_instance_by_wallet
    nova_enclave_capsule.Kms.Authz.check_instance nova_enclave_capsule.Kms.Registry.registry_get_app
    nova_enclave_capsule.Kms.Authz.check_app is_reserved_derive_path derive_key
    nova_enclave_capsule.Kms.Call.call_derive call_kms_json_internal
    nova_enclave_capsule.Kms.Proxy.current_unix_timestamp
    nova_enclave_capsule.Kms.Proxy.current_unix_millis
request_handled = refl

key_given : refuses (derived (codes "k")) ≡ false
unfolding refuses
key_given = refl

handle_derive_granted_example :
    (c : AppAuthzContext) × ((resolve_authz_context demo config start).1 ≡ ok c)
    × (is_reserved_derive_path demo config (codes "p") ≡ false)
    × ((key : Bytes) × ((derive_key demo config
            (codes "p")
            (codes "c")
            32
            (resolve_authz_context demo config start).0).1
          ≡ ok key)
        × (derived (demo.base64_encode key) ≡ derived (codes "k")))
handle_derive_granted_example =
    handle_derive_granted demo config request start key_given request_handled

abbrev secret_call : Json
secret_call = object (member (codes "Private_Key") (string (codes "0xabc")) end)

redact_json_for_log-NoSecrets_example : NoSecrets (redact_json_for_log demo secret_call)
redact_json_for_log-NoSecrets_example = redact_json_for_log-NoSecrets demo secret_call

redacted_call :
    redact_json_for_log demo secret_call
    ≡ object (member (codes "Private_Key") (string (codes "<redacted:5 chars>")) end)
unfolding redact_json_for_log nova_enclave_capsule.Prelude.Text.decimal utf8_len
redacted_call = refl

-- Two bytes of a character of three.
truncate_for_log-panics_iff_example :
    (truncate_for_log (0x20ac ∷ []) 2 ≡ none)
    ↔ ((2 < utf8_len (0x20ac ∷ [])) × (HasBoundary (0x20ac ∷ []) 2 → ⊥))
truncate_for_log-panics_iff_example = truncate_for_log-panics_iff (0x20ac ∷ []) 2

cut_panics : truncate_for_log (0x20ac ∷ []) 2 ≡ none
unfolding truncate_for_log utf8_len
cut_panics = refl

abbrev app_wallet : AppWalletMaterial
app_wallet = record { private_key_hex = codes "0x" ++ forty; address = wallet }

wallet_loaded : (resolve_app_wallet_material demo config start).1 ≡ ok app_wallet
unfolding resolve_app_wallet_material nova_enclave_capsule.Kms.AppWallet.cached_app_wallet_material
    nova_enclave_capsule.Kms.AppWallet.wallet_or_cleared
    nova_enclave_capsule.Kms.AppWallet.wallet_or_loaded
    nova_enclave_capsule.Kms.AppWallet.load_wallet
    nova_enclave_capsule.Kms.AppWallet.decode_or_initialize
    nova_enclave_capsule.Kms.AppWallet.decode_records
    nova_enclave_capsule.Kms.AppWallet.cache_app_wallet_material
    nova_enclave_capsule.Kms.AppWallet.set_app_wallet
    nova_enclave_capsule.Kms.AppWallet.Decode.decode_app_wallet_material
    nova_enclave_capsule.Kms.AppWallet.Decode.decode_kms_private_key_hex
    nova_enclave_capsule.Kms.AppWallet.Decode.decode_kms_wallet_address
    nova_enclave_capsule.Kms.Call.kv_get call_kms_json_internal
    nova_enclave_capsule.Prelude.Text.strip_prefix utf8_len nova_enclave_capsule.Prelude.Text.trim
    nova_enclave_capsule.Kms.Proxy.current_unix_millis
    nova_enclave_capsule.Kms.Proxy.current_unix_timestamp
wallet_loaded = refl

resolve_app_wallet_material_sound_example :
    Held demo start app_wallet
    ⊎ Loaded demo config (cached_app_wallet_material demo start).0 app_wallet
resolve_app_wallet_material_sound_example =
    resolve_app_wallet_material_sound demo config start wallet_loaded

refreshed : (refresh_with demo discovery start).1 ≡ ok tt
unfolding refresh_with nova_enclave_capsule.Prelude.Text.strip_prefix
    nova_enclave_capsule.Prelude.Text.trim utf8_len
refreshed = refl

refresh_with-CacheListed_example :
    CacheListed demo discovery (refresh_with demo discovery start).0.discovery_cache
refresh_with-CacheListed_example = refresh_with-CacheListed demo discovery start tt refreshed
