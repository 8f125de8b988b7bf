-- ===== src/Kms/AppWallet.antt =====
-- The wallet of the app, capsule-cli/src/integrations/nova_kms/app_wallet.rs: it is made once, kept in
-- the KMS's key-value store, and held in a cache. Decoding is a child, whose results are not actions.
pub mod Decode
pub mod Matched
use nova_enclave_capsule.Prelude.{
  ℕ, Bool, true, false, not, ◌||◌, Option, none, some, List, [], ◌∷◌, ◌++◌, Result, ok, err,
  map_err, ok_or, ◌==◌, nat_eq, list_eq, if◌then◌else◌, ltb,
}
use nova_enclave_capsule.Prelude.Words.{u64_mod, saturating_add}
use nova_enclave_capsule.Prelude.Text.{Text, codes}
use nova_enclave_capsule.Prelude.Action.{Action, ◌>>=◌, ◌>>◌, pure, lift, bail, attempt, get_state}
use nova_enclave_capsule.Kms.Outside.{Outside, Bytes}
use nova_enclave_capsule.Kms.Address.{trim_0x, canonical_wallet}
use nova_enclave_capsule.Kms.Proxy.{
  Config, State, Do, AppAuthzContext, AppWalletMaterial, CachedAppWallet, current_unix_millis,
}
use nova_enclave_capsule.Kms.Envelope.{local_eth_address}
use nova_enclave_capsule.Kms.Call.{kv_get, kv_put}
use nova_enclave_capsule.Kms.AppWallet.Decode.{decode_app_wallet_material}

abbrev pub app_wallet_kv_private_key : Text
app_wallet_kv_private_key = codes "wallet/eth/app/main/private_key"

abbrev pub app_wallet_kv_address : Text
app_wallet_kv_address = codes "wallet/eth/app/main/address"

abbrev pub app_wallet_cache_ttl_ms : ℕ
app_wallet_cache_ttl_ms = 10_000

module _ (out : Outside) where
  unfoldable pub set_app_wallet : Option CachedAppWallet → Do out (Unit {0})
  set_app_wallet entry s = (record s { app_wallet_cache = entry }, ok tt)

  unfoldable pub cache_app_wallet_material : AppWalletMaterial → Do out (Unit {0})
  cache_app_wallet_material material = do
    now_ms ← current_unix_millis out
    set_app_wallet (
        some (record {
          material = material;
          expires_at_ms = saturating_add u64_mod now_ms app_wallet_cache_ttl_ms;
        }))

  abbrev pub fresh_wallet : ℕ → Option CachedAppWallet → Option AppWalletMaterial
  fresh_wallet now_ms none = none
  fresh_wallet now_ms (some cached) =
      if ltb now_ms cached.expires_at_ms then some cached.material else none

  unfoldable pub wallet_or_cleared : Option AppWalletMaterial → Do out (Option AppWalletMaterial)
  wallet_or_cleared (some material) = pure (some material)
  wallet_or_cleared none = do set_app_wallet none; pure none

  unfoldable pub cached_app_wallet_material : Do out (Option AppWalletMaterial)
  cached_app_wallet_material = do
    now_ms ← current_unix_millis out
    s ← get_state
    wallet_or_cleared (fresh_wallet now_ms s.app_wallet_cache)

  unfoldable pub write_app_wallet_address : Config → Text → Do out (Unit {0})
  write_app_wallet_address config address = do
    canonical ← lift (canonical_wallet out address)
    kv_put out config app_wallet_kv_address (out.base64_encode (out.utf8 canonical)) 0

  unfoldable pub write_app_wallet_record :
      Config → (private_key_hex address : Text) → Do out (Unit {0})
  write_app_wallet_record config private_key_hex address = do
    private_key ← lift (
        map_err (λ e. codes "invalid app wallet private key hex: " ++ e)
          (out.hex_decode (trim_0x private_key_hex)))
    kv_put out config app_wallet_kv_private_key (out.base64_encode private_key) 0
    write_app_wallet_address config address

  -- Both records, or the one that is missing.
  unfoldable pub decode_records :
      (private_key_b64 address_b64 : Option Text) → Do out AppWalletMaterial
  decode_records private_key_b64 address_b64 = do
    private_key ←
        lift
          (ok_or private_key_b64 (codes "KMS app wallet is incomplete: missing private key record"))
    address ←
        lift (ok_or address_b64 (codes "KMS app wallet is incomplete: missing address record"))
    lift (decode_app_wallet_material out private_key address)

  unfoldable pub generate : Do out out.EthKey
  generate s = let (w, key) = out.new_eth_key s.world in (record s { world = w }, ok key)

  -- A new wallet is written and read back, and has to be the one that was made.
  unfoldable pub initialize : Config → Do out AppWalletMaterial
  initialize config = do
    key ← generate
    address ← lift (canonical_wallet out (out.eth_address key))
    write_app_wallet_record config (out.private_key_hex key) address
    private_key_b64 ← kv_get out config app_wallet_kv_private_key
    address_b64 ← kv_get out config app_wallet_kv_address
    material ← decode_records private_key_b64 address_b64
    if not (material.private_key_hex == out.private_key_hex key)
          || not (material.address == address)
        then bail (
            codes
              "app wallet unavailable: KMS app wallet material does not match local initialization")
        else pure material

  unfoldable pub decode_or_initialize :
      Config → (private_key_b64 address_b64 : Option Text) → Do out AppWalletMaterial
  decode_or_initialize config none none = initialize config
  decode_or_initialize config (some key) address = decode_records (some key) address
  decode_or_initialize config none (some address) = decode_records none (some address)

  unfoldable pub load_wallet : Config → Do out AppWalletMaterial
  load_wallet config = do
    private_key_b64 ← kv_get out config app_wallet_kv_private_key
    address_b64 ← kv_get out config app_wallet_kv_address
    material ← decode_or_initialize config private_key_b64 address_b64
    cache_app_wallet_material material
    pure material

  unfoldable pub wallet_or_loaded : Config → Option AppWalletMaterial → Do out AppWalletMaterial
  wallet_or_loaded config (some material) = pure material
  wallet_or_loaded config none = load_wallet config

  unfoldable pub resolve_app_wallet_material : Config → Do out AppWalletMaterial
  resolve_app_wallet_material config = do
    cached ← cached_app_wallet_material
    wallet_or_loaded config cached

  abbrev pub disabled : Text
  disabled = codes "app wallet integration is disabled"

  unfoldable pub app_wallet_address : Config → Do out Text
  app_wallet_address config =
      if not config.use_app_wallet
      then bail disabled
      else (do material ← resolve_app_wallet_material config; pure material.address)

  unfoldable pub app_wallet_key : Config → Do out out.EthKey
  app_wallet_key config = if not config.use_app_wallet then bail disabled else (do
    material ← resolve_app_wallet_material config
    lift (
        map_err (λ e. codes "invalid app wallet private key material in KMS: " ++ e)
          (out.eth_key_from_hex material.private_key_hex)))

  abbrev or_own : Text → Result Text Text → Text
  or_own own (ok wallet) = wallet
  or_own own (err e) = own

  unfoldable pub ensure_app_wallet_authorized : Config → Do out AppAuthzContext
  ensure_app_wallet_authorized config = if not config.use_app_wallet then bail disabled else (do
    material ← resolve_app_wallet_material config
    local ← attempt (local_eth_address out config)
    pure (record {
      app_id = 0;
      app_wallet = material.address;
      instance_wallet = or_own material.address local;
    }))
