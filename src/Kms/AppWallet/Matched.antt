-- ===== src/Kms/AppWallet/Matched.antt =====
-- What the wallet that capsule-cli/src/integrations/nova_kms/app_wallet.rs gives out has behind it: the
-- records of the KMS, or a new wallet that was read back.
use nova_enclave_capsule.Prelude.{
  ℕ, Bool, true, false, not, ◌||◌, Option, none, some, List, Result, ok, err, map_err,
  map_err-eq-ok, ok_or, ok_or-some, ok-injective, fail_if, fail_if-eq-ok, ◌≡◌, ◌⊎◌, ◌<◌, refl, sym,
  ap, ◌∙◌, subst, ◌==◌, list_eq, nat_eq, if◌then◌else◌, ltb, arith, inl, inr, ||-eq-false,
  not-eq-false, list_beq_iff,
}
use nova_enclave_capsule.Kms.Exchange.Bound.{same-eq-true}
use nova_enclave_capsule.Prelude
use nova_enclave_capsule.Prelude.Text.{Text}
use nova_enclave_capsule.Prelude.Action.{pure, lift, >>=-eq-ok, raise-eq-ok, if_bail-eq-ok}
use nova_enclave_capsule.Kms.Outside.{Outside}
use nova_enclave_capsule.Kms.Address.{canonical_wallet}
use nova_enclave_capsule.Kms.Proxy.{
  Config, State, AppWalletMaterial, CachedAppWallet, current_unix_millis,
}
use nova_enclave_capsule.Kms.Call.{kv_get}
use nova_enclave_capsule.Kms.AppWallet.Decode.{
  decode_kms_private_key_hex, decode_kms_wallet_address, mismatch, decode_app_wallet_material,
}
use nova_enclave_capsule.Kms.AppWallet.{
  app_wallet_kv_private_key, app_wallet_kv_address, fresh_wallet, wallet_or_cleared,
  cached_app_wallet_material, cache_app_wallet_material, write_app_wallet_record, decode_records,
  generate, initialize, decode_or_initialize, load_wallet, wallet_or_loaded,
  resolve_app_wallet_material,
}

module _ (out : Outside) where
  -- The address is that of the private key.
  pub record IsMatched (material : AppWalletMaterial) : Type 0 where
    pub key : out.EthKey
    pub key_eq : out.eth_key_from_hex material.private_key_hex ≡ ok key
    pub address_eq : canonical_wallet out (out.eth_address key) ≡ ok material.address

  -- Two records that are there, of which one holds the private key and one the address.
  pub record Decodes (private_key_b64 address_b64 : Option Text) (material : AppWalletMaterial)
      : Type 0 where
    pub private_key : Text
    pub has_key : private_key_b64 ≡ some private_key
    pub key_eq : decode_kms_private_key_hex out private_key ≡ ok material.private_key_hex
    pub address : Text
    pub has_address : address_b64 ≡ some address
    pub address_eq : decode_kms_wallet_address out address ≡ ok material.address
    pub matched : IsMatched material

  decode_app_wallet_material_sound :
      (private_key_b64 address_b64 : Text) {material : AppWalletMaterial}
      → decode_app_wallet_material out private_key_b64 address_b64 ≡ ok material
      → (decode_kms_private_key_hex out private_key_b64 ≡ ok material.private_key_hex)
        × (decode_kms_wallet_address out address_b64 ≡ ok material.address)
        × IsMatched material
  unfolding decode_app_wallet_material
  decode_app_wallet_material_sound private_key_b64 address_b64 {material} done =
      let (hex, hex_eq, d1) =
        Prelude.>>=-eq-ok (decode_kms_private_key_hex out private_key_b64) _ done in
      let (key, made, d2) = Prelude.>>=-eq-ok (map_err _ (out.eth_key_from_hex hex)) _ d1 in
      let (own, own_eq, d3) = Prelude.>>=-eq-ok (canonical_wallet out (out.eth_address key)) _ d2 in
      let (kept, kept_eq, d4) =
        Prelude.>>=-eq-ok (decode_kms_wallet_address out address_b64) _ d3 in
      let (agree, d5) = fail_if-eq-ok (not (kept == own)) (mismatch out kept own) _ d4 in
      let same : kept ≡ own = same-eq-true kept own agree in
      subst
        (λ (m : AppWalletMaterial).
          (decode_kms_private_key_hex out private_key_b64 ≡ ok m.private_key_hex)
          × (decode_kms_wallet_address out address_b64 ≡ ok m.address)
          × IsMatched m)
        (ok-injective d5)
        (
          hex_eq,
          kept_eq ∙ ap ok same,
          record {
            key = key;
            key_eq = map_err-eq-ok _ (out.eth_key_from_hex hex) made;
            address_eq = own_eq;
          },
        )

  decode_records-Decodes :
      (private_key_b64 address_b64 : Option Text) (s : State out.World)
      {material : AppWalletMaterial}
      → (decode_records out private_key_b64 address_b64 s).1 ≡ ok material
      → Decodes private_key_b64 address_b64 material
  unfolding decode_records
  decode_records-Decodes private_key_b64 address_b64 s done =
      let (private_key, e1, d1) = >>=-eq-ok (lift (ok_or private_key_b64 _)) _ s done in
      let (address, e2, d2) = >>=-eq-ok (lift (ok_or address_b64 _)) _ _ d1 in
      let (key_eq, address_eq, matched) =
        decode_app_wallet_material_sound private_key address (raise-eq-ok _ d2) in
      record {
        private_key = private_key;
        has_key = ok_or-some private_key_b64 _ (raise-eq-ok _ e1);
        key_eq = key_eq;
        address = address;
        has_address = ok_or-some address_b64 _ (raise-eq-ok _ e2);
        address_eq = address_eq;
        matched = matched;
      }

  -- A new wallet: the key and the address of one that was generated, which the records of the KMS hold
  -- when they are read back.
  pub record Made (config : Config) (material : AppWalletMaterial) : Type 0 where
    pub before : State out.World
    pub key : out.EthKey
    pub generated : (generate out before).1 ≡ ok key
    pub same_key : material.private_key_hex ≡ out.private_key_hex key
    pub same_address : canonical_wallet out (out.eth_address key) ≡ ok material.address
    pub at_key : State out.World
    pub private_key_b64 : Option Text
    pub key_read : (kv_get out config app_wallet_kv_private_key at_key).1 ≡ ok private_key_b64
    pub at_address : State out.World
    pub address_b64 : Option Text
    pub address_read : (kv_get out config app_wallet_kv_address at_address).1 ≡ ok address_b64
    pub decodes : Decodes private_key_b64 address_b64 material

  initialize-Made :
      (config : Config) (s : State out.World) {material : AppWalletMaterial}
      → (initialize out config s).1 ≡ ok material
      → Made config material
  unfolding initialize
  initialize-Made config s done =
      let (key, generated, d1) = >>=-eq-ok (generate out) _ s done in
      let (address, own, d2) =
        >>=-eq-ok (lift (canonical_wallet out (out.eth_address key))) _ _ d1 in
      let (_, _, d3) = >>=-eq-ok (write_app_wallet_record out config _ address) _ _ d2 in
      let (private_key_b64, key_read, d4) =
        >>=-eq-ok (kv_get out config app_wallet_kv_private_key) _ _ d3 in
      let (address_b64, address_read, d5) =
        >>=-eq-ok (kv_get out config app_wallet_kv_address) _ _ d4 in
      let (found, decoded, d6) =
        >>=-eq-ok (decode_records out private_key_b64 address_b64) _ _ d5 in
      let (agree, d7) =
        if_bail-eq-ok
          (not (found.private_key_hex == out.private_key_hex key) || not (found.address == address))
          _ (pure found) _ d6 in
      let (keys, addresses) = ||-eq-false _ _ agree in
      subst (Made config) (ok-injective d7) (record {
        before = _;
        key = key;
        generated = generated;
        same_key = same-eq-true found.private_key_hex (out.private_key_hex key) keys;
        same_address =
            raise-eq-ok _ own ∙ ap ok (sym (same-eq-true found.address address addresses));
        at_key = _;
        private_key_b64 = private_key_b64;
        key_read = key_read;
        at_address = _;
        address_b64 = address_b64;
        address_read = address_read;
        decodes = decode_records-Decodes private_key_b64 address_b64 _ decoded;
      })

  -- What loading gives, by what the two records are when they are read first.
  abbrev pub Outcome : Config → Option Text → Option Text → AppWalletMaterial → Type 0
  Outcome config private_key_b64 address_b64 material =
      Decodes private_key_b64 address_b64 material
      ⊎ ((private_key_b64 ≡ none) × (address_b64 ≡ none) × Made config material)

  -- A wallet that was loaded from a state on.
  pub record Loaded (config : Config) (s : State out.World) (material : AppWalletMaterial)
      : Type 0 where
    pub private_key_b64 : Option Text
    pub key_read : (kv_get out config app_wallet_kv_private_key s).1 ≡ ok private_key_b64
    pub address_b64 : Option Text
    pub address_read :
        (kv_get out config app_wallet_kv_address
          (kv_get out config app_wallet_kv_private_key s).0).1
        ≡ ok address_b64
    pub outcome : Outcome config private_key_b64 address_b64 material

  decode_or_initialize-Outcome :
      (config : Config) (private_key_b64 address_b64 : Option Text) (s : State out.World)
      {material : AppWalletMaterial}
      → (decode_or_initialize out config private_key_b64 address_b64 s).1 ≡ ok material
      → Outcome config private_key_b64 address_b64 material
  unfolding decode_or_initialize
  decode_or_initialize-Outcome config none none s done =
      inr (refl, refl, initialize-Made config s done)
  decode_or_initialize-Outcome config (some key) address s done =
      inl (decode_records-Decodes (some key) address s done)
  decode_or_initialize-Outcome config none (some address) s done =
      inl (decode_records-Decodes none (some address) s done)

  load_wallet-Loaded :
      (config : Config) (s : State out.World) {material : AppWalletMaterial}
      → (load_wallet out config s).1 ≡ ok material
      → Loaded config s material
  unfolding load_wallet
  load_wallet-Loaded config s done =
      let (private_key_b64, key_read, d1) =
        >>=-eq-ok (kv_get out config app_wallet_kv_private_key) _ s done in
      let (address_b64, address_read, d2) =
        >>=-eq-ok (kv_get out config app_wallet_kv_address) _ _ d1 in
      let (found, decoded, d3) =
        >>=-eq-ok (decode_or_initialize out config private_key_b64 address_b64) _ _ d2 in
      let (_, _, d4) = >>=-eq-ok (cache_app_wallet_material out found) _ _ d3 in
      subst (Loaded config s) (ok-injective d4) (record {
        private_key_b64 = private_key_b64;
        key_read = key_read;
        address_b64 = address_b64;
        address_read = address_read;
        outcome = decode_or_initialize-Outcome config private_key_b64 address_b64 _ decoded;
      })

  -- A wallet that the cache holds, and whose time is not over by the clock.
  pub record Held (s : State out.World) (material : AppWalletMaterial) : Type 0 where
    pub cached : CachedAppWallet
    pub kept : s.app_wallet_cache ≡ some cached
    pub material_eq : cached.material ≡ material
    pub in_time : (out.unix_millis s.world).1 < cached.expires_at_ms

  fresh_wallet-some :
      (now_ms : ℕ) (cache : Option CachedAppWallet) {material : AppWalletMaterial}
      → fresh_wallet out now_ms cache ≡ some material
      → (cached : CachedAppWallet) × (cache ≡ some cached)
        × (cached.material ≡ material)
        × (now_ms < cached.expires_at_ms)
  fresh_wallet-some now_ms none h = absurd (cc)
  fresh_wallet-some now_ms (some cached) h = (cached, refl, ground arith, ground arith)

  wallet_or_cleared-some :
      (found : Option AppWalletMaterial) (s : State out.World) {material : AppWalletMaterial}
      → (wallet_or_cleared out found s).1 ≡ ok (some material)
      → found ≡ some material
  unfolding wallet_or_cleared
  wallet_or_cleared-some none s h = absurd (ground arith)
  wallet_or_cleared-some (some found) s h = ok-injective h

  cached_app_wallet_material-Held :
      (s : State out.World) {material : AppWalletMaterial}
      → (cached_app_wallet_material out s).1 ≡ ok (some material)
      → Held s material
  unfolding cached_app_wallet_material current_unix_millis
  cached_app_wallet_material-Held s done =
      let (w, now_ms) = out.unix_millis s.world in
      let hit =
        wallet_or_cleared-some (fresh_wallet out now_ms s.app_wallet_cache) (record s { world = w })
          done in
      let (cached, kept, same, in_time) = fresh_wallet-some now_ms s.app_wallet_cache hit in
      record { cached = cached; kept = kept; material_eq = same; in_time = in_time }

  wallet_or_loaded_sound :
      (config : Config) (cached : Option AppWalletMaterial) (s : State out.World)
      {material : AppWalletMaterial}
      → (wallet_or_loaded out config cached s).1 ≡ ok material
      → (cached ≡ some material) ⊎ Loaded config s material
  unfolding wallet_or_loaded
  wallet_or_loaded_sound config (some found) s done = inl (ap some (ok-injective done))
  wallet_or_loaded_sound config none s done = inr (load_wallet-Loaded config s done)

  -- The wallet that is used is one that the cache holds and that has not expired, or one that is
  -- loaded: both records of the KMS are there, they decode to its private key and to its address, and
  -- the address is that of the key; or neither record is there, and it is the one that was generated,
  -- with its address, which the records have when they are read back.
  pub resolve_app_wallet_material_sound :
      (config : Config) (s : State out.World) {material : AppWalletMaterial}
      → (resolve_app_wallet_material out config s).1 ≡ ok material
      → Held s material ⊎ Loaded config (cached_app_wallet_material out s).0 material
  unfolding resolve_app_wallet_material
  resolve_app_wallet_material_sound config s done =
      let (cached, looked, d1) = >>=-eq-ok (cached_app_wallet_material out) _ s done in
      elim (wallet_or_loaded_sound config cached _ d1) [
        | inl same ↦ inl (cached_app_wallet_material-Held s (looked ∙ ap ok same))
        | inr loaded ↦ inr loaded
      ]
