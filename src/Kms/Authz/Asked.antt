-- ===== src/Kms/Authz/Asked.antt =====
-- What the registry says of an enclave that may use the KMS (`resolve_authz_context` of
-- capsule-cli/src/integrations/nova_kms.rs), and what is kept of it.
use nova_enclave_capsule.Prelude.{
  ℕ, true, not, Option, none, some, ok, ◌≡◌, subst, refl, ◌==◌, nat_eq, nat_beq_iff, if_err-eq-ok,
  not-eq-false, ok-injective,
}
use nova_enclave_capsule.Prelude.Text.{Text}
use nova_enclave_capsule.Prelude.Action.{lift, >>=-eq-ok, >>=-reaches, raise-eq-ok}
use nova_enclave_capsule.Kms.Outside.{Outside}
use nova_enclave_capsule.Kms.Address.{canonical_wallet}
use nova_enclave_capsule.Kms.Proxy.{
  Config, RegistryDiscoveryConfig, State, AppAuthzContext, CachedAuthzContext, current_unix_millis,
}
use nova_enclave_capsule.Kms.Registry.{
  RegistryInstance, RegistryApp, registry_get_instance_by_wallet, registry_get_app,
}
use nova_enclave_capsule.Kms.Envelope.{local_eth_address}
use nova_enclave_capsule.Kms.Authz.{set_authz, check_instance, check_app, ask_registry}
use nova_enclave_capsule.Kms.Authz.Untouched.{
  current_unix_millis-Kept, local_eth_address-Kept, registry_get_instance_by_wallet-Kept,
  registry_get_app-Kept,
}

check_instance-eq-ok :
    (out : Outside) (wallet : Text) (instance_ : RegistryInstance)
    → check_instance out wallet instance_ ≡ ok tt
    → (instance_.zk_verified ≡ true) × (instance_.status ≡ 0)
unfolding check_instance
check_instance-eq-ok out wallet instance_ h =
    let (verified, h1) = if_err-eq-ok (not instance_.zk_verified) _ _ h in
    let (active, _) = if_err-eq-ok (not (instance_.status == 0)) _ _ h1 in
    (not-eq-false _ verified, (nat_beq_iff _ _).0 (not-eq-false _ active))

check_app-eq-ok :
    (out : Outside) (app_id : ℕ) (app : RegistryApp)
    → check_app out app_id app ≡ ok tt
    → app.status ≡ 0
unfolding check_app
check_app-eq-ok out app_id app h =
    let (active, _) = if_err-eq-ok (not (app.status == 0)) _ _ h in
    (nat_beq_iff _ _).0 (not-eq-false _ active)

module _ (out : Outside) (config : Config) where
  -- The registry supports a context: the enclave's own wallet is that of an instance that is
  -- zk-verified and active, and its app is active, with this wallet.
  pub record Supported (discovery : RegistryDiscoveryConfig) (context : AppAuthzContext)
      : Type 0 where
    pub before_address : State out.World
    pub own : (local_eth_address out config before_address).1 ≡ ok context.instance_wallet
    pub before_instance : State out.World
    pub instance_ : RegistryInstance
    pub has_instance :
        (registry_get_instance_by_wallet out discovery context.instance_wallet before_instance).1
        ≡ ok instance_
    pub verified : instance_.zk_verified ≡ true
    pub active : instance_.status ≡ 0
    pub app_id_eq : context.app_id ≡ instance_.app_id
    pub before_app : State out.World
    pub app : RegistryApp
    pub has_app : (registry_get_app out discovery context.app_id before_app).1 ≡ ok app
    pub app_active : app.status ≡ 0
    pub anchored : canonical_wallet out app.app_wallet ≡ ok context.app_wallet

  -- Supported by the registry of the configuration.
  abbrev pub SupportedBy : AppAuthzContext → Type 0
  SupportedBy context =
      (discovery : RegistryDiscoveryConfig) × (config.registry_discovery ≡ some discovery)
      × Supported discovery context

  -- The context that is kept, if one is, is supported.
  abbrev pub CacheSupported : Option CachedAuthzContext → Type 0
  CacheSupported none = Unit
  CacheSupported (some cached) = SupportedBy cached.context

  -- The registry was asked from a state on, and supports the context.
  abbrev pub Asked : State out.World → RegistryDiscoveryConfig → AppAuthzContext → Type 0
  Asked s discovery context =
      (supported : Supported discovery context) × (supported.before_address ≡ s)

  supported_by :
      (discovery : RegistryDiscoveryConfig) (s s1 s2 : State out.World)
      (wallet anchored_wallet : Text) (instance_ : RegistryInstance) (app : RegistryApp)
      → (local_eth_address out config s).1 ≡ ok wallet
      → (registry_get_instance_by_wallet out discovery wallet s1).1 ≡ ok instance_
      → check_instance out wallet instance_ ≡ ok tt
      → (registry_get_app out discovery instance_.app_id s2).1 ≡ ok app
      → check_app out instance_.app_id app ≡ ok tt
      → canonical_wallet out app.app_wallet ≡ ok anchored_wallet
      → Asked s discovery (record {
        app_id = instance_.app_id;
        app_wallet = anchored_wallet;
        instance_wallet = wallet;
      })
  supported_by discovery s s1 s2 wallet anchored_wallet instance_ app own has_instance checked
        has_app app_checked anchored =
      let (verified, active) = check_instance-eq-ok out wallet instance_ checked in
      (
        record {
          before_address = s;
          own = own;
          before_instance = s1;
          instance_ = instance_;
          has_instance = has_instance;
          verified = verified;
          active = active;
          app_id_eq = refl;
          before_app = s2;
          app = app;
          has_app = has_app;
          app_active = check_app-eq-ok out instance_.app_id app app_checked;
          anchored = anchored;
        },
        refl,
      )

  pub ask_registry-Asked :
      (discovery : RegistryDiscoveryConfig) (s : State out.World) {context : AppAuthzContext}
      → (ask_registry out config discovery s).1 ≡ ok context
      → Asked s discovery context
  unfolding ask_registry
  ask_registry-Asked discovery s {context} done =
      let (wallet, own, d1) = >>=-eq-ok (local_eth_address out config) _ s done in
      let (instance_, has_instance, d2) =
        >>=-eq-ok (registry_get_instance_by_wallet out discovery wallet) _ _ d1 in
      let (u, checked, d3) = >>=-eq-ok (lift (check_instance out wallet instance_)) _ _ d2 in
      let (app, has_app, d4) = >>=-eq-ok (registry_get_app out discovery instance_.app_id) _ _ d3 in
      let (v, app_checked, d5) = >>=-eq-ok (lift (check_app out instance_.app_id app)) _ _ d4 in
      let (anchored_wallet, anchored, d6) =
        >>=-eq-ok (lift (canonical_wallet out app.app_wallet)) _ _ d5 in
      let (now_ms, _, d7) = >>=-eq-ok (current_unix_millis out) _ _ d6 in
      let (_, _, d8) = >>=-eq-ok (set_authz out _) _ _ d7 in
      subst (λ c. Asked s discovery c) (ok-injective d8)
        (supported_by discovery s _ _ wallet anchored_wallet instance_ app own has_instance
          (raise-eq-ok _ checked) has_app (raise-eq-ok _ app_checked) (raise-eq-ok _ anchored))

  -- Whatever comes of it, what is kept is supported.
  pub ask_registry-CacheSupported :
      (discovery : RegistryDiscoveryConfig) (s : State out.World)
      → config.registry_discovery ≡ some discovery
      → CacheSupported s.authz_cache
      → CacheSupported (ask_registry out config discovery s).0.authz_cache
  unfolding ask_registry set_authz
  ask_registry-CacheSupported discovery s configured h =
      let P : State out.World → Type 0 = λ x. CacheSupported x.authz_cache in
      let h1 = local_eth_address-Kept out CacheSupported config s h in
      >>=-reaches P (local_eth_address out config) _ s h1 (λ wallet own.
        let m2 = registry_get_instance_by_wallet out discovery wallet in
        let s1 = (local_eth_address out config s).0 in
        let h2 = registry_get_instance_by_wallet-Kept out CacheSupported discovery wallet s1 h1 in
        >>=-reaches P m2 _ s1 h2 (λ instance_ has_instance.
          let s2 = (m2 s1).0 in
          >>=-reaches P (lift (check_instance out wallet instance_)) _ s2 h2 (λ _ checked.
            let m4 = registry_get_app out discovery instance_.app_id in
            let s4 = (m4 s2).0 in
            let h4 = registry_get_app-Kept out CacheSupported discovery instance_.app_id s2 h2 in
            >>=-reaches P m4 _ s2 h4 (λ app has_app.
              >>=-reaches P (lift (check_app out instance_.app_id app)) _ s4 h4 (λ _ app_checked.
                >>=-reaches P (lift (canonical_wallet out app.app_wallet)) _ s4 h4
                  (λ anchored_wallet anchored.
                    >>=-reaches P (current_unix_millis out) _ s4
                      (current_unix_millis-Kept out CacheSupported s4 h4)
                      (λ now_ms _. (
                        discovery,
                        configured,
                        (supported_by discovery s s1 s2 wallet anchored_wallet instance_ app own
                            has_instance (raise-eq-ok _ checked) has_app (raise-eq-ok _ app_checked)
                            (raise-eq-ok _ anchored)).0,
                      ))))))))
