-- ===== src/Kms/Authz/Granted.antt =====
-- Who may use the KMS, in capsule-cli/src/integrations/nova_kms.rs.
use nova_enclave_capsule.Prelude.{
  ℕ, Option, none, some, Result, ok, err, ◌≡◌, sym, Option-cases, ◌⊎◌, ◌<◌, subst, refl, ap, ◌∙◌,
  inl, inr, arith, nat_eq, ok-injective, ok_or, ok_or-some,
}
use nova_enclave_capsule.Prelude.Text.{codes}
use nova_enclave_capsule.Prelude.Action.{Fault, lift, >>=-eq-ok, >>=-reaches, raise-eq-ok}
use nova_enclave_capsule.Kms.Outside.{Outside}
use nova_enclave_capsule.Kms.Proxy.{
  Config, RegistryDiscoveryConfig, State, AppAuthzContext, CachedAuthzContext, current_unix_millis,
}
use nova_enclave_capsule.Kms.Authz.{
  set_authz, fresh_authz, cleared_if_none, cached_authz_context, ask_registry, or_asked,
  resolve_authz_context,
}
use nova_enclave_capsule.Kms.Authz.Asked.{
  SupportedBy, CacheSupported, Asked, ask_registry-Asked, ask_registry-CacheSupported,
}

module _ (out : Outside) (config : Config) where
  -- A context that is kept, and whose time is not over by the clock.
  pub record Fresh (s : State out.World) (context : AppAuthzContext) : Type 0 where
    pub cached : CachedAuthzContext
    pub kept : s.authz_cache ≡ some cached
    pub context_eq : cached.context ≡ context
    pub in_time : (out.unix_millis s.world).1 < cached.expires_at_ms

  fresh_authz-some :
      (now_ms : ℕ) (cache : Option CachedAuthzContext) {context : AppAuthzContext}
      → fresh_authz out now_ms cache ≡ some context
      → (cached : CachedAuthzContext) × (cache ≡ some cached)
        × (cached.context ≡ context)
        × (now_ms < cached.expires_at_ms)
  fresh_authz-some now_ms none h = absurd (cc)
  fresh_authz-some now_ms (some cached) h = (cached, refl, ground arith, ground arith)

  cleared_if_none-some :
      (found : Option AppAuthzContext) (s : State out.World) {context : AppAuthzContext}
      → (cleared_if_none out found s).1 ≡ ok (some context)
      → found ≡ some context
  unfolding cleared_if_none
  cleared_if_none-some none s h = absurd (ground arith)
  cleared_if_none-some (some context') s h = ok-injective h

  cached_authz_context-Fresh :
      (s : State out.World) {context : AppAuthzContext}
      → (cached_authz_context out s).1 ≡ ok (some context)
      → Fresh s context
  unfolding cached_authz_context current_unix_millis
  cached_authz_context-Fresh s done =
      let (w, now_ms) = out.unix_millis s.world in
      let hit =
        cleared_if_none-some (fresh_authz out now_ms s.authz_cache) (record s { world = w }) done in
      let (cached, kept, same, in_time) = fresh_authz-some now_ms s.authz_cache hit in
      record { cached = cached; kept = kept; context_eq = same; in_time = in_time }

  cached_authz_context-CacheSupported :
      (s : State out.World)
      → CacheSupported out config s.authz_cache
      → CacheSupported out config (cached_authz_context out s).0.authz_cache
  unfolding cached_authz_context current_unix_millis cleared_if_none set_authz
  cached_authz_context-CacheSupported s h =
      let (w, now_ms) = out.unix_millis s.world in
      elim (Option-cases (fresh_authz out now_ms s.authz_cache)) [
        | inl gone ↦
            subst
              (λ found.
                CacheSupported out config
                  (cleared_if_none out found (record s { world = w })).0.authz_cache)
              (sym gone) tt
        | inr (context, hit) ↦
            subst
              (λ found.
                CacheSupported out config
                  (cleared_if_none out found (record s { world = w })).0.authz_cache)
              (sym hit) h
      ]

  or_asked-Asked :
      (cached : Option AppAuthzContext) (s : State out.World) {context : AppAuthzContext}
      → (or_asked out config cached s).1 ≡ ok context
      → (cached ≡ some context)
        ⊎ ((discovery : RegistryDiscoveryConfig) × (config.registry_discovery ≡ some discovery)
            × Asked out config s discovery context)
  unfolding or_asked
  or_asked-Asked (some context') s done = inl (ap some (ok-injective done))
  or_asked-Asked none s done =
      let (discovery, found, asked) =
        >>=-eq-ok (lift (ok_or config.registry_discovery _)) _ s done in
      inr (
        discovery,
        ok_or-some config.registry_discovery _ (raise-eq-ok _ found),
        ask_registry-Asked out config discovery s asked,
      )

  or_asked-CacheSupported :
      (cached : Option AppAuthzContext) (s : State out.World)
      → CacheSupported out config s.authz_cache
      → CacheSupported out config (or_asked out config cached s).0.authz_cache
  unfolding or_asked
  or_asked-CacheSupported (some context) s h = h
  or_asked-CacheSupported none s h =
      >>=-reaches (λ (x : State out.World). CacheSupported out config x.authz_cache)
        (lift (
          ok_or config.registry_discovery
            (codes "registry-based authz requires kms_app_id/nova_app_registry")))
        (ask_registry out config) s h
        (λ discovery found.
          ask_registry-CacheSupported out config discovery s
            (ok_or-some config.registry_discovery _ (raise-eq-ok _ found)) h)

  -- Of a grant: its context is kept, in time, and supported, or the registry was asked and supports it.
  abbrev pub IsJustified : State out.World → Result Fault AppAuthzContext → Type 0
  IsJustified s (err e) = Unit
  IsJustified s (ok context) =
      (Fresh s context × SupportedBy out config context)
      ⊎ ((discovery : RegistryDiscoveryConfig) × (config.registry_discovery ≡ some discovery)
          × Asked out config (cached_authz_context out s).0 discovery context)

  Fresh-SupportedBy :
      (s : State out.World) {context : AppAuthzContext}
      → CacheSupported out config s.authz_cache
      → Fresh s context
      → SupportedBy out config context
  Fresh-SupportedBy s h fresh =
      subst (SupportedBy out config) fresh.context_eq
        (subst (CacheSupported out config) fresh.kept h)

  resolve_authz_context-IsJustified :
      (s : State out.World) (r : Result Fault AppAuthzContext)
      → CacheSupported out config s.authz_cache
      → (resolve_authz_context out config s).1 ≡ r
      → IsJustified s r
  unfolding resolve_authz_context
  resolve_authz_context-IsJustified s (err e) h done = tt
  resolve_authz_context-IsJustified s (ok context) h done =
      let (cached, looked, rest) = >>=-eq-ok (cached_authz_context out) _ s done in
      elim (or_asked-Asked cached _ rest) [
        | inl same ↦
            let fresh = cached_authz_context-Fresh s (looked ∙ ap ok same) in
            inl (fresh, Fresh-SupportedBy s h fresh)
        | inr asked ↦ inr asked
      ]

  -- What is kept is always supported by the registry: if the context that is kept before a check is,
  -- then so is the one that is kept after it, whether access is granted or the check fails. And access
  -- is granted only with the context that was kept, which has not expired, or with one that the registry
  -- supports when it is asked for this check: the enclave's own wallet is that of an instance that is
  -- zk-verified and active, and its app is active.
  pub resolve_authz_context_granted :
      (s : State out.World)
      → CacheSupported out config s.authz_cache
      → CacheSupported out config (resolve_authz_context out config s).0.authz_cache
        × IsJustified s (resolve_authz_context out config s).1
  unfolding resolve_authz_context
  resolve_authz_context_granted s h =
      let looked = cached_authz_context-CacheSupported s h in
      (
        >>=-reaches (λ (x : State out.World). CacheSupported out config x.authz_cache)
            (cached_authz_context out) (or_asked out config) s looked
            (λ cached _. or_asked-CacheSupported cached (cached_authz_context out s).0 looked),
        resolve_authz_context-IsJustified s (resolve_authz_context out config s).1 h refl,
      )
