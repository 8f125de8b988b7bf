-- ===== src/Kms/Discovery/Refreshed.antt =====
-- The background refresh of capsule-cli/src/integrations/nova_kms.rs leaves a cache of listed nodes.
use nova_enclave_capsule.Prelude.{
  ℕ, Option, none, some, List, [], ◌∷◌, Result, ok, err, ok-injective, ◌≡◌, refl, sym, subst,
}
use nova_enclave_capsule.Prelude.Text.{Text}
use nova_enclave_capsule.Prelude.Action.{expect, attempt, >>=-eq-ok, >>=-next}
use nova_enclave_capsule.Kms.Outside.{Outside}
use nova_enclave_capsule.Kms.Address.{truncate_for_log}
use nova_enclave_capsule.Kms.Log.{debug_log_max_len}
use nova_enclave_capsule.Kms.Nodes.{KmsNodeCacheEntry, DiscoveryCacheEntry, mark_reachability}
use nova_enclave_capsule.Kms.Nodes.Kept.{Of, AllOf, merge_discovered-AllOf, merge_refresh-AllOf}
use nova_enclave_capsule.Kms.Proxy.{RegistryDiscoveryConfig, State, current_unix_millis}
use nova_enclave_capsule.Kms.Found.{discover_kms_nodes_from_registry}
use nova_enclave_capsule.Kms.Discovery.{
  set_discovery, probe_node_status_once, probed, probe_all, to_refresh, swap_in, probe_and_swap,
  refresh_with,
}
use nova_enclave_capsule.Kms.Discovery.Listed.{
  AllListed, CacheListed, Listed, discover_kms_nodes-AllListed,
}

module _ (out : Outside) (Q : (wallet base_url tee_pubkey : Text) → Type 0) where
  probed-Of :
      (node : KmsNodeCacheEntry) (r : Result Text ℕ) (s : State out.World)
      {marked : KmsNodeCacheEntry}
      → Of Q node
      → (probed out node r s).1 ≡ ok marked
      → Of Q marked
  unfolding probed mark_reachability
  probed-Of node (ok status) s h done =
      let (now_ms, _, d1) = >>=-eq-ok (current_unix_millis out) _ s done in
      let (checked, _, d2) = >>=-eq-ok (current_unix_millis out) _ _ d1 in
      subst (Of Q) (ok-injective d2) h
  probed-Of node (err e) s h done =
      let (now_ms, _, d1) = >>=-eq-ok (current_unix_millis out) _ s done in
      let (message, _, d2) = >>=-eq-ok (expect (truncate_for_log e debug_log_max_len)) _ _ d1 in
      let (checked, _, d3) = >>=-eq-ok (current_unix_millis out) _ _ d2 in
      subst (Of Q) (ok-injective d3) h

  probe_all-AllOf :
      (nodes : List KmsNodeCacheEntry) (s : State out.World) {marked : List KmsNodeCacheEntry}
      → AllOf Q nodes
      → (probe_all out nodes s).1 ≡ ok marked
      → AllOf Q marked
  unfolding probe_all
  probe_all-AllOf [] s h done = subst (AllOf Q) (ok-injective done) tt
  probe_all-AllOf (n ∷ ns) s (h, hs) done =
      let (r, _, d1) = >>=-eq-ok (attempt (probe_node_status_once out n.base_url)) _ s done in
      let (node, marked, d2) = >>=-eq-ok (probed out n r) _ _ d1 in
      let (rest, probed_rest, d3) = >>=-eq-ok (probe_all out ns) _ _ d2 in
      subst (AllOf Q) (ok-injective d3)
        (probed-Of n r _ h marked, probe_all-AllOf ns _ hs probed_rest)

  known-AllOf :
      (discovered : List KmsNodeCacheEntry) (previous : Option DiscoveryCacheEntry) (now_ms : ℕ)
      → AllOf Q discovered
      → ((cached : DiscoveryCacheEntry) → previous ≡ some cached → AllOf Q cached.nodes)
      → AllOf Q (to_refresh out discovered previous now_ms)
  unfolding to_refresh
  known-AllOf [] none now_ms h old = tt
  known-AllOf [] (some cached) now_ms h old = old cached refl
  known-AllOf (n ∷ ns) previous now_ms h old = merge_discovered-AllOf Q (n ∷ ns) previous now_ms h

module _ (out : Outside) (discovery : RegistryDiscoveryConfig) where
  cached-AllListed :
      (cache : Option DiscoveryCacheEntry)
      → CacheListed out discovery cache
      → (cached : DiscoveryCacheEntry) → cache ≡ some cached
      → AllListed out discovery cached.nodes
  cached-AllListed none h cached same = absurd (cc)
  cached-AllListed (some found) h cached same =
      subst (λ (c : Option DiscoveryCacheEntry). CacheListed out discovery c) same h

  swap_in-CacheListed :
      (refreshed : List KmsNodeCacheEntry) (s : State out.World)
      → AllListed out discovery refreshed
      → CacheListed out discovery (swap_in out discovery refreshed s).0.discovery_cache
  unfolding swap_in set_discovery current_unix_millis
  swap_in-CacheListed refreshed s h =
      merge_refresh-AllOf (Listed out discovery) refreshed s.discovery_cache _ h

  probe_and_swap-CacheListed :
      (previous : Option DiscoveryCacheEntry) (now_ms : ℕ) (discovered : List KmsNodeCacheEntry)
      (s : State out.World) {done : Unit {0}}
      → CacheListed out discovery previous
      → AllListed out discovery discovered
      → (probe_and_swap out discovery previous now_ms discovered s).1 ≡ ok done
      → CacheListed out discovery
          (probe_and_swap out discovery previous now_ms discovered s).0.discovery_cache
  unfolding probe_and_swap
  probe_and_swap-CacheListed previous now_ms discovered s old new done =
      let nodes = to_refresh out discovered previous now_ms in
      let (refreshed, probed_as, _) =
        >>=-eq-ok (probe_all out nodes) (swap_in out discovery) s done in
      let next = >>=-next (probe_all out nodes) (swap_in out discovery) s probed_as in
      let listed =
        known-AllOf out (Listed out discovery) discovered previous now_ms new
          (cached-AllListed previous old) in
      subst (λ r. CacheListed out discovery r.0.discovery_cache) (sym next)
        (swap_in-CacheListed refreshed (probe_all out nodes s).0
          (probe_all-AllOf out (Listed out discovery) nodes s listed probed_as))

  -- A refresh that succeeds leaves a cache whose nodes are listed, whatever its probes found, when the
  -- nodes of the cache before it were.
  pub refresh_with-CacheListed :
      (s : State out.World) {done : Unit {0}}
      → CacheListed out discovery s.discovery_cache
      → (refresh_with out discovery s).1 ≡ ok done
      → CacheListed out discovery (refresh_with out discovery s).0.discovery_cache
  unfolding refresh_with current_unix_millis
  refresh_with-CacheListed s h done =
      let (w, now_ms) = out.unix_millis s.world in
      let s1 : State out.World = record s { world = w } in
      let rest = probe_and_swap out discovery s.discovery_cache now_ms in
      let (discovered, found, d1) =
        >>=-eq-ok (discover_kms_nodes_from_registry out discovery) rest s1 done in
      let next = >>=-next (discover_kms_nodes_from_registry out discovery) rest s1 found in
      subst (λ r. CacheListed out discovery r.0.discovery_cache) (sym next)
        (probe_and_swap-CacheListed s.discovery_cache now_ms discovered
          (discover_kms_nodes_from_registry out discovery s1).0 h
          (discover_kms_nodes-AllListed out discovery s1 found) d1)
