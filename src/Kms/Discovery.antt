-- ===== src/Kms/Discovery.antt =====
-- How capsule-cli/src/integrations/nova_kms.rs finds the nodes of the KMS: from the registry, or from
-- its cache, and how it learns whether they can be reached.
pub mod Chosen
pub mod Listed
pub mod Refreshed
use nova_enclave_capsule.Prelude.{
  ℕ, Bool, true, false, not, ◌&&◌, ◌||◌, Option, none, some, List, [], ◌∷◌, ◌++◌, Result, ok, err,
  ok_or, ◌==◌, nat_eq, list_eq, if◌then◌else◌, ltb, any,
}
use nova_enclave_capsule.Prelude.Words.{u64_mod, saturating_add}
use nova_enclave_capsule.Prelude.Text.{Text, codes, decimal, is_empty, text_lt}
use nova_enclave_capsule.Prelude.Action.{
  Action, ◌>>=◌, ◌>>◌, pure, lift, bail, expect, attempt, get_state, put_state,
}
use nova_enclave_capsule.Kms.Outside.{Outside, get_method, default_client, local_client, Client}
use nova_enclave_capsule.Kms.Address.{
  trim_0x, canonical_wallet, normalize_base_url, http_client_for_url, truncate_for_log,
}
use nova_enclave_capsule.Kms.Log.{debug_log_max_len}
use nova_enclave_capsule.Kms.Nodes.{
  KmsNodeCacheEntry, DiscoveryCacheEntry, new_node, mark_reachability,
  merge_discovered_nodes_with_previous, merge_refresh_with_live_cache, resolve_connectable_nodes,
  update_first,
}
use nova_enclave_capsule.Kms.Proxy.{
  Config, RegistryDiscoveryConfig, State, is_success, text_or_default, Do, current_unix_millis,
  send,
}
use nova_enclave_capsule.Kms.Registry.{
  RegistryInstance, registry_get_active_instances, registry_get_instance_by_wallet,
}
use nova_enclave_capsule.Kms.Found.{
  insert_by_url, sort_by_url, Found, has_url, add_node, add_at, consider, collect,
  discover_kms_nodes_from_registry,
}

abbrev pub reachable_ttl_ms : ℕ
reachable_ttl_ms = 30_000

abbrev pub unreachable_ttl_ms : ℕ
unreachable_ttl_ms = 10_000

module _ (out : Outside) where
  unfoldable pub set_discovery : DiscoveryCacheEntry → Do out (Unit {0})
  set_discovery entry s = (record s { discovery_cache = some entry }, ok tt)

  abbrev pub fresh_nodes : ℕ → Option DiscoveryCacheEntry → Option (List KmsNodeCacheEntry)
  fresh_nodes now_ms none = none
  fresh_nodes now_ms (some cached) =
      if ltb now_ms cached.expires_at_ms && not (is_empty cached.nodes)
      then some cached.nodes
      else none

  abbrev pub after_discovery :
      RegistryDiscoveryConfig
      → ℕ
      → Result Text (List KmsNodeCacheEntry)
      → Do out (List KmsNodeCacheEntry)
  unfolding merge_discovered_nodes_with_previous set_discovery
  after_discovery discovery now_ms (err e) = bail (codes "registry discovery failed: " ++ e)
  after_discovery discovery now_ms (ok []) = bail (
      codes "registry discovery returned no ACTIVE KMS nodes for app_id "
      ++ decimal discovery.kms_app_id)
  after_discovery discovery now_ms (ok (n ∷ ns)) = do
    s ← get_state
    let merged = merge_discovered_nodes_with_previous (n ∷ ns) s.discovery_cache now_ms in
        do
          set_discovery (record {
            nodes = merged;
            expires_at_ms = saturating_add u64_mod now_ms discovery.ttl_ms;
          })
          pure merged

  -- A cache hit, or what the next step gives.
  abbrev pub or_else :
      Option (List KmsNodeCacheEntry)
      → Do out (List KmsNodeCacheEntry)
      → Do out (List KmsNodeCacheEntry)
  or_else none next = next
  or_else (some nodes) next = pure nodes

  unfoldable pub cached_or : ℕ → Do out (List KmsNodeCacheEntry) → Do out (List KmsNodeCacheEntry)
  cached_or now_ms next = do s ← get_state; or_else (fresh_nodes now_ms s.discovery_cache) next

  unfoldable pub discover_and_merge : RegistryDiscoveryConfig → ℕ → Do out (List KmsNodeCacheEntry)
  unfolding discover_kms_nodes_from_registry after_discovery
  discover_and_merge discovery now_ms =
      attempt (discover_kms_nodes_from_registry out discovery) >>= after_discovery discovery now_ms

  -- Behind the lock: the second look, and the discovery.
  unfoldable pub refresh_discovered : RegistryDiscoveryConfig → Do out (List KmsNodeCacheEntry)
  unfolding cached_or discover_and_merge
  refresh_discovered discovery = do
    now_ms ← current_unix_millis out
    cached_or now_ms (discover_and_merge discovery now_ms)

  unfoldable pub discovered_with : RegistryDiscoveryConfig → Do out (List KmsNodeCacheEntry)
  unfolding cached_or refresh_discovered
  discovered_with discovery = do
    now_ms ← current_unix_millis out
    cached_or now_ms (refresh_discovered discovery)

  unfoldable pub resolve_discovered_nodes : Config → Do out (List KmsNodeCacheEntry)
  unfolding discovered_with
  resolve_discovered_nodes config = do
    discovery ← lift (
        ok_or config.registry_discovery
          (codes "kms_integration requires registry discovery configuration"))
    discovered_with discovery

  -- The nodes that the cache lets through, or all of them when it lets none.
  unfoldable pub candidates_of : ℕ → List KmsNodeCacheEntry → List KmsNodeCacheEntry
  unfolding resolve_connectable_nodes
  candidates_of now_ms discovered =
      let prioritized = resolve_connectable_nodes now_ms discovered in
      if is_empty prioritized then discovered else prioritized

  unfoldable pub resolve_node_candidates : Config → Do out (List KmsNodeCacheEntry)
  unfolding resolve_discovered_nodes candidates_of
  resolve_node_candidates config = do
    discovered ← resolve_discovered_nodes config
    now_ms ← current_unix_millis out
    pure (candidates_of now_ms discovered)

  abbrev change_nodes :
      (List KmsNodeCacheEntry → List KmsNodeCacheEntry)
      → Option DiscoveryCacheEntry
      → Option DiscoveryCacheEntry
  change_nodes change none = none
  change_nodes change (some cached) = some (record cached { nodes = change cached.nodes })

  abbrev has_node : Text → Option DiscoveryCacheEntry → Bool
  has_node url none = false
  has_node url (some cached) = any (λ n. n.base_url == url) cached.nodes

  -- The clock is read for the expiry, and again by the mark of the node that is found.
  unfoldable pub update_node_reachability_cache :
      Text → Bool → Option ℕ → Option Text → Do out (Unit {0})
  unfolding current_unix_millis update_first mark_reachability
  update_node_reachability_cache url reachable last_http_status last_error = do
    now_ms ← current_unix_millis out
    s ← get_state
    if has_node url s.discovery_cache
        then (do
          checked ← current_unix_millis out
          s ← get_state
          put_state (record s {
            discovery_cache =
                change_nodes
                  (update_first url (
                    mark_reachability checked reachable
                      (saturating_add u64_mod now_ms
                        (if reachable then reachable_ttl_ms else unreachable_ttl_ms))
                      last_http_status last_error))
                  s.discovery_cache;
          }))
        else pure tt

  abbrev route_name : Client → Text
  route_name default_client = codes "default"
  route_name local_client = codes "local-no-proxy"

  unfoldable pub probe_node_status_once : Text → Do out ℕ
  unfolding send http_client_for_url is_success truncate_for_log
  probe_node_status_once base_url =
      let url = base_url ++ codes "/status" in
      do
        response ← send out (http_client_for_url out url) get_method url [] none
        if is_success response then pure response.status else do
          body ← expect (truncate_for_log (text_or_default response.text) debug_log_max_len)
          bail (
              codes "status probe failed node="
              ++ (base_url
                  ++ (codes " route="
                      ++ (route_name (http_client_for_url out url)
                          ++ (codes " http="
                              ++ (decimal response.status ++ (codes " body=" ++ body)))))))

  unfoldable pub probed : KmsNodeCacheEntry → Result Text ℕ → Do out KmsNodeCacheEntry
  unfolding mark_reachability truncate_for_log
  probed node (ok status) = do
    now_ms ← current_unix_millis out
    checked ← current_unix_millis out
    pure (
        mark_reachability checked true (saturating_add u64_mod now_ms reachable_ttl_ms)
          (some status) none node)
  probed node (err e) = do
    now_ms ← current_unix_millis out
    message ← expect (truncate_for_log e debug_log_max_len)
    checked ← current_unix_millis out
    pure (
        mark_reachability checked false (saturating_add u64_mod now_ms unreachable_ttl_ms) none
          (some message) node)

  unfoldable pub probe_all : List KmsNodeCacheEntry → Do out (List KmsNodeCacheEntry)
  unfolding probe_node_status_once probed
  probe_all [] = pure []
  probe_all (n ∷ ns) = do
    r ← attempt (probe_node_status_once n.base_url)
    node ← probed n r
    rest ← probe_all ns
    pure (node ∷ rest)

  abbrev known_nodes : Option DiscoveryCacheEntry → List KmsNodeCacheEntry
  known_nodes none = []
  known_nodes (some cached) = cached.nodes

  unfoldable pub to_refresh :
      List KmsNodeCacheEntry → Option DiscoveryCacheEntry → ℕ → List KmsNodeCacheEntry
  unfolding merge_discovered_nodes_with_previous
  to_refresh discovered previous now_ms =
      if is_empty discovered
      then known_nodes previous
      else merge_discovered_nodes_with_previous discovered previous now_ms

  -- The new cache, with what calls have found out in the meantime.
  unfoldable pub swap_in : RegistryDiscoveryConfig → List KmsNodeCacheEntry → Do out (Unit {0})
  unfolding current_unix_millis merge_refresh_with_live_cache set_discovery
  swap_in discovery refreshed = do
    swap_now_ms ← current_unix_millis out
    live ← get_state
    set_discovery (record {
      nodes = merge_refresh_with_live_cache refreshed live.discovery_cache swap_now_ms;
      expires_at_ms = saturating_add u64_mod swap_now_ms discovery.ttl_ms;
    })

  unfoldable pub probe_and_swap :
      RegistryDiscoveryConfig
      → Option DiscoveryCacheEntry
      → ℕ
      → List KmsNodeCacheEntry
      → Do out (Unit {0})
  unfolding to_refresh probe_all swap_in
  probe_and_swap discovery previous now_ms discovered = do
    refreshed ← probe_all (to_refresh discovered previous now_ms)
    swap_in discovery refreshed

  unfoldable pub refresh_with : RegistryDiscoveryConfig → Do out (Unit {0})
  unfolding current_unix_millis discover_kms_nodes_from_registry probe_and_swap
  refresh_with discovery = do
    now_ms ← current_unix_millis out
    previous ← get_state
    discovered ← discover_kms_nodes_from_registry out discovery
    probe_and_swap discovery previous.discovery_cache now_ms discovered

  unfoldable pub refresh_registry_and_node_status_once : Config → Do out (Unit {0})
  unfolding refresh_with
  refresh_registry_and_node_status_once config = elim config.registry_discovery [
    | none ↦ pure tt
    | some discovery ↦ refresh_with discovery
  ]
