-- ===== src/Kms/Discovery/Listed.antt =====
-- The registry stands behind every node that capsule-cli/src/integrations/nova_kms.rs finds.
use nova_enclave_capsule.Prelude.{
  ℕ, true, false, not, ◌||◌, Option, none, some, List, [], ◌∷◌, Result, ok, err, ok_or, ok_or-some,
  ◌≡◌, ◌≢◌, refl, ap, ◌∙◌, subst, ◌==◌, nat_eq, nat_beq_iff, list_eq, if_elim, not-eq-false,
  ||-eq-false, All-append, arith,
}
use nova_enclave_capsule.Prelude.Text.{Text, is_empty, text_lt}
use nova_enclave_capsule.Prelude.Action.{
  lift, attempt, >>=-eq-ok, raise-eq-ok, caught, caught-eq-ok,
}
use nova_enclave_capsule.Kms.Outside.{Outside}
use nova_enclave_capsule.Kms.Address.{trim_0x, canonical_wallet, normalize_base_url}
use nova_enclave_capsule.Kms.Nodes.{
  KmsNodeCacheEntry, DiscoveryCacheEntry, new_node, merge_discovered_nodes_with_previous,
  resolve_connectable_nodes,
}
use nova_enclave_capsule.Kms.Nodes.Kept.{
  Of, AllOf, merge_discovered-AllOf, resolve_connectable_nodes-AllOf,
}
use nova_enclave_capsule.Kms.Proxy.{Config, RegistryDiscoveryConfig, State, Do, current_unix_millis}
use nova_enclave_capsule.Kms.Registry.{
  RegistryInstance, registry_get_active_instances, registry_get_instance_by_wallet,
}
use nova_enclave_capsule.Kms.Found.{
  insert_by_url, sort_by_url, Found, has_url, add_node, add_at, consider, collect,
  discover_kms_nodes_from_registry,
}
use nova_enclave_capsule.Kms.Discovery.{
  set_discovery, fresh_nodes, after_discovery, or_else, cached_or, discover_and_merge,
  refresh_discovered, discovered_with, candidates_of, resolve_discovered_nodes,
  resolve_node_candidates,
}

is_empty-eq-false : (t : Text) → is_empty t ≡ false → t ≢ []
is_empty-eq-false [] h = absurd (cc)
is_empty-eq-false (c ∷ t) h = λ e. absurd (cc)

module _ (out : Outside) (discovery : RegistryDiscoveryConfig) where
  -- The registry has answered for the wallet: an instance of the KMS's app that is active and
  -- zk-verified, at this URL, with this key.
  pub record Listed (wallet base_url tee_pubkey : Text) : Type 0 where
    pub before : State out.World
    pub instance_ : RegistryInstance
    pub answered : (registry_get_instance_by_wallet out discovery wallet before).1 ≡ ok instance_
    pub same_app : instance_.app_id ≡ discovery.kms_app_id
    pub active : instance_.status ≡ 0
    pub verified : instance_.zk_verified ≡ true
    pub url_eq : normalize_base_url out instance_.instance_url ≡ some base_url
    pub key_eq : tee_pubkey ≡ trim_0x (trim_0x instance_.tee_pubkey)
    pub has_key : trim_0x instance_.tee_pubkey ≢ []

  abbrev pub AllListed : List KmsNodeCacheEntry → Type 0
  AllListed nodes = AllOf Listed nodes

  abbrev FoundListed : Found → Type 0
  FoundListed found = AllListed found.nodes

  add_node-Listed :
      (wallet url key : Text) (found : Found)
      → (key ≢ [] → Listed wallet url (trim_0x key))
      → FoundListed found
      → FoundListed (add_node wallet url key found)
  unfolding new_node add_node
  add_node-Listed wallet url key found listed h =
      if_elim FoundListed (is_empty key) _ _ (λ _. h)
        (λ full. All-append (Of Listed) found.nodes _ h (listed (is_empty-eq-false key full), tt))

  add_at-Listed :
      (wallet key : Text) (url : Option Text) (found : Found)
      → ((base_url : Text)
          → url ≡ some base_url
          → trim_0x key ≢ []
          → Listed wallet base_url (trim_0x (trim_0x key)))
      → FoundListed found
      → FoundListed (add_at wallet key url found)
  unfolding add_at
  add_at-Listed wallet key none found listed h = h
  add_at-Listed wallet key (some url) found listed h =
      if_elim FoundListed (has_url url found.dedup) _ _ (λ _. h)
        (λ _. add_node-Listed wallet url (trim_0x key) found (listed url refl) h)

  consider-Listed :
      (wallet : Text) (instance_ : RegistryInstance) (found : Found) (before : State out.World)
      → (registry_get_instance_by_wallet out discovery wallet before).1 ≡ ok instance_
      → FoundListed found
      → FoundListed (consider out discovery.kms_app_id wallet instance_ found)
  unfolding consider
  consider-Listed wallet instance_ found before answered h =
      if_elim FoundListed (not (instance_.app_id == discovery.kms_app_id)) _ _ (λ _. h)
        (λ app.
          if_elim FoundListed (not (instance_.status == 0) || not instance_.zk_verified) _ _
            (λ _. h)
            (λ fit.
              let (active, verified) = ||-eq-false _ _ fit in
              add_at-Listed wallet instance_.tee_pubkey
                (normalize_base_url out instance_.instance_url) found
                (λ base_url at_url has_key. record {
                  before = before;
                  instance_ = instance_;
                  answered = answered;
                  same_app = (nat_beq_iff _ _).0 (not-eq-false _ app);
                  active = (nat_beq_iff _ _).0 (not-eq-false _ active);
                  verified = not-eq-false _ verified;
                  url_eq = at_url;
                  key_eq = refl;
                  has_key = has_key;
                })
                h))

  collect-Listed :
      (wallets : List Text) (found : Found) (s : State out.World) {all : Found}
      → FoundListed found
      → (collect out discovery wallets found s).1 ≡ ok all
      → FoundListed all
  unfolding collect
  collect-Listed [] found s {all} h done =
      let same : found ≡ all = ground arith in subst FoundListed same h
  collect-Listed (wallet ∷ wallets) found s h done =
      let (canonical, _, d1) = >>=-eq-ok (lift (canonical_wallet out wallet)) _ s done in
      let (instance_, answered, d2) =
        >>=-eq-ok (registry_get_instance_by_wallet out discovery canonical) _ _ d1 in
      collect-Listed wallets _ _ (consider-Listed canonical instance_ found _ answered h) d2

  insert_by_url-AllListed :
      (n : KmsNodeCacheEntry) (ns : List KmsNodeCacheEntry)
      → Of Listed n
      → AllListed ns
      → AllListed (insert_by_url n ns)
  unfolding insert_by_url
  insert_by_url-AllListed n [] h hs = (h, tt)
  insert_by_url-AllListed n (m ∷ ms) h (hm, hs) =
      let rest = insert_by_url-AllListed n ms h hs in
      if_elim AllListed (text_lt m.base_url n.base_url) _ _ (λ _. (hm, rest)) (λ _. (h, (hm, hs)))

  sort_by_url-AllListed : (ns : List KmsNodeCacheEntry) → AllListed ns → AllListed (sort_by_url ns)
  unfolding sort_by_url
  sort_by_url-AllListed [] h = tt
  sort_by_url-AllListed (n ∷ ns) (h, hs) =
      insert_by_url-AllListed n _ h (sort_by_url-AllListed ns hs)

  -- Every node that the discovery gives is listed.
  pub discover_kms_nodes-AllListed :
      (s : State out.World) {nodes : List KmsNodeCacheEntry}
      → (discover_kms_nodes_from_registry out discovery s).1 ≡ ok nodes
      → AllListed nodes
  unfolding discover_kms_nodes_from_registry
  discover_kms_nodes-AllListed s {nodes} done =
      let (wallets, _, d1) =
        >>=-eq-ok (registry_get_active_instances out discovery discovery.kms_app_id) _ s done in
      let (found, collected, d2) = >>=-eq-ok (collect out discovery wallets _) _ _ d1 in
      let listed = sort_by_url-AllListed found.nodes (collect-Listed wallets _ _ tt collected) in
      let same : sort_by_url found.nodes ≡ nodes = ground arith in subst AllListed same listed

  -- The nodes of the cache are listed.
  abbrev pub CacheListed : Option DiscoveryCacheEntry → Type 0
  CacheListed none = Unit
  CacheListed (some cached) = AllListed cached.nodes

  fresh_nodes-AllListed :
      (now_ms : ℕ) (cache : Option DiscoveryCacheEntry) {nodes : List KmsNodeCacheEntry}
      → CacheListed cache
      → fresh_nodes out now_ms cache ≡ some nodes
      → AllListed nodes
  fresh_nodes-AllListed now_ms none h hit = absurd (cc)
  fresh_nodes-AllListed now_ms (some cached) {nodes} h hit =
      let same : cached.nodes ≡ nodes = ground arith in subst AllListed same h

  after_discovery-AllListed :
      (now_ms : ℕ) (r : Result Text (List KmsNodeCacheEntry)) (s : State out.World)
      {nodes : List KmsNodeCacheEntry}
      → ((found : List KmsNodeCacheEntry) → r ≡ ok found → AllListed found)
      → (after_discovery out discovery now_ms r s).1 ≡ ok nodes
      → AllListed nodes
  unfolding after_discovery set_discovery
  after_discovery-AllListed now_ms (err e) s listed done = absurd (cc)
  after_discovery-AllListed now_ms (ok []) s listed done = absurd (cc)
  after_discovery-AllListed now_ms (ok (n ∷ ns)) s {nodes} listed done =
      let same : merge_discovered_nodes_with_previous (n ∷ ns) s.discovery_cache now_ms ≡ nodes =
        ground arith in
      subst AllListed same
        (merge_discovered-AllOf Listed _ s.discovery_cache now_ms (listed (n ∷ ns) refl))

  or_else-AllListed :
      (hit : Option (List KmsNodeCacheEntry)) (next : Do out (List KmsNodeCacheEntry))
      (s : State out.World) {nodes : List KmsNodeCacheEntry}
      → ((found : List KmsNodeCacheEntry) → hit ≡ some found → AllListed found)
      → ((next s).1 ≡ ok nodes → AllListed nodes)
      → (or_else out hit next s).1 ≡ ok nodes
      → AllListed nodes
  or_else-AllListed none next s listed later done = later done
  or_else-AllListed (some found) next s {nodes} listed later done =
      let same : found ≡ nodes = ground arith in subst AllListed same (listed found refl)

  cached_or-AllListed :
      (now_ms : ℕ) (next : Do out (List KmsNodeCacheEntry)) (s : State out.World)
      {nodes : List KmsNodeCacheEntry}
      → CacheListed s.discovery_cache
      → ((next s).1 ≡ ok nodes → AllListed nodes)
      → (cached_or out now_ms next s).1 ≡ ok nodes
      → AllListed nodes
  unfolding cached_or
  cached_or-AllListed now_ms next s h later done =
      or_else-AllListed (fresh_nodes out now_ms s.discovery_cache) next s
        (λ found hit. fresh_nodes-AllListed now_ms s.discovery_cache h hit) later done

  discover_and_merge-AllListed :
      (now_ms : ℕ) (s : State out.World) {nodes : List KmsNodeCacheEntry}
      → (discover_and_merge out discovery now_ms s).1 ≡ ok nodes
      → AllListed nodes
  unfolding discover_and_merge
  discover_and_merge-AllListed now_ms s asked =
      let (r, tried, rest) =
        >>=-eq-ok (attempt (discover_kms_nodes_from_registry out discovery)) _ s asked in
      after_discovery-AllListed now_ms r _
        (λ found e.
          let answered : caught (discover_kms_nodes_from_registry out discovery s).1
              ≡ ok (ok found) =
            tried ∙ ap ok e in
          discover_kms_nodes-AllListed s (caught-eq-ok _ answered))
        rest

  refresh_discovered-AllListed :
      (s : State out.World) {nodes : List KmsNodeCacheEntry}
      → CacheListed s.discovery_cache
      → (refresh_discovered out discovery s).1 ≡ ok nodes
      → AllListed nodes
  unfolding refresh_discovered current_unix_millis
  refresh_discovered-AllListed s h done =
      let (w, now_ms) = out.unix_millis s.world in
      cached_or-AllListed now_ms (discover_and_merge out discovery now_ms) (record s { world = w })
        h (discover_and_merge-AllListed now_ms _) done

  discovered_with-AllListed :
      (s : State out.World) {nodes : List KmsNodeCacheEntry}
      → CacheListed s.discovery_cache
      → (discovered_with out discovery s).1 ≡ ok nodes
      → AllListed nodes
  unfolding discovered_with current_unix_millis
  discovered_with-AllListed s h done =
      let (w, now_ms) = out.unix_millis s.world in
      cached_or-AllListed now_ms (refresh_discovered out discovery) (record s { world = w }) h
        (refresh_discovered-AllListed (record s { world = w }) h) done

  resolve_discovered_nodes-AllListed :
      (config : Config) (s : State out.World) {nodes : List KmsNodeCacheEntry}
      → config.registry_discovery ≡ some discovery
      → CacheListed s.discovery_cache
      → (resolve_discovered_nodes out config s).1 ≡ ok nodes
      → AllListed nodes
  unfolding resolve_discovered_nodes
  resolve_discovered_nodes-AllListed config s {nodes} configured h done =
      let (d, found, asked) = >>=-eq-ok (lift (ok_or config.registry_discovery _)) _ s done in
      let configured_as = ok_or-some config.registry_discovery _ (raise-eq-ok _ found) in
      let same : d ≡ discovery = ground (arith, configured_as) in
      discovered_with-AllListed s h (subst (λ x. (discovered_with out x s).1 ≡ ok nodes) same asked)

  candidates_of-AllListed :
      (now_ms : ℕ) (nodes : List KmsNodeCacheEntry)
      → AllListed nodes
      → AllListed (candidates_of out now_ms nodes)
  unfolding candidates_of
  candidates_of-AllListed now_ms nodes h =
      if_elim AllListed (is_empty (resolve_connectable_nodes now_ms nodes)) _ _ (λ _. h)
        (λ _. resolve_connectable_nodes-AllOf Listed now_ms nodes h)

  -- Every node that a call may ask is listed, when the nodes of the cache are.
  pub resolve_node_candidates-AllListed :
      (config : Config) (s : State out.World) {nodes : List KmsNodeCacheEntry}
      → config.registry_discovery ≡ some discovery
      → CacheListed s.discovery_cache
      → (resolve_node_candidates out config s).1 ≡ ok nodes
      → AllListed nodes
  unfolding resolve_node_candidates
  resolve_node_candidates-AllListed config s {nodes} configured h done =
      let (discovered, found, d1) = >>=-eq-ok (resolve_discovered_nodes out config) _ s done in
      let (now_ms, _, d2) = >>=-eq-ok (current_unix_millis out) _ _ d1 in
      let same : candidates_of out now_ms discovered ≡ nodes = ground arith in
      subst AllListed same (
        candidates_of-AllListed now_ms discovered
          (resolve_discovered_nodes-AllListed config s configured h found))
