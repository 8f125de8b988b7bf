-- ===== src/Kms/Nodes/Kept.antt =====
-- The cache of nodes of capsule-cli/src/integrations/nova_kms.rs changes what is known of a node's
-- connectivity, never its wallet, its URL or its key.
use nova_enclave_capsule.Prelude.{
  ℕ, Bool, Option, none, some, List, [], ◌∷◌, ◌==◌, nat_eq, list_eq, if_elim, All, All-append,
}
use nova_enclave_capsule.Prelude.Text.{Text}
use nova_enclave_capsule.Kms.Nodes.{
  KmsNodeCacheEntry, DiscoveryCacheEntry, mark_reachability, last_by_url, with_status_of, status_if,
  merge_with, merge_discovered_nodes_with_previous, merge_refresh_with_live_cache, keep,
  is_reachable, is_unknown, resolve_connectable_nodes, update_first,
}

module _ (Q : (wallet base_url tee_pubkey : Text) → Type 0) where
  -- A property of the wallet, the URL and the key of a node.
  abbrev pub Of : KmsNodeCacheEntry → Type 0
  Of node = Q node.wallet node.base_url node.tee_pubkey

  abbrev pub AllOf : List KmsNodeCacheEntry → Type 0
  AllOf nodes = All Of nodes

  status_if-Of :
      (serves : KmsNodeCacheEntry → Bool) (found : Option KmsNodeCacheEntry)
      (node : KmsNodeCacheEntry)
      → Of node
      → Of (status_if serves found node)
  unfolding with_status_of
  status_if-Of serves none node h = h
  status_if-Of serves (some earlier) node h = if_elim Of (serves earlier) _ node (λ _. h) (λ _. h)

  merge_with-AllOf :
      (serves : KmsNodeCacheEntry → KmsNodeCacheEntry → Bool)
      (earlier nodes : List KmsNodeCacheEntry)
      → AllOf nodes
      → AllOf (merge_with serves earlier nodes)
  unfolding merge_with
  merge_with-AllOf serves earlier [] h = tt
  merge_with-AllOf serves earlier (n ∷ ns) (h, hs) = (
    status_if-Of (serves n) (last_by_url n.base_url earlier) n h,
    merge_with-AllOf serves earlier ns hs,
  )

  pub merge_discovered-AllOf :
      (nodes : List KmsNodeCacheEntry) (previous : Option DiscoveryCacheEntry) (now_ms : ℕ)
      → AllOf nodes
      → AllOf (merge_discovered_nodes_with_previous nodes previous now_ms)
  unfolding merge_discovered_nodes_with_previous
  merge_discovered-AllOf nodes none now_ms h = h
  merge_discovered-AllOf nodes (some previous) now_ms h = merge_with-AllOf _ previous.nodes nodes h

  pub merge_refresh-AllOf :
      (nodes : List KmsNodeCacheEntry) (live : Option DiscoveryCacheEntry) (now_ms : ℕ)
      → AllOf nodes
      → AllOf (merge_refresh_with_live_cache nodes live now_ms)
  unfolding merge_refresh_with_live_cache
  merge_refresh-AllOf nodes none now_ms h = h
  merge_refresh-AllOf nodes (some live) now_ms h = merge_with-AllOf _ live.nodes nodes h

  keep-AllOf :
      (p : KmsNodeCacheEntry → Bool) (nodes : List KmsNodeCacheEntry)
      → AllOf nodes
      → AllOf (keep p nodes)
  keep-AllOf p [] h = tt
  keep-AllOf p (n ∷ ns) (h, hs) =
      let rest = keep-AllOf p ns hs in if_elim AllOf (p n) _ _ (λ _. (h, rest)) (λ _. rest)

  pub resolve_connectable_nodes-AllOf :
      (now_ms : ℕ) (nodes : List KmsNodeCacheEntry)
      → AllOf nodes
      → AllOf (resolve_connectable_nodes now_ms nodes)
  unfolding resolve_connectable_nodes
  resolve_connectable_nodes-AllOf now_ms nodes h =
      All-append Of _ _ (keep-AllOf (is_reachable now_ms) nodes h)
        (keep-AllOf (is_unknown now_ms) nodes h)

  pub update_first-AllOf :
      (url : Text) (now : ℕ) (reachable : Bool) (expires_at_ms : ℕ) (status : Option ℕ)
      (message : Option Text) (nodes : List KmsNodeCacheEntry)
      → AllOf nodes
      → AllOf
          (update_first url (mark_reachability now reachable expires_at_ms status message) nodes)
  unfolding update_first mark_reachability
  update_first-AllOf url now reachable expires_at_ms status message [] h = tt
  update_first-AllOf url now reachable expires_at_ms status message (n ∷ ns) (h, hs) =
      let rest = update_first-AllOf url now reachable expires_at_ms status message ns hs in
      if_elim AllOf (n.base_url == url) _ _ (λ _. (h, hs)) (λ _. (h, rest))
