-- ===== src/Kms/Identity.antt =====
-- The identity of a node in capsule-cli/src/integrations/nova_kms.rs: what the node says it is, the
-- cache of that, and the comparison with the registry.
use nova_enclave_capsule.Prelude.{
  ℕ, not, Option, none, some, List, [], ◌∷◌, ◌++◌, Result, ok, err, ok_or, ◌==◌, nat_eq, list_eq,
  if◌then◌else◌, ltb,
}
use nova_enclave_capsule.Prelude.Words.{u64_mod, saturating_add}
use nova_enclave_capsule.Prelude.Text.{Text, codes, is_empty, trim}
use nova_enclave_capsule.Prelude.Action.{◌>>=◌, ◌>>◌, pure, lift, bail, get_state}
use nova_enclave_capsule.Kms.Outside.{Outside, Json, default_client, get_method}
use nova_enclave_capsule.Kms.Address.{trim_0x, canonical_wallet}
use nova_enclave_capsule.Kms.Nodes.{KmsNodeCacheEntry}
use nova_enclave_capsule.Kms.Proxy.{
  KmsNodeIdentity, CachedNodeIdentity, Do, current_unix_millis, send, text_field,
}

abbrev pub identity_ttl_ms : ℕ
identity_ttl_ms = 30_000

-- The map of identities: the entry of a URL, and the map without it.
abbrev pub lookup : Text → List (Text × CachedNodeIdentity) → Option CachedNodeIdentity
lookup url [] = none
lookup url (e ∷ es) = let rest = lookup url es in if e.0 == url then some e.1 else rest

abbrev pub remove : Text → List (Text × CachedNodeIdentity) → List (Text × CachedNodeIdentity)
remove url [] = []
remove url (e ∷ es) = let rest = remove url es in if e.0 == url then rest else e ∷ rest

abbrev pub fresh_identity : ℕ → Option CachedNodeIdentity → Option KmsNodeIdentity
fresh_identity now_ms none = none
fresh_identity now_ms (some entry) =
    if ltb now_ms entry.expires_at_ms then some entry.identity else none

module _ (out : Outside) where
  unfoldable pub invalidate_node_identity_cache : Text → Do out (Unit {0})
  invalidate_node_identity_cache url s =
      (record s { node_identity_cache = remove url s.node_identity_cache }, ok tt)

  unfoldable pub cache_node_identity : Text → KmsNodeIdentity → ℕ → Do out (Unit {0})
  cache_node_identity url identity now_ms s = (
    record s {
      node_identity_cache =
          (
            url,
            record {
              identity = identity;
              expires_at_ms = saturating_add u64_mod now_ms identity_ttl_ms;
            },
          )
          ∷ remove url s.node_identity_cache;
    },
    ok tt,
  )

  abbrev pub dropped_if_none : Text → Option KmsNodeIdentity → Do out (Option KmsNodeIdentity)
  unfolding invalidate_node_identity_cache
  dropped_if_none url (some identity) = pure (some identity)
  dropped_if_none url none = do invalidate_node_identity_cache url; pure none

  unfoldable pub cached_node_identity : Text → ℕ → Do out (Option KmsNodeIdentity)
  unfolding dropped_if_none
  cached_node_identity url now_ms = do
    s ← get_state
    dropped_if_none url (fresh_identity now_ms (lookup url s.node_identity_cache))

  -- `self.client.get(url).send()?.error_for_status()?.json()?`
  unfoldable pub get_json : Text → Do out Json
  unfolding send
  get_json url = do
    response ← send out default_client get_method url [] none
    accepted ← lift (out.error_for_status response)
    lift (out.json accepted)

  unfoldable pub fetch_node_identity : Text → Do out KmsNodeIdentity
  unfolding get_json text_field trim canonical_wallet trim_0x
  fetch_node_identity base_url = do
    data_ ← get_json (base_url ++ codes "/status")
    node ← lift (ok_or (out.get data_ (codes "node")) (codes "KMS /status response missing node"))
    wallet ← lift (
        text_field out node (codes "tee_wallet")
          (codes "KMS /status response missing node.tee_wallet"))
    tee_pubkey ← lift (
        text_field out node (codes "tee_pubkey")
          (codes "KMS /status response missing node.tee_pubkey"))
    if is_empty (trim tee_pubkey) then bail (codes "KMS /status returned empty tee_pubkey") else (do
      canonical ← lift (canonical_wallet out wallet)
      pure (record { wallet = canonical; tee_pubkey = trim_0x tee_pubkey }))

  abbrev pub or_fetched : KmsNodeCacheEntry → ℕ → Option KmsNodeIdentity → Do out KmsNodeIdentity
  unfolding fetch_node_identity cache_node_identity
  or_fetched node now_ms (some identity) = pure identity
  or_fetched node now_ms none = do
    fetched ← fetch_node_identity node.base_url
    cache_node_identity node.base_url fetched now_ms
    pure fetched

  unfoldable pub resolve_node_identity : KmsNodeCacheEntry → Do out KmsNodeIdentity
  unfolding current_unix_millis cached_node_identity or_fetched
  resolve_node_identity node = do
    now_ms ← current_unix_millis out
    cached ← cached_node_identity node.base_url now_ms
    or_fetched node now_ms cached

  abbrev pub of_node : KmsNodeCacheEntry → Text → Text
  of_node node wallet = codes " for node=" ++ (node.base_url ++ (codes " wallet=" ++ wallet))

  unfoldable pub check_binding :
      KmsNodeCacheEntry
      → KmsNodeIdentity
      → (registry_wallet status_wallet : Text) → Result Text Text
  unfolding trim_0x
  check_binding node identity registry_wallet status_wallet =
      if not (status_wallet == registry_wallet)
      then err (
          codes "KMS node wallet mismatch for node="
          ++ (node.base_url
              ++ (codes " registry_wallet="
                  ++ (registry_wallet ++ (codes " status_wallet=" ++ status_wallet)))))
      else if is_empty (trim_0x node.tee_pubkey)
      then err (codes "registry discovery missing tee_pubkey" ++ of_node node registry_wallet)
      else if is_empty (trim_0x identity.tee_pubkey)
      then err (codes "KMS /status returned empty tee_pubkey" ++ of_node node status_wallet)
      else if not (trim_0x identity.tee_pubkey == trim_0x node.tee_pubkey)
      then err (codes "KMS node tee_pubkey mismatch" ++ of_node node registry_wallet)
      else ok (trim_0x node.tee_pubkey)

  -- The key of the registry, when the node's own identity is that of the registry.
  unfoldable pub verify_node_identity_binding :
      KmsNodeCacheEntry → KmsNodeIdentity → Result Text Text
  unfolding canonical_wallet check_binding
  verify_node_identity_binding node identity = elim (canonical_wallet out node.wallet) [
    | err e ↦ err e
    | ok registry_wallet ↦ elim (canonical_wallet out identity.wallet) [
      | err e ↦ err e
      | ok status_wallet ↦ check_binding node identity registry_wallet status_wallet
    ]
  ]
