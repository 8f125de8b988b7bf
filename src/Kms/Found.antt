-- ===== src/Kms/Found.antt =====
-- The nodes that the registry names, in capsule-cli/src/integrations/nova_kms.rs
-- (`discover_kms_nodes_from_registry`).
use nova_enclave_capsule.Prelude.{
  ℕ, Bool, not, ◌||◌, Option, none, some, List, [], ◌∷◌, ◌++◌, ◌==◌, nat_eq, list_eq, if◌then◌else◌,
  any,
}
use nova_enclave_capsule.Prelude.Text.{Text, is_empty, text_lt}
use nova_enclave_capsule.Prelude.Action.{◌>>=◌, pure, lift}
use nova_enclave_capsule.Kms.Outside.{Outside}
use nova_enclave_capsule.Kms.Address.{trim_0x, canonical_wallet, normalize_base_url}
use nova_enclave_capsule.Kms.Nodes.{KmsNodeCacheEntry, new_node}
use nova_enclave_capsule.Kms.Proxy.{RegistryDiscoveryConfig, Do}
use nova_enclave_capsule.Kms.Registry.{
  RegistryInstance, registry_get_active_instances, registry_get_instance_by_wallet,
}

-- `sort_by` on the URL, which is stable.
unfoldable pub insert_by_url : KmsNodeCacheEntry → List KmsNodeCacheEntry → List KmsNodeCacheEntry
unfolding text_lt
insert_by_url n [] = n ∷ []
insert_by_url n (m ∷ ms) =
    let rest = insert_by_url n ms in if text_lt m.base_url n.base_url then m ∷ rest else n ∷ m ∷ ms

unfoldable pub sort_by_url : List KmsNodeCacheEntry → List KmsNodeCacheEntry
unfolding insert_by_url
sort_by_url [] = []
sort_by_url (n ∷ ns) = insert_by_url n (sort_by_url ns)

-- The nodes found so far, and the set of URLs seen.
pub record Found : Type 0 where
  pub nodes : List KmsNodeCacheEntry
  pub dedup : List Text

abbrev pub has_url : Text → List Text → Bool
has_url url = any (λ u. u == url)

unfoldable pub add_node : Text → Text → Text → Found → Found
unfolding new_node
add_node wallet url tee_pubkey found =
    if is_empty tee_pubkey
    then record { nodes = found.nodes; dedup = url ∷ found.dedup }
    else record {
      nodes = found.nodes ++ new_node wallet url tee_pubkey ∷ [];
      dedup = url ∷ found.dedup;
    }

unfoldable pub add_at : Text → Text → Option Text → Found → Found
unfolding add_node trim_0x
add_at wallet tee_pubkey none found = found
add_at wallet tee_pubkey (some url) found =
    if has_url url found.dedup then found else add_node wallet url (trim_0x tee_pubkey) found

module _ (out : Outside) where
  -- The body of the loop, once the registry has answered for a wallet.
  unfoldable pub consider : ℕ → Text → RegistryInstance → Found → Found
  unfolding add_at normalize_base_url
  consider kms_app_id wallet instance_ found =
      if not (instance_.app_id == kms_app_id)
      then found
      else if not (instance_.status == 0) || not instance_.zk_verified
      then found
      else add_at wallet instance_.tee_pubkey (normalize_base_url out instance_.instance_url) found

  unfoldable pub collect : RegistryDiscoveryConfig → List Text → Found → Do out Found
  unfolding canonical_wallet registry_get_instance_by_wallet consider
  collect discovery [] found = pure found
  collect discovery (wallet ∷ wallets) found = do
    canonical ← lift (canonical_wallet out wallet)
    instance_ ← registry_get_instance_by_wallet out discovery canonical
    collect discovery wallets (consider discovery.kms_app_id canonical instance_ found)

  unfoldable pub discover_kms_nodes_from_registry :
      RegistryDiscoveryConfig → Do out (List KmsNodeCacheEntry)
  unfolding collect sort_by_url registry_get_active_instances
  discover_kms_nodes_from_registry discovery = do
    wallets ← registry_get_active_instances out discovery discovery.kms_app_id
    found ← collect discovery wallets (record { nodes = []; dedup = [] })
    pure (sort_by_url found.nodes)
