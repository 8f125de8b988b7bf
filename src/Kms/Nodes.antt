-- ===== src/Kms/Nodes.antt =====
-- The cache of nodes of capsule-cli/src/integrations/nova_kms.rs: what a lookup, a refresh and a
-- call make of what is known of each node's connectivity.
pub mod Kept
pub mod Chosen
use nova_enclave_capsule.Prelude.{
  ℕ, Bool, true, false, ◌&&◌, Option, none, some, List, [], ◌∷◌, ◌++◌, ◌==◌, nat_eq, list_eq,
  if◌then◌else◌, ltb,
}
use nova_enclave_capsule.Prelude.Text.{Text}
use nova_enclave_capsule.Kms.Address.{trim_0x}

pub record KmsNodeCacheEntry : Type 0 where
  pub wallet : Text
  pub base_url : Text
  pub tee_pubkey : Text
  pub reachable : Option Bool
  pub expires_at_ms : ℕ
  pub last_checked_ms : ℕ
  pub last_http_status : Option ℕ
  pub last_error : Option Text

pub record DiscoveryCacheEntry : Type 0 where
  pub nodes : List KmsNodeCacheEntry
  pub expires_at_ms : ℕ

-- `KmsNodeCacheEntry::new`
unfoldable pub new_node : (wallet base_url tee_pubkey : Text) → KmsNodeCacheEntry
unfolding trim_0x
new_node wallet base_url tee_pubkey = record {
  wallet = wallet;
  base_url = base_url;
  tee_pubkey = trim_0x tee_pubkey;
  reachable = none;
  expires_at_ms = 0;
  last_checked_ms = 0;
  last_http_status = none;
  last_error = none;
}

-- `now` is the clock when the mark is made.
unfoldable pub mark_reachability :
    ℕ → Bool → ℕ → Option ℕ → Option Text → KmsNodeCacheEntry → KmsNodeCacheEntry
mark_reachability now reachable expires_at_ms last_http_status last_error node = record node {
  reachable = some reachable;
  expires_at_ms = expires_at_ms;
  last_checked_ms = now;
  last_http_status = last_http_status;
  last_error = last_error;
}

-- The entry of a URL in the map that is collected from a list: the last one.
unfoldable pub last_by_url : Text → List KmsNodeCacheEntry → Option KmsNodeCacheEntry
last_by_url url [] = none
last_by_url url (n ∷ ns) = elim (last_by_url url ns) [
  | some later ↦ some later
  | none ↦ if n.base_url == url then some n else none
]

-- The five fields that are copied from an earlier entry.
unfoldable pub with_status_of : KmsNodeCacheEntry → KmsNodeCacheEntry → KmsNodeCacheEntry
with_status_of earlier node = record node {
  reachable = earlier.reachable;
  expires_at_ms = earlier.expires_at_ms;
  last_checked_ms = earlier.last_checked_ms;
  last_http_status = earlier.last_http_status;
  last_error = earlier.last_error;
}

-- A node, with the status of the entry found for it when that one serves.
abbrev pub status_if :
    (KmsNodeCacheEntry → Bool) → Option KmsNodeCacheEntry → KmsNodeCacheEntry → KmsNodeCacheEntry
unfolding with_status_of
status_if serves none node = node
status_if serves (some earlier) node = if serves earlier then with_status_of earlier node else node

unfoldable pub merge_with :
    (KmsNodeCacheEntry → KmsNodeCacheEntry → Bool)
    → List KmsNodeCacheEntry
    → List KmsNodeCacheEntry
    → List KmsNodeCacheEntry
unfolding status_if last_by_url
merge_with serves earlier [] = []
merge_with serves earlier (n ∷ ns) =
    status_if (serves n) (last_by_url n.base_url earlier) n ∷ merge_with serves earlier ns

unfoldable pub merge_discovered_nodes_with_previous :
    List KmsNodeCacheEntry → Option DiscoveryCacheEntry → ℕ → List KmsNodeCacheEntry
unfolding merge_with
merge_discovered_nodes_with_previous discovered none now_ms = discovered
merge_discovered_nodes_with_previous discovered (some previous) now_ms =
    merge_with (λ node earlier. ltb now_ms earlier.expires_at_ms) previous.nodes discovered

unfoldable pub merge_refresh_with_live_cache :
    List KmsNodeCacheEntry → Option DiscoveryCacheEntry → ℕ → List KmsNodeCacheEntry
unfolding merge_with
merge_refresh_with_live_cache refreshed none now_ms = refreshed
merge_refresh_with_live_cache refreshed (some live) now_ms =
    merge_with
      (λ node entry.
        ltb node.last_checked_ms entry.last_checked_ms && ltb now_ms entry.expires_at_ms)
      live.nodes refreshed

-- What the cache says of a node now.
pub data Known : Type 0 where
  reachable unreachable unknown : Known

abbrev known_as : Option Bool → Bool → Known
known_as (some true) true = reachable
known_as (some false) true = unreachable
known_as r fresh = unknown

unfoldable pub known : ℕ → KmsNodeCacheEntry → Known
known now_ms node = known_as node.reachable (ltb now_ms node.expires_at_ms)

unfoldable pub is_reachable : ℕ → KmsNodeCacheEntry → Bool
unfolding known
is_reachable now_ms node = elim (known now_ms node) [
  | reachable ↦ true
  | unreachable ↦ false
  | unknown ↦ false
]

unfoldable pub is_unknown : ℕ → KmsNodeCacheEntry → Bool
unfolding known
is_unknown now_ms node = elim (known now_ms node) [
  | reachable ↦ false
  | unreachable ↦ false
  | unknown ↦ true
]

abbrev pub keep : (KmsNodeCacheEntry → Bool) → List KmsNodeCacheEntry → List KmsNodeCacheEntry
keep p [] = []
keep p (n ∷ ns) = let rest = keep p ns in if p n then n ∷ rest else rest

-- The nodes to ask, in their order: those known to be reachable, then those that nothing is known of.
unfoldable pub resolve_connectable_nodes : ℕ → List KmsNodeCacheEntry → List KmsNodeCacheEntry
unfolding is_reachable is_unknown
resolve_connectable_nodes now_ms nodes =
    keep (is_reachable now_ms) nodes ++ keep (is_unknown now_ms) nodes

-- `iter_mut().find`: the first node at the URL is changed.
unfoldable pub update_first :
    Text → (KmsNodeCacheEntry → KmsNodeCacheEntry) → List KmsNodeCacheEntry → List KmsNodeCacheEntry
update_first url change [] = []
update_first url change (n ∷ ns) =
    let rest = update_first url change ns in if n.base_url == url then change n ∷ ns else n ∷ rest
