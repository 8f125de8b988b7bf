-- ===== src/CapsuleApi/ReplayCache.antt =====
-- `NonceReplayCache` of capsule-cli/src/capsule_api.rs. A fingerprint is its 32 bytes, and a
-- `HashSet` is the list of its elements.
pub mod Window
pub mod Replay
use nova_enclave_capsule.Prelude.{
  ℕ, Bool, true, false, List, [], ◌∷◌, ◌++◌, ◌==◌, nat_eq, list_eq, any, length, ltb, if◌then◌else◌,
}

abbrev pub Fingerprint : Type 0
Fingerprint = List ℕ

pub record NonceReplayCache : Type 0 where
  pub capacity : ℕ
  pub order : List Fingerprint
  pub seen : List Fingerprint

abbrev pub contains : Fingerprint → List Fingerprint → Bool
contains f = any (λ u. u == f)

abbrev pub remove : Fingerprint → List Fingerprint → List Fingerprint
remove f [] = []
remove f (u ∷ us) = let rest = remove f us in if u == f then rest else u ∷ rest

unfoldable pub new_cache : ℕ → NonceReplayCache
new_cache capacity = record { capacity = capacity; order = []; seen = [] }

-- The `while` loop, on the queue and the set.
unfoldable pub evict : ℕ → List Fingerprint → List Fingerprint → List Fingerprint × List Fingerprint
evict capacity [] seen = ([], seen)
evict capacity (oldest ∷ rest) seen =
    let shorter = evict capacity rest (remove oldest seen) in
    if ltb capacity (length (oldest ∷ rest)) then shorter else (oldest ∷ rest, seen)

unfoldable pub push : Fingerprint → NonceReplayCache → NonceReplayCache
unfolding evict
push f cache =
    let (order, seen) = evict cache.capacity (cache.order ++ f ∷ []) (f ∷ cache.seen) in
    record { capacity = cache.capacity; order = order; seen = seen }

unfoldable pub insert_if_new : Fingerprint → NonceReplayCache → Bool × NonceReplayCache
unfolding push
insert_if_new f cache = if contains f cache.seen then (false, cache) else (true, push f cache)
