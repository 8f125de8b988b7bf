-- ===== src/Kms/Discovery/Chosen.antt =====
-- Which nodes are the candidates for a call, in capsule-cli/src/integrations/nova_kms.rs.
use nova_enclave_capsule.Prelude.{ℕ, List, [], ◌∷◌, ◌≡◌, ◌↔◌, ◌⊎◌, inl, inr, refl, if◌then◌else◌}
use nova_enclave_capsule.Prelude.Text.{is_empty}
use nova_enclave_capsule.Kms.Outside.{Outside}
use nova_enclave_capsule.Kms.Nodes.{KmsNodeCacheEntry, resolve_connectable_nodes}
use nova_enclave_capsule.Kms.Nodes.Chosen.{
  Among, IsAvoided, resolve_connectable_nodes_iff, resolve_connectable_nodes-none,
}
use nova_enclave_capsule.Kms.Discovery.{candidates_of}

chosen_iff :
    (now_ms : ℕ) (nodes chosen : List KmsNodeCacheEntry) (node : KmsNodeCacheEntry)
    → ((n : KmsNodeCacheEntry) → Among n chosen ↔ (Among n nodes × (IsAvoided now_ms n → ⊥)))
    → (chosen ≡ [] → (n : KmsNodeCacheEntry) → Among n nodes → IsAvoided now_ms n)
    → Among node (if is_empty chosen then nodes else chosen) ↔ (
        Among node nodes
        × ((IsAvoided now_ms node → ⊥)
            ⊎ ((n : KmsNodeCacheEntry) → Among n nodes → IsAvoided now_ms n)))
chosen_iff now_ms nodes [] node exact avoided = (λ there. (there, inr (avoided refl)), λ h. h.0)
chosen_iff now_ms nodes (c ∷ cs) node exact avoided = (
  λ there. let (found, free) = (exact node).0 there in (found, inl free),
  λ h. elim h.1 [
    | inl free ↦ (exact node).1 (h.0, free)
    | inr all_avoided ↦
        let (found, free) = (exact c).0 (inl refl) in absurd (free (all_avoided c found))
  ],
)

module _ (out : Outside) where
  -- A node is a candidate for a call exactly if it was discovered and either the cache does not say
  -- that it was found unreachable, in an entry that has not expired, or the cache says so of every
  -- discovered node, when all of them are candidates.
  pub candidates_of_iff :
      (now_ms : ℕ) (nodes : List KmsNodeCacheEntry) (node : KmsNodeCacheEntry)
      → Among node (candidates_of out now_ms nodes) ↔ (
          Among node nodes
          × ((IsAvoided now_ms node → ⊥)
              ⊎ ((n : KmsNodeCacheEntry) → Among n nodes → IsAvoided now_ms n)))
  unfolding candidates_of
  candidates_of_iff now_ms nodes node =
      chosen_iff now_ms nodes (resolve_connectable_nodes now_ms nodes) node
        (resolve_connectable_nodes_iff now_ms nodes)
        (λ none_left n. resolve_connectable_nodes-none now_ms nodes n none_left)
