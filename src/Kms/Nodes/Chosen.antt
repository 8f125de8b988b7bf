-- ===== src/Kms/Nodes/Chosen.antt =====
-- Which nodes the cache lets through, in capsule-cli/src/integrations/nova_kms.rs.
use nova_enclave_capsule.Prelude.{
  ℕ, Bool, true, false, Option, none, some, List, [], ◌∷◌, ◌++◌, ◌≡◌, ◌↔◌, ◌⊎◌, ◌<◌, ◌≤◌, inl, inr,
  refl, arith, Any, subst, ltb, Bool-cases,
}
use nova_enclave_capsule.Kms.Nodes.{
  KmsNodeCacheEntry, known, is_reachable, is_unknown, keep, resolve_connectable_nodes,
}

-- The node is one of the list.
abbrev pub Among : KmsNodeCacheEntry → List KmsNodeCacheEntry → Type 0
Among node nodes = Any (λ n. n ≡ node) nodes

Among-append :
    (node : KmsNodeCacheEntry) (xs ys : List KmsNodeCacheEntry)
    → Among node (xs ++ ys) ↔ (Among node xs ⊎ Among node ys)
Among-append node [] ys = ground arith
Among-append node (x ∷ xs) ys = ground (arith, Among-append node xs ys)

Among-keep :
    (p : KmsNodeCacheEntry → Bool) (node : KmsNodeCacheEntry) (xs : List KmsNodeCacheEntry)
    → Among node (keep p xs) ↔ (Among node xs × (p node ≡ true))
Among-keep p node [] = ground arith
Among-keep p node (x ∷ xs) = ground (arith, Among-keep p node xs)

-- The node was found unreachable, and that has not expired.
abbrev pub IsAvoided : ℕ → KmsNodeCacheEntry → Type 0
IsAvoided now_ms node = (node.reachable ≡ some false) × (now_ms < node.expires_at_ms)

Reachable-cases : (r : Option Bool) → (r ≡ none) ⊎ (r ≡ some true) ⊎ (r ≡ some false)
Reachable-cases none = inl refl
Reachable-cases (some true) = inr (inl refl)
Reachable-cases (some false) = inr (inr refl)

connectable_iff :
    (now_ms : ℕ) (node : KmsNodeCacheEntry)
    → ((is_reachable now_ms node ≡ true) ⊎ (is_unknown now_ms node ≡ true))
      ↔ (IsAvoided now_ms node → ⊥)
unfolding is_reachable is_unknown known
connectable_iff now_ms node = elim (Reachable-cases node.reachable) [
  | inl e ↦ ground arith
  | inr (inl e) ↦ ground arith
  | inr (inr e) ↦ ground arith
]

pub resolve_connectable_nodes_iff :
    (now_ms : ℕ) (nodes : List KmsNodeCacheEntry) (node : KmsNodeCacheEntry)
    → Among node (resolve_connectable_nodes now_ms nodes)
      ↔ (Among node nodes × (IsAvoided now_ms node → ⊥))
unfolding resolve_connectable_nodes
resolve_connectable_nodes_iff now_ms nodes node =
    let both =
      Among-append node (keep (is_reachable now_ms) nodes) (keep (is_unknown now_ms) nodes) in
    let a = Among-keep (is_reachable now_ms) node nodes in
    let b = Among-keep (is_unknown now_ms) node nodes in
    let c = connectable_iff now_ms node in ground (arith, both, a, b, c)

ltb-cases : (m n : ℕ) → (m < n) ⊎ (n ≤ m)
ltb-cases m n = elim (Bool-cases (ltb m n)) [
  | inl e ↦ inl (ground arith)
  | inr e ↦ inr (ground arith)
]

IsAvoided-cases :
    (now_ms : ℕ) (node : KmsNodeCacheEntry) → IsAvoided now_ms node ⊎ (IsAvoided now_ms node → ⊥)
IsAvoided-cases now_ms node = elim (Reachable-cases node.reachable) [
  | inl e ↦ inr (λ a. absurd (cc (e, a.0)))
  | inr (inl e) ↦ inr (λ a. absurd (cc (e, a.0)))
  | inr (inr e) ↦ elim (ltb-cases now_ms node.expires_at_ms) [
    | inl lt ↦ inl (e, lt)
    | inr ge ↦ inr (λ a. absurd (ground (arith, ge, a.1)))
  ]
]

-- When no node is left, the cache says of each that it cannot be reached.
pub resolve_connectable_nodes-none :
    (now_ms : ℕ) (nodes : List KmsNodeCacheEntry) (node : KmsNodeCacheEntry)
    → resolve_connectable_nodes now_ms nodes ≡ []
    → Among node nodes
    → IsAvoided now_ms node
resolve_connectable_nodes-none now_ms nodes node none_left there =
    elim (IsAvoided-cases now_ms node) [
      | inl avoided ↦ avoided
      | inr free ↦ absurd (
          subst (Among node) none_left
            ((resolve_connectable_nodes_iff now_ms nodes node).1 (there, free)))
    ]
