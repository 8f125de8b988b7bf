-- ===== src/Kms/Call/Answered.antt =====
-- What the answer of a call has behind it (`call_kms_json_internal` of
-- capsule-cli/src/integrations/nova_kms.rs).
use nova_enclave_capsule.Prelude.{
  ℕ, zero, suc, ◌+◌, true, Option, none, some, List, [], ◌∷◌, Result, ok, err, ◌≡◌, ap, ◌∙◌, inl,
  inr, ltb, if_cases, arith,
}
use nova_enclave_capsule.Prelude.Text.{Text}
use nova_enclave_capsule.Prelude.Action.{◌>>◌, attempt, >>=-eq-ok, caught, caught-eq-ok}
use nova_enclave_capsule.Kms.Outside.{Outside, Json, Method}
use nova_enclave_capsule.Kms.Address.{looks_like_connectivity_error}
use nova_enclave_capsule.Kms.Log.{preview_json_for_log}
use nova_enclave_capsule.Kms.Nodes.{KmsNodeCacheEntry}
use nova_enclave_capsule.Kms.Nodes.Kept.{Of, AllOf}
use nova_enclave_capsule.Kms.Proxy.{Config, RegistryDiscoveryConfig, State, Do, sleep, log}
use nova_enclave_capsule.Kms.Discovery.{resolve_node_candidates, update_node_reachability_cache}
use nova_enclave_capsule.Kms.Discovery.Listed.{
  Listed, CacheListed, resolve_node_candidates-AllListed,
}
use nova_enclave_capsule.Kms.Exchange.{call_kms_on_node}
use nova_enclave_capsule.Kms.Exchange.Accepted.{Answer, call_kms_on_node-Answer}
use nova_enclave_capsule.Kms.Call.{
  Errors, Tried, invalidate_if, unreachable_if, preview_payload, looks_like_signature_failure,
  answered, refused, note_error, no_errors, after_node, try_nodes, after_round, try_rounds,
  call_kms_json_internal,
}

module _ (out : Outside) (config : Config) (Q : (wallet base_url tee_pubkey : Text) → Type 0) where
  -- A node with the property, and the call of it that gave the value.
  pub record Given (method : Method) (path : Text) (payload : Option Json) (value : Json)
      : Type 0 where
    pub node : KmsNodeCacheEntry
    pub chosen : Of Q node
    pub before : State out.World
    pub gave : (call_kms_on_node out config node method path payload before).1 ≡ ok value

  after_node-Given :
      (method : Method) (path : Text) (payload : Option Json) (node : KmsNodeCacheEntry)
      (errors : Errors) (more : Errors → Do out Tried) (r : Result Text Json) (s : State out.World)
      {value : Json}
      → (r ≡ ok value → Given method path payload value)
      → ((e : Errors) (s' : State out.World)
          → (more e s').1 ≡ ok (answered value)
          → Given method path payload value)
      → (after_node out config node errors more r s).1 ≡ ok (answered value)
      → Given method path payload value
  unfolding after_node
  after_node-Given method path payload node errors more (ok v) s {value} here later done =
      let (_, _, d1) =
        >>=-eq-ok (update_node_reachability_cache out node.base_url true none none) _ s done in
      let (_, _, d2) = >>=-eq-ok (log out (preview_json_for_log out v)) _ _ d1 in
      let same : v ≡ value = ground arith in here (ap ok same)
  after_node-Given method path payload node errors more (err e) s here later done =
      let (_, _, d1) =
        >>=-eq-ok (invalidate_if out config (looks_like_signature_failure e) node.base_url) _ s
          done in
      let (_, _, d2) =
        >>=-eq-ok (unreachable_if out config (looks_like_connectivity_error e) node.base_url e) _ _
          d1 in
      later (note_error e errors) _ d2

  try_nodes-Given :
      (method : Method) (path : Text) (payload : Option Json) (nodes : List KmsNodeCacheEntry)
      (errors : Errors) (s : State out.World) {value : Json}
      → AllOf Q nodes
      → (try_nodes out config method path payload nodes errors s).1 ≡ ok (answered value)
      → Given method path payload value
  unfolding try_nodes
  try_nodes-Given method path payload [] errors s h done = absurd (ground arith)
  try_nodes-Given method path payload (node ∷ nodes) errors s {value} (h, hs) done =
      let (r, tried, rest) =
        >>=-eq-ok (attempt (call_kms_on_node out config node method path payload)) _ s done in
      after_node-Given method path payload node errors
        (try_nodes out config method path payload nodes) r _
        (λ e.
          let gave : caught (call_kms_on_node out config node method path payload s).1
              ≡ ok (ok value) =
            tried ∙ ap ok e in
          record { node = node; chosen = h; before = s; gave = caught-eq-ok _ gave })
        (λ e s' later. try_nodes-Given method path payload nodes e s' hs later) rest

  after_round-Given :
      (method : Method) (path : Text) (payload : Option Json) (idx : ℕ)
      (more : Errors → Do out Json) (r : Tried) (s : State out.World) {value : Json}
      → (r ≡ answered value → Given method path payload value)
      → ((e : Errors) (s' : State out.World)
          → (more e s').1 ≡ ok value
          → Given method path payload value)
      → (after_round out config idx more r s).1 ≡ ok value
      → Given method path payload value
  unfolding after_round
  after_round-Given method path payload idx more (answered v) s {value} here later done =
      let same : v ≡ value = ground arith in here (ap answered same)
  after_round-Given method path payload idx more (refused errors) s {value} here later done =
      elim (if_cases (λ (m : Do out Json). (m s).1 ≡ ok value) (ltb (idx + 1) config.max_retries)
        (sleep out 150 >> more errors) (more errors) done) [
          | inl (_, again) ↦ later errors (sleep out 150 s).0 again
          | inr (_, last) ↦ later errors s last
        ]

  try_rounds-Given :
      (method : Method) (path : Text) (payload : Option Json) (nodes : List KmsNodeCacheEntry)
      (left idx : ℕ) (errors : Errors) (s : State out.World) {value : Json}
      → AllOf Q nodes
      → (try_rounds out config method path payload nodes left idx errors s).1 ≡ ok value
      → Given method path payload value
  unfolding try_rounds
  try_rounds-Given method path payload nodes zero idx errors s h done = absurd (ground arith)
  try_rounds-Given method path payload nodes (suc left) idx errors s {value} h done =
      let (r, tried, rest) =
        >>=-eq-ok (try_nodes out config method path payload nodes errors) _ s done in
      after_round-Given method path payload idx
        (try_rounds out config method path payload nodes left (idx + 1)) r _
        (λ e. try_nodes-Given method path payload nodes errors s h (tried ∙ ap ok e))
        (λ e s' later. try_rounds-Given method path payload nodes left (idx + 1) e s' h later) rest

module _ (out : Outside) (config : Config) (discovery : RegistryDiscoveryConfig) where
  -- A value that a node gave which the registry lists, in an exchange that was checked.
  pub record Trusted (method : Method) (path : Text) (payload : Option Json) (value : Json)
      : Type 0 where
    pub given : Given out config (Listed out discovery) method path payload value
    pub answer : Answer out config given.node method path payload value

  pub call_kms_json_internal-Trusted :
      (method : Method) (path : Text) (payload : Option Json) (s : State out.World) {value : Json}
      → config.registry_discovery ≡ some discovery
      → config.require_mutual_signature ≡ true
      → CacheListed out discovery s.discovery_cache
      → (call_kms_json_internal out config method path payload s).1 ≡ ok value
      → Trusted method path payload value
  unfolding call_kms_json_internal
  call_kms_json_internal-Trusted method path payload s configured required h done =
      let (nodes, chosen, d1) = >>=-eq-ok (resolve_node_candidates out config) _ s done in
      let (_, _, d2) = >>=-eq-ok (log out (preview_payload out config payload)) _ _ d1 in
      let listed = resolve_node_candidates-AllListed out discovery config s configured h chosen in
      let given =
        try_rounds-Given out config (Listed out discovery) method path payload nodes
          config.max_retries 0 no_errors _ listed d2 in
      record {
        given = given;
        answer =
            call_kms_on_node-Answer out config given.node method path payload given.before required
              given.gave;
      }
