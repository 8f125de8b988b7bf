-- ===== src/Manifest/Helios.antt =====
-- The check of the Helios chains in capsule-cli/src/manifest.rs. `str::to_lowercase`, which reads
-- the tables of Unicode, is a parameter.
use nova_enclave_capsule.Prelude.{
  ℕ, Bool, true, false, not, Option, none, some, List, [], ◌∷◌, Result, ok, ◌>>=◌, ◌>>◌, fail_if,
  ok_or, ◌≡◌, ◌≢◌, refl, subst, ◌↔◌, inl, inr, arith, nat_eq, list_eq, All, seen, Distinct, Fresh,
  Fresh-nil, Result-cases, Option-cases,
}
use mathlib.Core.List.{map}
use nova_enclave_capsule.Prelude.Text.{Text, codes, is_empty, trim}
use nova_enclave_capsule.Manifest.{
  HeliosRpc, HeliosRpcChain, HeliosRpcKind, ethereum, opstack, ManifestError, chain_name_required,
  network_id_empty, execution_rpc_required, network_required, network_unsupported, chains_required,
  chains_empty, duplicate_chain_name, duplicate_rpc_port,
}

abbrev pub networks : HeliosRpcKind → List Text
networks ethereum = codes "mainnet" ∷ codes "sepolia" ∷ codes "holesky" ∷ []
networks opstack =
    codes "op-mainnet"
    ∷ codes "base"
    ∷ codes "base-sepolia"
    ∷ codes "worldchain"
    ∷ codes "zora"
    ∷ codes "unichain"
    ∷ []

-- `as_deref().map(str::trim).is_some_and(str::is_empty)`
abbrev blank : Option Text → Bool
blank none = false
blank (some text) = is_empty (trim text)

module _ (to_lowercase : Text → Text) where
  unfoldable pub validate_helios_network : HeliosRpcKind → Text → Result ManifestError (Unit {0})
  validate_helios_network kind network = do
    fail_if (is_empty (to_lowercase (trim network))) network_required
    fail_if (not (seen (to_lowercase (trim network)) (networks kind))) network_unsupported

  unfoldable pub validate_chain : HeliosRpcChain → Result ManifestError (Unit {0})
  unfolding validate_helios_network
  validate_chain chain = do
    fail_if (is_empty (trim chain.name)) chain_name_required
    fail_if (blank chain.network_id) network_id_empty
    fail_if (is_empty (trim chain.execution_rpc)) execution_rpc_required
    validate_helios_network chain.kind chain.network

  abbrev pub chain_key : HeliosRpcChain → Text
  chain_key chain = to_lowercase (trim chain.name)

  abbrev pub port_key : HeliosRpcChain → ℕ
  port_key chain = chain.local_rpc_port

  -- The loop of `HeliosRpc::validate`, with the names and the ports that it has met.
  unfoldable pub validate_chains :
      List Text → List ℕ → List HeliosRpcChain → Result ManifestError (Unit {0})
  unfolding validate_chain
  validate_chains names ports [] = ok tt
  validate_chains names ports (chain ∷ chains) = do
    validate_chain chain
    fail_if (seen (chain_key chain) names) duplicate_chain_name
    fail_if (seen (port_key chain) ports) duplicate_rpc_port
    validate_chains (chain_key chain ∷ names) (port_key chain ∷ ports) chains

  unfoldable pub validate_enabled_helios : HeliosRpc → Result ManifestError (Unit {0})
  unfolding validate_chains
  validate_enabled_helios helios = do
    chains ← ok_or helios.chains chains_required
    fail_if (is_empty chains) chains_empty
    validate_chains [] [] chains

  unfoldable pub validate_helios : HeliosRpc → Result ManifestError (Unit {0})
  unfolding validate_enabled_helios
  validate_helios helios = elim helios.enabled [
    | false ↦ ok tt
    | true ↦ validate_enabled_helios helios
  ]

  -- A chain as it should be: a name, no blank network id, an RPC server, and a network that its
  -- kind has.
  abbrev pub IsChain : HeliosRpcChain → Type 0
  IsChain chain =
      (is_empty (trim chain.name) ≡ false)
      × (blank chain.network_id ≡ false)
      × (is_empty (trim chain.execution_rpc) ≡ false)
      × (seen (to_lowercase (trim chain.network)) (networks chain.kind) ≡ true)

  networks_full : (kind : HeliosRpcKind) → seen [] (networks kind) ≡ false
  networks_full ethereum = refl
  networks_full opstack = refl

  validate_helios_network_iff :
      (kind : HeliosRpcKind) (network : Text)
      → (validate_helios_network kind network ≡ ok tt)
        ↔ (seen (to_lowercase (trim network)) (networks kind) ≡ true)
  unfolding validate_helios_network
  validate_helios_network_iff kind network = by_text (to_lowercase (trim network))
    where
      by_text :
          (text : Text)
          → ((fail_if (is_empty text) network_required
                >> fail_if (not (seen text (networks kind))) network_unsupported)
              ≡ ok tt)
            ↔ (seen text (networks kind) ≡ true)
      by_text [] = ((λ h. absurd (cc)), (λ h. absurd (cc (networks_full kind))))
      by_text (c ∷ text) = ground arith

  validate_chain-IsChain : (chain : HeliosRpcChain) → (validate_chain chain ≡ ok tt) ↔ IsChain chain
  unfolding validate_chain
  validate_chain-IsChain chain =
      ground (arith, validate_helios_network_iff chain.kind chain.network)

  validate_chains_iff :
      (names : List Text) (ports : List ℕ) (chains : List HeliosRpcChain)
      → (validate_chains names ports chains ≡ ok tt) ↔ (
          All IsChain chains
          × Fresh names (map chain_key chains)
          × Fresh ports (map port_key chains))
  unfolding validate_chains
  validate_chains_iff names ports [] = ((λ h. (tt, tt, tt)), (λ h. refl))
  validate_chains_iff names ports (chain ∷ chains) =
      let here = validate_chain-IsChain chain in
      let later = validate_chains_iff (chain_key chain ∷ names) (port_key chain ∷ ports) chains in
      (
        (λ h. elim (Result-cases (validate_chain chain)) [
          | inl (e, refused) ↦ absurd (ground arith)
          | inr (tt, valid) ↦
              let parts : (seen (chain_key chain) names ≡ false)
                  × (seen (port_key chain) ports ≡ false)
                  × (validate_chains (chain_key chain ∷ names) (port_key chain ∷ ports) chains
                      ≡ ok tt) =
                ground arith in
              let r = later.0 parts.2 in ((here.0 valid, r.0), (parts.0, r.1), (parts.1, r.2))
        ]),
        (λ ((c, cs), (unnamed, fresh), (unused, free)).
            let valid = here.1 c in
            let rest = later.1 (cs, fresh, free) in
            rw (validate_chains, valid, unnamed, unused, rest) refl),
      )

  -- At least one chain, each as it should be, no two of one name in lower case, none on one port.
  abbrev pub AreChains : List HeliosRpcChain → Type 0
  AreChains chains =
      (chains ≢ [])
      × All IsChain chains
      × Distinct (map chain_key chains)
      × Distinct (map port_key chains)

  chains_iff :
      (chains : List HeliosRpcChain)
      → ((fail_if (is_empty chains) chains_empty >> validate_chains [] [] chains) ≡ ok tt)
        ↔ AreChains chains
  chains_iff [] = ((λ h. absurd (cc)), (λ h. absurd (h.0 refl)))
  chains_iff (chain ∷ chains) =
      let loop = validate_chains_iff [] [] (chain ∷ chains) in
      let names = Fresh-nil (map chain_key (chain ∷ chains)) in
      let ports = Fresh-nil (map port_key (chain ∷ chains)) in
      (
        (λ h. let r = loop.0 h in ((λ e. absurd (cc)), r.0, names.0 r.1, ports.0 r.2)),
        (λ (full, valid, n, p). loop.1 (valid, names.1 n, ports.1 p)),
      )

  -- Helios that is switched on is accepted exactly if it has chains, each as it should be, no two
  -- of one name in lower case, and no two on one port.
  pub validate_helios_iff :
      (helios : HeliosRpc)
      → helios.enabled ≡ true
      → (validate_helios helios ≡ ok tt)
        ↔ ((chains : List HeliosRpcChain) × (helios.chains ≡ some chains) × AreChains chains)
  unfolding validate_helios validate_enabled_helios
  validate_helios_iff helios on = elim (Option-cases helios.chains) [
    | inl missing ↦ ((λ h. absurd (ground arith)), (λ h. absurd (ground arith)))
    | inr (chains, given) ↦
        let loop = chains_iff chains in
        (
          (λ h.
              let full : (fail_if (is_empty chains) chains_empty >> validate_chains [] [] chains)
                  ≡ ok tt =
                ground arith in
              (chains, given, loop.0 full)),
          (λ (others, named, valid).
              let same : others ≡ chains = ground arith in
              let full = loop.1 (subst AreChains same valid) in
              rw (validate_helios, on, validate_enabled_helios, given) full),
        )
  ]
