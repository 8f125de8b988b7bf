-- ===== src/Manifest/Parse/Accepted.antt =====
-- What holds of a manifest that `parse_manifest` of capsule-cli/src/manifest.rs accepts.
use nova_enclave_capsule.Prelude.{
  ℕ, ◌<◌, true, Option, none, some, List, Result, ok, err, ◌>>◌, ◌≡◌, ◌≢◌, refl, subst, ◌⊎◌, inl,
  inr, arith, nat_eq, list_eq, All, Any, any_sound, Option-cases, Distinct, ok_or-eq-ok,
}
use mathlib.Core.List.{map}
use nova_enclave_capsule.Prelude.Text.{Text}
use nova_enclave_capsule.Manifest.{
  Manifest, KmsIntegration, HeliosRpc, HeliosRpcChain, HostFsMountConfig, CapsuleApi,
  effective_aux_api_port, effective_clock_sync, hostfs_mounts, ManifestError,
}
use nova_enclave_capsule.Manifest.Mounts.{
  validate_storage, validate_storage_iff, IsMount, mount_key, path_key, component_eq,
}
use nova_enclave_capsule.Manifest.Kms.{registry_discovery_configured, validate_kms}
use nova_enclave_capsule.Manifest.Helios.{validate_helios}
use nova_enclave_capsule.Manifest.Parse.{
  kms_registry_helios_port, validate_clock_sync, if_some, validate_ports, serves_registry,
  validate_registry_helios, needs_registry, validate_parts, validate_manifest_cross_constraints,
  parse_manifest,
}

seq-eq-ok :
    {B : Type 0} (m : Result ManifestError (Unit {0})) (k : Result ManifestError B) {b : B}
    → (m >> k) ≡ ok b
    → (m ≡ ok tt) × (k ≡ ok b)
seq-eq-ok (ok tt) k h = (refl, h)
seq-eq-ok (err e) k h = absurd (cc)

-- Each part that is there has passed its check.
record IsChecked (hex_decode : Text → Option (List ℕ)) (to_lowercase : Text → Text)
    (manifest : Manifest) : Type 0 where
  storage_checked : if_some manifest.storage validate_storage ≡ ok tt
  kms_checked : if_some manifest.kms_integration (validate_kms hex_decode) ≡ ok tt
  helios_checked : if_some manifest.helios_rpc (validate_helios to_lowercase) ≡ ok tt
  clock_checked : if_some manifest.clock_sync validate_clock_sync ≡ ok tt
  cross_checked : validate_manifest_cross_constraints manifest ≡ ok tt

-- The ports that an accepted manifest gives: the Aux API has a port of its own, and it is there
-- only beside the Capsule API.
abbrev pub HasPorts : Manifest → Type 0
HasPorts manifest =
    ((manifest.api ≡ none) × (manifest.aux_api ≡ none))
    ⊎ ((api : CapsuleApi) × (port : ℕ) × (manifest.api ≡ some api)
        × (effective_aux_api_port manifest ≡ some port)
        × (port ≢ api.listen_port))

-- The chain at the port that the registry is read through.
abbrev pub HasRegistryChain : Manifest → Type 0
HasRegistryChain manifest =
    (helios : HeliosRpc) × (chains : List HeliosRpcChain) × (manifest.helios_rpc ≡ some helios)
    × (helios.enabled ≡ true)
    × (helios.chains ≡ some chains)
    × Any (λ chain. chain.local_rpc_port ≡ kms_registry_helios_port) chains

cross_ports :
    (manifest : Manifest) → validate_manifest_cross_constraints manifest ≡ ok tt → HasPorts manifest
unfolding validate_manifest_cross_constraints validate_ports
cross_ports manifest h =
    let (ports, rest) = seq-eq-ok (validate_ports manifest) _ h in
    elim (Option-cases manifest.api) [
      | inl no_api ↦ elim (Option-cases manifest.aux_api) [
        | inl no_aux ↦ inl (no_api, no_aux)
        | inr (aux, given) ↦ absurd (ground arith)
      ]
      | inr (api, with_api) ↦ elim (Option-cases (effective_aux_api_port manifest)) [
        | inl overflow ↦ absurd (ground arith)
        | inr (port, e) ↦ inr (api, port, with_api, e, ground arith)
      ]
    ]

validate_registry_helios_sound :
    (manifest : Manifest)
    → validate_registry_helios manifest.helios_rpc ≡ ok tt
    → HasRegistryChain manifest
unfolding validate_registry_helios
validate_registry_helios_sound manifest h = elim (Option-cases manifest.helios_rpc) [
  | inl no_helios ↦ absurd (ground arith)
  | inr (helios, given) ↦ elim (Option-cases helios.chains) [
    | inl no_chains ↦ absurd (ground arith)
    | inr (chains, e) ↦ (
      helios,
      chains,
      given,
      ground arith,
      e,
      any_sound serves_registry _ (λ chain served. ground arith) chains (ground arith),
    )
  ]
]

cross_registry :
    (manifest : Manifest)
    → validate_manifest_cross_constraints manifest ≡ ok tt
    → needs_registry manifest.kms_integration ≡ true
    → HasRegistryChain manifest
unfolding validate_manifest_cross_constraints
cross_registry manifest h needed = validate_registry_helios_sound manifest (ground arith)

module _ (from_slice : List ℕ → Option Manifest) (hex_decode : Text → Option (List ℕ))
    (to_lowercase : Text → Text) where
  validate_parts-IsChecked :
      (m manifest : Manifest)
      → validate_parts from_slice hex_decode to_lowercase m ≡ ok manifest
      → IsChecked hex_decode to_lowercase manifest
  unfolding validate_parts
  validate_parts-IsChecked m manifest h =
      let (s, h1) = seq-eq-ok (if_some m.storage validate_storage) _ h in
      let (k, h2) = seq-eq-ok (if_some m.kms_integration (validate_kms hex_decode)) _ h1 in
      let (r, h3) = seq-eq-ok (if_some m.helios_rpc (validate_helios to_lowercase)) _ h2 in
      let (c, h4) = seq-eq-ok (if_some m.clock_sync validate_clock_sync) _ h3 in
      let (x, h5) = seq-eq-ok (validate_manifest_cross_constraints m) (ok m) h4 in
      let same : m ≡ manifest = ground arith in
      subst (IsChecked hex_decode to_lowercase) same (record {
        storage_checked = s;
        kms_checked = k;
        helios_checked = r;
        clock_checked = c;
        cross_checked = x;
      })

  parse_manifest-IsChecked :
      (buf : List ℕ) {manifest : Manifest}
      → parse_manifest from_slice hex_decode to_lowercase buf ≡ ok manifest
      → IsChecked hex_decode to_lowercase manifest
  unfolding parse_manifest
  parse_manifest-IsChecked buf {manifest} h =
      let (m, e, passed) =
        ok_or-eq-ok (from_slice buf) _ (validate_parts from_slice hex_decode to_lowercase) h in
      validate_parts-IsChecked m manifest passed

  -- The mounts of an accepted manifest are each as they should be, and no two have the same name
  -- but for the case of ASCII letters, or the same path.
  pub parse_manifest-mounts :
      (buf : List ℕ) {manifest : Manifest} {mounts : List HostFsMountConfig}
      → parse_manifest from_slice hex_decode to_lowercase buf ≡ ok manifest
      → hostfs_mounts manifest ≡ some mounts
      → All IsMount mounts × Distinct (map mount_key mounts) × Distinct (map path_key mounts)
  unfolding hostfs_mounts
  parse_manifest-mounts buf {manifest} {mounts} h given =
      let checked = (parse_manifest-IsChecked buf h).storage_checked in
      elim (Option-cases manifest.storage) [
        | inl no_storage ↦ absurd (ground arith)
        | inr (storage, with_storage) ↦
            (validate_storage_iff storage mounts (ground arith)).0 (ground arith)
      ]

  -- The Aux API of an accepted manifest has a port that is not the port of the Capsule API, and
  -- there is no Aux API without a Capsule API.
  pub parse_manifest-HasPorts :
      (buf : List ℕ) {manifest : Manifest}
      → parse_manifest from_slice hex_decode to_lowercase buf ≡ ok manifest
      → HasPorts manifest
  parse_manifest-HasPorts buf {manifest} h =
      let checked = (parse_manifest-IsChecked buf h).cross_checked in cross_ports manifest checked

  -- The clock of an accepted manifest is synchronised at an interval above zero, also when the
  -- manifest does not say how often.
  pub parse_manifest-interval :
      (buf : List ℕ) {manifest : Manifest}
      → parse_manifest from_slice hex_decode to_lowercase buf ≡ ok manifest
      → 0 < (effective_clock_sync manifest).interval_secs
  unfolding effective_clock_sync
  parse_manifest-interval buf {manifest} h =
      let checked = (parse_manifest-IsChecked buf h).clock_checked in
      elim (Option-cases manifest.clock_sync) [
        | inl default ↦ rw (effective_clock_sync, default) (omega arith)
        | inr (clock_sync, given) ↦ rw (effective_clock_sync, given) (ground arith)
      ]

  -- An accepted manifest whose KMS integration is on and names a registry has Helios switched on,
  -- with a chain at the port that the registry is read through.
  pub parse_manifest-HasRegistryChain :
      (buf : List ℕ) {manifest : Manifest} {kms : KmsIntegration}
      → parse_manifest from_slice hex_decode to_lowercase buf ≡ ok manifest
      → manifest.kms_integration ≡ some kms
      → kms.enabled ≡ true
      → registry_discovery_configured kms ≡ true
      → HasRegistryChain manifest
  unfolding needs_registry
  parse_manifest-HasRegistryChain buf {manifest} {kms} h given on configured =
      cross_registry manifest (parse_manifest-IsChecked buf h).cross_checked
        (rw (needs_registry, given) (ground arith))
