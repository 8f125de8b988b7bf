-- ===== src/Manifest/Parse.antt =====
-- `parse_manifest` of capsule-cli/src/manifest.rs, and what holds of a manifest that it accepts.
-- `serde_yaml::from_slice`, `hex::decode` and `str::to_lowercase` are parameters.
pub mod Accepted
use nova_enclave_capsule.Prelude.{
  ℕ, ◌<◌, Bool, true, false, not, ◌&&◌, Option, none, some, List, [], ◌∷◌, Result, ok, err, ◌>>=◌,
  ◌>>◌, fail_if, ok_or, ◌≡◌, ◌≢◌, refl, ◌⊎◌, inl, inr, arith, ◌==◌, nat_eq, any, Any, any_sound,
  Result-cases, Bool-cases, Option-cases,
}
use nova_enclave_capsule.Prelude.Text.{Text}
use nova_enclave_capsule.Manifest.{
  Manifest, KmsIntegration, HeliosRpc, HeliosRpcChain, ClockSync, CapsuleApi, Storage,
  effective_aux_api_port, ManifestError, malformed, interval_zero, aux_api_without_api,
  aux_port_overflow, aux_port_shared, registry_without_helios, helios_disabled,
  helios_without_chains, helios_without_registry_port,
}
use nova_enclave_capsule.Manifest.Mounts.{validate_storage}
use nova_enclave_capsule.Manifest.Kms.{registry_discovery_configured, validate_kms, is_some}
use nova_enclave_capsule.Manifest.Helios.{validate_helios}

abbrev pub kms_registry_helios_port : ℕ
kms_registry_helios_port = 18_545

abbrev pub validate_clock_sync : ClockSync → Result ManifestError (Unit {0})
validate_clock_sync clock_sync = fail_if (clock_sync.interval_secs == 0) interval_zero

-- `if let Some(part) = part { check(part)? }`
abbrev pub if_some :
    {A : Type 0}
    → Option A
    → (A → Result ManifestError (Unit {0}))
    → Result ManifestError (Unit {0})
if_some none check = ok tt
if_some (some part) check = check part

abbrev pub check_aux_port : Option ℕ → CapsuleApi → Result ManifestError (Unit {0})
check_aux_port aux_port api = do
  port ← ok_or aux_port aux_port_overflow
  fail_if (port == api.listen_port) aux_port_shared

unfoldable pub validate_ports : Manifest → Result ManifestError (Unit {0})
unfolding effective_aux_api_port
validate_ports manifest = do
  fail_if (is_some manifest.aux_api && not (is_some manifest.api)) aux_api_without_api
  if_some manifest.api (check_aux_port (effective_aux_api_port manifest))

abbrev pub serves_registry : HeliosRpcChain → Bool
serves_registry chain = chain.local_rpc_port == kms_registry_helios_port

unfoldable pub validate_registry_helios : Option HeliosRpc → Result ManifestError (Unit {0})
validate_registry_helios helios_rpc = do
  helios ← ok_or helios_rpc registry_without_helios
  fail_if (not helios.enabled) helios_disabled
  chains ← ok_or helios.chains helios_without_chains
  fail_if (not (any serves_registry chains)) helios_without_registry_port

unfoldable pub needs_registry : Option KmsIntegration → Bool
unfolding registry_discovery_configured
needs_registry none = false
needs_registry (some kms) = kms.enabled && registry_discovery_configured kms

unfoldable pub validate_manifest_cross_constraints : Manifest → Result ManifestError (Unit {0})
unfolding validate_ports validate_registry_helios needs_registry
validate_manifest_cross_constraints manifest = do
  validate_ports manifest
  elim (needs_registry manifest.kms_integration) [
    | true ↦ validate_registry_helios manifest.helios_rpc
    | false ↦ ok tt
  ]

module _ (from_slice : List ℕ → Option Manifest) (hex_decode : Text → Option (List ℕ))
    (to_lowercase : Text → Text) where
  -- What follows the reading of the YAML.
  unfoldable pub validate_parts : Manifest → Result ManifestError Manifest
  unfolding validate_storage validate_kms validate_helios validate_manifest_cross_constraints
  validate_parts manifest = do
    if_some manifest.storage validate_storage
    if_some manifest.kms_integration (validate_kms hex_decode)
    if_some manifest.helios_rpc (validate_helios to_lowercase)
    if_some manifest.clock_sync validate_clock_sync
    validate_manifest_cross_constraints manifest
    ok manifest

  unfoldable pub parse_manifest : List ℕ → Result ManifestError Manifest
  unfolding validate_parts
  parse_manifest buf = do manifest ← ok_or (from_slice buf) malformed; validate_parts manifest
