-- ===== src/Manifest/Tests.antt =====
-- The checks of capsule-cli/src/manifest.rs on a concrete manifest.
use mathlib.Core.List.{map}
use nova_enclave_capsule.Prelude.{
  ℕ, ◌<◌, Bool, true, false, Option, none, some, List, [], ◌∷◌, ◌≡◌, ◌≢◌, refl, ◌↔◌, ◌⊎◌, All,
  Distinct, list_eq, nat_eq, Result, ok,
}
use nova_enclave_capsule.Prelude.Text.{Text, codes, to_ascii_lowercase}
use nova_enclave_capsule.Manifest.{
  hostfs_mounts, Manifest, Storage, HostFsMountConfig, KmsIntegration, HeliosRpc, HeliosRpcChain,
  ethereum,
}
use nova_enclave_capsule.Manifest.Mounts.{
  IsMount, mount_key, path_key, component_eq, validate_storage, validate_storage_iff,
}
use nova_enclave_capsule.Manifest.Kms.Accepted.{HasRegistry, HasNone, validate_kms_iff}
use nova_enclave_capsule.Manifest.Kms.{registry_discovery_configured, validate_kms}
use nova_enclave_capsule.Manifest.Helios.{AreChains, validate_helios, validate_helios_iff}
use nova_enclave_capsule.Manifest.Parse.{parse_manifest}
use nova_enclave_capsule.Manifest.Parse.Accepted.{
  HasRegistryChain, parse_manifest-mounts, parse_manifest-HasRegistryChain,
}

abbrev mount : HostFsMountConfig
mount = record {
  name = codes "data";
  mount_path = codes "/mnt/data";
  required = true;
  size_mb = 16;
}

abbrev storage : Storage
storage = record { s3 = none; mounts = some (mount ∷ []) }

abbrev kms : KmsIntegration
kms = record {
  enabled = true;
  use_app_wallet = false;
  kms_app_id = some 7;
  nova_app_registry = some (codes "0x00112233445566778899aabbccddeeff00112233");
}

abbrev chain : HeliosRpcChain
chain = record {
  name = codes "L1";
  network_id = none;
  kind = ethereum;
  network = codes "mainnet";
  execution_rpc = codes "http://node";
  consensus_rpc = none;
  checkpoint = none;
  local_rpc_port = 18_545;
}

abbrev helios : HeliosRpc
helios = record { enabled = true; chains = some (chain ∷ []) }

abbrev manifest : Manifest
manifest = record {
  version = codes "v1";
  name = codes "demo";
  target = codes "demo:latest";
  sources = record { app = codes "app"; capsule_runtime = none; capsule_shell = none };
  signature = none;
  ingress = none;
  egress = none;
  defaults = none;
  api = some (record { listen_port = 9_000 });
  aux_api = none;
  storage = some storage;
  kms_integration = some kms;
  helios_rpc = some helios;
  clock_sync = some (record { enabled = true; interval_secs = 60 });
}

abbrev from_slice : List ℕ → Option Manifest
from_slice buf = some manifest

abbrev hex_decode : Text → Option (List ℕ)
hex_decode text = some text

abbrev to_lowercase : Text → Text
unfolding to_ascii_lowercase
to_lowercase = to_ascii_lowercase

accepted : parse_manifest from_slice hex_decode to_lowercase [] ≡ ok manifest
unfolding parse_manifest nova_enclave_capsule.Prelude.Text.trim
    nova_enclave_capsule.HostFs.PathName.is_absolute nova_enclave_capsule.HostFs.PathName.components
    nova_enclave_capsule.Prelude.Text.utf8_len to_lowercase
accepted = refl

validate_storage_iff_example : (validate_storage storage ≡ ok tt) ↔ (
    All IsMount (mount ∷ [])
    × Distinct (map mount_key (mount ∷ []))
    × Distinct (map path_key (mount ∷ [])))
validate_storage_iff_example = validate_storage_iff storage (mount ∷ []) refl

validate_kms_iff_example : (validate_kms hex_decode kms ≡ ok tt) ↔ (
    ((kms.enabled ≡ false) × (kms.use_app_wallet ≡ false))
    ⊎ ((kms.enabled ≡ true)
        × (HasRegistry hex_decode kms ⊎ ((kms.use_app_wallet ≡ true) × HasNone hex_decode kms))))
validate_kms_iff_example = validate_kms_iff hex_decode kms

validate_helios_iff_example : (validate_helios to_lowercase helios ≡ ok tt) ↔ (
    (chains : List HeliosRpcChain) × (helios.chains ≡ some chains) × AreChains to_lowercase chains)
validate_helios_iff_example = validate_helios_iff to_lowercase helios refl

parse_manifest-mounts_example :
    All IsMount (mount ∷ [])
    × Distinct (map mount_key (mount ∷ []))
    × Distinct (map path_key (mount ∷ []))
unfolding hostfs_mounts
parse_manifest-mounts_example =
    parse_manifest-mounts from_slice hex_decode to_lowercase [] accepted refl

parse_manifest-HasRegistryChain_example : HasRegistryChain manifest
unfolding registry_discovery_configured nova_enclave_capsule.Prelude.Text.trim
parse_manifest-HasRegistryChain_example =
    parse_manifest-HasRegistryChain from_slice hex_decode to_lowercase [] accepted refl refl refl
