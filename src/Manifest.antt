-- ===== src/Manifest.antt =====
-- The manifest of capsule-cli/src/manifest.rs: its records. A text is as YAML gives it, and a
-- `PathBuf` is its text.
pub mod Mounts
pub mod Kms
pub mod Helios
pub mod Parse
mod Tests
use nova_enclave_capsule.Prelude.{ℕ, ◌+◌, Bool, true, false, not, Option, none, some, List}
use nova_enclave_capsule.Prelude.Text.{Text, codes, is_empty}
use nova_enclave_capsule.Prelude.Words.{ℤ, u16_mod, checked_add}

pub record Sources : Type 0 where
  pub app : Text
  pub capsule_runtime : Option Text
  pub capsule_shell : Option Text

pub record Signature : Type 0 where
  pub certificate : Text
  pub key : Text

pub record Ingress : Type 0 where
  pub listen_port : ℕ

pub record Egress : Type 0 where
  pub proxy_port : Option ℕ
  pub allow : Option (List Text)
  pub deny : Option (List Text)

-- The two numbers are `i32`, which no modelled code computes with.
pub record Defaults : Type 0 where
  pub cpu_count : Option ℤ
  pub memory_mb : Option ℤ

pub record CapsuleApi : Type 0 where
  pub listen_port : ℕ

pub record AuxApi : Type 0 where
  pub listen_port : Option ℕ

pub record HostFsMountConfig : Type 0 where
  pub name : Text
  pub mount_path : Text
  pub required : Bool
  pub size_mb : ℕ

pub data S3EncryptionMode : Type 0 where
  plaintext kms : S3EncryptionMode

pub data S3EncryptionKeyScope : Type 0 where
  app object : S3EncryptionKeyScope

pub data S3EncryptionAadMode : Type 0 where
  no_aad key key_and_version : S3EncryptionAadMode

pub record S3EncryptionConfig : Type 0 where
  pub mode : S3EncryptionMode
  pub key_scope : S3EncryptionKeyScope
  pub aad_mode : S3EncryptionAadMode
  pub key_version : Text
  pub accept_plaintext : Bool

pub record S3StorageConfig : Type 0 where
  pub enabled : Bool
  pub bucket : Text
  pub prefix : Text
  pub region : Option Text
  pub encryption : Option S3EncryptionConfig

pub record Storage : Type 0 where
  pub s3 : Option S3StorageConfig
  pub mounts : Option (List HostFsMountConfig)

pub record KmsIntegration : Type 0 where
  pub enabled : Bool
  pub use_app_wallet : Bool
  pub kms_app_id : Option ℕ
  pub nova_app_registry : Option Text

pub data HeliosRpcKind : Type 0 where
  ethereum opstack : HeliosRpcKind

pub record HeliosRpcChain : Type 0 where
  pub name : Text
  pub network_id : Option Text
  pub kind : HeliosRpcKind
  pub network : Text
  pub execution_rpc : Text
  pub consensus_rpc : Option Text
  pub checkpoint : Option Text
  pub local_rpc_port : ℕ

pub record HeliosRpc : Type 0 where
  pub enabled : Bool
  pub chains : Option (List HeliosRpcChain)

pub record ClockSync : Type 0 where
  pub enabled : Bool
  pub interval_secs : ℕ

pub record Manifest : Type 0 where
  pub version : Text
  pub name : Text
  pub target : Text
  pub sources : Sources
  pub signature : Option Signature
  pub ingress : Option (List Ingress)
  pub egress : Option Egress
  pub defaults : Option Defaults
  pub api : Option CapsuleApi
  pub aux_api : Option AuxApi
  pub storage : Option Storage
  pub kms_integration : Option KmsIntegration
  pub helios_rpc : Option HeliosRpc
  pub clock_sync : Option ClockSync

-- `ClockSync::default`
abbrev pub default_clock_sync : ClockSync
default_clock_sync = record { enabled = true; interval_secs = 300 }

abbrev or_default : Option ClockSync → ClockSync
or_default none = default_clock_sync
or_default (some clock_sync) = clock_sync

unfoldable pub effective_clock_sync : Manifest → ClockSync
effective_clock_sync manifest = or_default manifest.clock_sync

abbrev mounts_of : Option Storage → Option (List HostFsMountConfig)
mounts_of none = none
mounts_of (some storage) = storage.mounts

unfoldable pub hostfs_mounts : Manifest → Option (List HostFsMountConfig)
hostfs_mounts manifest = mounts_of manifest.storage

abbrev or_next : ℕ → Option ℕ → Option ℕ
or_next api_port none = checked_add u16_mod api_port 1
or_next api_port (some port) = some port

abbrev aux_port_of : Option AuxApi → Option ℕ
aux_port_of none = none
aux_port_of (some aux_api) = aux_api.listen_port

abbrev aux_api_port : Option CapsuleApi → Option AuxApi → Option ℕ
aux_api_port none aux_api = none
aux_api_port (some api) aux_api = or_next api.listen_port (aux_port_of aux_api)

unfoldable pub effective_aux_api_port : Manifest → Option ℕ
effective_aux_api_port manifest = aux_api_port manifest.api manifest.aux_api

abbrev allows : Option (List Text) → Bool
allows none = false
allows (some allow) = not (is_empty allow)

abbrev enables_proxy : Option Egress → Bool
enables_proxy none = false
enables_proxy (some egress) = allows egress.allow

unfoldable pub egress_proxy_enabled : Manifest → Bool
egress_proxy_enabled manifest = enables_proxy manifest.egress

-- What a manifest is refused for, each after the field that the message names.
pub data ManifestError : Type 0 where
  malformed : ManifestError
  mount_name_required mount_name_characters mount_path_relative mount_path_components :
      ManifestError
  mount_path_outside_root mount_size_zero duplicate_mount_name duplicate_mount_path : ManifestError
  wallet_without_kms registry_required registry_incomplete app_id_required app_id_zero :
      ManifestError
  registry_address_required registry_address_shape : ManifestError
  chain_name_required network_id_empty execution_rpc_required network_required : ManifestError
  network_unsupported chains_required chains_empty : ManifestError
  duplicate_chain_name duplicate_rpc_port : ManifestError
  interval_zero : ManifestError
  aux_api_without_api aux_port_overflow aux_port_shared : ManifestError
  registry_without_helios helios_disabled helios_without_chains helios_without_registry_port :
      ManifestError
