-- ===== src/Loopback/Tests.antt =====
-- A run with one binding, for capsule-cli/src/hostfs.rs.
use mathlib.Core.List.{map}
use nova_enclave_capsule.Prelude.{
  ℕ, Bool, true, false, List, [], ◌∷◌, Result, ok, ◌≡◌, refl, All, Distinct, list_eq, nat_eq,
}
use nova_enclave_capsule.Prelude.Text.{Text, codes}
use nova_enclave_capsule.Manifest.{HostFsMountConfig}
use nova_enclave_capsule.Loopback.{
  RuntimeMountBinding, LoopbackMountRequest, has_entry, resolve_mounts,
}
use nova_enclave_capsule.Loopback.Resolved.{binding_key, IsJoined, IsServed, resolve_mounts_sound}

abbrev data_mount : HostFsMountConfig
data_mount = record {
  name = codes "Data";
  mount_path = codes "/mnt/data";
  required = true;
  size_mb = 16;
}

abbrev cache_mount : HostFsMountConfig
cache_mount = record {
  name = codes "cache";
  mount_path = codes "/mnt/cache";
  required = false;
  size_mb = 1;
}

abbrev binding : RuntimeMountBinding
binding = record { name = codes "data"; host_path = codes "/srv/data" }

abbrev mounts : List HostFsMountConfig
mounts = data_mount ∷ cache_mount ∷ []

abbrev requests : List LoopbackMountRequest
requests =
    record {
      name = codes "Data";
      host_state_dir = codes "/srv/data";
      container_mount_path = codes "/mnt/capsule-hostfs-data/Data";
      enclave_mount_path = codes "/mnt/data";
      size_mb = 16;
      required = true;
    }
    ∷ []

resolve_mounts_sound_example :
    Distinct (map binding_key (binding ∷ []))
    × All (λ b. has_entry mounts b ≡ true) (binding ∷ [])
    × All (IsJoined mounts (binding ∷ [])) requests
    × All (IsServed requests) mounts
unfolding resolve_mounts nova_enclave_capsule.Prelude.Text.to_ascii_lowercase
    nova_enclave_capsule.Prelude.Text.trim
resolve_mounts_sound_example = resolve_mounts_sound mounts (binding ∷ []) refl
