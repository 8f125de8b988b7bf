-- ===== src/Vsock/Tests.antt =====
-- The derived ports and the allocation at concrete CIDs.
use nova_enclave_capsule.Prelude.{
  ℕ, ◌+◌, ◌*◌, ◌^◌, ◌≤◌, ◌<◌, ◌≡◌, ◌↔◌, refl, false, List, [], ◌∷◌, ok, err,
}
use nova_enclave_capsule.Vsock.{
  RuntimeHostVsockPorts, block_overflow, reserved_cid, no_free_cid, for_cid, contains,
  allocate_from, allocate_managed_enclave_cid, host_runtime_hostfs_capacity,
}
use nova_enclave_capsule.Vsock.Ports.{
  egress, clock_sync, hostfs, port_at, port_at-injective, for_cid_iff, Listener,
}
use nova_enclave_capsule.Vsock.Allocate.{
  AllUsed, allocate_managed_enclave_cid_sound, allocate_managed_enclave_cid_fails_iff,
}

port_at_tests :
    (port_at 16 egress ≡ ok 22_048)
    × (port_at 16 clock_sync ≡ ok 22_049)
    × (port_at 17 (hostfs 2) ≡ ok 22_194)
unfolding port_at
port_at_tests = (refl, refl, refl)

for_cid_errors : (for_cid 3 ≡ err reserved_cid) × (for_cid 4_294_967_295 ≡ err block_overflow)
unfolding for_cid
for_cid_errors = (refl, refl)

abbrev used_cids : List ℕ
used_cids = 16 ∷ 99 ∷ []

allocate_test : allocate_managed_enclave_cid used_cids ≡ ok 17
unfolding allocate_managed_enclave_cid allocate_from
allocate_test = refl

port_at-injective_example : (◌≡◌ {A = ℕ} 17 17) × (◌≡◌ {A = Listener} (hostfs 2) (hostfs 2))
port_at-injective_example =
    port_at-injective 17 17 (hostfs 2) (hostfs 2) port_at_tests.2 port_at_tests.2

for_cid_iff_example :
    ((ports : RuntimeHostVsockPorts) × (for_cid 16 ≡ ok ports))
    ↔ ((4 ≤ 16) × (20_000 + 16 * 128 + 16 < 2 ^ 32))
for_cid_iff_example = for_cid_iff 16

allocate_managed_enclave_cid_sound_example :
    (16 ≤ 17)
    × (17 ≤ 4096)
    × (contains used_cids 17 ≡ false)
    × AllUsed used_cids 16 17
    × ((index : ℕ)
        → index < host_runtime_hostfs_capacity
        → (port : ℕ) × (port_at 17 (hostfs index) ≡ ok port))
allocate_managed_enclave_cid_sound_example =
    allocate_managed_enclave_cid_sound used_cids allocate_test

allocate_managed_enclave_cid_fails_iff_example :
    (allocate_managed_enclave_cid used_cids ≡ err no_free_cid) ↔ AllUsed used_cids 16 4097
allocate_managed_enclave_cid_fails_iff_example = allocate_managed_enclave_cid_fails_iff used_cids
