-- ===== src/Vsock.antt =====
-- capsule-cli/src/runtime_vsock.rs, and the port constants of capsule-cli/src/constants.rs.
-- `used` of `allocate_managed_enclave_cid` is a list; the order of its entries plays no part.
pub mod Ports
pub mod Allocate
mod Tests
use nova_enclave_capsule.Prelude.{
  ℕ, zero, suc, ◌+◌, ◌-◌, List, Bool, Result, ok, err, ◌>>=◌, ◌>>◌, fail_if, ok_or, ltb, leb, any,
  ◌==◌, nat_eq, if◌then◌else◌,
}
use nova_enclave_capsule.Prelude.Words.{u32_mod, checked, checked_add, checked_mul}

abbrev pub capsule_managed_cid_start : ℕ
capsule_managed_cid_start = 16

abbrev pub capsule_managed_cid_end : ℕ
capsule_managed_cid_end = 4096

abbrev pub host_runtime_vsock_port_base : ℕ
host_runtime_vsock_port_base = 20_000

abbrev pub host_runtime_vsock_port_stride : ℕ
host_runtime_vsock_port_stride = 128

abbrev pub host_runtime_egress_offset : ℕ
host_runtime_egress_offset = 0

abbrev pub host_runtime_clock_sync_offset : ℕ
host_runtime_clock_sync_offset = 1

abbrev pub host_runtime_hostfs_offset_base : ℕ
host_runtime_hostfs_offset_base = 16

abbrev pub host_runtime_hostfs_capacity : ℕ
host_runtime_hostfs_capacity = host_runtime_vsock_port_stride - host_runtime_hostfs_offset_base

pub data VsockError : Type 0 where
  reserved_cid block_overflow egress_overflow clock_sync_overflow hostfs_base_overflow : VsockError
  index_not_u32 over_capacity hostfs_overflow no_free_cid : VsockError

pub record RuntimeHostVsockPorts : Type 0 where
  pub enclave_cid : ℕ
  pub egress_port : ℕ
  pub clock_sync_port : ℕ
  pub hostfs_base_port : ℕ

pub runtime_block_base : ℕ → Result VsockError ℕ
runtime_block_base enclave_cid = do
  offset ← ok_or (checked_mul u32_mod enclave_cid host_runtime_vsock_port_stride) block_overflow
  ok_or (checked_add u32_mod host_runtime_vsock_port_base offset) block_overflow

pub validate_enclave_cid : ℕ → Result VsockError (Unit {0})
unfolding runtime_block_base
validate_enclave_cid enclave_cid = do
  fail_if (ltb enclave_cid 4) reserved_cid
  base ← runtime_block_base enclave_cid
  ok tt

unfoldable pub for_cid : ℕ → Result VsockError RuntimeHostVsockPorts
unfolding validate_enclave_cid runtime_block_base
for_cid enclave_cid = do
  validate_enclave_cid enclave_cid
  block_base ← runtime_block_base enclave_cid
  egress_port ← ok_or (checked_add u32_mod block_base host_runtime_egress_offset) egress_overflow
  clock_sync_port ←
      ok_or (checked_add u32_mod block_base host_runtime_clock_sync_offset) clock_sync_overflow
  hostfs_base_port ←
      ok_or (checked_add u32_mod block_base host_runtime_hostfs_offset_base) hostfs_base_overflow
  ok (record {
    enclave_cid = enclave_cid;
    egress_port = egress_port;
    clock_sync_port = clock_sync_port;
    hostfs_base_port = hostfs_base_port;
  })

unfoldable pub hostfs_mount_port : RuntimeHostVsockPorts → ℕ → Result VsockError ℕ
hostfs_mount_port ports index = do
  index_u32 ← ok_or (checked u32_mod index) index_not_u32
  fail_if (leb host_runtime_hostfs_capacity index_u32) over_capacity
  ok_or (checked_add u32_mod ports.hostfs_base_port index_u32) hostfs_overflow

-- `HashSet::contains`
abbrev pub contains : List ℕ → ℕ → Bool
contains used cid = any (λ u. u == cid) used

-- The loop over the range, with the number of rounds that are left.
allocate_from : List ℕ → ℕ → ℕ → Result VsockError ℕ
allocate_from used zero cid = err no_free_cid
allocate_from used (suc rounds) cid =
    let rest = allocate_from used rounds (cid + 1) in if contains used cid then rest else ok cid

pub allocate_managed_enclave_cid : List ℕ → Result VsockError ℕ
allocate_managed_enclave_cid used =
    allocate_from used (capsule_managed_cid_end + 1 - capsule_managed_cid_start)
      capsule_managed_cid_start
