-- ===== src/Vsock/Ports.antt =====
-- The ports that capsule-cli/src/runtime_vsock.rs derives from a CID.
use nova_enclave_capsule.Prelude.{
  ℕ, ◌+◌, ◌*◌, ◌^◌, ◌≤◌, ◌<◌, ◌≡◌, ◌↔◌, refl, Result, ok, ◌>>=◌, arith,
}
use nova_enclave_capsule.Prelude.Words.{u32_mod}
use nova_enclave_capsule.Vsock.{
  RuntimeHostVsockPorts, VsockError, for_cid, hostfs_mount_port, host_runtime_vsock_port_base,
  host_runtime_vsock_port_stride,
}

-- The listeners that the host opens for one enclave.
pub data Listener : Type 0 where
  egress clock_sync : Listener
  hostfs : ℕ → Listener

-- The port of a listener, for the ports of one enclave.
unfoldable pub listener_port : RuntimeHostVsockPorts → Listener → Result VsockError ℕ
unfolding hostfs_mount_port
listener_port ports egress = ok ports.egress_port
listener_port ports clock_sync = ok ports.clock_sync_port
listener_port ports (hostfs index) = hostfs_mount_port ports index

unfoldable pub port_at : ℕ → Listener → Result VsockError ℕ
unfolding for_cid listener_port
port_at cid listener = do ports ← for_cid cid; listener_port ports listener

-- Where a listener's port lies in the block of its enclave.
abbrev offset : Listener → ℕ
offset egress = 0
offset clock_sync = 1
offset (hostfs index) = 16 + index

abbrev block : ℕ → ℕ
block cid = host_runtime_vsock_port_base + cid * host_runtime_vsock_port_stride

port_at-eq :
    (cid : ℕ) (listener : Listener) {port : ℕ}
    → port_at cid listener ≡ ok port
    → (port ≡ block cid + offset listener) × (offset listener < 128) × (port < u32_mod) × (4 ≤ cid)
unfolding port_at
port_at-eq cid egress h = ground arith
port_at-eq cid clock_sync h = ground arith
port_at-eq cid (hostfs index) h = ground arith

-- Every port that is handed out is a u32 and lies in the block of 128 ports of its enclave, above
-- the base of all blocks.
pub port_at_bounds :
    (cid : ℕ) (listener : Listener) {port : ℕ}
    → port_at cid listener ≡ ok port
    → (20_000 + cid * 128 ≤ port) × (port < 20_000 + cid * 128 + 128) × (port < 2 ^ 32)
port_at_bounds cid listener h = omega (arith, port_at-eq cid listener h)

offset-injective : (a b : Listener) → offset a ≡ offset b → a ≡ b
offset-injective egress egress e = refl
offset-injective clock_sync clock_sync e = refl
offset-injective (hostfs i) (hostfs j) e = ground arith
offset-injective a b e = absurd (omega arith)

-- No two listeners share a port, whether they serve one enclave or two: equal ports come from the
-- same CID and the same listener.
pub port_at-injective :
    (cid cid' : ℕ) (listener listener' : Listener) {port : ℕ}
    → port_at cid listener ≡ ok port
    → port_at cid' listener' ≡ ok port
    → (cid ≡ cid') × (listener ≡ listener')
port_at-injective cid cid' listener listener' h h' =
    let p = port_at-eq cid listener h in
    let q = port_at-eq cid' listener' h' in
    (omega arith, offset-injective listener listener' (omega arith))

-- The ports that a CID with room for them is given.
abbrev ports_of : ℕ → RuntimeHostVsockPorts
ports_of cid = record {
  enclave_cid = cid;
  egress_port = block cid;
  clock_sync_port = block cid + 1;
  hostfs_base_port = block cid + 16;
}

-- A CID has ports exactly if it is not reserved and its block's hostfs base port is a u32.
pub for_cid_iff :
    (cid : ℕ)
    → ((ports : RuntimeHostVsockPorts) × (for_cid cid ≡ ok ports))
      ↔ ((4 ≤ cid) × (20_000 + cid * 128 + 16 < 2 ^ 32))
unfolding for_cid
for_cid_iff cid =
    (λ (ports, h). (ground arith, ground arith), λ (low, high). (ports_of cid, ground arith))
