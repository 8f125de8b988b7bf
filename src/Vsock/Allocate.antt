-- ===== src/Vsock/Allocate.antt =====
-- The choice of a free CID in capsule-cli/src/runtime_vsock.rs.
use native.Mathlib.Decide.{ℕ_discrete}
use nova_enclave_capsule.Prelude.{
  ℕ, zero, suc, ◌+◌, ◌*◌, ◌≤◌, ◌<◌, ◌≡◌, ◌↔◌, refl, true, false, List, ok, err, inl, inr, arith,
  Bool-cases,
}
use nova_enclave_capsule.Vsock.{
  no_free_cid, contains, allocate_from, allocate_managed_enclave_cid, host_runtime_hostfs_capacity,
}
use nova_enclave_capsule.Vsock.Ports.{hostfs, port_at}

-- Every CID from `low` up to, and without, `high` is in use.
abbrev pub AllUsed : List ℕ → ℕ → ℕ → Type 0
AllUsed used low high = (c : ℕ) → low ≤ c → c < high → contains used c ≡ true

AllUsed-suc :
    (used : List ℕ) (low high : ℕ)
    → contains used low ≡ true
    → AllUsed used (low + 1) high
    → AllUsed used low high
AllUsed-suc used low high here later c above below = elim (ℕ_discrete c low) [
  | yes same ↦ rw same here
  | no other ↦ later c (omega arith) below
]

allocate_from_sound :
    (used : List ℕ) (rounds start : ℕ) {cid : ℕ}
    → allocate_from used rounds start ≡ ok cid
    → (start ≤ cid) × (cid < start + rounds) × (contains used cid ≡ false) × AllUsed used start cid
unfolding allocate_from
allocate_from_sound used zero start h = cc
allocate_from_sound used (suc rounds) start {cid} h = elim (Bool-cases (contains used start)) [
  | inl taken ↦
      let (low, high, free, all) = allocate_from_sound used rounds (start + 1) (rw taken at h) in
      (omega arith, omega arith, free, AllUsed-suc used start cid taken all)
  | inr free ↦
      let e : start ≡ cid = ground arith in
      (omega arith, omega arith, rw (← e) free, λ c above below. absurd (omega arith))
]

allocate_from_fails :
    (used : List ℕ) (rounds start : ℕ)
    → (allocate_from used rounds start ≡ err no_free_cid) ↔ AllUsed used start (start + rounds)
unfolding allocate_from
allocate_from_fails used zero start = (λ e c above below. absurd (omega arith), λ all. refl)
allocate_from_fails used (suc rounds) start = elim (Bool-cases (contains used start)) [
  | inl taken ↦
      let (to, from) = allocate_from_fails used rounds (start + 1) in
      rw taken (
        λ e c above below.
            AllUsed-suc used start (start + suc rounds) taken (λ d lo hi. to e d lo (omega arith)) c
              above below,
        λ all. from (λ d lo hi. all d (omega arith) (omega arith)),
      )
  | inr free ↦ rw free (λ e. absurd (cc), λ all. cc (all start (omega arith) (omega arith)))
]

mount_port :
    (cid index : ℕ)
    → 16 ≤ cid
    → cid ≤ 4096
    → index < host_runtime_hostfs_capacity
    → (port : ℕ) × (port_at cid (hostfs index) ≡ ok port)
unfolding port_at
mount_port cid index low high fits = (20_000 + cid * 128 + 16 + index, ground arith)

-- The CID that is allocated is the least free one of the managed range 16 to 4096, and each of the
-- 112 hostfs mounts of its enclave has a port.
pub allocate_managed_enclave_cid_sound :
    (used : List ℕ) {cid : ℕ}
    → allocate_managed_enclave_cid used ≡ ok cid
    → (16 ≤ cid)
      × (cid ≤ 4096)
      × (contains used cid ≡ false)
      × AllUsed used 16 cid
      × ((index : ℕ)
          → index < host_runtime_hostfs_capacity
          → (port : ℕ) × (port_at cid (hostfs index) ≡ ok port))
unfolding allocate_managed_enclave_cid
allocate_managed_enclave_cid_sound used {cid} h =
    let (low, high, free, all) = allocate_from_sound used _ 16 h in
    (low, omega arith, free, all, λ index fits. mount_port cid index low (omega arith) fits)

-- Allocation fails exactly if every CID of the managed range is in use.
pub allocate_managed_enclave_cid_fails_iff :
    (used : List ℕ) → (allocate_managed_enclave_cid used ≡ err no_free_cid) ↔ AllUsed used 16 4097
unfolding allocate_managed_enclave_cid
allocate_managed_enclave_cid_fails_iff used = allocate_from_fails used _ 16
