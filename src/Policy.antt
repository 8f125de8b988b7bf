-- ===== src/Policy.antt =====
-- capsule-cli/src/policy: which hosts an enclave may reach.
pub mod DomainFilter
pub mod IpFilter
pub mod Egress
mod Tests
