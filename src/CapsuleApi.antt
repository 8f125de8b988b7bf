-- ===== src/CapsuleApi.antt =====
-- Parts of the Capsule API (capsule-cli/src/capsule_api.rs) that keep state or loop.
pub mod ReplayCache
pub mod Random
mod Tests
