-- ===== src/HostFs.antt =====
-- The host file system proxy: its wire protocol (capsule-cli/src/fs_protocol.rs) and the service
-- behind it (capsule-cli/src/hostfs_service.rs).
pub mod Protocol
pub mod PathName
pub mod Io
pub mod Resolve
pub mod Service
pub mod Session
mod Tests
