-- ===== src/Kms.antt =====
-- The proxy to the Nova KMS, capsule-cli/src/integrations/nova_kms.rs: which nodes it asks, what it
-- asks of a node before it trusts an answer, and how it tries again.
pub mod Outside
pub mod Address
pub mod Log
pub mod Nodes
pub mod Proxy
pub mod Tokens
pub mod Registry
pub mod Found
pub mod Discovery
pub mod Identity
pub mod Envelope
pub mod Exchange
pub mod Call
pub mod Authz
pub mod AppWallet
mod Tests
