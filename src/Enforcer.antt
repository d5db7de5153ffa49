-- ===== src/Enforcer.antt =====
-- enforcer/: the root service that owns the lock and the enforcement policy.
pub mod Policy
pub mod Change
pub mod Requests
pub mod Attest
pub mod Kill
pub mod Guard
mod Tests
