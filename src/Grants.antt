-- ===== src/Grants.antt =====
-- daemon/grants/: time-limited exceptions brokered by a judge.
pub mod Policy
pub mod RateLimit
pub mod Regex
pub mod Models
pub mod Denylist
pub mod Executor
pub mod Tier1
pub mod Store
pub mod Judge
pub mod Broker
mod Tests
