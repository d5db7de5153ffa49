-- ===== src/Breakglass.antt =====
-- The break-glass release: enforcer/breakglass_runner.py, and the status view of the user tier,
-- daemon/grants/breakglass.py.
pub mod Runner
pub mod Status
mod Tests
