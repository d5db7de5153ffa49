-- ===== src/Blocker.antt =====
-- daemon/blocker.py: which URLs and applications the active blocks block.
pub mod Url
pub mod Priority
pub mod Evaluate
pub mod Bands
pub mod Matching
mod Tests
