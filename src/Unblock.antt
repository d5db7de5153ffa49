-- ===== src/Unblock.antt =====
-- daemon/pending_unblock.py: the queue of delayed deletions, loosening updates and settings changes.
pub mod Queue
pub mod Delay
mod Tests
