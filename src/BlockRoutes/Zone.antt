-- ===== src/BlockRoutes/Zone.antt =====
-- The extension of a lock (daemon/api/routes/blocks.py) to a time in a zone behind UTC.
use hypr_blocker.Base.{◌≡◌, refl, true, false, some, arith}
use hypr_blocker.Base.Int.{ℤ, ◌+ℤ◌, ◌≤ℤ◌, ◌<ℤ◌, leb_ℤ, ltb_ℤ}
use hypr_blocker.Base.Time.{naive}
use hypr_blocker.BlockRoutes.{locked_until, DbBlock, updated}
use hypr_blocker.BlockRoutes.Strict.{zoned, extend_from, extend_row, extend_block_lock}
use hypr_blocker.LockManager.{locked_at, by_mode, before_time}

-- The running lock of an enabled block is extended, while the verification of the clock succeeds, to a later time
-- that is named in a zone behind UTC, such that the clock of that zone shows a time already past: the extension
-- is accepted, and the block is not locked any more.
pub west_extension_unlocks :
    (db : DbBlock) (until t offset now : ℤ)
    → db.enabled ≡ true
    → db.lock_mode ≡ locked_until
    → db.lock_until ≡ some (naive until)
    → now <ℤ until
    → until <ℤ t
    → t +ℤ offset ≤ℤ now
    → (locked_at db now ≡ some true)
      × ((new : DbBlock) × (extend_block_lock true (some (zoned t offset)) (some db) ≡ updated new)
          × (locked_at new now ≡ some false))
unfolding extend_block_lock extend_row extend_from locked_at by_mode before_time
west_extension_unlocks db until t offset now on mode lock running later past =
    let early : leb_ℤ t until ≡ false = ground arith in
    let yet : ltb_ℤ now until ≡ true = ground arith in
    let over : ltb_ℤ now (t +ℤ offset) ≡ false = ground arith in
    (
      rw (on, mode, lock, yet) refl,
      (
        record db { lock_until = some (naive (t +ℤ offset)) },
        rw (mode, lock, early) refl,
        rw (on, mode, over) refl,
      ),
    )
