-- ===== src/LockManager.antt =====
-- daemon/lock_manager.py: which blocks are locked, and the reset of the locks that have expired. The
-- time is the one that `get_verified_time` returns.
pub mod Clock
mod Tests
use hypr_blocker.Base.{
  ℕ, Bool, true, false, Option, none, some, List, [], ◌∷◌, map, if◌then◌else◌, ◌==◌,
}
use hypr_blocker.Base.Int.{ℤ, ltb_ℤ}
use hypr_blocker.Base.Time.{DateTime, naive, aware}
use hypr_blocker.TimeVerifier.{TimeVerifier, get_verified_time}
use hypr_blocker.BlockRoutes.{LockMode, no_lock, locked_until, other_lock, DbBlock}

-- A row of the table with its key.
pub record BlockRow : Type 0 where
  pub id : ℕ
  pub block : DbBlock

-- `now < block.lock_until`; a comparison with an aware time raises.
unfoldable pub before_time : ℤ → DateTime → Option Bool
before_time now (naive t) = some (ltb_ℤ now t)
before_time now (aware t) = none

unfoldable pub by_mode : LockMode → Option DateTime → ℤ → Option Bool
unfolding before_time
by_mode no_lock until now = some false
by_mode other_lock until now = some false
by_mode locked_until none now = some false
by_mode locked_until (some t) now = before_time now t

-- `_is_block_locked`
unfoldable pub locked_at : DbBlock → ℤ → Option Bool
unfolding by_mode
locked_at block now =
    if block.enabled then by_mode block.lock_mode block.lock_until now else some false

-- `_get_next_unlock_time`
unfoldable pub next_unlock_time : DbBlock → Option DateTime
next_unlock_time block = elim block.lock_mode [ locked_until ↦ block.lock_until | _ ↦ none ]

-- The loop of `is_block_locked`.
unfoldable pub find_locked : ℕ → List BlockRow → ℤ → Option Bool
unfolding locked_at
find_locked block_id [] now = some false
find_locked block_id (r ∷ rs) now =
    let rest = find_locked block_id rs now in
    if r.id == block_id then locked_at r.block now else rest

-- `is_block_locked`
unfoldable pub is_block_locked :
    ℤ → Option ℤ → ℤ → ℤ → ℕ → List BlockRow → TimeVerifier → Option Bool × TimeVerifier
unfolding get_verified_time find_locked
is_block_locked max_time_diff ntp system local block_id rows v =
    let (now, v') = get_verified_time max_time_diff ntp system local v in
    (find_locked block_id rows now, v')

-- `Block.lock_mode == 'locked_until'` and `Block.lock_until < now` in the query; no time is not before.
unfoldable pub has_expired : ℤ → LockMode → Option DateTime → Bool
has_expired now locked_until (some (naive t)) = ltb_ℤ t now
has_expired now locked_until (some (aware t)) = ltb_ℤ t now
has_expired now _ _ = false

unfoldable pub reset_row : ℤ → BlockRow → BlockRow
unfolding has_expired
reset_row now r =
    if has_expired now r.block.lock_mode r.block.lock_until
    then record r { block = record r.block { lock_mode = no_lock; lock_until = none } }
    else r

-- `_reset_expired_locked_until_blocks`, where the table can be written.
unfoldable pub reset_expired : ℤ → List BlockRow → List BlockRow
unfolding reset_row
reset_expired now rows = map (λ r. reset_row now r) rows

-- `check_transitions`
unfoldable pub check_transitions :
    ℤ → Option ℤ → ℤ → ℤ → List BlockRow → TimeVerifier → List BlockRow × TimeVerifier
unfolding get_verified_time reset_expired
check_transitions max_time_diff ntp system local rows v =
    let (now, v') = get_verified_time max_time_diff ntp system local v in
    (reset_expired now rows, v')
