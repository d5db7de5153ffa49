-- ===== src/SettingsLock.antt =====
-- daemon/settings_lock.py: the reader of the settings lock in both layouts.
pub mod FailClosed
mod Tests
use hypr_blocker.Base.{Bool, true, false, Option, none, some, if◌then◌else◌}
use hypr_blocker.Base.Int.{ℤ, ltb_ℤ}
use hypr_blocker.Base.Time.{DateTime, as_utc}

pub data Layout : Type 0 where
  user root : Layout

-- The value under the key of the lock: no such key, None, another value that is false, a text that
-- `datetime.fromisoformat` reads, or anything else.
pub data RawLock : Type 0 where
  no_key null falsy bad : RawLock
  stamp : DateTime → RawLock

-- The file that records the lock: absent, unreadable or no JSON, JSON without the dicts that the key
-- stands in, or a value.
pub data LockSource : Type 0 where
  absent broken no_dict : LockSource
  holds : RawLock → LockSource

-- `_parse`
unfoldable pub parse : RawLock → Option DateTime
parse (stamp d) = some d
parse _ = none

-- What `read_lock_until` returns, or the AttributeError that leaves it.
pub data Read : Type 0 where
  attribute_error : Read
  lock_until : Option DateTime → Read

-- `_read_user_lock` and `_read_root_lock`, on the file of the layout.
unfoldable pub read_lock_until : LockSource → Read
unfolding parse
read_lock_until absent = lock_until none
read_lock_until broken = lock_until none
read_lock_until no_dict = attribute_error
read_lock_until (holds raw) = lock_until (parse raw)

is_none : Option DateTime → Bool
is_none none = true
is_none (some d) = false

-- `_root_lock_is_corrupt`
unfoldable pub root_lock_is_corrupt : LockSource → Bool
unfolding parse is_none
root_lock_is_corrupt absent = false
root_lock_is_corrupt broken = true
root_lock_is_corrupt no_dict = true
root_lock_is_corrupt (holds no_key) = true
root_lock_is_corrupt (holds null) = false
root_lock_is_corrupt (holds raw) = is_none (parse raw)

pub data Answer : Type 0 where
  locked unlocked raised : Answer

answer : Bool → Answer
answer true = locked
answer false = unlocked

-- The answer where no lock is read.
unfoldable pub without_lock : Layout → LockSource → Answer
unfolding answer root_lock_is_corrupt
without_lock user source = unlocked
without_lock root source = answer (root_lock_is_corrupt source)

-- The answer by the time: NTP's, or with `verify_ntp` off the wall clock's.
unfoldable pub by_time : Bool → ℤ → Option ℤ → DateTime → Answer
unfolding answer
by_time false wall ntp until = answer (ltb_ℤ wall (as_utc until))
by_time true wall none until = locked
by_time true wall (some t) until = answer (ltb_ℤ t (as_utc until))

decide : Layout → Bool → ℤ → Option ℤ → LockSource → Read → Answer
unfolding without_lock by_time
decide layout verify_ntp wall ntp source attribute_error = raised
decide layout verify_ntp wall ntp source (lock_until none) = without_lock layout source
decide layout verify_ntp wall ntp source (lock_until (some until)) =
    by_time verify_ntp wall ntp until

-- `is_settings_locked`
unfoldable pub is_settings_locked : Layout → Bool → ℤ → Option ℤ → LockSource → Answer
unfolding decide read_lock_until
is_settings_locked layout verify_ntp wall ntp source =
    decide layout verify_ntp wall ntp source (read_lock_until source)
