-- ===== src/SettingsRoutes.antt =====
-- daemon/api/routes/settings.py: the routes that change the protections and their lock. Changes of the
-- delay are queued by Unblock.Queue, and those of the judge policy are judged by Grants.Policy.
pub mod Locked
mod Tests
use hypr_blocker.Base.{
  ℕ, Bool, true, false, not, ◌&&◌, ◌||◌, Option, none, some, List, [], ◌∷◌, if◌then◌else◌,
}
use hypr_blocker.Base.Int.{ℤ, pos, pos_part, max_ℤ, min_ℤ, ltb_ℤ, leb_ℤ}
use hypr_blocker.Base.Time.{DateTime, aware, as_utc}
use hypr_blocker.SettingsLock.{
  Layout, user, root, LockSource, holds, null, stamp, Read, attribute_error, lock_until,
  read_lock_until, Answer, locked, unlocked, raised, is_settings_locked,
}
use hypr_blocker.Watchdogs.{WatchdogState, Fork, spawn_watchdogs, signal_shutdown}

-- The part of SecurityConfig that the routes change.
pub record SecurityConfig : Type 0 where
  pub browser_enforcement_enabled : Bool
  pub safe_search_enabled : Bool
  pub shutdown_prevention_enabled : Bool
  pub watchdog_enabled : Bool
  pub watchdog_count : ℤ
  pub settings_lock_until : Option DateTime

-- The configuration and the state file of the watchdogs.
pub record Store : Type 0 where
  pub config : SecurityConfig
  pub watchdogs : Option WatchdogState

-- What a call meets: the layout and the enforcer's lock file, the clock, the answer of NTP and of
-- `is_system_time_valid`, and for the watchdogs the daemon's pid and the outcomes of its forks.
pub record World : Type 0 where
  pub layout : Layout
  pub lock_file : LockSource
  pub now : ℤ
  pub ntp : Option ℤ
  pub time_valid : Bool
  pub my_pid : ℕ
  pub forks : ℕ → Fork

pub data Call : Type 0 where
  browser_enforcement safe_search shutdown_prevention : Bool → Call
  watchdog : Option Bool → Option ℤ → Call
  -- The requested time, none where it cannot be parsed.
  lock : Option DateTime → Call
  unlock : Call

-- An HTTP error, an exception, a request dropped for the enforcer, or the store after the call.
pub data Reply : Type 0 where
  refused : ℕ → Reply
  failed dropped : Reply
  done : Store → Reply

-- The file with the lock: that of the enforcer, or the user's configuration.
abbrev pub lock_source : Layout → LockSource → Option DateTime → LockSource
lock_source root file stated = file
lock_source user file none = holds null
lock_source user file (some t) = holds (stamp t)

-- `is_settings_locked_ntp`
unfoldable pub is_settings_locked_ntp : World → SecurityConfig → Answer
unfolding is_settings_locked
is_settings_locked_ntp w c =
    is_settings_locked w.layout true w.now w.ntp
      (lock_source w.layout w.lock_file c.settings_lock_until)

-- `_reject_if_locked`, in front of the rest of a handler.
abbrev pub reject_if : Answer → Reply → Reply
reject_if locked rest = refused 403
reject_if raised rest = failed
reject_if unlocked rest = rest

unfoldable pub reject_if_locked : Bool → World → SecurityConfig → Reply → Reply
unfolding is_settings_locked_ntp
reject_if_locked loosening w c rest =
    if loosening then reject_if (is_settings_locked_ntp w c) rest else rest

abbrev pub is_locked : Answer → Bool
is_locked locked = true
is_locked _ = false

-- `signal_shutdown` of a manager. Where the lock cannot be read the exception has ended the handler before.
unfoldable pub stop_watchdogs : World → SecurityConfig → Option WatchdogState → Option WatchdogState
unfolding is_settings_locked_ntp signal_shutdown
stop_watchdogs w c file = signal_shutdown (is_locked (is_settings_locked_ntp w c)) file

-- `update_shutdown_prevention_status` behind the guard.
unfoldable pub set_shutdown_prevention : Bool → World → Store → Store
unfolding stop_watchdogs
set_shutdown_prevention enabled w s =
    if not enabled && s.config.watchdog_enabled
    then record {
      config = record s.config { shutdown_prevention_enabled = enabled; watchdog_enabled = false };
      watchdogs = stop_watchdogs w s.config s.watchdogs;
    }
    else record s { config = record s.config { shutdown_prevention_enabled = enabled } }

-- The change of the toggle in `update_watchdog_settings`.
unfoldable pub set_watchdog : Bool → World → Store → Store
unfolding stop_watchdogs spawn_watchdogs
set_watchdog enabled w s = record {
  config = record s.config { watchdog_enabled = enabled };
  watchdogs =
      if enabled && not s.config.watchdog_enabled
      then some
          (spawn_watchdogs (pos_part s.config.watchdog_count) w.my_pid w.now w.forks s.watchdogs)
      else if not enabled && s.config.watchdog_enabled
      then stop_watchdogs w s.config s.watchdogs
      else s.watchdogs;
}

-- `max(2, min(5, request.count))`
abbrev pub clamped : ℤ → ℤ
clamped n = max_ℤ (pos 2) (min_ℤ (pos 5) n)

abbrev pub set_count : Option ℤ → Store → Store
set_count none s = s
set_count (some n) s = record s { config = record s.config { watchdog_count = clamped n } }

abbrev pub turns_off : Option Bool → Bool
turns_off none = false
turns_off (some enabled) = not enabled

abbrev pub lowers : Option ℤ → ℤ → Bool
lowers none current = false
lowers (some n) current = ltb_ℤ n current

unfoldable pub change_watchdog : Option Bool → Option ℤ → World → Store → Reply
unfolding set_watchdog
change_watchdog none count w s = done (set_count count s)
change_watchdog (some enabled) count w s =
    if enabled && not s.config.shutdown_prevention_enabled
    then refused 400
    else done (set_count count (set_watchdog enabled w s))

-- The end of `lock_settings` in the layout of the user.
abbrev pub save_lock : DateTime → Store → Reply
save_lock t s =
    done (record s { config = record s.config { settings_lock_until = some (aware (as_utc t)) } })

-- A requested time against the lock in force, or against the clock where there is none.
abbrev pub lock_after : DateTime → ℤ → Reply → Reply
lock_after t least rest = if leb_ℤ (as_utc t) least then refused 400 else rest

abbrev pub lock_by : Answer → DateTime → DateTime → ℤ → Store → Reply
lock_by locked t current now s = lock_after t (as_utc current) (save_lock t s)
lock_by raised t current now s = failed
lock_by unlocked t current now s = lock_after t now (save_lock t s)

unfoldable pub lock_user : DateTime → Option DateTime → World → Store → Reply
unfolding is_settings_locked_ntp
lock_user t none w s = lock_after t w.now (save_lock t s)
lock_user t (some current) w s = lock_by (is_settings_locked_ntp w s.config) t current w.now s

abbrev pub lock_root : DateTime → Read → ℤ → Reply
lock_root t attribute_error now = failed
lock_root t (lock_until (some current)) now = lock_after t (as_utc current) dropped
lock_root t (lock_until none) now = lock_after t now dropped

unfoldable pub lock_in : Layout → DateTime → World → Store → Reply
unfolding lock_user read_lock_until
lock_in root t w s = lock_root t (read_lock_until w.lock_file) w.now
lock_in user t w s = lock_user t s.config.settings_lock_until w s

-- `lock_settings`
unfoldable pub lock_settings : Option DateTime → World → Store → Reply
unfolding lock_in
lock_settings none w s = refused 400
lock_settings (some t) w s = if w.time_valid then lock_in w.layout t w s else refused 403

-- `unlock_settings`
abbrev pub clear_lock : Layout → Store → Reply
clear_lock root s = dropped
clear_lock user s = done (record s { config = record s.config { settings_lock_until = none } })

unfoldable pub call : Call → World → Store → Reply
unfolding reject_if_locked set_shutdown_prevention change_watchdog lock_settings
    is_settings_locked_ntp
call (browser_enforcement enabled) w s =
    reject_if_locked (not enabled) w s.config
      (done (record s { config = record s.config { browser_enforcement_enabled = enabled } }))
call (safe_search enabled) w s =
    reject_if_locked (not enabled) w s.config
      (done (record s { config = record s.config { safe_search_enabled = enabled } }))
call (shutdown_prevention enabled) w s =
    reject_if_locked (not enabled) w s.config (done (set_shutdown_prevention enabled w s))
call (watchdog enabled count) w s =
    reject_if_locked (turns_off enabled || lowers count s.config.watchdog_count) w s.config
      (change_watchdog enabled count w s)
call (lock t) w s = lock_settings t w s
call unlock w s = reject_if (is_settings_locked_ntp w s.config) (clear_lock w.layout s)

abbrev pub store_of : Store → Reply → Store
store_of s (done t) = t
store_of s _ = s

-- The store after calls in a row.
unfoldable pub call_all : List (Call × World) → Store → Store
unfolding call
call_all [] s = s
call_all ((c, w) ∷ cs) s = call_all cs (store_of s (call c w s))
