-- ===== src/Watchdogs.antt =====
-- daemon/watchdog.py: the processes that watch the daemon and one another. Times are in milliseconds.
-- Whether a process lives, the daemon answers, a restart or a fork succeeds, comes from outside.
pub mod Siblings
pub mod Loop
mod Tests
use hypr_blocker.Base.{
  ℕ, zero, suc, ◌+◌, ◌-◌, ◌/◌, Bool, true, false, not, ◌&&◌, ◌||◌, Option, none, some, List, [],
  ◌∷◌, ◌++◌, if◌then◌else◌, keep, map, leb, ltb, ◌==◌, length,
}
use hypr_blocker.Base.Int.{ℤ, pos, ◌+ℤ◌, ◌-ℤ◌, ltb_ℤ, leb_ℤ, pos_part}
use hypr_blocker.Base.Text.{Text}

pub record WatchdogEntry : Type 0 where
  pub pid : ℕ
  pub name : Text
  pub started : ℤ
  pub last_heartbeat : ℤ

pub record WatchdogState : Type 0 where
  pub enabled : Bool
  pub watchdog_count : ℕ
  pub watchdogs : List WatchdogEntry
  pub daemon_pid : Option ℕ
  pub shutdown_requested : Bool

abbrev pub heartbeat_timeout : ℤ
heartbeat_timeout = pos 60000

abbrev pub daemon_fail_threshold : ℕ
daemon_fail_threshold = 3

-- The defaults, which `load` also returns for a missing or unreadable file.
abbrev pub default_state : WatchdogState
default_state = record {
  enabled = true;
  watchdog_count = 3;
  watchdogs = [];
  daemon_pid = none;
  shutdown_requested = false;
}

-- `WatchdogState.load`; none stands for a file that is missing or holds no state.
abbrev pub load : Option WatchdogState → WatchdogState
load none = default_state
load (some state) = state

-- `max(2, min(5, watchdog_count))`
unfoldable pub clamp_count : ℕ → ℕ
clamp_count n = if ltb n 2 then 2 else if ltb 5 n then 5 else n

-- What `os.fork` and `generate_obfuscated_name` give: a pid, none where the fork fails, and a name.
pub record Fork : Type 0 where
  pub child : Option ℕ
  pub name : Text

abbrev pub started_entry : ℤ → Option ℕ → Text → List WatchdogEntry
started_entry now none name = []
started_entry now (some pid) name =
    record { pid = pid; name = name; started = now; last_heartbeat = now } ∷ []

-- The loop that forks, once for each of `forks`.
unfoldable pub spawned : ℤ → List Fork → List WatchdogEntry
spawned now [] = []
spawned now (f ∷ fs) = started_entry now f.child f.name ++ spawned now fs

-- The first forks of a supply.
abbrev pub take_forks : ℕ → (ℕ → Fork) → List Fork
take_forks zero forks = []
take_forks (suc n) forks = forks 0 ∷ take_forks n (λ i. forks (suc i))

-- `spawn_watchdogs` of a manager that was made with the count given.
unfoldable pub spawn_watchdogs : ℕ → ℕ → ℤ → (ℕ → Fork) → Option WatchdogState → WatchdogState
unfolding clamp_count spawned
spawn_watchdogs count my_pid now forks file = record (load file) {
  enabled = true;
  watchdog_count = clamp_count count;
  daemon_pid = some my_pid;
  shutdown_requested = false;
  watchdogs = spawned now (take_forks (clamp_count count) forks);
}

-- `signal_shutdown`: the file after it.
unfoldable pub signal_shutdown : Bool → Option WatchdogState → Option WatchdogState
signal_shutdown settings_locked file =
    if settings_locked then file else some (record (load file) { shutdown_requested = true })

-- A pid, a name and the uptime in seconds.
pub record ActiveWatchdog : Type 0 where
  pub pid : ℕ
  pub name : Text
  pub uptime_seconds : ℕ

-- `get_active_watchdogs`, at a time after their starts.
unfoldable pub get_active_watchdogs : (ℕ → Bool) → ℤ → Option WatchdogState → List ActiveWatchdog
get_active_watchdogs alive now file =
    map
      (λ w. record {
        pid = w.pid;
        name = w.name;
        uptime_seconds = pos_part (now -ℤ w.started) / 1000;
      })
      (keep (λ w. alive w.pid) (load file).watchdogs)

-- The watchdog itself, or a sibling that lives and whose heartbeat is no older than the timeout.
unfoldable pub stays : ℕ → (ℕ → Bool) → ℤ → WatchdogEntry → Bool
stays my_pid alive now w =
    w.pid == my_pid || (alive w.pid && leb_ℤ now (w.last_heartbeat +ℤ heartbeat_timeout))

unfoldable pub missing_count : (WatchdogEntry → Bool) → List WatchdogEntry → ℕ
missing_count f [] = 0
missing_count f (w ∷ ws) = let rest = missing_count f ws in if f w then rest else suc rest

-- `_check_and_respawn_siblings`: the state that it saves.
unfoldable pub check_and_respawn_siblings :
    ℕ → (ℕ → Bool) → ℤ → (ℕ → Fork) → Option WatchdogState → WatchdogState
unfolding stays missing_count spawned
check_and_respawn_siblings my_pid alive now forks file = record (load file) {
  watchdogs =
      keep (stays my_pid alive now) (load file).watchdogs
      ++ spawned now
          (take_forks (missing_count (stays my_pid alive now) (load file).watchdogs) forks);
}

abbrev pub beat_own : ℕ → ℤ → List WatchdogEntry → List WatchdogEntry
beat_own my_pid now [] = []
beat_own my_pid now (w ∷ ws) =
    let rest = beat_own my_pid now ws in
    if w.pid == my_pid then record w { last_heartbeat = now } ∷ ws else w ∷ rest

-- `_update_heartbeat`
unfoldable pub update_heartbeat : ℕ → ℤ → Option WatchdogState → WatchdogState
update_heartbeat my_pid now file = record (load file) {
  watchdogs = beat_own my_pid now (load file).watchdogs;
}

-- `_handle_signal`: whether the watchdog goes on running.
unfoldable pub handle_signal : Bool → Bool → Bool
handle_signal settings_locked running = if settings_locked then running else false

-- The daemon half of `run`: the count of failures after a health check, and whether a restart was tried.
unfoldable pub check_daemon : Bool → Bool → ℕ → ℕ × Bool
check_daemon healthy restarts fail_count =
    if healthy
    then (0, false)
    else if leb daemon_fail_threshold (suc fail_count)
    then (if restarts then 0 else suc fail_count, true)
    else (suc fail_count, false)
