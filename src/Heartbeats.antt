-- ===== src/Heartbeats.antt =====
-- daemon/heartbeat_tracker.py: which browsers have sent heartbeats, and the grace periods. Times are in
-- milliseconds, and a call reads the clock once.
pub mod Silence
pub mod Caught
mod Tests
use hypr_blocker.Base.{
  ℕ, suc, ◌+◌, ◌/◌, Bool, true, false, not, ◌&&◌, ◌||◌, Option, none, some, List, [], ◌∷◌,
  if◌then◌else◌, keep, map, ltb, is_among,
}
use hypr_blocker.Base.Int.{ℤ, pos, ◌+ℤ◌, ◌-ℤ◌, ltb_ℤ, leb_ℤ, pos_part}
use hypr_blocker.Base.Text.{Text, text_eq}
use hypr_blocker.Base.Time.{seconds}
use hypr_blocker.Base.Dict.{find, put}

pub record BrowserHeartbeat : Type 0 where
  pub browser : Text
  pub last_seen : ℤ
  pub incognito_last_seen : Option ℤ
  pub incognito_enabled : Bool
  pub window_mismatch_count : ℕ

pub record ExtensionInstance : Type 0 where
  pub window_count : ℕ
  pub last_seen : ℤ

-- The instances of a process are kept by the id of the extension.
pub record HeartbeatTracker : Type 0 where
  pub active_browsers : List (ℕ × BrowserHeartbeat)
  pub extension_instances : List (ℕ × List (Text × ExtensionInstance))
  pub grace_period_until : Option ℤ
  pub first_seen_pids : List (ℕ × ℤ)

-- `NEW_BROWSER_GRACE_SECONDS`
abbrev pub new_browser_grace : ℤ
new_browser_grace = pos 10000

-- `start_grace_period`
unfoldable pub start_grace_period : ℤ → ℤ → HeartbeatTracker → HeartbeatTracker
start_grace_period duration now t = record t { grace_period_until = some (now +ℤ duration) }

-- `is_grace_period_active`
unfoldable pub is_grace_period_active : ℤ → HeartbeatTracker → Bool
is_grace_period_active now t = elim t.grace_period_until [
  | none ↦ false
  | some until ↦ ltb_ℤ now until
]

-- `get_grace_period_remaining`, in whole seconds.
unfoldable pub get_grace_period_remaining : ℤ → HeartbeatTracker → Option ℕ
get_grace_period_remaining now t = elim t.grace_period_until [
  | none ↦ none
  | some until ↦ if ltb_ℤ now until then some (pos_part (until -ℤ now) / 1000) else none
]

-- `now - seen < NEW_BROWSER_GRACE_SECONDS` of a process that has been seen.
abbrev pub in_grace : ℤ → Option ℤ → Bool
in_grace now none = true
in_grace now (some seen) = ltb_ℤ now (seen +ℤ new_browser_grace)

-- `_is_new_browser`
unfoldable pub is_new_browser : ℤ → List (ℕ × ℤ) → ℕ → Bool
is_new_browser now seen pid = in_grace now (find pid seen)

abbrev pub registered : ℤ → ℕ → List (ℕ × ℤ) → Option ℤ → List (ℕ × ℤ)
registered now pid seen none = put pid now seen
registered now pid seen (some t) = seen

-- `_register_first_seen`
unfoldable pub register_first_seen : ℤ → ℕ → List (ℕ × ℤ) → List (ℕ × ℤ)
register_first_seen now pid seen = registered now pid seen (find pid seen)

-- The entry of a process after a heartbeat.
abbrev pub beat : Text → Bool → Bool → ℤ → Option BrowserHeartbeat → BrowserHeartbeat
beat browser incognito enabled now none = record {
  browser = browser;
  last_seen = now;
  incognito_last_seen = if incognito then some now else none;
  incognito_enabled = enabled;
  window_mismatch_count = 0;
}
beat browser incognito enabled now (some h) = record h {
  last_seen = now;
  incognito_enabled = enabled;
  incognito_last_seen = if incognito then some now else h.incognito_last_seen;
}

abbrev pub put_instance :
    Text → ExtensionInstance → List (Text × ExtensionInstance) → List (Text × ExtensionInstance)
put_instance id i [] = (id, i) ∷ []
put_instance id i ((j, k) ∷ is) =
    let rest = put_instance id i is in if text_eq id j then (j, i) ∷ is else (j, k) ∷ rest

abbrev pub instances_of : Option (List (Text × ExtensionInstance)) → List (Text × ExtensionInstance)
instances_of none = []
instances_of (some is) = is

abbrev pub add_instance :
    ℕ
    → Text
    → ExtensionInstance
    → List (ℕ × List (Text × ExtensionInstance))
    → List (ℕ × List (Text × ExtensionInstance))
add_instance pid [] i all = all
add_instance pid (c ∷ id) i all =
    put pid (put_instance (c ∷ id) i (instances_of (find pid all))) all

-- `register_heartbeat`
unfoldable pub register_heartbeat :
    ℕ → Text → Bool → Bool → Text → ℕ → ℤ → HeartbeatTracker → HeartbeatTracker
register_heartbeat pid browser incognito enabled extension_id window_count now t = record t {
  active_browsers =
      put pid (beat browser incognito enabled now (find pid t.active_browsers)) t.active_browsers;
  extension_instances =
      add_instance pid extension_id (record { window_count = window_count; last_seen = now })
        t.extension_instances;
}

-- `now - seen <= timeout`
abbrev pub is_recent : ℤ → ℤ → ℤ → Bool
is_recent timeout now seen = leb_ℤ now (seen +ℤ timeout)

abbrev pub recent_beat : ℤ → ℤ → Option BrowserHeartbeat → Bool
recent_beat timeout now none = false
recent_beat timeout now (some h) = is_recent timeout now h.last_seen

-- `get_compliant_browsers`, asked of a process.
unfoldable pub is_compliant : ℤ → ℤ → HeartbeatTracker → ℕ → Bool
is_compliant timeout now t pid = recent_beat timeout now (find pid t.active_browsers)

-- The loop over the processes that are not compliant.
unfoldable pub late_browsers : ℤ → List ℕ → List (ℕ × ℤ) → List ℕ × List (ℕ × ℤ)
unfolding register_first_seen is_new_browser
late_browsers now [] seen = ([], seen)
late_browsers now (p ∷ ps) seen =
    let known = register_first_seen now p seen in
    let (late, all) = late_browsers now ps known in
    (if is_new_browser now known p then late else p ∷ late, all)

-- `get_non_compliant_browsers`: the processes, and the tracker after the call.
unfoldable pub get_non_compliant_browsers :
    ℤ → ℤ → List ℕ → HeartbeatTracker → List ℕ × HeartbeatTracker
unfolding is_grace_period_active is_compliant late_browsers
get_non_compliant_browsers timeout now pids t =
    let (late, seen) =
      late_browsers now (keep (λ p. not (is_compliant timeout now t p)) pids) t.first_seen_pids in
    if is_grace_period_active now t then ([], t) else (late, record t { first_seen_pids = seen })

abbrev pub sum_windows : ℤ → ℤ → List (Text × ExtensionInstance) → ℕ
sum_windows timeout now [] = 0
sum_windows timeout now ((id, i) ∷ is) =
    (if is_recent timeout now i.last_seen then i.window_count else 0) + sum_windows timeout now is

-- `get_total_extension_window_count`
unfoldable pub get_total_extension_window_count : ℤ → ℤ → ℕ → HeartbeatTracker → Option ℕ
get_total_extension_window_count timeout now pid t =
    let total = sum_windows timeout now (instances_of (find pid t.extension_instances)) in
    if ltb 0 total then some total else none

-- `increment_window_mismatch`: its value, and the tracker after it.
unfoldable pub increment_window_mismatch : ℕ → HeartbeatTracker → ℕ × HeartbeatTracker
increment_window_mismatch pid t = elim (find pid t.active_browsers) [
  | none ↦ (0, t)
  | some h ↦ (
    suc h.window_mismatch_count,
    record t {
      active_browsers =
          put pid (record h { window_mismatch_count = suc h.window_mismatch_count })
            t.active_browsers;
    },
  )
]

-- `reset_window_mismatch`
unfoldable pub reset_window_mismatch : ℕ → HeartbeatTracker → HeartbeatTracker
reset_window_mismatch pid t = elim (find pid t.active_browsers) [
  | none ↦ t
  | some h ↦ record t {
    active_browsers = put pid (record h { window_mismatch_count = 0 }) t.active_browsers;
  }
]

abbrev pub misses_incognito : ℤ → ℤ → BrowserHeartbeat → Bool
misses_incognito timeout now h = elim h.incognito_last_seen [
  | none ↦ false
  | some seen ↦ not (is_recent timeout now seen) && is_recent timeout now h.last_seen
]

-- `get_browsers_missing_incognito_heartbeat`
unfoldable pub get_browsers_missing_incognito_heartbeat : ℤ → ℤ → HeartbeatTracker → List ℕ
get_browsers_missing_incognito_heartbeat timeout now t =
    map (λ e. e.0) (keep (λ e. misses_incognito timeout now e.1) t.active_browsers)

abbrev pub fresh_instances :
    ℤ → ℤ → List (ℕ × List (Text × ExtensionInstance)) → List (ℕ × List (Text × ExtensionInstance))
fresh_instances timeout now [] = []
fresh_instances timeout now ((pid, is) ∷ all) =
    let rest = fresh_instances timeout now all in
    elim (keep (λ e. is_recent timeout now e.1.last_seen) is) [
      | [] ↦ rest
      | i ∷ fresh ↦ (pid, i ∷ fresh) ∷ rest
    ]

-- `cleanup_old_heartbeats`: a process that is dropped loses its instances as well.
unfoldable pub cleanup_old_heartbeats : ℤ → ℤ → HeartbeatTracker → HeartbeatTracker
cleanup_old_heartbeats timeout now t =
    let twice = timeout +ℤ timeout in
    let stale =
      map (λ e. e.0) (keep (λ e. not (is_recent twice now e.1.last_seen)) t.active_browsers) in
    record t {
      active_browsers = keep (λ e. is_recent twice now e.1.last_seen) t.active_browsers;
      extension_instances =
          fresh_instances twice now (keep (λ e. not (is_among e.0 stale)) t.extension_instances);
      first_seen_pids = keep (λ e. is_recent (seconds (pos 120)) now e.1) t.first_seen_pids;
    }

pub record BrowserStatus : Type 0 where
  pub pid : ℕ
  pub browser : Text
  pub compliant : Bool
  pub last_heartbeat : ℤ
  pub incognito_active : Bool
  pub incognito_enabled : Bool

-- `get_browser_status`
unfoldable pub get_browser_status : ℤ → ℤ → ℕ → HeartbeatTracker → Option BrowserStatus
get_browser_status timeout now pid t = elim (find pid t.active_browsers) [
  | none ↦ none
  | some h ↦ some (record {
    pid = pid;
    browser = h.browser;
    compliant = is_recent timeout now h.last_seen && h.incognito_enabled;
    last_heartbeat = h.last_seen;
    incognito_active = elim h.incognito_last_seen [
      | none ↦ false
      | some seen ↦ is_recent timeout now seen
    ];
    incognito_enabled = h.incognito_enabled;
  })
]
