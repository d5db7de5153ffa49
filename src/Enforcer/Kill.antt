-- ===== src/Enforcer/Kill.antt =====
-- The fail-closed kill decision (enforcer/logic.py).
pub mod Decision
use hypr_blocker.Base.{Bool, true, false, not, Option, none, some, String, str_eq, if◌then◌else◌}
use hypr_blocker.Base.Int.{pos}
use hypr_blocker.Base.Float.{Float, fin, minus, less}

pub record GraceWindows : Type 0 where
  pub boot_grace_seconds : Float
  pub login_grace_seconds : Float

-- `GraceWindows()`: 300 and 120 seconds, in milliseconds.
abbrev pub default_grace : GraceWindows
default_grace = record {
  boot_grace_seconds = fin (pos 300000);
  login_grace_seconds = fin (pos 120000);
}

pub record HeartbeatObservation : Type 0 where
  pub monotonic : Float
  pub boot_id : String

pub data KillReason : Type 0 where
  enforcement_off no_session post_boot_grace post_login_grace : KillReason
  never_observed different_boot in_the_future heartbeat_stale heartbeat_fresh : KillReason

pub record KillDecision : Type 0 where
  pub kill : Bool
  pub reason : KillReason

abbrev pub spare : KillReason → KillDecision
spare r = record { kill = false; reason = r }

abbrev pub strike : KillReason → KillDecision
strike r = record { kill = true; reason = r }

in_login_grace : Float → Option Float → GraceWindows → Bool
in_login_grace now none grace = false
in_login_grace now (some started) grace = less (minus now started) grace.login_grace_seconds

judge_heartbeat : Float → String → Option HeartbeatObservation → Float → KillDecision
judge_heartbeat now boot none stale_after = strike never_observed
judge_heartbeat now boot (some last) stale_after =
    let delta = minus now last.monotonic in
    if not (str_eq last.boot_id boot)
    then strike different_boot
    else if less delta (fin (pos 0))
    then strike in_the_future
    else if less stale_after delta
    then strike heartbeat_stale
    else spare heartbeat_fresh

-- `now`, `boot`, the last heartbeat, whether a session is there and since when, whether enforcement is
-- meant to be on, the windows and the time after which a heartbeat is stale.
unfoldable pub kill_decision :
    Float
    → String
    → Option HeartbeatObservation
    → Bool
    → Option Float
    → Bool
    → GraceWindows
    → Float
    → KillDecision
unfolding in_login_grace judge_heartbeat
kill_decision now boot last session_present session_started enforcement_on grace stale_after =
    if not enforcement_on
    then spare enforcement_off
    else if not session_present
    then spare no_session
    else if less now grace.boot_grace_seconds
    then spare post_boot_grace
    else if in_login_grace now session_started grace
    then spare post_login_grace
    else judge_heartbeat now boot last stale_after

-- `should_kill_browsers`.
unfoldable pub should_kill_browsers :
    Float
    → String
    → Option HeartbeatObservation
    → Bool
    → Bool
    → GraceWindows
    → Option Float
    → Float
    → Bool
unfolding kill_decision
should_kill_browsers now boot last session_present enforcement_on grace session_started
      stale_after =
    (kill_decision now boot last session_present session_started enforcement_on grace
      stale_after).kill
