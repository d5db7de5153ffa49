-- ===== src/Enforcer/Guard.antt =====
-- The heartbeat half of `Enforcer.tick` (enforcer/main.py): `_check_heartbeat`, `_issue_challenge`, the
-- session and the kill decision. The policy and the process table come in with each tick; the
-- challenge file is always written.
pub mod Survival
mod Tests
use hypr_blocker.Base.{
  Bool, true, false, not, ◌&&◌, Option, none, some, List, [], ◌∷◌, String, if◌then◌else◌,
}
use hypr_blocker.Base.Int.{ℤ, pos}
use hypr_blocker.Base.Float.{Float, fin, times, max_float}
use hypr_blocker.Base.Text.{Text, codes}
use hypr_blocker.Enforcer.Policy.{Number, number, no_number}
use hypr_blocker.Enforcer.Attest.{EchoResponse, PidInfo, AttestationVerdict, verify_attestation}
use hypr_blocker.Enforcer.Kill.{HeartbeatObservation, KillDecision, default_grace, kill_decision}

abbrev pub expected_exe_prefix : Text
expected_exe_prefix = codes "/opt/hyprblocker/.venv"

-- The fields of `Enforcer` that the heartbeat half keeps.
pub record Guard : Type 0 where
  pub boot_id : String
  pub expected_exes : List Text
  pub issued_nonce : Option String
  pub last_verified : Option HeartbeatObservation
  pub session_started : Option Float
  pub session_was_present : Bool

-- A reading of the user's files and of the process table: what was found, or an exception that is not caught, as
-- for a text that is no UTF-8 or a process id that is no finite number.
pub data Reading (A : Type 0) : Type 0 where
  found : Option A → Reading A
  raised : Reading A

-- What a tick reads: the monotonic clock, the echo file, the process table, whether a compositor runs, two
-- fields of the policy, and the fresh challenge that it draws.
pub record GuardInput : Type 0 where
  pub now : ℤ
  pub echo : Reading EchoResponse
  pub pid_info : ℤ → Reading PidInfo
  pub session : Bool
  pub enforcement_on : Bool
  pub heartbeat_interval_seconds : Number
  pub challenge : String

-- `max(3.0 * policy.heartbeat_interval_seconds, 90.0)`, in milliseconds, none where it raises.
abbrev pub stale_after : Number → Option Float
stale_after no_number = none
stale_after (number interval) = some (max_float (times 3 interval) (fin (pos 90000)))

-- What `_check_heartbeat` has read when it comes to the verification.
pub record Readings : Type 0 where
  pub echo : Option EchoResponse
  pub process : Option PidInfo
  pub limit : Float

abbrev pub info_of_echo : (ℤ → Reading PidInfo) → Option EchoResponse → Reading PidInfo
info_of_echo table none = found none
info_of_echo table (some echo) = table echo.pid

abbrev pub with_limit : Option EchoResponse → Option PidInfo → Option Float → Option Readings
with_limit echo process none = none
with_limit echo process (some limit) =
    some (record { echo = echo; process = process; limit = limit })

abbrev pub with_process : Option EchoResponse → Reading PidInfo → Option Float → Option Readings
with_process echo raised limit = none
with_process echo (found process) limit = with_limit echo process limit

abbrev pub with_echo : (ℤ → Reading PidInfo) → Reading EchoResponse → Option Float → Option Readings
with_echo table raised limit = none
with_echo table (found echo) limit = with_process echo (info_of_echo table echo) limit

-- The readings, none where an exception ends the tick.
unfoldable pub gather : GuardInput → Option Readings
gather i = with_echo i.pid_info i.echo (stale_after i.heartbeat_interval_seconds)

unfoldable pub heartbeat_verdict : ℤ → Readings → Guard → AttestationVerdict
unfolding verify_attestation
heartbeat_verdict now r g =
    verify_attestation g.issued_nonce r.echo g.boot_id (fin now) r.process expected_exe_prefix
      g.expected_exes r.limit

abbrev pub observation_of : EchoResponse → HeartbeatObservation
observation_of echo = record { monotonic = echo.monotonic; boot_id = echo.boot_id }

-- What is kept as verified after a verdict.
unfoldable pub remember :
    Bool → Option EchoResponse → Option HeartbeatObservation → Option HeartbeatObservation
remember true (some echo) last = some (observation_of echo)
remember true none last = last
remember false echo last = last

-- `_check_heartbeat`, from the verification on
unfoldable pub check_heartbeat : ℤ → Readings → Guard → AttestationVerdict × Guard
unfolding heartbeat_verdict remember
check_heartbeat now r g = (
  heartbeat_verdict now r g,
  record g { last_verified = remember (heartbeat_verdict now r g).ok r.echo g.last_verified },
)

-- `_issue_challenge`
unfoldable pub issue_challenge : GuardInput → Guard → Guard
issue_challenge i g = record g { issued_nonce = some i.challenge }

-- A session that was not there at the last tick begins now.
unfoldable pub note_session : GuardInput → Guard → Guard
note_session i g = record g {
  session_started =
      if i.session && not g.session_was_present then some (fin i.now) else g.session_started;
  session_was_present = i.session;
}

-- The tick after the session is noted. An exception leaves it without a challenge and without a decision.
unfoldable pub tick_with : GuardInput → Option Readings → Guard → Option KillDecision × Guard
unfolding check_heartbeat issue_challenge kill_decision
tick_with i none g = (none, g)
tick_with i (some r) g =
    let checked = issue_challenge i (check_heartbeat i.now r g).1 in
    (
      some (
          kill_decision (fin i.now) checked.boot_id checked.last_verified i.session
            checked.session_started i.enforcement_on default_grace r.limit),
      checked,
    )

unfoldable pub guard_tick : GuardInput → Guard → Option KillDecision × Guard
unfolding gather note_session tick_with
guard_tick i g = tick_with i (gather i) (note_session i g)

unfoldable pub run_guard : List GuardInput → Guard → Guard
unfolding guard_tick
run_guard [] g = g
run_guard (i ∷ is) g = run_guard is (guard_tick i g).1
