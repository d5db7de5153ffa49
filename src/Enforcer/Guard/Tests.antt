-- ===== src/Enforcer/Guard/Tests.antt =====
-- An instance of the property of the heartbeat half of a tick.
use hypr_blocker.Base.{◌≡◌, refl, ◌⊎◌, true, false, none, some, [], ◌∷◌, arith}
use hypr_blocker.Base.Int.{ℤ, pos, ◌-ℤ◌, scale}
use hypr_blocker.Base.Float.{fin, minus}
use hypr_blocker.Base.Text.{codes}
use hypr_blocker.Enforcer.Attest.{PidInfo, verify_attestation}
use hypr_blocker.Enforcer.Attest.Verified.{InTime}
use hypr_blocker.Enforcer.Kill.{HeartbeatObservation, heartbeat_fresh, kill_decision}
use hypr_blocker.Enforcer.Policy.{number}
use hypr_blocker.Enforcer.Guard.{
  Guard, GuardInput, Reading, found, gather, tick_with, guard_tick, run_guard, check_heartbeat,
  issue_challenge, note_session, heartbeat_verdict, remember,
}
use hypr_blocker.Enforcer.Guard.Survival.{limit_for, VerifiedIn, VerifiedAt, spared_is_attested}

abbrev fresh_guard : Guard
fresh_guard = record {
  boot_id = "b";
  expected_exes = codes "/usr/bin/python3" ∷ [];
  issued_nonce = none;
  last_verified = none;
  session_started = none;
  session_was_present = false;
}

abbrev daemon_table : ℤ → Reading PidInfo
daemon_table pid = found (
    some (record {
      exe_realpath = some (codes "/usr/bin/python3");
      state = some "S";
      tracer_pid = some (pos 0);
    }))

-- A tick without an echo, which issues the challenge "n".
abbrev first_tick : GuardInput
first_tick = record {
  now = pos 200000;
  echo = found none;
  pid_info = daemon_table;
  session = true;
  enforcement_on = true;
  heartbeat_interval_seconds = number (fin (pos 30000));
  challenge = "n";
}

-- The tick that finds the answer to it.
abbrev answered_tick : GuardInput
answered_tick = record first_tick {
  now = pos 400000;
  echo =
      found
        (some (record { nonce = "n"; boot_id = "b"; pid = pos 7; monotonic = fin (pos 399000) }));
  challenge = "m";
}

spared_is_attested_example :
    (seen : HeartbeatObservation) × (VerifiedIn (first_tick ∷ []) fresh_guard seen
      ⊎ VerifiedAt answered_tick (run_guard (first_tick ∷ []) fresh_guard) seen)
    × (seen.boot_id ≡ (run_guard (first_tick ∷ []) fresh_guard).boot_id)
    × InTime (pos 400000) (limit_for (pos 30000)) seen.monotonic
unfolding run_guard guard_tick gather tick_with check_heartbeat issue_challenge note_session
    heartbeat_verdict remember verify_attestation kill_decision minus ◌-ℤ◌ scale
spared_is_attested_example =
    spared_is_attested (first_tick ∷ []) answered_tick fresh_guard (pos 30000)
      (record { kill = false; reason = heartbeat_fresh }) ((pos 30000, refl), tt) refl refl refl
      refl (omega arith) refl refl refl
