-- ===== src/Enforcer/Attest.antt =====
-- The heartbeat attestation (enforcer/heartbeat.py): the pure check of one challenge and echo.
pub mod Verified
use hypr_blocker.Base.{
  ℕ, Bool, true, false, not, ◌&&◌, ◌||◌, Option, none, some, List, [], ◌++◌, String, str_eq,
  if◌then◌else◌,
}
use hypr_blocker.Base.Int.{ℤ, pos, eqb_ℤ}
use hypr_blocker.Base.Float.{Float, fin, minus, less}
use hypr_blocker.Base.Text.{Text, codes, text_eq, member, starts_with, rstrip_slash}

abbrev pub zero_seconds : Float
zero_seconds = fin (pos 0)

pub record EchoResponse : Type 0 where
  pub nonce : String
  pub boot_id : String
  pub pid : ℤ
  pub monotonic : Float

-- The process state is its single letter.
pub record PidInfo : Type 0 where
  pub exe_realpath : Option Text
  pub state : Option String
  pub tracer_pid : Option ℤ

pub data AttestationReason : Type 0 where
  no_challenge no_echo nonce_mismatch boot_id_mismatch from_the_future echo_stale pid_vanished :
      AttestationReason
  wrong_exe stopped traced verified : AttestationReason

pub record AttestationVerdict : Type 0 where
  pub ok : Bool
  pub reason : AttestationReason

abbrev pub refuse : AttestationReason → AttestationVerdict
refuse r = record { ok = false; reason = r }

-- `exe` is under the prefix or is one of the resolved interpreters; an empty path is neither.
unfoldable pub exe_expected : Text → List Text → Option Text → Bool
exe_expected expected_prefix expected_exes none = false
exe_expected expected_prefix expected_exes (some exe) =
    not (text_eq exe [])
    && (starts_with (rstrip_slash expected_prefix ++ codes "/") exe || member exe expected_exes)

abbrev pub is_stopped : Option String → Bool
is_stopped none = false
is_stopped (some s) = str_eq s "T"

abbrev pub is_zero : Option ℤ → Bool
is_zero none = false
is_zero (some n) = eqb_ℤ n (pos 0)

verify_process : Text → List Text → Option PidInfo → AttestationVerdict
unfolding exe_expected
verify_process expected_prefix expected_exes none = refuse pid_vanished
verify_process expected_prefix expected_exes (some p) =
    if not (exe_expected expected_prefix expected_exes p.exe_realpath)
    then refuse wrong_exe
    else if is_stopped p.state
    then refuse stopped
    else if not (is_zero p.tracer_pid)
    then refuse traced
    else record { ok = true; reason = verified }

-- `verify_attestation`.
unfoldable pub verify_attestation :
    Option String
    → Option EchoResponse
    → String
    → Float
    → Option PidInfo
    → Text
    → List Text
    → Float
    → AttestationVerdict
unfolding verify_process
verify_attestation none echo boot now pid_info expected_prefix exes max_age = refuse no_challenge
verify_attestation (some issued) none boot now pid_info expected_prefix exes max_age =
    refuse no_echo
verify_attestation (some issued) (some echo) boot now pid_info expected_prefix exes max_age =
    let delta = minus now echo.monotonic in
    if not (str_eq echo.nonce issued)
    then refuse nonce_mismatch
    else if not (str_eq echo.boot_id boot)
    then refuse boot_id_mismatch
    else if less delta zero_seconds
    then refuse from_the_future
    else if less max_age delta
    then refuse echo_stale
    else verify_process expected_prefix exes pid_info
