-- ===== src/Enforcer/Attest/Verified.antt =====
-- What a verified echo says, and that a stamp which is no number passes as well.
use hypr_blocker.Base.{
  ◌≡◌, refl, ap, ◌≢◌, ◌⊎◌, inl, inr, Bool, true, false, not, Option, none, some, List, String,
  arith, str_eq, str_eq_iff, if◌then◌else◌,
}
use hypr_blocker.Base.Int.{ℤ, pos, ◌+ℤ◌, ◌≤ℤ◌, -ℤ_parts, +ℤ_parts, eq_of_parts}
use hypr_blocker.Base.Float.{Float, fin, pinf, ninf, nan, minus, less}
use hypr_blocker.Base.Text.{Text}
use hypr_blocker.Enforcer.Attest.{
  EchoResponse, PidInfo, nonce_mismatch, boot_id_mismatch, from_the_future, echo_stale, wrong_exe,
  stopped, traced, verified, AttestationVerdict, refuse, exe_expected, is_stopped, is_zero,
  verify_process, verify_attestation, zero_seconds,
}

-- The process that attests runs an expected interpreter, is not stopped and is not traced.
pub record IsHonest (expected_prefix : Text) (exes : List Text) (p : PidInfo) : Type 0 where
  pub exe : exe_expected expected_prefix exes p.exe_realpath ≡ true
  pub running : p.state ≢ some "T"
  pub untraced : p.tracer_pid ≡ some (pos 0)

not_stopped : (s : Option String) → is_stopped s ≡ false → s ≢ some "T"
not_stopped none h e = cc e
not_stopped (some s) h e = ground (arith, str_eq_iff s "T")

zero_sound : (o : Option ℤ) → is_zero o ≡ true → o ≡ some (pos 0)
zero_sound none h = cc h
zero_sound (some n) h = ap {B = Option ℤ} some (eq_of_parts n (pos 0) (ground arith))

process_stages :
    (expected halted zero : Bool)
    → (if not expected
        then refuse wrong_exe
        else if halted
        then refuse stopped
        else if not zero
        then refuse traced
        else record { ok = true; reason = verified }).ok
      ≡ true
    → (expected ≡ true) × (halted ≡ false) × (zero ≡ true)
process_stages expected halted zero h = ground arith

process_sound :
    (expected_prefix : Text) (exes : List Text) (p : Option PidInfo)
    → (verify_process expected_prefix exes p).ok ≡ true
    → (q : PidInfo) × (p ≡ some q) × IsHonest expected_prefix exes q
unfolding verify_process
process_sound expected_prefix exes none h = cc h
process_sound expected_prefix exes (some p) h =
    let (e, s, z) =
      process_stages (exe_expected expected_prefix exes p.exe_realpath) (is_stopped p.state)
        (is_zero p.tracer_pid) h in
    (
      p,
      refl,
      record { exe = e; running = not_stopped p.state s; untraced = zero_sound p.tracer_pid z },
    )

stages :
    (same_nonce same_boot future old : Bool) (v : AttestationVerdict)
    → (if not same_nonce
        then refuse nonce_mismatch
        else if not same_boot
        then refuse boot_id_mismatch
        else if future
        then refuse from_the_future
        else if old
        then refuse echo_stale
        else v).ok
      ≡ true
    → (same_nonce ≡ true) × (same_boot ≡ true) × (future ≡ false) × (old ≡ false) × (v.ok ≡ true)
stages same_nonce same_boot future old v h = ground arith

-- The stamp is a number in the window before `now`, or no number at all.
abbrev pub InTime : ℤ → ℤ → Float → Type 0
InTime now max_age stamp =
    (stamp ≡ nan) ⊎ ((m : ℤ) × (stamp ≡ fin m) × (m ≤ℤ now) × (now ≤ℤ m +ℤ max_age))

pub in_time :
    (now max_age : ℤ) (stamp : Float)
    → less (minus (fin now) stamp) zero_seconds ≡ false
    → less (fin max_age) (minus (fin now) stamp) ≡ false
    → InTime now max_age stamp
unfolding minus
in_time now max_age (fin m) f o =
    inr
      (m, refl, ground (arith, -ℤ_parts now m), ground (arith, -ℤ_parts now m, +ℤ_parts m max_age))
in_time now max_age pinf f o = cc f
in_time now max_age ninf f o = cc o
in_time now max_age nan f o = inl refl

-- What a verified echo has shown.
pub record Attests (issued boot : String) (now max_age : ℤ) (echo : EchoResponse) : Type 0 where
  pub answers_challenge : echo.nonce ≡ issued
  pub same_boot : echo.boot_id ≡ boot
  pub in_window : InTime now max_age echo.monotonic

-- A verdict that is ok comes from an echo of the challenge that was issued, in this boot, with a stamp
-- that is not from the future and not too old or is NaN, by a process that exists, runs an expected
-- interpreter, is not stopped and is not traced.
pub verified_sound :
    (issued : Option String) (echo : Option EchoResponse) (boot : String) (now : ℤ)
    (pid_info : Option PidInfo) (expected_prefix : Text) (exes : List Text) (max_age : ℤ)
    → (verify_attestation issued echo boot (fin now) pid_info expected_prefix exes (fin max_age)).ok
      ≡ true
    → (i : String) × (e : EchoResponse) × (q : PidInfo) × (issued ≡ some i)
      × (echo ≡ some e)
      × (pid_info ≡ some q)
      × Attests i boot now max_age e
      × IsHonest expected_prefix exes q
unfolding verify_attestation
verified_sound none echo boot now pid_info expected_prefix exes max_age h = cc h
verified_sound (some i) none boot now pid_info expected_prefix exes max_age h = cc h
verified_sound (some i) (some e) boot now pid_info expected_prefix exes max_age h =
    let delta = minus (fin now) e.monotonic in
    let (n, b, f, o, v) =
      stages (str_eq e.nonce i) (str_eq e.boot_id boot) (less delta zero_seconds)
        (less (fin max_age) delta) (verify_process expected_prefix exes pid_info) h in
    let (q, found, honest) = process_sound expected_prefix exes pid_info v in
    let attests : Attests i boot now max_age e = record {
      answers_challenge = (str_eq_iff e.nonce i).0 n;
      same_boot = (str_eq_iff e.boot_id boot).0 b;
      in_window = in_time now max_age e.monotonic f o;
    } in
    (i, e, q, refl, refl, found, attests, honest)
