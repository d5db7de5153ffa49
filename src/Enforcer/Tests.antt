-- ===== src/Enforcer/Tests.antt =====
-- Instances of the enforcer's properties, and runs of its definitions.
use hypr_blocker.Base.{ℕ, ◌≡◌, refl, ◌↔◌, true, false, Option, none, some, [], ◌∷◌, String, arith}
use hypr_blocker.Base.Int.{ℤ, pos, ◌≤ℤ◌, ◌+ℤ◌, ◌-ℤ◌, scale}
use hypr_blocker.Base.Float.{fin, nan, minus}
use hypr_blocker.Base.Text.{codes}
use hypr_blocker.Base.Time.{aware, hours}
use hypr_blocker.Enforcer.Policy.{
  EnforcementPolicy, default_policy, number, PolicyBody, PolicyField, policy_loosening_fields,
  filled, merge,
}
use hypr_blocker.Enforcer.Policy.Strictness.{
  IsAsStrict, IsSound, nan_interval_passes, no_loosening_iff,
}
use hypr_blocker.Enforcer.Policy.Merge.{merge-IsAsStrict}
use hypr_blocker.Enforcer.Change.{delay, no_date, lock, RequestVerdict}
use hypr_blocker.Enforcer.Requests.{
  recorded, read_lock_until, due_at, holds, Store, settings_tick, loosen_delay_hours,
}
use hypr_blocker.Enforcer.Requests.Delay.{NotEarlier, Within}
use hypr_blocker.Enforcer.Requests.Window.{TickInput, run_ticks, ticks_loosen_nothing}
use hypr_blocker.Enforcer.Requests.Unlock.{unlock_waits, unlock_lands}
use hypr_blocker.Enforcer.Kill.{kill_decision}
use hypr_blocker.Enforcer.Kill.Decision.{observed, started, IsFresh, LoginGraceOver, kill_iff}
use hypr_blocker.Enforcer.Attest.{EchoResponse, PidInfo, verify_attestation}
use hypr_blocker.Enforcer.Attest.Verified.{Attests, IsHonest, verified_sound}

abbrev ntp_at_noon : ℕ → Option ℤ
ntp_at_noon n = some (pos 43200000)

abbrev locked_store : Store
locked_store = record {
  lock_file = recorded (some (aware (pos 90000000))) none;
  policy_file = default_policy;
  judge_file = none;
  pending = [];
  requests = [];
  ntp_cache = none;
  ntp_calls = 0;
}

abbrev unlock_request : TickInput
unlock_request = record {
  root_ntp = ntp_at_noon;
  wall = pos 0;
  dev_mode = true;
  requests = holds (lock no_date) ∷ [];
}

abbrev nothing_named : PolicyBody
nothing_named = record {
  browsers = none;
  browser_enforcement_enabled = none;
  shutdown_prevention_enabled = none;
  watchdog_enabled = none;
  watchdog_count = none;
  heartbeat_interval_seconds = none;
}

default-IsSound : IsSound default_policy
default-IsSound = record { kill_list = λ n e. e; detection = omega arith; guards = omega arith }

abbrev guarded_policy : EnforcementPolicy
guarded_policy = record default_policy { shutdown_prevention_enabled = true }

-- The lock is still that of the beginning after a tick with an unlock request.
ticks_loosen_nothing_example :
    NotEarlier
      (some (aware (pos 90000000)))
      (read_lock_until (run_ticks (unlock_request ∷ []) locked_store).lock_file)
    × IsAsStrict default_policy (run_ticks (unlock_request ∷ []) locked_store).policy_file
ticks_loosen_nothing_example =
    ticks_loosen_nothing (pos 43200000) (unlock_request ∷ []) locked_store (at_noon, tt)
      ((tt, tt), tt) default-IsSound tt
  where
    at_noon : (n : ℕ) (t : ℤ) → ntp_at_noon n ≡ some t → Within (pos 43200000) t
    at_noon n t e =
        let same : pos 43200000 ≡ t = cc e in rw (← same) (unfold ◌+ℤ◌ scale in omega arith)

unlock_waits_example :
    let s' =
      settings_tick ntp_at_noon
        (pos 0)
        false
        (record locked_store { requests = holds (lock no_date) ∷ []; pending = [] }) in
    (s'.lock_file ≡ recorded (some (aware (pos 90000000))) none)
    × (s'.requests ≡ [])
    × (s'.pending ≡ due_at (aware (pos 43200000 +ℤ hours loosen_delay_hours)) (lock no_date) ∷ [])
unlock_waits_example =
    unlock_waits ntp_at_noon (pos 0) false (aware (pos 90000000)) (pos 43200000) locked_store refl
      refl

unlock_lands_example :
    let s' = settings_tick ntp_at_noon (pos 0) false (record locked_store {
      requests = [];
      pending = due_at (aware (pos 43000000)) (lock no_date) ∷ [];
    }) in
    (s'.lock_file ≡ recorded none (some (pos 43200000))) × (s'.pending ≡ [])
unlock_lands_example =
    unlock_lands ntp_at_noon (pos 0) false (aware (pos 43000000)) (pos 43200000) locked_store refl
      (omega arith)

abbrev shutdown_verdict : RequestVerdict
shutdown_verdict = record {
  action = delay;
  error = none;
  loosened_fields = PolicyField.shutdown_prevention_enabled ∷ [];
}

nan_interval_passes_example :
    (policy_loosening_fields default_policy
        (record default_policy { heartbeat_interval_seconds = number nan })
      ≡ some [])
    × ¬ IsAsStrict default_policy
        (record default_policy { heartbeat_interval_seconds = number nan })
nan_interval_passes_example = nan_interval_passes default_policy default-IsSound

merge-IsAsStrict_example : IsAsStrict default_policy (merge guarded_policy nothing_named)
merge-IsAsStrict_example =
    merge-IsAsStrict default_policy guarded_policy nothing_named
      ((no_loosening_iff default_policy guarded_policy (tt, tt) (tt, tt)).0
        (unfold policy_loosening_fields in refl))
      (unfold filled merge in (tt, tt)) (unfold policy_loosening_fields filled merge in refl)

kill_iff_example :
    ((kill_decision
        (fin (pos 500000))
        "b"
        (observed (some (pos 400000, "b")))
        true
        (started none)
        true
        (record { boot_grace_seconds = fin (pos 300000); login_grace_seconds = fin (pos 120000) })
        (fin (pos 90000))).kill
      ≡ true)
    ↔ ((true ≡ true)
        × (true ≡ true)
        × (pos 300000 ≤ℤ pos 500000)
        × LoginGraceOver (pos 500000) none (pos 120000)
        × (¬ IsFresh (pos 500000) "b" (pos 90000) (some (pos 400000, "b"))))
kill_iff_example =
    kill_iff (pos 500000) "b" (some (pos 400000, "b")) true true none (pos 300000) (pos 120000)
      (pos 90000)

abbrev good_echo : EchoResponse
good_echo = record { nonce = "n"; boot_id = "b"; pid = pos 7; monotonic = fin (pos 5000) }

abbrev daemon_process : PidInfo
daemon_process = record {
  exe_realpath = some (codes "/usr/bin/python3");
  state = some "S";
  tracer_pid = some (pos 0);
}

verified_sound_example :
    (i : String) × (e : EchoResponse) × (q : PidInfo) × (some "n" ≡ some i)
    × (some good_echo ≡ some e)
    × (some daemon_process ≡ some q)
    × Attests i "b" (pos 6000) (pos 90000) e
    × IsHonest (codes "/opt/hyprblocker/.venv") (codes "/usr/bin/python3" ∷ []) q
verified_sound_example =
    verified_sound (some "n") (some good_echo) "b" (pos 6000) (some daemon_process)
      (codes "/opt/hyprblocker/.venv") (codes "/usr/bin/python3" ∷ []) (pos 90000)
      (unfold verify_attestation minus ◌-ℤ◌ in refl)
