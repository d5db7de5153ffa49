-- ===== src/Breakglass/Tests.antt =====
-- Instances of the properties of the break-glass release.
use hypr_blocker.Base.{◌≡◌, refl, true, false, none, some, [], ◌∷◌, arith}
use hypr_blocker.Base.Int.{pos, ◌+ℤ◌, scale}
use hypr_blocker.Base.Time.{aware}
use hypr_blocker.Enforcer.Requests.{recorded}
use hypr_blocker.Breakglass.Runner.{no_file, document, load_state, Files, Failures}
use hypr_blocker.Breakglass.Runner.Countdown.{
  Pass, run_pass, run_passes, nothing_released_early, not_asked,
}
use hypr_blocker.Breakglass.Runner.Certain.{
  release_is_certain, failed_release_is_final, waiting, asked_at, IsReleased,
}

abbrev no_failures : Failures
no_failures = record { save_state = false; write_lock = false; change_mode = false; unlink = false }

abbrev full_disk : Failures
full_disk = record no_failures { write_lock = true }

abbrev locked_files : Files
locked_files = record {
  state_file = no_file;
  lock_file = recorded (some (aware (pos 900000000))) none;
  credential = some false;
  trigger = true;
}

-- The request of locked_files, recorded at 1000.
abbrev asked_files : Files
asked_files = record locked_files { state_file = document (asked_at (pos 1000) (pos 36000) none) }

-- A pass at 1000 with the trigger there, and one a day later without it.
abbrev first_pass : Pass
first_pass = record { now = pos 1000; fails = no_failures; trigger = true }

abbrev next_day : Pass
next_day = record { now = pos 86401000; fails = no_failures; trigger = false }

abbrev two_days_on : Pass
two_days_on = record { now = pos 172801000; fails = no_failures; trigger = false }

nothing_released_early_example :
    ((run_passes (first_pass ∷ next_day ∷ []) locked_files).lock_file ≡ locked_files.lock_file)
    × ((run_passes (first_pass ∷ next_day ∷ []) locked_files).credential ≡ some false)
unfolding load_state ◌+ℤ◌ scale
nothing_released_early_example =
    nothing_released_early (pos 1000) (first_pass ∷ next_day ∷ []) locked_files
      ((omega arith, omega arith), ((omega arith, omega arith), tt)) (not_asked none none)

release_is_certain_example :
    IsReleased (run_pass two_days_on (run_passes (next_day ∷ []) asked_files))
unfolding load_state ◌+ℤ◌ scale
release_is_certain_example =
    release_is_certain (pos 1000) (pos 36000) (next_day ∷ []) two_days_on asked_files (refl, tt)
      (omega arith) refl refl (waiting (recorded (some (aware (pos 900000000))) none) none)

failed_release_is_final_example :
    ((load_state
        (run_pass (record two_days_on { fails = full_disk }) asked_files).state_file).released
      ≡ true)
    × ((run_passes
          (two_days_on ∷ [])
          (run_pass (record two_days_on { fails = full_disk }) asked_files)).lock_file
        ≡ asked_files.lock_file)
unfolding load_state ◌+ℤ◌ scale
failed_release_is_final_example =
    failed_release_is_final (pos 1000) (pos 36000) none (record two_days_on { fails = full_disk })
      (two_days_on ∷ []) asked_files refl (omega arith) refl refl
