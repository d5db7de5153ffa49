-- ===== src/Watchdogs/Tests.antt =====
-- Instances of the properties of the watchdogs.
use hypr_blocker.Base.{ℕ, ◌+◌, ◌≡◌, refl, Bool, none, some, [], ◌∷◌, length, ◌==◌, if◌then◌else◌}
use hypr_blocker.Base.Int.{pos, ◌+ℤ◌}
use hypr_blocker.Base.Text.{codes}
use hypr_blocker.Watchdogs.{
  WatchdogEntry, WatchdogState, Fork, load, default_state, spawned, stays, missing_count,
  check_and_respawn_siblings,
}
use hypr_blocker.Watchdogs.Siblings.{failed_forks, forks_made, siblings_replaced}

-- The second fork fails.
abbrev forks : ℕ → Fork
forks i = record { child = if i == 1 then none else some (100 + i); name = codes "pipewire" }

abbrev only_200 : ℕ → Bool
only_200 pid = pid == 200

abbrev entry : ℕ → WatchdogEntry
entry pid = record { pid = pid; name = codes "gdbus"; started = pos 0; last_heartbeat = pos 0 }

-- A check by 200, whose two siblings are gone.
abbrev three : WatchdogState
three = record default_state { watchdogs = entry 200 ∷ entry 201 ∷ entry 202 ∷ [] }

one_is_lost :
    length (check_and_respawn_siblings 200 only_200 (pos 5000) forks (some three)).watchdogs ≡ 2
unfolding check_and_respawn_siblings stays missing_count spawned ◌+ℤ◌
one_is_lost = refl

siblings_replaced_example :
    length (check_and_respawn_siblings 200 only_200 (pos 5000) forks (some three)).watchdogs
      + failed_forks (forks_made 200 only_200 (pos 5000) forks (some three))
    ≡ length (load (some three)).watchdogs
siblings_replaced_example = siblings_replaced 200 only_200 (pos 5000) forks (some three)
