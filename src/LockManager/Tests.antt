-- ===== src/LockManager/Tests.antt =====
-- Instances of the properties of the lock manager.
use hypr_blocker.Base.{◌≡◌, ◌≢◌, refl, true, false, none, some, List, [], ◌∷◌, arith, All}
use hypr_blocker.Base.Int.{pos, scale, ◌-ℤ◌}
use hypr_blocker.Base.Text.{codes}
use hypr_blocker.Base.Time.{naive}
use hypr_blocker.Schedule.{always}
use hypr_blocker.TimeVerifier.{TimeVerifier, is_system_time_valid, differs}
use hypr_blocker.BlockRoutes.{locked_until, DbBlock}
use hypr_blocker.LockManager.{BlockRow, is_block_locked, check_transitions}
use hypr_blocker.LockManager.Clock.{clock_alone_unlocks}

abbrev locked_block : DbBlock
locked_block = record {
  name = codes "news";
  block_mode = always;
  block_days_of_week = none;
  block_start_time = none;
  block_end_time = none;
  lock_mode = locked_until;
  lock_until = some (naive (pos 5000000));
  enabled = true;
  websites_blocked = some (codes "a.b");
  websites_allowed = none;
  websites_media_blocked = none;
  apps_blocked = none;
  priority = none;
}

abbrev new_verifier : TimeVerifier
new_verifier = record { last_verified = none; last_ntp_time = none; cached_valid = true }

abbrev one_row : List BlockRow
one_row = record { id = 3; block = locked_block } ∷ []

-- NTP says 1000, the clock stands at 9000000, and a difference of 300 seconds is allowed.
clock_is_found_wrong :
    (is_system_time_valid (pos 300) (some (pos 1000)) (pos 9000000) new_verifier).0 ≡ false
unfolding is_system_time_valid differs scale ◌-ℤ◌
clock_is_found_wrong = refl

clock_alone_unlocks_example :
    ((is_block_locked
        (pos 300)
        (some (pos 1000))
        (pos 9000000)
        (pos 9000000)
        3
        one_row
        new_verifier).0
      ≡ some false)
    × All
        (λ r. r.block.lock_mode ≢ locked_until)
        (check_transitions
          (pos 300)
          (some (pos 1000))
          (pos 9000000)
          (pos 9000000)
          one_row
          new_verifier).0
clock_alone_unlocks_example =
    clock_alone_unlocks (pos 300) (pos 9000000) (pos 9000000) (some (pos 1000)) 3 one_row
      new_verifier ((pos 5000000, refl, omega arith), tt)
