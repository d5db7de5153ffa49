-- ===== src/SettingsLock/Tests.antt =====
-- Instances of the property of the settings lock, and runs of its definitions.
use hypr_blocker.Base.{◌≡◌, refl, ◌↔◌, ◌⊎◌, true, none, some}
use hypr_blocker.Base.Int.{pos}
use hypr_blocker.Base.Time.{aware}
use hypr_blocker.SettingsLock.{
  user, root, stamp, broken, holds, read_lock_until, without_lock, by_time, locked, unlocked,
  is_settings_locked,
}
use hypr_blocker.SettingsLock.FailClosed.{SaysUnlocked, HasPassed, root_unlocked_iff}

root_unlocked_iff_example :
    (is_settings_locked root true (pos 0) (some (pos 20)) (holds (stamp (aware (pos 10))))
      ≡ unlocked)
    ↔ (SaysUnlocked (holds (stamp (aware (pos 10))))
        ⊎ HasPassed (some (pos 20)) (holds (stamp (aware (pos 10)))))
root_unlocked_iff_example =
    root_unlocked_iff (pos 0) (some (pos 20)) (holds (stamp (aware (pos 10))))

unlocked_after_the_time :
    is_settings_locked root true (pos 0) (some (pos 20)) (holds (stamp (aware (pos 10)))) ≡ unlocked
unfolding is_settings_locked read_lock_until by_time
unlocked_after_the_time = refl

locked_without_ntp :
    is_settings_locked user true (pos 99) none (holds (stamp (aware (pos 10)))) ≡ locked
unfolding is_settings_locked read_lock_until by_time
locked_without_ntp = refl

-- In the user layout a file that cannot be read counts as no lock.
broken_file_unlocks_user : is_settings_locked user true (pos 0) none broken ≡ unlocked
unfolding is_settings_locked without_lock
broken_file_unlocks_user = refl
