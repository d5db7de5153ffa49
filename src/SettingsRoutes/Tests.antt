-- ===== src/SettingsRoutes/Tests.antt =====
-- An instance of the property of the locked settings.
use hypr_blocker.Base.{ℕ, ◌≡◌, refl, true, false, Option, none, some, List, [], ◌∷◌, arith}
use hypr_blocker.Base.Int.{ℤ, pos}
use hypr_blocker.Base.Text.{codes}
use hypr_blocker.Base.Time.{naive, aware, as_utc}
use hypr_blocker.SettingsLock.{user, absent}
use hypr_blocker.Watchdogs.{Fork}
use hypr_blocker.SettingsRoutes.{
  Store, World, Call, browser_enforcement, watchdog, lock, unlock, refused, call, call_all,
  is_settings_locked_ntp,
}
use hypr_blocker.SettingsLock.{is_settings_locked, read_lock_until, by_time, parse}
use hypr_blocker.SettingsRoutes.Locked.{IsProtected, locked_settings-IsProtected}

abbrev strict_settings : Store
strict_settings = record {
  config = record {
    browser_enforcement_enabled = true;
    safe_search_enabled = false;
    shutdown_prevention_enabled = true;
    watchdog_enabled = true;
    watchdog_count = pos 4;
    settings_lock_until = some (naive (pos 9000));
  };
  watchdogs = none;
}

abbrev no_forks : ℕ → Fork
no_forks i = record { child = none; name = codes "gdbus" }

abbrev world : Option ℤ → World
world ntp = record {
  layout = user;
  lock_file = absent;
  now = pos 50000;
  ntp = ntp;
  time_valid = true;
  my_pid = 1;
  forks = no_forks;
}

-- Without NTP the lock holds also where the clock shows a later time.
unlock_is_refused : call unlock (world none) strict_settings ≡ refused 403
unfolding call is_settings_locked_ntp is_settings_locked read_lock_until by_time parse
unlock_is_refused = refl

abbrev attempts : List (Call × World)
attempts =
    (browser_enforcement false, world (some (pos 100)))
    ∷ (unlock, world none)
    ∷ (watchdog none (some (pos 9)), world (some (pos 200)))
    ∷ (lock (some (aware (pos 12000))), world (some (pos 300)))
    ∷ []

locked_settings-IsProtected_example :
    IsProtected
      (as_utc (naive (pos 9000)))
      strict_settings.config
      (call_all attempts strict_settings).config
locked_settings-IsProtected_example =
    locked_settings-IsProtected strict_settings (naive (pos 9000)) attempts refl
      ((refl, omega arith), ((refl, tt), ((refl, omega arith), ((refl, omega arith), tt))))
