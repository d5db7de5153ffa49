-- ===== src/Heartbeats/Tests.antt =====
-- Instances of the properties of the heartbeat tracker.
use hypr_blocker.Base.{◌≡◌, ◌↔◌, refl, true, false, none, List, [], ◌∷◌, is_among, arith}
use hypr_blocker.Base.Int.{pos, ◌+ℤ◌, scale}
use hypr_blocker.Base.Text.{codes}
use hypr_blocker.Base.Dict.{find}
use hypr_blocker.Heartbeats.{
  HeartbeatTracker, register_heartbeat, is_grace_period_active, is_compliant,
  get_non_compliant_browsers, late_browsers, register_first_seen, is_new_browser,
  cleanup_old_heartbeats,
}
use hypr_blocker.Heartbeats.Silence.{LongKnown, non_compliant_iff}
use hypr_blocker.Heartbeats.Caught.{
  Step, check, cleanup, heartbeat, step, run_steps, silent_browser_is_caught,
}

abbrev empty_tracker : HeartbeatTracker
empty_tracker = record {
  active_browsers = [];
  extension_instances = [];
  grace_period_until = none;
  first_seen_pids = [];
}

-- The browser 40 sends a heartbeat, the browser 41 does not.
abbrev tracker : HeartbeatTracker
tracker = register_heartbeat 40 (codes "firefox") false true (codes "x") 2 (pos 500) empty_tracker

non_compliant_iff_example :
    (is_among 41 (get_non_compliant_browsers (pos 60000) (pos 1000) (40 ∷ 41 ∷ []) tracker).0
      ≡ true)
    ↔ ((is_grace_period_active (pos 1000) tracker ≡ false)
        × (is_among 41 (40 ∷ 41 ∷ []) ≡ true)
        × (is_compliant (pos 60000) (pos 1000) tracker 41 ≡ false)
        × LongKnown (pos 1000) (find 41 tracker.first_seen_pids))
non_compliant_iff_example = non_compliant_iff (pos 60000) (pos 1000) (40 ∷ 41 ∷ []) tracker 41

-- A pass after six seconds, with its cleanup, and another heartbeat of the browser 40.
abbrev between : List Step
between =
    check (pos 7000) (40 ∷ 41 ∷ [])
    ∷ cleanup (pos 7005)
    ∷ heartbeat 40 (codes "firefox") false true (codes "x") 2 (pos 9000)
    ∷ []

silent_browser_is_caught_example :
    is_among 41
      (get_non_compliant_browsers
        (pos 60000)
        (pos 12000)
        (41 ∷ [])
        (run_steps (pos 60000) (check (pos 1000) (40 ∷ 41 ∷ []) ∷ between) tracker)).0
    ≡ true
unfolding run_steps step get_non_compliant_browsers late_browsers register_first_seen is_new_browser
    cleanup_old_heartbeats register_heartbeat is_compliant is_grace_period_active ◌+ℤ◌ scale
silent_browser_is_caught_example =
    silent_browser_is_caught (pos 60000) (pos 1000) (pos 12000) (40 ∷ 41 ∷ []) (41 ∷ []) between
      tracker 41 refl refl refl refl (tt, (omega arith, (tt, tt))) (omega arith) refl refl refl
