-- ===== src/Schedule/Tests.antt =====
-- Instances of the properties of the schedules, and runs of their definitions.
use hypr_blocker.Base.{◌≡◌, refl, ◌↔◌, inl, inr, true, false, none, some, [], ◌∷◌}
use hypr_blocker.Schedule.{
  invalid, at, every_day, listed, time_range, Block, Now, day_matches, by_day, is_time_in_range,
  is_block_active, get_active_blocks, check_schedules,
}
use hypr_blocker.Schedule.Hours.{OnDay, Within, is_block_active_iff, bad_start_stops_all}

-- Fridays from 22:00 to 06:00.
abbrev friday_night : Block
friday_night = record {
  id = 1;
  enabled = true;
  block_mode = time_range;
  days_of_week = listed (4 ∷ []);
  start_time = at 79200000;
  end_time = at 21600000;
}

-- Saturday at 01:00.
abbrev saturday_morning : Now
saturday_morning = record { weekday = 5; time = 3600000 }

is_block_active_iff_example :
    (is_block_active friday_night saturday_morning ≡ some true)
    ↔ ((true ≡ true) × (OnDay (listed (4 ∷ [])) 5 × Within 79200000 21600000 3600000))
is_block_active_iff_example = is_block_active_iff friday_night saturday_morning

night_ends_at_midnight : is_block_active friday_night saturday_morning ≡ some false
unfolding is_block_active day_matches by_day is_time_in_range
night_ends_at_midnight = refl

-- "9am" for a start.
abbrev nine : Block
nine = record friday_night { id = 2; days_of_week = every_day; start_time = invalid }

bad_start_stops_all_example :
    (get_active_blocks saturday_morning (friday_night ∷ nine ∷ []) ≡ none)
    × (check_schedules saturday_morning (friday_night ∷ nine ∷ []) (7 ∷ []) ≡ none)
unfolding day_matches
bad_start_stops_all_example =
    bad_start_stops_all saturday_morning (friday_night ∷ nine ∷ []) (7 ∷ [])
      (inr (inl (refl, refl, refl, refl, λ e. cc e)))
