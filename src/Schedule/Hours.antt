-- ===== src/Schedule/Hours.antt =====
-- When the hours of a block hold, and what the active blocks are.
use hypr_blocker.Base.{
  ℕ, ◌≤◌, ◌<◌, ◌≡◌, refl, sym, ap, ◌∙◌, ◌↔◌, ◌⊎◌, inl, inr, Bool, true, false, Option, none, some,
  List, [], ◌∷◌, arith, if◌then◌else◌, ◌==◌, any, keep, Any, Any-mono, ◌≢◌,
}
use hypr_blocker.Schedule.{
  TimeText, unset, invalid, at, DaysText, every_day, raising, listed, BlockMode, disabled, always,
  time_range, other, Block, by_day, Now, day_matches, in_window, time_matches, is_time_in_range,
  is_block_active, active_by_mode, collect, get_active_blocks, check_schedules,
}

-- The window over midnight is all of the day but what lies strictly between its end and its start, and
-- a window within the day lies between its start and its end.
pub in_window_iff :
    (start end time : ℕ)
    → (in_window start end time ≡ true) ↔ (
        ((start ≤ end) × (start ≤ time) × (time ≤ end))
        ⊎ ((end < start) × ((start ≤ time) ⊎ (time ≤ end))))
unfolding in_window
in_window_iff start end time = ground arith

-- The weekday is one that the block names.
abbrev pub OnDay : DaysText → ℕ → Type 0
OnDay every_day weekday = Unit
OnDay raising weekday = ⊥
OnDay (listed []) weekday = Unit
OnDay (listed (d ∷ ds)) weekday = any (λ e. e == weekday) (d ∷ ds) ≡ true

some-true_iff : (b : Bool) → (some b ≡ some true) ↔ (b ≡ true)
some-true_iff true = (λ h. refl, λ h. refl)
some-true_iff false = (λ h. cc h, λ h. cc h)

day_matches_iff :
    (days : DaysText) (weekday : ℕ) → (day_matches days weekday ≡ some true) ↔ OnDay days weekday
unfolding day_matches
day_matches_iff every_day weekday = (λ h. tt, λ h. refl)
day_matches_iff raising weekday = (λ h. cc h, λ h. absurd h)
day_matches_iff (listed []) weekday = (λ h. tt, λ h. refl)
day_matches_iff (listed (d ∷ ds)) weekday = some-true_iff (any (λ e. e == weekday) (d ∷ ds))

-- The time lies in the hours from `start` to `end`, which may go over midnight.
abbrev pub Within : ℕ → ℕ → ℕ → Type 0
Within start end time =
    ((start ≤ end) × (start ≤ time) × (time ≤ end))
    ⊎ ((end < start) × ((start ≤ time) ⊎ (time ≤ end)))

-- Both times can be read and the time lies in those hours, or one of the two is not set.
abbrev pub OnTime : TimeText → TimeText → ℕ → Type 0
OnTime unset end_time time = Unit
OnTime (at start) unset time = Unit
OnTime (at start) (at end) time = Within start end time
OnTime (at start) invalid time = ⊥
OnTime invalid unset time = Unit
OnTime invalid (at end) time = ⊥
OnTime invalid invalid time = ⊥

time_matches_iff :
    (start_time end_time : TimeText) (time : ℕ)
    → (time_matches start_time end_time time ≡ some true) ↔ OnTime start_time end_time time
unfolding time_matches
time_matches_iff unset end_time time = (λ h. tt, λ h. refl)
time_matches_iff (at start) unset time = (λ h. tt, λ h. refl)
time_matches_iff (at start) (at end) time =
    let (holds, back) = some-true_iff (in_window start end time) in
    let (out, into) = in_window_iff start end time in (λ h. out (holds h), λ h. back (into h))
time_matches_iff (at start) invalid time = (λ h. cc h, λ h. absurd h)
time_matches_iff invalid unset time = (λ h. tt, λ h. refl)
time_matches_iff invalid (at end) time = (λ h. cc h, λ h. absurd h)
time_matches_iff invalid invalid time = (λ h. cc h, λ h. absurd h)

by_day_iff :
    (day : Option Bool) (start_time end_time : TimeText) (time : ℕ)
    → (by_day day start_time end_time time ≡ some true)
      ↔ ((day ≡ some true) × OnTime start_time end_time time)
unfolding by_day
by_day_iff none start_time end_time time = (λ h. cc h, λ h. cc h.0)
by_day_iff (some false) start_time end_time time = (λ h. cc h, λ h. cc h.0)
by_day_iff (some true) start_time end_time time =
    let (out, back) = time_matches_iff start_time end_time time in
    (λ h. (refl, out h), λ h. back h.1)

-- What the mode of a block asks for.
abbrev pub InForce : BlockMode → Block → Now → Type 0
InForce disabled block now = ⊥
InForce always block now = Unit
InForce time_range block now =
    OnDay block.days_of_week now.weekday × OnTime block.start_time block.end_time now.time
InForce other block now = ⊥

active_by_mode_iff :
    (mode : BlockMode) (block : Block) (now : Now)
    → (active_by_mode mode block now ≡ some true) ↔ InForce mode block now
unfolding active_by_mode is_time_in_range
active_by_mode_iff disabled block now = (λ h. cc h, λ h. absurd h)
active_by_mode_iff always block now = (λ h. tt, λ h. refl)
active_by_mode_iff time_range block now =
    let (day, is_day) = day_matches_iff block.days_of_week now.weekday in
    let (out, back) =
      by_day_iff (day_matches block.days_of_week now.weekday) block.start_time block.end_time
        now.time in
    (λ h. let both = out h in (day both.0, both.1), λ h. back (is_day h.0, h.1))
active_by_mode_iff other block now = (λ h. cc h, λ h. absurd h)

guarded_test :
    (a : Bool) (o : Option Bool)
    → ((if a then o else some false) ≡ some true) ↔ ((a ≡ true) × (o ≡ some true))
guarded_test true o = (λ h. (refl, h), λ h. h.1)
guarded_test false o = (λ h. cc h, λ h. cc h.0)

-- A block is in force exactly when it is enabled and its mode says so: always, or on hours, when its days can be
-- read and name the weekday, or name none, and one of its two times is not set or the time lies in the hours
-- from the one to the other, which may go over midnight. The morning part of hours over midnight counts for
-- the weekday of that morning.
pub is_block_active_iff :
    (block : Block) (now : Now)
    → (is_block_active block now ≡ some true)
      ↔ ((block.enabled ≡ true) × InForce block.block_mode block now)
unfolding is_block_active
is_block_active_iff block now =
    let (out, back) = guarded_test block.enabled (active_by_mode block.block_mode block now) in
    let (mode, is_mode) = active_by_mode_iff block.block_mode block now in
    (λ h. let both = out h in (both.0, mode both.1), λ h. back (h.0, is_mode h.1))

abbrev says_yes : Option Bool → Bool
says_yes none = false
says_yes (some b) = b

collect-keep :
    (b : Block) (o : Option Bool) (rest : Option (List Block)) (expected active : List Block)
    → ((l : List Block) → rest ≡ some l → l ≡ expected)
    → collect b o rest ≡ some active
    → active ≡ (if says_yes o then b ∷ expected else expected)
unfolding collect
collect-keep b none rest expected active h e = cc e
collect-keep b (some true) none expected active h e = cc e
collect-keep b (some false) none expected active h e = cc e
collect-keep b (some true) (some l) expected active h e =
    let same : b ∷ l ≡ active = cc e in sym same ∙ ap (λ x. b ∷ x) (h l refl)
collect-keep b (some false) (some l) expected active h e =
    let same : l ≡ active = cc e in sym same ∙ h l refl

-- The blocks in force, where no time string raises, are the rows that `_is_block_active` accepts.
get_active_blocks-keep :
    (now : Now) (blocks active : List Block)
    → get_active_blocks now blocks ≡ some active
    → active ≡ keep (λ b. says_yes (is_block_active b now)) blocks
unfolding get_active_blocks
get_active_blocks-keep now [] active e = let same : [] ≡ active = cc e in sym same
get_active_blocks-keep now (b ∷ bs) active e =
    collect-keep b (is_block_active b now) (get_active_blocks now bs)
      (keep (λ b. says_yes (is_block_active b now)) bs) active
      (λ l r. get_active_blocks-keep now bs l r) e

collect-raises : (b : Block) (o : Option Bool) → collect b o none ≡ none
unfolding collect
collect-raises b none = refl
collect-raises b (some true) = refl
collect-raises b (some false) = refl

get_active_blocks-raises :
    (now : Now) (blocks : List Block)
    → Any (λ b. is_block_active b now ≡ none) blocks
    → get_active_blocks now blocks ≡ none
unfolding get_active_blocks
get_active_blocks-raises now [] h = absurd h
get_active_blocks-raises now (b ∷ bs) (inl e) = rw e (unfold collect in refl)
get_active_blocks-raises now (b ∷ bs) (inr h) =
    rw (get_active_blocks-raises now bs h) (collect-raises b (is_block_active b now))

-- The block is enabled, in the mode for hours on this weekday, its start time cannot be read, and its end time is
-- set.
abbrev pub HasBadStart : Now → Block → Type 0
HasBadStart now b =
    (b.enabled ≡ true)
    × (b.block_mode ≡ time_range)
    × (day_matches b.days_of_week now.weekday ≡ some true)
    × (b.start_time ≡ invalid)
    × (b.end_time ≢ unset)

time_matches-invalid :
    (end_time : TimeText) (time : ℕ) → end_time ≢ unset → time_matches invalid end_time time ≡ none
unfolding time_matches
time_matches-invalid unset time n = absurd (n refl)
time_matches-invalid invalid time n = refl
time_matches-invalid (at end) time n = refl

bad_start_raises : (now : Now) (b : Block) → HasBadStart now b → is_block_active b now ≡ none
unfolding is_block_active active_by_mode is_time_in_range by_day
bad_start_raises now b (on, mode, day, start, end) =
    rw (on, mode, day, start) (time_matches-invalid b.end_time now.time end)

-- One block whose start time cannot be read and whose end time is set, enabled and in the mode for hours on this
-- weekday, leaves the whole query without an answer: `get_active_blocks` and `check_schedules` raise, whatever the other blocks are.
pub bad_start_stops_all :
    (now : Now) (blocks : List Block) (active : List ℕ)
    → Any (HasBadStart now) blocks
    → (get_active_blocks now blocks ≡ none) × (check_schedules now blocks active ≡ none)
unfolding check_schedules
bad_start_stops_all now blocks active h =
    let raised = get_active_blocks-raises now blocks (
      Any-mono (HasBadStart now) (λ b. is_block_active b now ≡ none)
        (λ b k. bad_start_raises now b k) blocks h) in
    (raised, rw (raised, check_schedules) refl)
