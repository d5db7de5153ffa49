-- ===== src/Schedule.antt =====
-- daemon/scheduler.py: which blocks are in force at a time. A time of day is a number of milliseconds since
-- midnight, a weekday a number from 0 for Monday.
pub mod Hours
mod Tests
use hypr_blocker.Base.{
  ℕ, Bool, true, false, not, ◌&&◌, ◌||◌, Option, none, some, List, [], ◌∷◌, if◌then◌else◌, ◌==◌,
  leb, any, keep, map,
}

-- A time string of a block: None or empty, one that `_parse_time` refuses, or a time.
pub data TimeText : Type 0 where
  unset invalid : TimeText
  at : ℕ → TimeText

-- The days string: None or empty, the list that `_parse_days_of_week` makes of it, or one on which it raises, as
-- `[null]` or `[1e400]`.
pub data DaysText : Type 0 where
  every_day raising : DaysText
  listed : List ℕ → DaysText

pub data BlockMode : Type 0 where
  disabled always time_range other : BlockMode

pub record Block : Type 0 where
  pub id : ℕ
  pub enabled : Bool
  pub block_mode : BlockMode
  pub days_of_week : DaysText
  pub start_time : TimeText
  pub end_time : TimeText

-- `datetime.now()`
pub record Now : Type 0 where
  pub weekday : ℕ
  pub time : ℕ

-- A list of days without any day names every day.
unfoldable pub day_matches : DaysText → ℕ → Option Bool
day_matches every_day weekday = some true
day_matches raising weekday = none
day_matches (listed []) weekday = some true
day_matches (listed (d ∷ ds)) weekday = some (any (λ e. e == weekday) (d ∷ ds))

unfoldable pub in_window : ℕ → ℕ → ℕ → Bool
in_window start end time =
    if leb start end then leb start time && leb time end else leb start time || leb time end

-- The test of the times, `none` where a time string raises.
unfoldable pub time_matches : TimeText → TimeText → ℕ → Option Bool
unfolding in_window
time_matches unset end_time time = some true
time_matches start_time unset time = some true
time_matches (at start) (at end) time = some (in_window start end time)
time_matches invalid end_time time = none
time_matches start_time invalid time = none

unfoldable pub by_day : Option Bool → TimeText → TimeText → ℕ → Option Bool
unfolding time_matches
by_day none start_time end_time time = none
by_day (some false) start_time end_time time = some false
by_day (some true) start_time end_time time = time_matches start_time end_time time

unfoldable pub is_time_in_range : DaysText → TimeText → TimeText → Now → Option Bool
unfolding day_matches by_day
is_time_in_range days start_time end_time now =
    by_day (day_matches days now.weekday) start_time end_time now.time

active_by_mode : BlockMode → Block → Now → Option Bool
unfolding is_time_in_range
active_by_mode disabled block now = some false
active_by_mode always block now = some true
active_by_mode time_range block now =
    is_time_in_range block.days_of_week block.start_time block.end_time now
active_by_mode other block now = some false

-- `_is_block_active`
unfoldable pub is_block_active : Block → Now → Option Bool
unfolding active_by_mode
is_block_active block now =
    if block.enabled then active_by_mode block.block_mode block now else some false

-- One round of the loop in `get_active_blocks`.
unfoldable pub collect : Block → Option Bool → Option (List Block) → Option (List Block)
collect block none rest = none
collect block (some active) none = none
collect block (some true) (some rest) = some (block ∷ rest)
collect block (some false) (some rest) = some rest

-- `get_active_blocks` on the rows of the table.
unfoldable pub get_active_blocks : Now → List Block → Option (List Block)
unfolding collect is_block_active
get_active_blocks now [] = some []
get_active_blocks now (b ∷ bs) = collect b (is_block_active b now) (get_active_blocks now bs)

-- `check_schedules`: the new set of active ids, with the ids that came and went; an exception leaves the old set.
unfoldable pub check_schedules : Now → List Block → List ℕ → Option (List ℕ × List ℕ × List ℕ)
unfolding get_active_blocks
check_schedules now blocks active = elim (get_active_blocks now blocks) [
  | none ↦ none
  | some bs ↦
      let ids = map (λ (b : Block). b.id) bs in
      some (
        ids,
        keep (λ i. not (any (λ j. j == i) active)) ids,
        keep (λ i. not (any (λ j. j == i) ids)) active,
      )
]
