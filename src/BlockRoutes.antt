-- ===== src/BlockRoutes.antt =====
-- daemon/api/routes/blocks.py: the update of a block and which updates are held back by the delay.
pub mod Loosening
pub mod Strict
pub mod Locked
pub mod Zone
mod Tests
use hypr_blocker.Base.{
  Bool, true, false, not, ◌&&◌, ◌||◌, Option, none, some, List, ℕ, all, if◌then◌else◌,
}
use hypr_blocker.Base.Text.{Text, member}
use hypr_blocker.Base.Time.{DateTime}
use hypr_blocker.Blocker.Url.{parse_rules_from_text}
use hypr_blocker.Blocker.Priority.{Priority, Raw, coerce_priority}
use hypr_blocker.Schedule.{BlockMode, disabled, other}

pub data LockMode : Type 0 where
  no_lock locked_until other_lock : LockMode

-- A lock time of a request: only blanks, a text that `datetime.fromisoformat` refuses, or a time.
pub data LockTime : Type 0 where
  blank unreadable : LockTime
  a_time : DateTime → LockTime

-- The columns of a row that an update can change.
pub record DbBlock : Type 0 where
  pub name : Text
  pub block_mode : BlockMode
  pub block_days_of_week : Option Text
  pub block_start_time : Option Text
  pub block_end_time : Option Text
  pub lock_mode : LockMode
  pub lock_until : Option DateTime
  pub enabled : Bool
  pub websites_blocked : Option Text
  pub websites_allowed : Option Text
  pub websites_media_blocked : Option Text
  pub apps_blocked : Option Text
  pub priority : Option Priority

-- The body of the request, `none` where a field is unset or null.
pub record BlockUpdate : Type 0 where
  pub name : Option Text
  pub block_mode : Option BlockMode
  pub block_days_of_week : Option Text
  pub block_start_time : Option Text
  pub block_end_time : Option Text
  pub lock_mode : Option LockMode
  pub lock_until : Option LockTime
  pub enabled : Option Bool
  pub websites_blocked : Option Text
  pub websites_allowed : Option Text
  pub websites_media_blocked : Option Text
  pub apps_blocked : Option Text
  pub priority : Option Raw

-- `_rules_set`, a set as a list.
abbrev pub rules_set : Option Text → List Text
rules_set rules = parse_rules_from_text rules

-- `a.issuperset(b)`
abbrev pub is_superset : List Text → List Text → Bool
is_superset a b = all (λ r. member r a) b

is_disabled : BlockMode → Bool
is_disabled disabled = true
is_disabled _ = false

is_no_lock : LockMode → Bool
is_no_lock no_lock = true
is_no_lock _ = false

-- The tests of `_is_loosening_update`, on what the request says and what the row holds.
unfoldable pub turns_off : Option Bool → Bool → Bool
turns_off (some false) current = current
turns_off _ current = false

unfoldable pub disables : Option BlockMode → BlockMode → Bool
unfolding is_disabled
disables none current = false
disables (some mode) current = is_disabled mode && not (is_disabled current)

unfoldable pub unlocks : Option LockMode → LockMode → Bool
unfolding is_no_lock
unlocks none current = false
unlocks (some mode) current = is_no_lock mode && not (is_no_lock current)

unfoldable pub shrinks : Option Text → Option Text → Bool
shrinks none current = false
shrinks (some rules) current = not (is_superset (rules_set (some rules)) (rules_set current))

unfoldable pub grows : Option Text → Option Text → Bool
grows none current = false
grows (some rules) current = not (is_superset (rules_set current) (rules_set (some rules)))

-- `_is_loosening_update`
unfoldable pub is_loosening_update : DbBlock → BlockUpdate → Bool
unfolding turns_off disables unlocks shrinks grows
is_loosening_update db block =
    turns_off block.enabled db.enabled
    || disables block.block_mode db.block_mode
    || unlocks block.lock_mode db.lock_mode
    || shrinks block.websites_blocked db.websites_blocked
    || shrinks block.websites_media_blocked db.websites_media_blocked
    || shrinks block.apps_blocked db.apps_blocked
    || grows block.websites_allowed db.websites_allowed

-- A column after an update that may leave it alone.
abbrev pub set_or {ℓ} : {A : Type ℓ} → Option A → A → A
set_or none current = current
set_or (some value) current = value

abbrev pub set_priority : Option Priority → Option Priority → Option Priority
set_priority none current = current
set_priority (some p) current = some p

abbrev pub set_text : Option Text → Option Text → Option Text
set_text none current = current
set_text (some value) current = some value

known_mode : Option BlockMode → Bool
known_mode (some other) = false
known_mode _ = true

known_lock : Option LockMode → Bool
known_lock (some other_lock) = false
known_lock _ = true

-- The lock time after the part on `lock_mode`.
until_by_mode : Option LockMode → Option DateTime → Option DateTime
until_by_mode (some no_lock) until = none
until_by_mode (some other_lock) until = none
until_by_mode _ until = until

-- The lock time after the part on `lock_until`; `none` is a refusal.
until_by_time : Option LockTime → Option DateTime → Option (Option DateTime)
until_by_time none until = some until
until_by_time (some blank) until = some none
until_by_time (some unreadable) until = none
until_by_time (some (a_time t)) until = some (some t)

-- The mode `locked_until` needs a time.
abbrev pub lacks_time : LockMode → Option DateTime → Bool
lacks_time locked_until none = true
lacks_time _ _ = false

-- What the handler answers: an HTTP error, 202 with a queued change, or the row after the commit.
pub data Reply : Type 0 where
  refused : ℕ → Reply
  queued : Reply
  updated : DbBlock → Reply

abbrev pub changed : DbBlock → BlockUpdate → Option Priority → Option DateTime → DbBlock
changed db block priority until = record {
  name = set_or block.name db.name;
  block_mode = set_or block.block_mode db.block_mode;
  block_days_of_week = set_text block.block_days_of_week db.block_days_of_week;
  block_start_time = set_text block.block_start_time db.block_start_time;
  block_end_time = set_text block.block_end_time db.block_end_time;
  lock_mode = set_or block.lock_mode db.lock_mode;
  lock_until = until;
  enabled = set_or block.enabled db.enabled;
  websites_blocked = set_text block.websites_blocked db.websites_blocked;
  websites_allowed = set_text block.websites_allowed db.websites_allowed;
  websites_media_blocked = set_text block.websites_media_blocked db.websites_media_blocked;
  apps_blocked = set_text block.apps_blocked db.apps_blocked;
  priority = set_priority priority db.priority;
}

commit : DbBlock → BlockUpdate → Option Priority → Option (Option DateTime) → Reply
commit db block priority none = refused 400
commit db block priority (some until) =
    if lacks_time (set_or block.lock_mode db.lock_mode) until
    then refused 400
    else updated (changed db block priority until)

-- The part of the handler behind the delay.
unfoldable pub apply_update : DbBlock → BlockUpdate → Option Priority → Reply
unfolding known_mode known_lock until_by_mode until_by_time commit
apply_update db block priority =
    if known_mode block.block_mode
    then (if known_lock block.lock_mode
        then commit db block priority
            (until_by_time block.lock_until (until_by_mode block.lock_mode db.lock_until))
        else refused 400)
    else refused 400

-- `_canonicalize_priority`: `none` is a refusal, and a priority that is unset stays so.
unfoldable pub canonicalize_priority : Option Raw → Option (Option Priority)
canonicalize_priority none = some none
canonicalize_priority (some raw) = elim (coerce_priority raw) [
  | none ↦ none
  | some p ↦ some (some p)
]

-- The row, if the table has it.
unfoldable pub on_row : Bool → BlockUpdate → Option Priority → Option DbBlock → Reply
unfolding is_loosening_update apply_update
on_row delay_on block priority none = refused 404
on_row delay_on block priority (some db) =
    if delay_on && is_loosening_update db block then queued else apply_update db block priority

with_priority : Bool → Bool → Option DbBlock → BlockUpdate → Option (Option Priority) → Reply
unfolding on_row
with_priority locked delay_on row block none = refused 400
with_priority locked delay_on row block (some priority) =
    if locked then refused 403 else on_row delay_on block priority row

-- `update_block`: whether the block is locked, whether the delay is on, and the row.
unfoldable pub update_block : Bool → Bool → Option DbBlock → BlockUpdate → Reply
unfolding with_priority canonicalize_priority
update_block locked delay_on row block =
    with_priority locked delay_on row block (canonicalize_priority block.priority)
