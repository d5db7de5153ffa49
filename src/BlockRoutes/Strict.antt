-- ===== src/BlockRoutes/Strict.antt =====
-- daemon/api/routes/blocks.py: the routes that a locked block allows, and the deletion of a block.
pub mod Rules
use hypr_blocker.Base.{
  ℕ, Bool, true, false, not, ◌||◌, Option, none, some, List, [], ◌∷◌, ◌++◌, keep, if◌then◌else◌,
  ◌==◌, ltb,
}
use hypr_blocker.Base.Int.{ℤ, ◌+ℤ◌, leb_ℤ}
use hypr_blocker.Base.Text.{Text, text_eq, member, join_lines}
use hypr_blocker.Base.Time.{DateTime, naive, as_utc}
use hypr_blocker.BlockRoutes.{
  LockMode, locked_until, no_lock, other_lock, DbBlock, rules_set, Reply, refused, updated,
}

-- The order of `sorted` on texts: by code points, a prefix first.
abbrev pub text_less : Text → Text → Bool
text_less [] [] = false
text_less [] (d ∷ t) = true
text_less (c ∷ s) [] = false
text_less (c ∷ s) (d ∷ t) = if c == d then text_less s t else ltb c d

-- A new element of a sorted list without repetitions.
unfoldable pub insert_rule : Text → List Text → List Text
insert_rule r [] = r ∷ []
insert_rule r (s ∷ ss) =
    let rest = insert_rule r ss in
    if text_eq r s then s ∷ ss else if text_less r s then r ∷ s ∷ ss else s ∷ rest

-- `sorted` of a set that stands as a list.
unfoldable pub sorted_set : List Text → List Text
unfolding insert_rule
sorted_set [] = []
sorted_set (r ∷ rs) = insert_rule r (sorted_set rs)

-- `set_to_rules`
unfoldable pub set_to_rules : List Text → Option Text
unfolding sorted_set
set_to_rules [] = none
set_to_rules (r ∷ rs) = some (join_lines (sorted_set (r ∷ rs)))

-- A column after `..._add`: an unset or empty field changes nothing.
unfoldable pub add_rules : Option Text → Option Text → Option Text
unfolding set_to_rules
add_rules none current = current
add_rules (some []) current = current
add_rules (some (c ∷ t)) current = set_to_rules (rules_set current ++ rules_set (some (c ∷ t)))

-- A column after `..._remove`.
unfoldable pub remove_rules : Option Text → Option Text → Option Text
unfolding set_to_rules
remove_rules none current = current
remove_rules (some []) current = current
remove_rules (some (c ∷ t)) current =
    set_to_rules (keep (λ r. not (member r (rules_set (some (c ∷ t))))) (rules_set current))

pub record BlockStrictUpdate : Type 0 where
  pub websites_blocked_add : Option Text
  pub websites_media_blocked_add : Option Text
  pub apps_blocked_add : Option Text
  pub websites_allowed_remove : Option Text

-- The row after a strict update.
unfoldable pub stricter : BlockStrictUpdate → DbBlock → DbBlock
unfolding add_rules remove_rules
stricter u db = record db {
  websites_blocked = add_rules u.websites_blocked_add db.websites_blocked;
  websites_media_blocked = add_rules u.websites_media_blocked_add db.websites_media_blocked;
  apps_blocked = add_rules u.apps_blocked_add db.apps_blocked;
  websites_allowed = remove_rules u.websites_allowed_remove db.websites_allowed;
}

-- `update_block_strict`
unfoldable pub update_block_strict : BlockStrictUpdate → Option DbBlock → Reply
unfolding stricter
update_block_strict u none = refused 404
update_block_strict u (some db) = updated (stricter u db)

-- The lock that the row holds, if it is locked by a time.
abbrev pub lock_time : LockMode → Option DateTime → Option DateTime
lock_time locked_until until = until
lock_time no_lock until = none
lock_time other_lock until = none

-- What `datetime.fromisoformat` makes of a requested time: one without a zone, which is taken for UTC, or an
-- instant with the offset of its zone.
pub data IsoTime : Type 0 where
  local : ℤ → IsoTime
  zoned : ℤ → ℤ → IsoTime

abbrev pub instant : IsoTime → ℤ
instant (local t) = t
instant (zoned t offset) = t

-- What the row holds once it is read back: the column is a DateTime without a zone in SQLite, which keeps the
-- reading of the clock and drops the zone.
abbrev pub stored : IsoTime → DateTime
stored (local t) = naive t
stored (zoned t offset) = naive (t +ℤ offset)

-- The last part of `extend_block_lock`: `requested` is the parsed time, none where it cannot be parsed.
unfoldable pub extend_from : DateTime → Option IsoTime → DbBlock → Reply
extend_from current none db = refused 400
extend_from current (some requested) db =
    if leb_ℤ (instant requested) (as_utc current)
    then refused 400
    else updated (record db { lock_until = some (stored requested) })

unfoldable pub extend_row : Bool → Option IsoTime → DbBlock → Option DateTime → Reply
unfolding extend_from
extend_row time_valid requested db none = refused 400
extend_row time_valid requested db (some current) =
    if time_valid then extend_from current requested db else refused 403

-- `extend_block_lock`; `time_valid` is the answer of `is_system_time_valid`. A time without a zone is taken
-- for UTC.
unfoldable pub extend_block_lock : Bool → Option IsoTime → Option DbBlock → Reply
unfolding extend_row
extend_block_lock time_valid requested none = refused 404
extend_block_lock time_valid requested (some db) =
    extend_row time_valid requested db (lock_time db.lock_mode db.lock_until)

-- What `delete_block` answers: an HTTP error, 202 with a queued change, or the deletion.
pub data DeleteReply : Type 0 where
  delete_refused : ℕ → DeleteReply
  delete_queued deleted : DeleteReply

delete_row : Bool → Option DbBlock → DeleteReply
delete_row delay_on none = delete_refused 404
delete_row delay_on (some db) = if delay_on then delete_queued else deleted

-- `delete_block`
unfoldable pub delete_block : Bool → Bool → Option DbBlock → DeleteReply
unfolding delete_row
delete_block locked delay_on row = if locked then delete_refused 403 else delete_row delay_on row
