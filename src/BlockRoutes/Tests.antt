-- ===== src/BlockRoutes/Tests.antt =====
-- Instances of the properties of block updates.
use hypr_blocker.Base.{◌||◌, ◌&&◌, not, List, ◌∷◌, arith, ◌≡◌, refl, true, false, none, some, []}
use hypr_blocker.Base.Int.{ℤ, pos, negsuc, ◌+ℤ◌}
use hypr_blocker.Base.Text.{codes, member}
use hypr_blocker.Base.Time.{naive}
use hypr_blocker.Schedule.{always, time_range}
use hypr_blocker.Blocker.Url.{parse_rules_from_text}
use hypr_blocker.BlockRoutes.{
  no_lock, locked_until, rules_set, DbBlock, BlockUpdate, updated, is_loosening_update, shrinks,
  on_row, apply_update, canonicalize_priority, update_block,
}
use hypr_blocker.BlockRoutes.Loosening.{
  IsGuarded, immediate_update-IsGuarded, hours_only, hours_apply_at_once,
}
use hypr_blocker.BlockRoutes.Strict.{
  local, zoned, extend_block_lock, BlockStrictUpdate, update_block_strict, stricter, add_rules,
  remove_rules, set_to_rules, sorted_set, insert_rule,
}
use hypr_blocker.BlockRoutes.Strict.Rules.{strict_update_rules}
use hypr_blocker.LockManager.{locked_at}
use hypr_blocker.BlockRoutes.Zone.{west_extension_unlocks}
use hypr_blocker.BlockRoutes.Locked.{
  Call, update_call, delete_call, strict_call, extend_call, call_all, HeldRow, locked_block-HeldRow,
}

abbrev news_block : DbBlock
news_block = record {
  name = codes "news";
  block_mode = always;
  block_days_of_week = none;
  block_start_time = none;
  block_end_time = none;
  lock_mode = no_lock;
  lock_until = none;
  enabled = true;
  websites_blocked = some (codes "a.b\nc.d");
  websites_allowed = none;
  websites_media_blocked = none;
  apps_blocked = none;
  priority = none;
}

-- The same block with a rule more.
abbrev add_site : BlockUpdate
add_site = record (hours_only [] [] []) {
  block_mode = none;
  block_days_of_week = none;
  block_start_time = none;
  block_end_time = none;
  websites_blocked = some (codes "c.d\n a.b \ne.f");
}

abbrev longer_block : DbBlock
longer_block = record news_block { websites_blocked = some (codes "c.d\n a.b \ne.f") }

site_is_added : update_block false true (some news_block) add_site ≡ updated longer_block
unfolding update_block is_loosening_update shrinks parse_rules_from_text on_row apply_update
    canonicalize_priority
site_is_added = refl

immediate_update-IsGuarded_example : IsGuarded news_block longer_block
immediate_update-IsGuarded_example =
    immediate_update-IsGuarded false news_block longer_block add_site site_is_added

hours_apply_at_once_example :
    update_block false true
      (some news_block)
      (hours_only (codes "6") (codes "03:00") (codes "03:01"))
    ≡ updated (record news_block {
      block_mode = time_range;
      block_days_of_week = some (codes "6");
      block_start_time = some (codes "03:00");
      block_end_time = some (codes "03:01");
    })
hours_apply_at_once_example =
    hours_apply_at_once news_block (codes "6") (codes "03:00") (codes "03:01") refl

abbrev add_strictly : BlockStrictUpdate
add_strictly = record {
  websites_blocked_add = some (codes "b.c\na.b");
  websites_media_blocked_add = none;
  apps_blocked_add = some (codes "game");
  websites_allowed_remove = some (codes "a.b");
}

abbrev strict_block : DbBlock
strict_block = record news_block {
  websites_blocked = some (codes "a.b\nb.c\nc.d");
  apps_blocked = some (codes "game");
}

rules_are_sorted : update_block_strict add_strictly (some news_block) ≡ updated strict_block
unfolding update_block_strict stricter add_rules remove_rules set_to_rules sorted_set insert_rule
    parse_rules_from_text
rules_are_sorted = refl

strict_update_rules_example :
    (member (codes "b.c") (rules_set strict_block.websites_blocked) ≡ (
      member (codes "b.c") (rules_set news_block.websites_blocked)
      || member (codes "b.c") (rules_set add_strictly.websites_blocked_add)))
    × (member (codes "b.c") (rules_set strict_block.websites_media_blocked) ≡ (
        member (codes "b.c") (rules_set news_block.websites_media_blocked)
        || member (codes "b.c") (rules_set add_strictly.websites_media_blocked_add)))
    × (member (codes "b.c") (rules_set strict_block.apps_blocked) ≡ (
        member (codes "b.c") (rules_set news_block.apps_blocked)
        || member (codes "b.c") (rules_set add_strictly.apps_blocked_add)))
    × (member (codes "b.c") (rules_set strict_block.websites_allowed) ≡ (
        member (codes "b.c") (rules_set news_block.websites_allowed)
        && not (member (codes "b.c") (rules_set add_strictly.websites_allowed_remove))))
    × (strict_block ≡ strict_block)
strict_update_rules_example =
    strict_update_rules news_block strict_block add_strictly (codes "b.c") rules_are_sorted

abbrev held_block : DbBlock
held_block = record news_block { lock_mode = locked_until; lock_until = some (naive (pos 5000000)) }

-- A deletion, a strict update and an extension of the lock, all before it ends.
abbrev calls_before : List (Call × ℤ)
calls_before =
    (delete_call, pos 1000)
    ∷ (strict_call add_strictly, pos 2000)
    ∷ (extend_call true (some (local (pos 9000000))), pos 3000)
    ∷ (update_call add_site, pos 4000)
    ∷ []

locked_block-HeldRow_example :
    HeldRow (pos 5000000) held_block (call_all true calls_before (some held_block))
locked_block-HeldRow_example =
    locked_block-HeldRow true held_block (naive (pos 5000000)) calls_before refl refl refl
      ((omega arith, tt), ((omega arith, tt), ((omega arith, tt), ((omega arith, tt), tt))))

-- A lock until 10:00 UTC is extended to 01:01 in a zone ten hours behind, which is 11:01 UTC.
west_extension_unlocks_example :
    let ten : DbBlock = record news_block {
      lock_mode = locked_until;
      lock_until = some (naive (pos 36000000));
    } in
    (locked_at ten (pos 7200000) ≡ some true)
    × ((new : DbBlock) × (extend_block_lock true
            (some (zoned (pos 39660000) (negsuc 35999999)))
            (some ten)
          ≡ updated new)
        × (locked_at new (pos 7200000) ≡ some false))
unfolding ◌+ℤ◌
west_extension_unlocks_example =
    west_extension_unlocks
      (record news_block { lock_mode = locked_until; lock_until = some (naive (pos 36000000)) })
      (pos 36000000) (pos 39660000) (negsuc 35999999) (pos 7200000) refl refl refl (omega arith)
      (omega arith) (omega arith)
