-- ===== src/Grants/Store/Tests.antt =====
-- Instances of the properties of the store of grants and of the plans.
use hypr_blocker.Base.{
  ◌≡◌, ◌↔◌, ◌⊎◌, inl, refl, true, false, none, some, List, [], ◌∷◌, Any, map, is_among, arith,
}
use hypr_blocker.Base.Int.{pos}
use hypr_blocker.Base.Text.{Text, codes, member}
use hypr_blocker.Base.Time.{naive}
use hypr_blocker.Schedule.{always}
use hypr_blocker.Blocker.Url.{is_protected_url, parse_rules_from_text, url_matches_pattern}
use hypr_blocker.Blocker.Priority.{blocked, patterns_from}
use hypr_blocker.Blocker.Evaluate.{
  blocks_it, evaluate_url_against_blocks, cares, allows, block_rank,
}
use hypr_blocker.BlockRoutes.{locked_until, DbBlock}
use hypr_blocker.LockManager.{BlockRow, by_mode, before_time}
use hypr_blocker.Grants.Tier1.{normalize_url_pattern}
use hypr_blocker.Grants.Store.{
  ActiveGrant, active_grants, WireBlock, wire_block, overlay_block, overlay_blocks,
  make_active_grant,
}
use hypr_blocker.Grants.Store.Overlay.{Opens, overlay_iff}
use hypr_blocker.Grants.Store.Locks.{
  as_block, locked_block_ids, get_blocked_sites, LockedVeto, locked_block_wins,
}

abbrev site : Text
site = codes "https://News.org/"

abbrev news : DbBlock
news = record {
  name = codes "news";
  block_mode = always;
  block_days_of_week = none;
  block_start_time = none;
  block_end_time = none;
  lock_mode = locked_until;
  lock_until = some (naive (pos 5000));
  enabled = true;
  websites_blocked = some (codes "news.org");
  websites_allowed = some (codes "b.c");
  websites_media_blocked = none;
  apps_blocked = none;
  priority = none;
}

abbrev row : BlockRow
row = record { id = 7; block = news }

abbrev grant : ActiveGrant
grant = make_active_grant (codes "g") site (codes "") (codes "") (pos 0) (pos 9000)

site_is_normal : normalize_url_pattern site ≡ codes "news.org"
unfolding normalize_url_pattern
site_is_normal = refl

-- A pattern with a second separator is not its own normal form, so that its expiry looks for another one.
second_separator :
    (normalize_url_pattern (codes "https://arc.org/http://a.b") ≡ codes "arc.org/http://a.b")
    × (normalize_url_pattern (codes "arc.org/http://a.b") ≡ codes "a.b")
unfolding normalize_url_pattern
second_separator = (refl, refl)

overlay_iff_example :
    (member
        (codes "news.org")
        (overlay_block [] (active_grants (grant ∷ []) (pos 100)) (wire_block row)).allowed_sites
      ≡ true)
    ↔ ((member (codes "news.org") (wire_block row).allowed_sites ≡ true)
        ⊎ ((is_among (wire_block row).id [] ≡ false)
            × Any (Opens (codes "news.org") (wire_block row) (pos 100)) (grant ∷ [])))
overlay_iff_example = overlay_iff (codes "news.org") (wire_block row) (grant ∷ []) (pos 100) []

abbrev locked_answer : List WireBlock
locked_answer =
    overlay_blocks (map wire_block (row ∷ [])) (active_grants (grant ∷ []) (pos 100)) (pos 100)
      (7 ∷ [])

locked_is_found : get_blocked_sites (row ∷ []) (grant ∷ []) (pos 100) (pos 100) ≡ some locked_answer
unfolding get_blocked_sites locked_block_ids by_mode before_time
locked_is_found = refl

site_is_open : is_protected_url site ≡ false
unfolding is_protected_url
site_is_open = refl

row-LockedVeto : LockedVeto site (pos 100) (row ∷ []) row
unfolding by_mode before_time cares allows block_rank as_block wire_block patterns_from
    url_matches_pattern parse_rules_from_text
row-LockedVeto = (refl, (refl, refl, (λ _. omega arith, tt)))

locked_block_wins_example :
    blocks_it (evaluate_url_against_blocks site (map as_block locked_answer) blocked) ≡ true
locked_block_wins_example =
    locked_block_wins site (row ∷ []) (grant ∷ []) (pos 100) (pos 100) locked_answer site_is_open
      locked_is_found (inl row-LockedVeto)
