-- ===== src/Grants/Store.antt =====
-- daemon/grants/store.py and the overlay in get_blocked_sites of daemon/api/routes/status.py: the
-- grants in force, laid over the allow lists that the extension reads. The store's file is its list of
-- entries; a time stands as what `datetime.fromisoformat` makes of it.
pub mod Overlay
pub mod Locks
mod Tests
use hypr_blocker.Base.{
  ℕ, Bool, true, false, not, ◌&&◌, ◌||◌, Option, none, some, List, [], ◌∷◌, ◌++◌, length, map,
  if◌then◌else◌, any, keep, ◌==◌, ◌-◌, is_among,
}
use hypr_blocker.Base.Int.{ℤ, leb_ℤ}
use hypr_blocker.Base.Text.{Text, member}
use hypr_blocker.Base.Time.{DateTime, aware, as_utc}
use hypr_blocker.Blocker.Url.{url_matches_pattern, parse_rules_from_text}
use hypr_blocker.Blocker.Priority.{
  Priority, Raw, missing, text, items, Key, name_key, priority_key, blocked, media_blocked, allowed,
  Block, priority_label, rank,
}
use hypr_blocker.BlockRoutes.{LockMode, locked_until, no_lock, other_lock}
use hypr_blocker.LockManager.{BlockRow, before_time}
use hypr_blocker.Grants.Tier1.{normalize_url_pattern}

pub record ActiveGrant : Type 0 where
  pub id : Text
  pub url : Text
  pub pattern : Text
  pub scope : Text
  pub reason : Text
  pub granted_at : Option DateTime
  pub expires_at : Option DateTime

-- `ActiveGrant.is_expired`
unfoldable pub is_expired : ActiveGrant → ℤ → Bool
is_expired grant now = elim grant.expires_at [ none ↦ true | some exp ↦ leb_ℤ (as_utc exp) now ]

-- `active_grants`
unfoldable pub active_grants : List ActiveGrant → ℤ → List ActiveGrant
unfolding is_expired
active_grants grants now = keep (λ g. not (is_expired g now)) grants

-- The dict of a block in the answer to the extension.
pub record WireBlock : Type 0 where
  pub id : ℕ
  pub name : Text
  pub blocked_sites : List Text
  pub allowed_sites : List Text
  pub media_sites : List Text
  pub priority : Priority

-- `any(SiteBlocker.url_matches_pattern(grant.url, p) for p in patterns)`
abbrev pub matched_by : Text → List Text → Bool
matched_by url patterns = any (λ p. url_matches_pattern url p) patterns

-- The block blocks the granted URL, or the media on it.
unfoldable pub blocks_grant : WireBlock → ActiveGrant → Bool
blocks_grant block grant =
    matched_by grant.url block.blocked_sites || matched_by grant.url block.media_sites

abbrev pub add_allowed : Bool → Text → List Text → List Text
add_allowed applies pattern patterns =
    if applies && not (member pattern patterns) then patterns ++ (pattern ∷ []) else patterns

-- The loop over the live grants.
unfoldable pub overlay_allowed : WireBlock → List ActiveGrant → List Text → List Text
unfolding blocks_grant
overlay_allowed block [] patterns = patterns
overlay_allowed block (g ∷ gs) patterns =
    overlay_allowed block gs (add_allowed (blocks_grant block g) g.pattern patterns)

unfoldable pub overlay_block : List ℕ → List ActiveGrant → WireBlock → WireBlock
unfolding overlay_allowed
overlay_block locked live block =
    if is_among block.id locked
    then block
    else record block { allowed_sites = overlay_allowed block live block.allowed_sites }

-- `overlay_blocks`; without a live grant it returns its argument, which the loop does as well.
unfoldable pub overlay_blocks : List WireBlock → List ActiveGrant → ℤ → List ℕ → List WireBlock
unfolding overlay_block active_grants
overlay_blocks blocks grants now locked =
    map (overlay_block locked (active_grants grants now)) blocks

-- `make_active_grant`, at times that carry their zone.
unfoldable pub make_active_grant : Text → Text → Text → Text → ℤ → ℤ → ActiveGrant
unfolding normalize_url_pattern
make_active_grant grant_id url scope reason granted_at expires_at = record {
  id = grant_id;
  url = url;
  pattern = normalize_url_pattern url;
  scope = scope;
  reason = reason;
  granted_at = some (aware granted_at);
  expires_at = some (aware expires_at);
}

-- `add_grant`: the store after it.
unfoldable pub add_grant : ActiveGrant → ℤ → List ActiveGrant → List ActiveGrant
unfolding active_grants
add_grant grant now stored = active_grants stored now ++ (grant ∷ [])

-- `prune_expired`: what it returns, and the store after it. Where nothing has expired the store is not written.
unfoldable pub prune_expired : ℤ → List ActiveGrant → ℕ × List ActiveGrant
unfolding active_grants
prune_expired now stored =
    let live = active_grants stored now in
    let removed = length stored - length live in (removed, if removed == 0 then stored else live)

-- The dict that `get_blocked_sites` makes of an active block.
unfoldable pub wire_block : BlockRow → WireBlock
wire_block row = record {
  id = row.id;
  name = row.block.name;
  blocked_sites = parse_rules_from_text row.block.websites_blocked;
  allowed_sites = parse_rules_from_text row.block.websites_allowed;
  media_sites = parse_rules_from_text row.block.websites_media_blocked;
  priority = elim row.block.priority [ none ↦ Priority.low | some p ↦ p ];
}
