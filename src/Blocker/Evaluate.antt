-- ===== src/Blocker/Evaluate.antt =====
-- `evaluate_url_against_blocks` and the site queries of daemon/blocker.py. Only the blocks of the
-- highest priority among those whose list matches the URL vote on it.
use hypr_blocker.Base.{
  ℕ, Bool, true, false, Option, none, some, List, [], ◌∷◌, ◌++◌, if◌then◌else◌, any, keep, ltb,
  ◌==◌,
}
use hypr_blocker.Base.Text.{Text}
use hypr_blocker.Blocker.Url.{is_protected_url, url_matches_pattern}
use hypr_blocker.Blocker.Priority.{
  Key, name_key, priority_key, blocked, websites_blocked, media_blocked, websites_media_blocked,
  allowed, websites_allowed, Raw, missing, null, Block, priority_rank, patterns_from,
}

-- `_FIELD_KEYS`: the keys under which a field's list may stand.
abbrev pub field_keys : Key → Option (Key × Key)
field_keys blocked = some (blocked, websites_blocked)
field_keys websites_blocked = some (blocked, websites_blocked)
field_keys media_blocked = some (media_blocked, websites_media_blocked)
field_keys websites_media_blocked = some (media_blocked, websites_media_blocked)
field_keys _ = none

-- The dict that the function returns. `not_blocked` has no "allowed" entry.
pub data Decision : Type 0 where
  not_blocked allowed_by_band : Decision
  is_blocked : Option Raw → Decision
  unknown_field : Decision

-- `_block_name`, the value before `str`.
abbrev block_name : Block → Option Raw
block_name block = elim (block name_key) [ missing ↦ none | null ↦ none | v ↦ some v ]

abbrev pub any_match : Text → List Text → Bool
any_match url patterns = any (λ p. url_matches_pattern url p) patterns

-- The block's own list for the field matches the URL.
unfoldable pub cares : Text → Key × Key → Block → Bool
cares url keys block = any_match url (patterns_from block keys)

unfoldable pub allows : Text → Block → Bool
allows url block = any_match url (patterns_from block (allowed, websites_allowed))

unfoldable pub block_rank : Block → ℕ
block_rank block = priority_rank (block priority_key)

-- `max(priority_rank(...) for block in caring)` of a list that is not empty.
unfoldable pub top_rank : ℕ → List Block → ℕ
top_rank best [] = best
top_rank best (b ∷ bs) = top_rank (if ltb best (block_rank b) then block_rank b else best) bs

-- The loop over the caring blocks.
unfoldable pub vote : Text → ℕ → List Block → Decision
vote url top [] = allowed_by_band
vote url top (b ∷ bs) =
    let rest = vote url top bs in
    if block_rank b == top then (if allows url b then rest else is_blocked (block_name b)) else rest

unfoldable pub decide_caring : Text → List Block → Decision
unfolding vote top_rank
decide_caring url [] = not_blocked
decide_caring url (b ∷ bs) = vote url (top_rank (block_rank b) bs) (b ∷ bs)

decide_field : Text → List Block → Option (Key × Key) → Decision
unfolding cares decide_caring
decide_field url blocks none = unknown_field
decide_field url blocks (some keys) =
    if is_protected_url url
    then not_blocked
    else decide_caring url (keep (λ b. cares url keys b) blocks)

unfoldable pub evaluate_url_against_blocks : Text → List Block → Key → Decision
unfolding decide_field
evaluate_url_against_blocks url blocks field = decide_field url blocks (field_keys field)

abbrev pub blocks_it : Decision → Bool
blocks_it (is_blocked _) = true
blocks_it _ = false

-- `is_site_blocked` over the active blocks, `none` where there is no scheduler.
unfoldable pub is_site_blocked : Text → Option (List Block) → Bool
unfolding evaluate_url_against_blocks
is_site_blocked url none = false
is_site_blocked url (some blocks) =
    if is_protected_url url
    then false
    else blocks_it (evaluate_url_against_blocks url blocks websites_blocked)

-- `should_block_url`: one list of blocked and one of allowed patterns.
unfoldable pub should_block_url : Text → List Text → List Text → Bool
should_block_url url blocked_list allowed_list =
    if is_protected_url url
    then false
    else if any_match url allowed_list
    then false
    else any_match url blocked_list

-- `get_blocked_sites`.
unfoldable pub get_blocked_sites : Option (List Block) → List Text
get_blocked_sites none = []
get_blocked_sites (some []) = []
get_blocked_sites (some (b ∷ bs)) =
    patterns_from b (websites_blocked, websites_blocked) ++ get_blocked_sites (some bs)
