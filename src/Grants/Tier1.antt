-- ===== src/Grants/Tier1.antt =====
-- daemon/grants/tier1.py: the pattern of a grant, and the plans that add it to the blocks and remove it.
pub mod Expiry
use hypr_blocker.Base.{
  ℕ, Bool, true, false, not, Option, none, some, List, [], ◌∷◌, ◌++◌, if◌then◌else◌, any, keep, map,
}
use hypr_blocker.Base.Int.{ℤ, pos, ◌+ℤ◌, max_ℤ, min_ℤ}
use hypr_blocker.Base.Text.{
  Text, codes, text_eq, member, strip, lower, rstrip_slash, split_first, join_lines,
}
use hypr_blocker.Base.Time.{minutes}
use hypr_blocker.Blocker.Url.{url_matches_pattern, parse_rules_from_text}
use hypr_blocker.LockManager.{BlockRow}
use hypr_blocker.Grants.Models.{max_grant_minutes}

abbrev pub without_scheme : Text → Option (Text × Text) → Text
without_scheme url none = url
without_scheme url (some (scheme, rest)) = rest

-- `normalize_url_pattern`
unfoldable pub normalize_url_pattern : Text → Text
normalize_url_pattern url =
    rstrip_slash
      (lower (strip (without_scheme (strip url) (split_first (codes "://") (strip url)))))

pub record BlockMutation : Type 0 where
  pub block_id : ℕ
  pub block_name : Text
  pub new_websites_allowed : Text

pub record AllowlistPlan : Type 0 where
  pub url : Text
  pub pattern : Text
  pub expires_at : ℤ
  pub mutations : List BlockMutation

abbrev pub matches_row : Text → BlockRow → Bool
matches_row url row =
    if row.block.enabled
    then any (λ p. url_matches_pattern url p) (parse_rules_from_text row.block.websites_blocked)
    else false

-- `matching_active_blocks`
abbrev pub matching_active_blocks : Text → List BlockRow → List BlockRow
matching_active_blocks url rows = keep (matches_row url) rows

unfoldable pub append_pattern : Option Text → Text → Text
append_pattern allowed_text pattern =
    join_lines (parse_rules_from_text allowed_text ++ (pattern ∷ []))

unfoldable pub remove_pattern : Option Text → Text → Text
remove_pattern allowed_text pattern =
    join_lines (
      keep (λ rule. not (text_eq (lower rule) (lower pattern)))
        (parse_rules_from_text allowed_text))

-- `pattern in existing`, whatever the case of the existing rules.
abbrev pub holds_pattern : Text → Option Text → Bool
holds_pattern pattern allowed_text = member pattern (map lower (parse_rules_from_text allowed_text))

unfoldable pub grant_mutations : Text → List BlockRow → List BlockMutation
unfolding append_pattern
grant_mutations pattern [] = []
grant_mutations pattern (row ∷ rows) =
    let later = grant_mutations pattern rows in
    if holds_pattern pattern row.block.websites_allowed
    then later
    else record {
      block_id = row.id;
      block_name = row.block.name;
      new_websites_allowed = append_pattern row.block.websites_allowed pattern;
    }
      ∷ later

-- `plan_allowlist_grant`
unfoldable pub plan_allowlist_grant : Text → List BlockRow → ℤ → ℤ → AllowlistPlan
unfolding grant_mutations normalize_url_pattern
plan_allowlist_grant url active_blocks asked now =
    let pattern = normalize_url_pattern url in
    record {
      url = url;
      pattern = pattern;
      expires_at = now +ℤ minutes (max_ℤ (pos 1) (min_ℤ asked max_grant_minutes));
      mutations = grant_mutations pattern (matching_active_blocks pattern active_blocks);
    }

unfoldable pub expiry_mutations : Text → List BlockRow → List BlockMutation
unfolding remove_pattern
expiry_mutations normalized [] = []
expiry_mutations normalized (row ∷ rows) =
    let later = expiry_mutations normalized rows in
    if holds_pattern normalized row.block.websites_allowed
    then record {
      block_id = row.id;
      block_name = row.block.name;
      new_websites_allowed = remove_pattern row.block.websites_allowed normalized;
    }
      ∷ later
    else later

-- `plan_allowlist_expiry`
unfoldable pub plan_allowlist_expiry : Text → List BlockRow → List BlockMutation
unfolding expiry_mutations normalize_url_pattern
plan_allowlist_expiry pattern blocks = expiry_mutations (normalize_url_pattern pattern) blocks
