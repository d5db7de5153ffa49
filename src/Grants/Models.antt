-- ===== src/Grants/Models.antt =====
-- daemon/grants/models.py: grant requests and verdicts.
use hypr_blocker.Base.{Option, List, [], Bool, true, false}
use hypr_blocker.Base.Int.{ℤ, pos}
use hypr_blocker.Base.Text.{Text}
use hypr_blocker.Base.Time.{DateTime}

abbrev pub max_grant_minutes : ℤ
max_grant_minutes = pos 240

pub data GrantTier : Type 0 where
  block_exception routine_update root_command : GrantTier

abbrev pub tier_number : GrantTier → ℤ
tier_number block_exception = pos 1
tier_number routine_update = pos 2
tier_number root_command = pos 3

pub record GrantRequest : Type 0 where
  pub id : Text
  pub tier : GrantTier
  pub target : Text
  pub reason : Text
  pub minutes : ℤ
  pub created_at : DateTime
  pub argv : Option (List Text)

pub data DecisionWord : Type 0 where
  allow deny_word : DecisionWord

-- A verdict; its decision is one of the two words, as `parse_verdict` requires.
pub record Verdict : Type 0 where
  pub decision : DecisionWord
  pub scope : Text
  pub minutes : ℤ
  pub reason : Text

-- `Verdict.allowed`
abbrev pub is_allow : DecisionWord → Bool
is_allow allow = true
is_allow deny_word = false

abbrev pub deny : Text → Verdict
deny reason = record { decision = deny_word; scope = []; minutes = pos 0; reason = reason }
