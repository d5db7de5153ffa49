-- ===== src/Grants/Judge.antt =====
-- daemon/grants/judge.py: the verdict of the judge and the pipeline in front of it. What the client
-- answers to the messages is an argument, none where it raises; so is `loads`, which is `json.loads`.
pub mod Verdicts
pub mod Prompt
use hypr_blocker.Base.{
  ℕ, Bool, true, false, not, ◌&&◌, ◌||◌, Option, none, some, List, [], ◌∷◌, ◌++◌, if◌then◌else◌,
  ◌==◌,
}
use hypr_blocker.Base.Int.{ℤ, pos, ltb_ℤ, eqb_ℤ}
use hypr_blocker.Base.Text.{Text, codes, text_eq, strip, lower}
use hypr_blocker.Base.Time.{DateTime}
use hypr_blocker.Grants.Models.{
  GrantRequest, GrantTier, tier_number, Verdict, DecisionWord, allow, deny_word, is_allow, deny,
  max_grant_minutes,
}
use hypr_blocker.Grants.Denylist.{find_denials, check_request}
use hypr_blocker.Grants.RateLimit.{
  Entry, check, RateLimitStatus, allowed as within_limit, default_window,
}

-- A value of the verdict object: the types that the parser tells apart.
pub data Value : Type 0 where
  boolean : Bool → Value
  integer : ℤ → Value
  string : Text → Value
  other_value : Value

-- What `json.loads` makes of a text that it accepts.
pub data Json : Type 0 where
  object : List (Text × Value) → Json
  other_json : Json

-- Why a reply is no verdict. The values that the messages quote are left out.
pub data VerdictError : Type 0 where
  no_object missing_key invalid_decision not_strings not_an_integer out_of_range zero_minutes :
      VerdictError

pub data Parsed : Type 0 where
  failed : VerdictError → Parsed
  parsed : Verdict → Parsed

-- `text[text.find("{"):]`, none where there is no brace.
abbrev from_first : ℕ → Text → Option Text
from_first c [] = none
from_first c (d ∷ t) = if c == d then some (d ∷ t) else from_first c t

-- `text[:text.rfind("}") + 1]`
abbrev to_last : ℕ → Text → Option Text
to_last c [] = none
to_last c (d ∷ t) = elim (to_last c t) [
  | some u ↦ some (d ∷ u)
  | none ↦ if c == d then some (d ∷ []) else none
]

-- From the first opening brace to the last closing one behind it.
unfoldable pub braced : Text → Option Text
braced text = elim (from_first b'{' text) [ none ↦ none | some t ↦ to_last b'}' t ]

abbrev pub fields_of : Option Json → Option (List (Text × Value))
fields_of (some (object fields)) = some fields
fields_of _ = none

abbrev pub or_else :
    Option (List (Text × Value)) → Option (List (Text × Value)) → Option (List (Text × Value))
or_else none o = o
or_else (some fields) o = some fields

-- `_extract_json_object`
unfoldable pub extract_json_object : (Text → Option Json) → Text → Option (List (Text × Value))
unfolding braced
extract_json_object loads text =
    or_else (fields_of (loads (strip text)))
      (elim (braced (strip text)) [ none ↦ none | some t ↦ fields_of (loads t) ])

abbrev pub get_field : Text → List (Text × Value) → Option Value
get_field key [] = none
get_field key ((k, v) ∷ fields) = if text_eq key k then some v else get_field key fields

abbrev pub decision_word : Text → Option DecisionWord
decision_word t =
    if text_eq t (codes "allow")
    then some allow
    else if text_eq t (codes "deny")
    then some deny_word
    else none

unfoldable pub check_minutes : DecisionWord → Text → Text → ℤ → ℤ → Parsed
check_minutes decision scope reason minutes max_minutes =
    if ltb_ℤ minutes (pos 0) || ltb_ℤ max_minutes minutes
    then failed out_of_range
    else if is_allow decision && eqb_ℤ minutes (pos 0)
    then failed zero_minutes
    else parsed (record { decision = decision; scope = scope; minutes = minutes; reason = reason })

abbrev pub text_of : Value → Option Text
text_of (string t) = some t
text_of _ = none

unfoldable pub check_integer : DecisionWord → Text → Text → Value → ℤ → Parsed
unfolding check_minutes
check_integer decision scope reason (integer minutes) max_minutes =
    check_minutes decision scope reason minutes max_minutes
check_integer decision scope reason _ max_minutes = failed not_an_integer

unfoldable pub check_texts : DecisionWord → Option Text → Option Text → Value → ℤ → Parsed
unfolding check_integer
check_texts decision none reason minutes max_minutes = failed not_strings
check_texts decision (some scope) none minutes max_minutes = failed not_strings
check_texts decision (some scope) (some reason) minutes max_minutes =
    check_integer decision scope reason minutes max_minutes

unfoldable pub check_word : Option DecisionWord → Value → Value → Value → ℤ → Parsed
unfolding check_texts
check_word none scope minutes reason max_minutes = failed invalid_decision
check_word (some decision) scope minutes reason max_minutes =
    check_texts decision (text_of scope) (text_of reason) minutes max_minutes

abbrev pub word_of : Option Text → Option DecisionWord
word_of none = none
word_of (some d) = decision_word (lower (strip d))

unfoldable pub check_fields : Option Value → Option Value → Option Value → Option Value → ℤ → Parsed
unfolding check_word
check_fields (some d) (some s) (some m) (some r) max_minutes =
    check_word (word_of (text_of d)) s m r max_minutes
check_fields _ _ _ _ max_minutes = failed missing_key

unfoldable pub check_object : Option (List (Text × Value)) → ℤ → Parsed
unfolding check_fields
check_object none max_minutes = failed no_object
check_object (some o) max_minutes =
    check_fields (get_field (codes "decision") o) (get_field (codes "scope") o)
      (get_field (codes "minutes") o) (get_field (codes "reason") o) max_minutes

-- `parse_verdict`
unfoldable pub parse_verdict : (Text → Option Json) → Text → ℤ → Parsed
unfolding extract_json_object check_object
parse_verdict loads text max_minutes = check_object (extract_json_object loads text) max_minutes

-- `", ".join(hits)`
abbrev join_commas : List Text → Text
join_commas [] = []
join_commas (a ∷ []) = a
join_commas (a ∷ b ∷ hits) = a ++ (codes ", " ++ join_commas (b ∷ hits))

-- The hardening of a verdict that allows.
unfoldable pub harden : ℤ → Verdict → List Text → Verdict
harden requested verdict (hit ∷ hits) =
    deny (codes "Verdict scope hit denylist: " ++ join_commas (hit ∷ hits))
harden requested verdict [] =
    if ltb_ℤ (pos 0) requested && ltb_ℤ requested verdict.minutes
    then record verdict { decision = allow; minutes = requested }
    else verdict

unfoldable pub judge_parsed : GrantRequest → Parsed → Verdict
unfolding harden find_denials
judge_parsed request (failed e) = deny (codes "Malformed verdict — denied (fail closed)")
judge_parsed request (parsed verdict) =
    if is_allow verdict.decision
    then harden request.minutes verdict
        (find_denials (some verdict.scope ∷ some verdict.reason ∷ []))
    else verdict

-- `judge_request`, the verdict of it.
unfoldable pub judge_request : (Text → Option Json) → GrantRequest → Option Text → Verdict
unfolding judge_parsed parse_verdict
judge_request loads request none = deny (codes "Judge unreachable — denied (fail closed)")
judge_request loads request (some reply) =
    judge_parsed request (parse_verdict loads reply max_grant_minutes)

pub data Stage : Type 0 where
  denylist ratelimit judge : Stage

unfoldable pub after_limit :
    (Text → Option Json) → GrantRequest → Option Text → RateLimitStatus → Verdict × Stage
unfolding judge_request
after_limit loads request reply status =
    if within_limit status
    then (judge_request loads request reply, judge)
    else (deny (codes "Rate limited"), ratelimit)

unfoldable pub after_denylist :
    (Text → Option Json)
    → GrantRequest
    → List Entry
    → Option Text
    → DateTime
    → ℕ
    → List Text
    → Verdict × Stage
unfolding after_limit
after_denylist loads request entries reply now limit (hit ∷ hits) =
    (deny (codes "Denylist: " ++ join_commas (hit ∷ hits)), denylist)
after_denylist loads request entries reply now limit [] =
    after_limit loads request reply
      (check entries now limit default_window (some (tier_number request.tier)))

-- `evaluate`, its verdict and its stage. The counts and the error that a denial quotes are left out of its reason.
unfoldable pub evaluate :
    (Text → Option Json) → GrantRequest → List Entry → Option Text → DateTime → ℕ → Verdict × Stage
unfolding after_denylist check_request
evaluate loads request entries reply now limit =
    after_denylist loads request entries reply now limit (check_request request)
