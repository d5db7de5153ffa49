-- ===== src/Grants/Broker.antt =====
-- daemon/api/routes/grants.py, request_grant: a request for a grant, from the audit log to the store.
pub mod Earned
pub mod Budget
mod Tests
use hypr_blocker.Base.{
  ℕ, Bool, true, false, not, ◌&&◌, ◌||◌, Option, none, some, List, [], ◌∷◌, ◌++◌, if◌then◌else◌,
}
use hypr_blocker.Base.Int.{ℤ, pos, ◌+ℤ◌, max_ℤ, min_ℤ}
use hypr_blocker.Base.Text.{Text, codes, text_eq, strip, starts_with}
use hypr_blocker.Base.Time.{aware, minutes}
use hypr_blocker.Grants.Models.{
  GrantRequest, block_exception, tier_number, Verdict, DecisionWord, is_allow, deny,
  max_grant_minutes,
}
use hypr_blocker.Grants.RateLimit.{Entry, text_stamp, default_daily_limit}
use hypr_blocker.Grants.Tier1.{normalize_url_pattern}
use hypr_blocker.Grants.Store.{ActiveGrant, make_active_grant, add_grant}
use hypr_blocker.Grants.Judge.{Json, Stage, judge, evaluate}

pub record GrantRequestBody : Type 0 where
  pub url : Text
  pub reason : Text
  pub minutes : ℤ

-- The judge's client: none is configured, or one that answers, none where it raises.
pub data Client : Type 0 where
  unconfigured : Client
  answers : Option Text → Client

-- The two files. A log that cannot be written stays as it is.
pub record Files : Type 0 where
  pub writable : Bool
  pub log : List Entry
  pub stored : List ActiveGrant

-- `audit.append_entry`
unfoldable pub append_entry : Bool → Entry → List Entry → List Entry
append_entry writable entry log = if writable then log ++ (entry ∷ []) else log

-- The entries of `record_request` and of `record_decision`, which stands with the time of its writing.
abbrev pub request_entry : ℤ → Entry
request_entry now = record {
  kind = some (codes "request");
  tier = some (tier_number block_exception);
  ts = text_stamp (some (aware now));
}

abbrev pub decision_entry : ℤ → Entry
decision_entry later = record {
  kind = some (codes "decision");
  tier = some (tier_number block_exception);
  ts = text_stamp (some (aware later));
}

-- `scope_pat == req_pat or scope_pat.startswith(req_pat + "/")`
abbrev pub no_broader : Text → Text → Bool
no_broader req_pat scope_pat =
    text_eq scope_pat req_pat || starts_with (req_pat ++ codes "/") scope_pat

abbrev pub narrower : Text → Text → Text
narrower request_url [] = request_url
narrower request_url (c ∷ scope) =
    if no_broader (normalize_url_pattern request_url) (normalize_url_pattern (c ∷ scope))
    then c ∷ scope
    else request_url

-- `_enforced_target`
unfoldable pub enforced_target : Text → Text → Text
enforced_target request_url verdict_scope = narrower request_url (strip verdict_scope)

-- The request that the route makes of the body; `uuid` is the id.
abbrev pub new_request : Text → GrantRequestBody → ℤ → GrantRequest
new_request uuid body now = record {
  id = uuid;
  tier = block_exception;
  target = body.url;
  reason = body.reason;
  minutes = max_ℤ (pos 1) (min_ℤ body.minutes max_grant_minutes);
  created_at = aware now;
  argv = none;
}

pub record GrantDecisionResponse : Type 0 where
  pub decision : DecisionWord
  pub stage : Stage
  pub reason : Text
  pub granted_minutes : ℤ
  pub expires_at : Option ℤ

unfoldable pub decide :
    (Text → Option Json) → Client → GrantRequest → List Entry → ℤ → Verdict × Stage
unfolding evaluate
decide loads unconfigured request log now =
    (deny (codes "Judge unavailable (no broker configured) — denied (fail closed)"), judge)
decide loads (answers reply) request log now =
    evaluate loads request log reply (aware now) default_daily_limit

abbrev pub expiry : Verdict → ℤ → ℤ
expiry verdict now = now +ℤ minutes (min_ℤ verdict.minutes max_grant_minutes)

unfoldable pub new_grant : Text → Text → Verdict → ℤ → ActiveGrant
unfolding make_active_grant enforced_target
new_grant uuid url verdict now =
    make_active_grant uuid (enforced_target url verdict.scope) verdict.scope verdict.reason now
      (expiry verdict now)

unfoldable pub carry_out : Text → Text → ℤ → Verdict → Stage → Files → GrantDecisionResponse × Files
unfolding new_grant add_grant
carry_out uuid url now verdict stage files =
    if is_allow verdict.decision
    then (
      record {
        decision = verdict.decision;
        stage = stage;
        reason = verdict.reason;
        granted_minutes = verdict.minutes;
        expires_at = some (expiry verdict now);
      },
      record files { stored = add_grant (new_grant uuid url verdict now) now files.stored },
    )
    else (
      record {
        decision = verdict.decision;
        stage = stage;
        reason = verdict.reason;
        granted_minutes = pos 0;
        expires_at = none;
      },
      files,
    )

-- `request_grant` at the instant `now`; the decision is logged at `later`.
unfoldable pub request_grant :
    (Text → Option Json)
    → Client
    → Text
    → GrantRequestBody
    → ℤ
    → ℤ
    → Files
    → GrantDecisionResponse × Files
unfolding append_entry decide carry_out
request_grant loads client uuid body now later files =
    let log = append_entry files.writable (request_entry now) files.log in
    let (verdict, stage) = decide loads client (new_request uuid body now) log now in
    carry_out uuid body.url now verdict stage
      (record files { log = append_entry files.writable (decision_entry later) log })
