-- ===== src/Grants/Broker/Earned.antt =====
-- What stands behind a grant.
use hypr_blocker.Base.{
  ℕ, ◌≡◌, refl, ◌⊎◌, inl, inr, true, false, Option, some, List, [], ◌∷◌, ◌++◌, arith, Bool-cases,
  or_iff,
}
use hypr_blocker.Base.Int.{ℤ, pos, ◌≤ℤ◌, max_ℤ, min_ℤ}
use hypr_blocker.Base.Text.{Text, codes, text_eq, text_eq_iff, starts_with, strip}
use hypr_blocker.Base.Text.Laws.{starts_with_iff}
use hypr_blocker.Base.Time.{DateTime, aware}
use hypr_blocker.Grants.Models.{
  GrantRequest, Verdict, DecisionWord, allow, deny_word, is_allow, max_grant_minutes, tier_number,
}
use hypr_blocker.Grants.Denylist.{check_request}
use hypr_blocker.Grants.RateLimit.{
  Entry, check, allowed as within_limit, default_window, default_daily_limit,
}
use hypr_blocker.Grants.Tier1.{normalize_url_pattern}
use hypr_blocker.Grants.Judge.Verdicts.{IsSafe, judge_request-SafeIfAllowed}
use hypr_blocker.Grants.Store.{ActiveGrant, make_active_grant, add_grant}
use hypr_blocker.Grants.Broker.{
  GrantRequestBody, Client, unconfigured, answers, Files, append_entry, request_entry,
  decision_entry, no_broader, narrower, enforced_target, new_request, decide, new_grant, carry_out,
  request_grant,
}
use hypr_blocker.Grants.Judge.{Json, after_limit, after_denylist, evaluate, Stage}

-- What a verdict that allows has passed.
pub record IsPassed (request : GrantRequest) (log : List Entry) (now : DateTime) (limit : ℕ)
    (v : Verdict) : Type 0 where
  pub clean : check_request request ≡ []
  pub in_budget :
      within_limit (check log now limit default_window (some (tier_number request.tier))) ≡ true
  pub safe : IsSafe request.minutes v

abbrev PassedIfAllowed : GrantRequest → List Entry → DateTime → ℕ → Verdict × Stage → Type 0
PassedIfAllowed request log now limit r =
    is_allow r.0.decision ≡ true → IsPassed request log now limit r.0

after_denylist-PassedIfAllowed :
    (loads : Text → Option Json) (request : GrantRequest) (log : List Entry) (reply : Option Text)
    (now : DateTime) (limit : ℕ) (hits : List Text)
    → pos 1 ≤ℤ request.minutes
    → check_request request ≡ hits
    → PassedIfAllowed request log now limit (after_denylist loads request log reply now limit hits)
unfolding after_denylist after_limit
after_denylist-PassedIfAllowed loads request log reply now limit (hit ∷ hits) k e = λ b. cc b
after_denylist-PassedIfAllowed loads request log reply now limit [] k e =
    elim (Bool-cases
      (within_limit (check log now limit default_window (some (tier_number request.tier))))) [
        | inl f ↦ rw f (λ b. record {
          clean = e;
          in_budget = f;
          safe = judge_request-SafeIfAllowed loads request reply k b;
        })
        | inr f ↦ rw f (λ b. cc b)
      ]

decide-PassedIfAllowed :
    (loads : Text → Option Json) (client : Client) (request : GrantRequest) (log : List Entry)
    (now : ℤ)
    → pos 1 ≤ℤ request.minutes
    → PassedIfAllowed request log
        (aware now)
        default_daily_limit
        (decide loads client request log now)
unfolding decide evaluate
decide-PassedIfAllowed loads unconfigured request log now k = λ b. cc b
decide-PassedIfAllowed loads (answers reply) request log now k =
    after_denylist-PassedIfAllowed loads request log reply (aware now) default_daily_limit
      (check_request request) k refl

-- The pattern is that of the requested URL, or goes on behind it with a slash.
abbrev pub IsNoBroader : Text → Text → Type 0
IsNoBroader asked pattern = (pattern ≡ asked) ⊎ ((x : Text) × (pattern ≡ (asked ++ codes "/") ++ x))

narrower-IsNoBroader :
    (url scope : Text)
    → IsNoBroader (normalize_url_pattern url) (normalize_url_pattern (narrower url scope))
narrower-IsNoBroader url [] = inl refl
narrower-IsNoBroader url (c ∷ scope) =
    let asked = normalize_url_pattern url in
    let pattern = normalize_url_pattern (c ∷ scope) in
    elim (Bool-cases (no_broader asked pattern)) [
      | inl e ↦
          rw e
            (elim ((or_iff (text_eq pattern asked) (starts_with (asked ++ codes "/") pattern)).0
              e) [
                | inl same ↦ inl ((text_eq_iff pattern asked).0 same)
                | inr deeper ↦ inr ((starts_with_iff (asked ++ codes "/") pattern).0 deeper)
              ])
      | inr e ↦ rw e (inl refl)
    ]

new_grant-IsNoBroader :
    (uuid url : Text) (v : Verdict) (now : ℤ)
    → IsNoBroader (normalize_url_pattern url) (new_grant uuid url v now).pattern
unfolding new_grant make_active_grant enforced_target
new_grant-IsNoBroader uuid url v now = narrower-IsNoBroader url (strip v.scope)

-- A new grant in the store, with the verdict behind it.
pub record IsEarned (uuid : Text) (body : GrantRequestBody) (now : ℤ) (log : List Entry)
    (before after : List ActiveGrant) : Type 0 where
  pub verdict : Verdict
  pub passed : IsPassed (new_request uuid body now) log (aware now) default_daily_limit verdict
  pub added : after ≡ add_grant (new_grant uuid body.url verdict now) now before
  pub narrow :
      IsNoBroader (normalize_url_pattern body.url) (new_grant uuid body.url verdict now).pattern

allow-word : (d : DecisionWord) → is_allow d ≡ true → d ≡ allow
allow-word allow h = refl
allow-word deny_word h = cc h

deny-word : (d : DecisionWord) → is_allow d ≡ false → d ≡ deny_word
deny-word allow h = cc h
deny-word deny_word h = refl

carry_out-IsEarned :
    (uuid : Text) (body : GrantRequestBody) (now : ℤ) (log : List Entry) (r : Verdict × Stage)
    (files : Files)
    → PassedIfAllowed (new_request uuid body now) log (aware now) default_daily_limit r
    → let out = carry_out uuid body.url now r.0 r.1 files in
      ((out.0.decision ≡ deny_word) × (out.1.stored ≡ files.stored))
      ⊎ ((out.0.decision ≡ allow) × IsEarned uuid body now log files.stored out.1.stored)
unfolding carry_out
carry_out-IsEarned uuid body now log (v, stage) files h = elim (Bool-cases (is_allow v.decision)) [
  | inl a ↦ rw a (
      inr (
        allow-word v.decision a,
        record {
          verdict = v;
          passed = h a;
          added = refl;
          narrow = new_grant-IsNoBroader uuid body.url v now;
        },
      ))
  | inr a ↦ rw a (inl (deny-word v.decision a, refl))
]

some_minute : (m : ℤ) → pos 1 ≤ℤ max_ℤ (pos 1) m
some_minute m = ground arith

-- The answer to a request for a grant: denied, and the store of grants is as it was; or allowed, and the store
-- loses its expired grants and gains one. Then the request has passed the denylist and the
-- budget, with its own entry in the log; the grant is for at least a minute and at most 240, no
-- longer than requested; neither scope nor reason of the verdict is on the denylist; and the pattern is
-- that of the requested URL or goes on behind it with a slash.
pub grant-IsEarned :
    (loads : Text → Option Json) (client : Client) (uuid : Text) (body : GrantRequestBody)
    (now later : ℤ) (files : Files)
    → let out = request_grant loads client uuid body now later files in
      ((out.0.decision ≡ deny_word) × (out.1.stored ≡ files.stored))
      ⊎ ((out.0.decision ≡ allow)
          × IsEarned uuid body now
              (append_entry files.writable (request_entry now) files.log)
              files.stored
              out.1.stored)
unfolding request_grant
grant-IsEarned loads client uuid body now later files =
    let log = append_entry files.writable (request_entry now) files.log in
    let request = new_request uuid body now in
    carry_out-IsEarned uuid body now log (decide loads client request log now)
      (record files { log = append_entry files.writable (decision_entry later) log })
      (decide-PassedIfAllowed loads client request log now
        (some_minute (min_ℤ body.minutes max_grant_minutes)))
