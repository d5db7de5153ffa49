-- ===== src/Grants/Broker/Budget.antt =====
-- How many requests a day get as far as the judge.
use hypr_blocker.Base.{
  ℕ, ◌+◌, ◌<◌, ◌≡◌, ◌↔◌, refl, sym, ap, ◌∙◌, inl, inr, Bool, true, false, Option, some, List, [],
  ◌∷◌, ◌++◌, arith, Bool-cases, if◌then◌else◌,
}
use hypr_blocker.Base.Int.{ℤ, ◌-ℤ◌, leb_ℤ, -ℤ_parts}
use hypr_blocker.Base.Text.{Text}
use hypr_blocker.Base.Time.{aware}
use hypr_blocker.Grants.Models.{GrantRequest, Verdict, block_exception, tier_number, is_allow}
use hypr_blocker.Grants.Denylist.{check_request}
use hypr_blocker.Grants.RateLimit.{
  Entry, counts, count_from, count_recent_requests, check, allowed as within_limit, default_window,
  default_daily_limit, RateLimitStatus,
}
use hypr_blocker.Grants.Judge.{Json, Stage, judge, evaluate, after_denylist, after_limit}
use hypr_blocker.Grants.Broker.{
  GrantRequestBody, answers, Files, append_entry, request_entry, decision_entry, new_request,
  decide, carry_out, request_grant,
}

count_from-append :
    (cutoff now : ℤ) (tier : Option ℤ) (es fs : List Entry)
    → count_from cutoff now tier (es ++ fs)
      ≡ count_from cutoff now tier es + count_from cutoff now tier fs
unfolding count_from
count_from-append cutoff now tier [] fs = omega arith
count_from-append cutoff now tier (e ∷ es) fs =
    ground (arith, count_from-append cutoff now tier es fs)

window_back : (now : ℤ) → leb_ℤ (now -ℤ default_window) now ≡ true
window_back now = ground (arith, -ℤ_parts now default_window)

now_reached : (now : ℤ) → leb_ℤ now now ≡ true
now_reached now = ground arith

own_request_counts :
    (now : ℤ)
    → count_from
        (now -ℤ default_window)
        now
        (some (tier_number block_exception))
        (request_entry now ∷ [])
      ≡ 1
unfolding count_from counts
own_request_counts now = rw (window_back now, now_reached now) refl

-- The requests of the last day in the log.
abbrev pub requests_today : List Entry → ℤ → ℕ
requests_today log now =
    count_recent_requests log (aware now) default_window (some (tier_number block_exception))

abbrev pub own_entry : Bool → ℕ
own_entry writable = if writable then 1 else 0

requests_today-append :
    (writable : Bool) (log : List Entry) (now : ℤ)
    → requests_today (append_entry writable (request_entry now) log) now
      ≡ requests_today log now + own_entry writable
unfolding count_recent_requests append_entry
requests_today-append false log now = omega arith
requests_today-append true log now =
    count_from-append (now -ℤ default_window) now (some (tier_number block_exception)) log
      (request_entry now ∷ [])
    ∙ ap (λ n. requests_today log now + n) (own_request_counts now)

carry_out-stage :
    (uuid url : Text) (now : ℤ) (r : Verdict × Stage) (files : Files)
    → (carry_out uuid url now r.0 r.1 files).0.stage ≡ r.1
unfolding carry_out
carry_out-stage uuid url now r files = elim (Bool-cases (is_allow r.0.decision)) [
  | inl e ↦ rw e refl
  | inr e ↦ rw e refl
]

after_limit-stage :
    (loads : Text → Option Json) (request : GrantRequest) (reply : Option Text)
    (status : RateLimitStatus)
    → ((after_limit loads request reply status).1 ≡ judge) ↔ (status.used < status.limit)
unfolding after_limit
after_limit-stage loads request reply status = elim (Bool-cases (within_limit status)) [
  | inl e ↦ rw e (λ _. ground (arith, e), λ _. refl)
  | inr e ↦ rw e (λ h. cc h, λ h. ground (arith, e, h))
]

decide-stage :
    (loads : Text → Option Json) (reply : Option Text) (request : GrantRequest) (log : List Entry)
    (now : ℤ)
    → check_request request ≡ []
    → request.tier ≡ block_exception
    → ((decide loads (answers reply) request log now).1 ≡ judge)
      ↔ (requests_today log now < default_daily_limit)
unfolding decide evaluate after_denylist check
decide-stage loads reply request log now clean tier =
    rw (clean, tier)
      (after_limit-stage loads request reply (
        check log (aware now) default_daily_limit default_window
          (some (tier_number block_exception))))

-- A request for a grant that the denylist lets through, with a judge configured, reaches the judge exactly
-- when fewer than three requests are counted for the last day, its own among them where the log can be
-- written.
pub judge_asked_iff :
    (loads : Text → Option Json) (reply : Option Text) (uuid : Text) (body : GrantRequestBody)
    (now later : ℤ) (files : Files)
    → check_request (new_request uuid body now) ≡ []
    → ((request_grant loads (answers reply) uuid body now later files).0.stage ≡ judge)
      ↔ (requests_today files.log now + own_entry files.writable < default_daily_limit)
unfolding request_grant
judge_asked_iff loads reply uuid body now later files clean =
    let log = append_entry files.writable (request_entry now) files.log in
    let r = decide loads (answers reply) (new_request uuid body now) log now in
    let stage =
      carry_out-stage uuid body.url now r
        (record files { log = append_entry files.writable (decision_entry later) log }) in
    let count = requests_today-append files.writable files.log now in
    rw (stage, sym count) (decide-stage loads reply (new_request uuid body now) log now clean refl)
