-- ===== src/Grants/Broker/Tests.antt =====
-- Instances of the properties of requests for a grant.
use hypr_blocker.Base.{◌<◌, ◌+◌, ◌≡◌, ◌↔◌, ◌⊎◌, refl, true, Option, none, some, [], ◌∷◌}
use hypr_blocker.Base.Int.{pos}
use hypr_blocker.Base.Text.{Text, codes}
use hypr_blocker.Grants.Models.{allow, deny_word}
use hypr_blocker.Grants.Regex.{match_here, search_from, search}
use hypr_blocker.Grants.Denylist.{check_request, find_denials, denials_of, hits_text}
use hypr_blocker.Grants.Denylist.Rules.{rules}
use hypr_blocker.Grants.RateLimit.{default_daily_limit}
use hypr_blocker.Grants.Judge.{Json, object, string, integer, judge}
use hypr_blocker.Grants.Broker.{
  GrantRequestBody, answers, Files, append_entry, request_entry, new_request, request_grant,
}
use hypr_blocker.Grants.Broker.Earned.{IsEarned, grant-IsEarned}
use hypr_blocker.Grants.Broker.Budget.{requests_today, own_entry, judge_asked_iff}

-- A reader of JSON that knows one document.
abbrev loads_one : Text → Option Json
loads_one t = some (
    object (
      (codes "decision", string (codes " Allow"))
      ∷ (codes "scope", string (codes "news.org/today"))
      ∷ (codes "minutes", integer (pos 90))
      ∷ (codes "reason", string (codes "research"))
      ∷ []))

abbrev body : GrantRequestBody
body = record { url = codes "news.org"; reason = codes "for my thesis"; minutes = pos 30 }

-- One request of the same day is in the log.
abbrev files : Files
files = record { writable = true; log = request_entry (pos 5) ∷ []; stored = [] }

body_is_clean : check_request (new_request (codes "id") body (pos 1000)) ≡ []
unfolding check_request find_denials denials_of hits_text rules search search_from match_here
body_is_clean = refl

grant-IsEarned_example :
    let out =
      request_grant loads_one
        (answers (some (codes "{}")))
        (codes "id")
        body
        (pos 1000)
        (pos 2000)
        files in
    ((out.0.decision ≡ deny_word) × (out.1.stored ≡ files.stored))
    ⊎ ((out.0.decision ≡ allow)
        × IsEarned
            (codes "id")
            body
            (pos 1000)
            (append_entry files.writable (request_entry (pos 1000)) files.log)
            files.stored
            out.1.stored)
grant-IsEarned_example =
    grant-IsEarned loads_one (answers (some (codes "{}"))) (codes "id") body (pos 1000) (pos 2000)
      files

judge_asked_iff_example :
    ((request_grant loads_one (answers none) (codes "id") body (pos 1000) (pos 2000) files).0.stage
      ≡ judge)
    ↔ (requests_today files.log (pos 1000) + own_entry files.writable < default_daily_limit)
judge_asked_iff_example =
    judge_asked_iff loads_one none (codes "id") body (pos 1000) (pos 2000) files body_is_clean
