-- ===== src/Grants/RateLimit.antt =====
-- daemon/grants/ratelimit.py: the daily budget of grant requests, counted from the audit log.
pub mod FailClosed
use hypr_blocker.Base.{
  ℕ, ◌+◌, ◌-◌, suc, Bool, true, false, not, ◌&&◌, ◌||◌, Option, none, some, List, [], ◌∷◌,
  if◌then◌else◌, ltb,
}
use hypr_blocker.Base.Int.{ℤ, pos, ◌-ℤ◌, leb_ℤ, eqb_ℤ}
use hypr_blocker.Base.Text.{Text, codes, text_eq}
use hypr_blocker.Base.Time.{DateTime, as_utc}

-- The "ts" of an entry: no text at all, or a text with what `datetime.fromisoformat` makes of it.
pub data Stamp : Type 0 where
  no_text : Stamp
  text_stamp : Option DateTime → Stamp

-- An entry of the audit log: its "kind" and "tier", `none` where the key is missing.
pub record Entry : Type 0 where
  pub kind : Option Text
  pub tier : Option ℤ
  pub ts : Stamp

abbrev pub default_daily_limit : ℕ
default_daily_limit = 3

-- A day, in milliseconds.
abbrev pub default_window : ℤ
default_window = pos 86400000

-- `_entry_timestamp`
abbrev pub entry_timestamp : Entry → Option ℤ
entry_timestamp entry = elim entry.ts [
  | no_text ↦ none
  | text_stamp none ↦ none
  | text_stamp (some d) ↦ some (as_utc d)
]

abbrev is_request : Option Text → Bool
is_request none = false
is_request (some kind) = text_eq kind (codes "request")

abbrev has_tier : Option ℤ → Option ℤ → Bool
has_tier none stated = true
has_tier (some tier) none = false
has_tier (some tier) (some stated) = eqb_ℤ stated tier

-- An entry without a timestamp counts.
abbrev pub recent : ℤ → ℤ → Option ℤ → Bool
recent cutoff now none = true
recent cutoff now (some ts) = leb_ℤ cutoff ts && leb_ℤ ts now

unfoldable pub counts : ℤ → ℤ → Option ℤ → Entry → Bool
counts cutoff now tier entry =
    is_request entry.kind && (has_tier tier entry.tier && recent cutoff now (entry_timestamp entry))

unfoldable pub count_from : ℤ → ℤ → Option ℤ → List Entry → ℕ
unfolding counts
count_from cutoff now tier [] = 0
count_from cutoff now tier (e ∷ es) =
    let rest = count_from cutoff now tier es in if counts cutoff now tier e then suc rest else rest

unfoldable pub count_recent_requests : List Entry → DateTime → ℤ → Option ℤ → ℕ
unfolding count_from
count_recent_requests entries now window tier =
    count_from (as_utc now -ℤ window) (as_utc now) tier entries

pub record RateLimitStatus : Type 0 where
  pub used : ℕ
  pub limit : ℕ
  pub window : ℤ

abbrev pub allowed : RateLimitStatus → Bool
allowed s = ltb s.used s.limit

-- `max(0, limit - used)`
abbrev pub remaining : RateLimitStatus → ℕ
remaining s = s.limit - s.used

unfoldable pub check : List Entry → DateTime → ℕ → ℤ → Option ℤ → RateLimitStatus
check entries now limit window tier = record {
  used = count_recent_requests entries now window tier;
  limit = limit;
  window = window;
}

unfoldable pub is_rate_limited : List Entry → DateTime → ℕ → ℤ → Option ℤ → Bool
unfolding check
is_rate_limited entries now limit window tier = not (allowed (check entries now limit window tier))
