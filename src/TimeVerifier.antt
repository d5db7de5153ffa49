-- ===== src/TimeVerifier.antt =====
-- daemon/time_verifier.py: the comparison of the system clock with NTP. `ntp` is what `get_ntp_time` answers,
-- `system` the clock in UTC, both in milliseconds.
use hypr_blocker.Base.{Bool, true, false, Option, none, some, List, [], ◌∷◌, if◌then◌else◌}
use hypr_blocker.Base.Int.{ℤ, pos, ◌-ℤ◌, ltb_ℤ, max_ℤ}
use hypr_blocker.Base.Time.{seconds}

-- `get_ntp_time`: the answers of the configured servers in their order, `none` for one that fails.
unfoldable pub get_ntp_time : List (Option ℤ) → Option ℤ
get_ntp_time [] = none
get_ntp_time (none ∷ servers) = get_ntp_time servers
get_ntp_time (some t ∷ servers) = some t

pub record TimeVerifier : Type 0 where
  pub last_verified : Option ℤ
  pub last_ntp_time : Option ℤ
  pub cached_valid : Bool

-- `abs((ntp_time - system_time).total_seconds()) > max_time_diff`
unfoldable pub differs : ℤ → ℤ → ℤ → Bool
differs max_time_diff ntp system =
    ltb_ℤ (seconds max_time_diff) (max_ℤ (ntp -ℤ system) (system -ℤ ntp))

abbrev verified : ℤ → ℤ → TimeVerifier
verified ntp system = record {
  last_verified = some system;
  last_ntp_time = some ntp;
  cached_valid = true;
}

-- `is_system_time_valid`: without NTP the system time is trusted.
unfoldable pub is_system_time_valid : ℤ → Option ℤ → ℤ → TimeVerifier → Bool × TimeVerifier
unfolding differs
is_system_time_valid max_time_diff none system v = (true, v)
is_system_time_valid max_time_diff (some ntp) system v =
    if differs max_time_diff ntp system then (false, v) else (true, verified ntp system)

-- The answer of a lock transition without NTP: a verification of the last five minutes counts.
unfoldable pub recent_answer : Option ℤ → ℤ → Bool → Bool
recent_answer none system cached = false
recent_answer (some last) system cached =
    if ltb_ℤ (system -ℤ last) (pos 300000) then cached else false

-- `verify_at_lock_transitions`
unfoldable pub verify_at_lock_transitions : ℤ → Option ℤ → ℤ → TimeVerifier → Bool × TimeVerifier
unfolding differs recent_answer
verify_at_lock_transitions max_time_diff none system v =
    (recent_answer v.last_verified system v.cached_valid, v)
verify_at_lock_transitions max_time_diff (some ntp) system v =
    if differs max_time_diff ntp system
    then (false, record v { cached_valid = false })
    else (true, verified ntp system)

unfoldable pub needs_check : Option ℤ → ℤ → Bool
needs_check none system = true
needs_check (some last) system = ltb_ℤ (pos 300000) (system -ℤ last)

-- `get_verified_time`: the local clock `local`, after a verification whose answer is dropped.
unfoldable pub get_verified_time : ℤ → Option ℤ → ℤ → ℤ → TimeVerifier → ℤ × TimeVerifier
unfolding needs_check is_system_time_valid
get_verified_time max_time_diff ntp system local v = (
  local,
  if needs_check v.last_verified system
      then (is_system_time_valid max_time_diff ntp system v).1
      else v,
)
