-- ===== src/Enforcer/Policy.antt =====
-- The enforcement policy (daemon/enforcement_policy.py), the fields in which one policy is looser
-- than another, and the two ways a policy request is read (enforcer/logic.py, enforcer/main.py).
pub mod Order
pub mod Strictness
pub mod Merge
use hypr_blocker.Base.{
  Bool, true, false, not, ◌&&◌, Option, none, some, List, [], ◌∷◌, ◌++◌, String, str_eq, any, all,
  if◌then◌else◌,
}
use hypr_blocker.Base.Int.{pos}
use hypr_blocker.Base.Float.{Float, fin, less}

abbrev pub default_browsers : List String
default_browsers =
    "firefox" ∷ "firefox-esr" ∷ "chromium" ∷ "google-chrome" ∷ "brave-browser" ∷ "microsoft-edge"
    ∷ "opera" ∷ "vivaldi-stable" ∷ []

-- A number of a policy, which may be any JSON value: a number, counted in thousandths, or another value,
-- next to which a comparison with a number raises TypeError.
pub data Number : Type 0 where
  number : Float → Number
  no_number : Number

-- A kill-list of a policy: strings, or a value of which `set` makes no set.
pub data Names : Type 0 where
  listed : List String → Names
  no_names : Names

-- A toggle may be any JSON value too, and is kept by its truth. Two values of the file and the request that are
-- both no numbers are not told apart.
pub record EnforcementPolicy : Type 0 where
  pub browsers : Names
  pub browser_enforcement_enabled : Bool
  pub shutdown_prevention_enabled : Bool
  pub watchdog_enabled : Bool
  pub watchdog_count : Number
  pub heartbeat_interval_seconds : Number

-- `EnforcementPolicy()`.
abbrev pub default_policy : EnforcementPolicy
default_policy = record {
  browsers = listed default_browsers;
  browser_enforcement_enabled = true;
  shutdown_prevention_enabled = false;
  watchdog_enabled = false;
  watchdog_count = number (fin (pos 3000));
  heartbeat_interval_seconds = number (fin (pos 30000));
}

-- The known keys of a request's policy dict, `none` where the request leaves one out.
pub record PolicyBody : Type 0 where
  pub browsers : Option Names
  pub browser_enforcement_enabled : Option Bool
  pub shutdown_prevention_enabled : Option Bool
  pub watchdog_enabled : Option Bool
  pub watchdog_count : Option Number
  pub heartbeat_interval_seconds : Option Number

abbrev pub given_or {ℓ} : {A : Type ℓ} → Option A → A → A
given_or none d = d
given_or (some a) d = a

-- `current.update(body)`, as `_apply_request` does; omitted fields keep their value.
unfoldable pub merge : EnforcementPolicy → PolicyBody → EnforcementPolicy
merge p b = record {
  browsers = given_or b.browsers p.browsers;
  browser_enforcement_enabled =
      given_or b.browser_enforcement_enabled p.browser_enforcement_enabled;
  shutdown_prevention_enabled =
      given_or b.shutdown_prevention_enabled p.shutdown_prevention_enabled;
  watchdog_enabled = given_or b.watchdog_enabled p.watchdog_enabled;
  watchdog_count = given_or b.watchdog_count p.watchdog_count;
  heartbeat_interval_seconds = given_or b.heartbeat_interval_seconds p.heartbeat_interval_seconds;
}

-- `EnforcementPolicy(**body)`, as `classify_request` does; omitted fields take the defaults.
unfoldable pub filled : PolicyBody → EnforcementPolicy
unfolding merge
filled b = merge default_policy b

abbrev pub contains : List String → String → Bool
contains names name = any (λ n. str_eq n name) names

-- `set(requested) >= set(current)`.
abbrev pub covers : List String → List String → Bool
covers requested current = all (λ n. contains requested n) current

pub data PolicyField : Type 0 where
  browser_enforcement_enabled shutdown_prevention_enabled watchdog_enabled browsers : PolicyField
  heartbeat_interval_seconds watchdog_count : PolicyField

-- `a > b` and `set(a) >= set(b)`, none where they raise.
abbrev pub greater : Number → Number → Option Bool
greater (number a) (number b) = some (less b a)
greater _ _ = none

abbrev pub lacks : Names → Names → Option Bool
lacks (listed requested) (listed current) = some (not (covers requested current))
lacks _ _ = none

abbrev pub add_if : Bool → PolicyField → Option (List PolicyField) → Option (List PolicyField)
add_if test f none = none
add_if test f (some fs) = some (if test then f ∷ fs else fs)

-- The fields whose test holds, in the order of the code's appends; none where a test raises.
unfoldable pub loosened : List (Option Bool × PolicyField) → Option (List PolicyField)
loosened [] = some []
loosened ((none, f) ∷ rest) = none
loosened ((some test, f) ∷ rest) = add_if test f (loosened rest)

-- The tests in the order in which `_policy_loosening_fields` makes them.
abbrev pub loosening_tests :
    EnforcementPolicy → EnforcementPolicy → List (Option Bool × PolicyField)
loosening_tests current requested =
    (
      some (current.browser_enforcement_enabled && not requested.browser_enforcement_enabled),
      PolicyField.browser_enforcement_enabled,
    )
    ∷ (
      some (current.shutdown_prevention_enabled && not requested.shutdown_prevention_enabled),
      PolicyField.shutdown_prevention_enabled,
    )
    ∷ (
      some (current.watchdog_enabled && not requested.watchdog_enabled),
      PolicyField.watchdog_enabled,
    )
    ∷ (lacks requested.browsers current.browsers, PolicyField.browsers)
    ∷ (
      greater requested.heartbeat_interval_seconds current.heartbeat_interval_seconds,
      PolicyField.heartbeat_interval_seconds,
    )
    ∷ (greater current.watchdog_count requested.watchdog_count, PolicyField.watchdog_count)
    ∷ []

unfoldable pub policy_loosening_fields :
    EnforcementPolicy → EnforcementPolicy → Option (List PolicyField)
unfolding loosened
policy_loosening_fields current requested = loosened (loosening_tests current requested)
