-- ===== src/Enforcer/Policy/Merge.antt =====
-- The request that is merged onto the policy in force is the one that was compared with the defaults filled in.
use hypr_blocker.Base.{◌≡◌, true, Option, none, some, []}
use hypr_blocker.Enforcer.Policy.Order.{IsAtMost, Extends, IsAtMost-NotNan}
use hypr_blocker.Enforcer.Policy.Strictness.{IsAsStrict, HasNoNan, no_loosening_iff}
use hypr_blocker.Enforcer.Policy.{
  default_policy, EnforcementPolicy, PolicyBody, given_or, merge, filled, policy_loosening_fields,
}

-- A property of the given value and of the value that stays holds of the merged one.
given_or-elim :
    {A : Type 0} (P : A → Type 0) (o : Option A) (d c : A)
    → P (given_or o d)
    → P c
    → P (given_or o c)
given_or-elim P none d c p q = q
given_or-elim P (some a) d c p q = p

-- No number that the request names is NaN.
abbrev pub NamesNoNan : PolicyBody → Type 0
NamesNoNan body = HasNoNan (filled body)

-- A request that names no number as NaN and loosens nothing, once its omitted fields take the defaults, loosens
-- nothing either when it is merged onto any policy that is as strict as the one it was compared with.
pub merge-IsAsStrict :
    (base current : EnforcementPolicy) (body : PolicyBody)
    → IsAsStrict base current
    → NamesNoNan body
    → policy_loosening_fields base (filled body) ≡ some []
    → IsAsStrict base (merge current body)
unfolding filled merge
merge-IsAsStrict base current body h no_nan e =
    let slow =
      IsAtMost-NotNan current.heartbeat_interval_seconds base.heartbeat_interval_seconds
        h.detection in
    let few = IsAtMost-NotNan base.watchdog_count current.watchdog_count h.guards in
    let f = (no_loosening_iff base (filled body) (slow.1, few.0) no_nan).0 e in
    let d = default_policy in
    record {
      enforcement =
          given_or-elim (λ b. base.browser_enforcement_enabled ≡ true → b ≡ true)
            body.browser_enforcement_enabled d.browser_enforcement_enabled
            current.browser_enforcement_enabled f.enforcement h.enforcement;
      shutdown =
          given_or-elim (λ b. base.shutdown_prevention_enabled ≡ true → b ≡ true)
            body.shutdown_prevention_enabled d.shutdown_prevention_enabled
            current.shutdown_prevention_enabled f.shutdown h.shutdown;
      watchdog =
          given_or-elim (λ b. base.watchdog_enabled ≡ true → b ≡ true) body.watchdog_enabled
            d.watchdog_enabled current.watchdog_enabled f.watchdog h.watchdog;
      kill_list =
          given_or-elim (λ ns. Extends base.browsers ns) body.browsers d.browsers current.browsers
            f.kill_list h.kill_list;
      detection =
          given_or-elim (λ i. IsAtMost i base.heartbeat_interval_seconds)
            body.heartbeat_interval_seconds d.heartbeat_interval_seconds
            current.heartbeat_interval_seconds f.detection h.detection;
      guards =
          given_or-elim (λ i. IsAtMost base.watchdog_count i) body.watchdog_count d.watchdog_count
            current.watchdog_count f.guards h.guards;
    }
