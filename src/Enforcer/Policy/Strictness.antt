-- ===== src/Enforcer/Policy/Strictness.antt =====
-- The order in which policies are as strict or stricter, and that the code's list of loosened fields
-- decides it.
use hypr_blocker.Base.{
  ◌≡◌, refl, sym, ◌∙◌, ◌≢◌, ◌↔◌, inl, inr, Bool, true, false, not, ◌&&◌, Option, none, some, List,
  [], ◌∷◌, String, arith, str_eq, str_eq_iff, All, Bool-cases, and_iff, or_iff, str_eq_refl,
}
use hypr_blocker.Base.Float.{fin, pinf, ninf, nan}
use hypr_blocker.Enforcer.Policy.Order.{
  IsAtMost, Extends, IsNotNan, IsAtMost-NotNan, IsAtMost-self, Extends-refl, Extends-trans,
  IsAtMost-trans,
}
use hypr_blocker.Enforcer.Policy.{
  Number, number, no_number, Names, listed, no_names, add_if, greater, lacks, EnforcementPolicy,
  contains, covers, PolicyField, loosened, loosening_tests, policy_loosening_fields,
}

-- Neither number of the policy is NaN.
abbrev pub HasNoNan : EnforcementPolicy → Type 0
HasNoNan p = IsNotNan p.heartbeat_interval_seconds × IsNotNan p.watchdog_count

-- `b` is as strict as `a` or stricter.
pub record IsAsStrict (a b : EnforcementPolicy) : Type 0 where
  pub enforcement : a.browser_enforcement_enabled ≡ true → b.browser_enforcement_enabled ≡ true
  pub shutdown : a.shutdown_prevention_enabled ≡ true → b.shutdown_prevention_enabled ≡ true
  pub watchdog : a.watchdog_enabled ≡ true → b.watchdog_enabled ≡ true
  pub kill_list : Extends a.browsers b.browsers
  pub detection : IsAtMost b.heartbeat_interval_seconds a.heartbeat_interval_seconds
  pub guards : IsAtMost a.watchdog_count b.watchdog_count

-- The kill-list is one, and both numbers are numbers and not NaN, as in every policy that the enforcer can
-- compare with itself.
pub record IsSound (a : EnforcementPolicy) : Type 0 where
  pub kill_list : Extends a.browsers a.browsers
  pub detection : IsAtMost a.heartbeat_interval_seconds a.heartbeat_interval_seconds
  pub guards : IsAtMost a.watchdog_count a.watchdog_count

pub IsAsStrict-refl : (a : EnforcementPolicy) → IsSound a → IsAsStrict a a
IsAsStrict-refl a s = record {
  enforcement = λ h. h;
  shutdown = λ h. h;
  watchdog = λ h. h;
  kill_list = s.kill_list;
  detection = s.detection;
  guards = s.guards;
}

covers-contains :
    (ns current : List String) (n : String)
    → covers ns current ≡ true
    → contains current n ≡ true
    → contains ns n ≡ true
covers-contains ns [] n c h = cc h
covers-contains ns (m ∷ ms) n c h =
    let both = (and_iff (contains ns m) (covers ns ms)).0 c in
    elim (Bool-cases (str_eq m n)) [
      | inl e ↦ rw (← (str_eq_iff m n).0 e) both.0
      | inr e ↦ covers-contains ns ms n both.1 (rw e at h)
    ]

contains-covers :
    (ns current : List String)
    → ((n : String) → contains current n ≡ true → contains ns n ≡ true)
    → covers ns current ≡ true
contains-covers ns [] h = refl
contains-covers ns (m ∷ ms) h = (and_iff (contains ns m) (covers ns ms)).1 (
  h m ((or_iff (str_eq m m) (contains ms m)).1 (inl (str_eq_refl m))),
  contains-covers ns ms (λ n k. h n ((or_iff (str_eq m n) (contains ms n)).1 (inr k))),
)

loosened_nil_iff :
    (tests : List (Option Bool × PolicyField))
    → (loosened tests ≡ some []) ↔ All (λ t. t.0 ≡ some false) tests
unfolding loosened
loosened_nil_iff [] = (λ h. tt, λ h. refl)
loosened_nil_iff ((none, f) ∷ ts) = (λ h. cc h, λ h. cc h.0)
loosened_nil_iff ((some true, f) ∷ ts) = (λ h. absurd (added (loosened ts) h), λ h. cc h.0)
  where
    added : (o : Option (List PolicyField)) → add_if true f o ≢ some []
    added none h = cc h
    added (some fs) h = cc h
loosened_nil_iff ((some false, f) ∷ ts) = (
  λ h. (refl, (loosened_nil_iff ts).0 (sym (skipped (loosened ts)) ∙ h)),
  λ h. skipped (loosened ts) ∙ (loosened_nil_iff ts).1 h.1,
)
  where
    skipped : (o : Option (List PolicyField)) → add_if false f o ≡ o
    skipped none = refl
    skipped (some fs) = refl

toggle_iff : (a b : Bool) → (some (a && not b) ≡ some false) ↔ (a ≡ true → b ≡ true)
toggle_iff true true = (λ h k. refl, λ h. refl)
toggle_iff true false = (λ h k. cc h, λ h. cc (h refl))
toggle_iff false b = (λ h k. cc k, λ h. refl)

lacks_iff :
    (requested current : Names) → (lacks requested current ≡ some false) ↔ Extends current requested
lacks_iff (listed ns) (listed current) = (
  λ h n.
      let c : not (covers ns current) ≡ false = cc h in
      covers-contains ns current n (ground (arith, c)),
  λ h. let c = contains-covers ns current h in rw c refl,
)
lacks_iff (listed ns) no_names = (λ h. cc h, λ h. absurd h)
lacks_iff no_names (listed ns) = (λ h. cc h, λ h. absurd h)
lacks_iff no_names no_names = (λ h. cc h, λ h. absurd h)

-- Two numbers of which none is NaN: the code's test for the first to be larger.
greater_iff : (a b : Number) → IsNotNan a → IsNotNan b → (greater a b ≡ some false) ↔ IsAtMost a b
greater_iff (number (fin a)) (number (fin b)) h k = ground arith
greater_iff (number (fin a)) (number pinf) h k = (λ e. tt, λ e. refl)
greater_iff (number (fin a)) (number ninf) h k = (λ e. cc e, λ e. absurd e)
greater_iff (number pinf) (number (fin b)) h k = (λ e. cc e, λ e. absurd e)
greater_iff (number pinf) (number pinf) h k = (λ e. tt, λ e. refl)
greater_iff (number pinf) (number ninf) h k = (λ e. cc e, λ e. absurd e)
greater_iff (number ninf) (number (fin b)) h k = (λ e. tt, λ e. refl)
greater_iff (number ninf) (number pinf) h k = (λ e. tt, λ e. refl)
greater_iff (number ninf) (number ninf) h k = (λ e. tt, λ e. refl)
greater_iff (number nan) b h k = absurd h
greater_iff (number (fin a)) (number nan) h k = absurd k
greater_iff (number pinf) (number nan) h k = absurd k
greater_iff (number ninf) (number nan) h k = absurd k
greater_iff no_number b h k = (λ e. cc e, λ e. absurd e)
greater_iff (number (fin a)) no_number h k = (λ e. cc e, λ e. absurd e)
greater_iff (number pinf) no_number h k = (λ e. cc e, λ e. absurd e)
greater_iff (number ninf) no_number h k = (λ e. cc e, λ e. absurd e)

pub no_loosening_iff :
    (current requested : EnforcementPolicy)
    → HasNoNan current
    → HasNoNan requested
    → (policy_loosening_fields current requested ≡ some []) ↔ IsAsStrict current requested
unfolding policy_loosening_fields
no_loosening_iff current requested c r =
    let enforcement =
      toggle_iff current.browser_enforcement_enabled requested.browser_enforcement_enabled in
    let shutdown =
      toggle_iff current.shutdown_prevention_enabled requested.shutdown_prevention_enabled in
    let watchdog = toggle_iff current.watchdog_enabled requested.watchdog_enabled in
    let kill_list = lacks_iff requested.browsers current.browsers in
    let detection =
      greater_iff requested.heartbeat_interval_seconds current.heartbeat_interval_seconds r.0 c.0 in
    let guards = greater_iff current.watchdog_count requested.watchdog_count c.1 r.1 in
    (
      λ h.
          let (e, (s, (w, (k, (d, (g, _)))))) =
            (loosened_nil_iff (loosening_tests current requested)).0 h in
          record {
            enforcement = enforcement.0 e;
            shutdown = shutdown.0 s;
            watchdog = watchdog.0 w;
            kill_list = kill_list.0 k;
            detection = detection.0 d;
            guards = guards.0 g;
          },
      λ h. (loosened_nil_iff (loosening_tests current requested)).1 (
        enforcement.1 h.enforcement,
        (
          shutdown.1 h.shutdown,
          (
            watchdog.1 h.watchdog,
            (kill_list.1 h.kill_list, (detection.1 h.detection, (guards.1 h.guards, tt))),
          ),
        ),
      ),
    )

nan_greater : (a : Number) → IsAtMost a a → greater (number nan) a ≡ some false
nan_greater (number (fin a)) h = refl
nan_greater (number pinf) h = refl
nan_greater (number ninf) h = refl
nan_greater (number nan) h = absurd h
nan_greater no_number h = absurd h

-- For every sound policy, the request for the same policy with NaN for the interval of the heartbeat loosens no
-- field, although the requested policy is not as strict as the current one.
pub nan_interval_passes :
    (current : EnforcementPolicy)
    → IsSound current
    → (policy_loosening_fields current (record current { heartbeat_interval_seconds = number nan })
        ≡ some [])
      × ¬ IsAsStrict current (record current { heartbeat_interval_seconds = number nan })
unfolding policy_loosening_fields
nan_interval_passes current s =
    let slow = IsAtMost-NotNan current.watchdog_count current.watchdog_count s.guards in
    let requested = record current { heartbeat_interval_seconds = number nan } in
    (
      (loosened_nil_iff (loosening_tests current requested)).1 (
        (toggle_iff current.browser_enforcement_enabled current.browser_enforcement_enabled).1
            (λ h. h),
        (
          (toggle_iff current.shutdown_prevention_enabled current.shutdown_prevention_enabled).1
              (λ h. h),
          (
            (toggle_iff current.watchdog_enabled current.watchdog_enabled).1 (λ h. h),
            (
              (lacks_iff current.browsers current.browsers).1 s.kill_list,
              (
                nan_greater current.heartbeat_interval_seconds s.detection,
                (
                  (greater_iff current.watchdog_count current.watchdog_count slow.0 slow.0).1
                      s.guards,
                  tt,
                ),
              ),
            ),
          ),
        ),
      ),
      λ h. absurd h.detection,
    )

-- A policy that is as strict as another one is sound.
pub IsAsStrict-IsSound : (a b : EnforcementPolicy) → IsAsStrict a b → IsSound b
IsAsStrict-IsSound a b h = record {
  kill_list = Extends-refl a.browsers b.browsers h.kill_list;
  detection =
      (IsAtMost-self b.heartbeat_interval_seconds a.heartbeat_interval_seconds h.detection).0;
  guards = (IsAtMost-self a.watchdog_count b.watchdog_count h.guards).1;
}

pub IsAsStrict-trans :
    (a b c : EnforcementPolicy) → IsAsStrict a b → IsAsStrict b c → IsAsStrict a c
IsAsStrict-trans a b c h k = record {
  enforcement = λ e. k.enforcement (h.enforcement e);
  shutdown = λ e. k.shutdown (h.shutdown e);
  watchdog = λ e. k.watchdog (h.watchdog e);
  kill_list = Extends-trans a.browsers b.browsers c.browsers h.kill_list k.kill_list;
  detection =
      IsAtMost-trans c.heartbeat_interval_seconds b.heartbeat_interval_seconds
        a.heartbeat_interval_seconds k.detection h.detection;
  guards = IsAtMost-trans a.watchdog_count b.watchdog_count c.watchdog_count h.guards k.guards;
}
