-- ===== src/Enforcer/Requests/Delay.antt =====
-- Nothing loosens before its delay: what the settings part of a tick may do to the lock, the policy
-- and the pending changes.
use hypr_blocker.Base.{◌≡◌, refl, Bool, Option, none, some, List, [], ◌∷◌, arith, All}
use hypr_blocker.Base.Int.{ℤ, ◌+ℤ◌, ◌≤ℤ◌, ◌<ℤ◌}
use hypr_blocker.Base.Text.{Text}
use hypr_blocker.Base.Time.{DateTime, as_utc, hours}
use hypr_blocker.Enforcer.Policy.{EnforcementPolicy, PolicyField, policy_loosening_fields, filled}
use hypr_blocker.Enforcer.Policy.Strictness.{IsAsStrict}
use hypr_blocker.Enforcer.Policy.Merge.{NamesNoNan}
use hypr_blocker.Enforcer.Change.{
  apply_now, no_date, bad_date, date, Request, lock, policy, judge_policy, unknown_type, not_a_dict,
  RequestVerdict, verdict_of, classify_request, classify_lock_change,
}
use hypr_blocker.Enforcer.Requests.{
  read_lock_until, PendingEntry, malformed, due_at, RequestFile, holds, Store, loosen_delay_hours,
}

-- The second lock lasts as long as the first or longer.
abbrev pub NotEarlier : Option DateTime → Option DateTime → Type 0
NotEarlier none b = Unit
NotEarlier (some a) none = ⊥
NotEarlier (some a) (some b) = as_utc a ≤ℤ as_utc b

pub NotEarlier-refl : (a : Option DateTime) → NotEarlier a a
NotEarlier-refl none = tt
NotEarlier-refl (some a) = omega arith

pub NotEarlier-trans : (a b c : Option DateTime) → NotEarlier a b → NotEarlier b c → NotEarlier a c
NotEarlier-trans none b c h k = tt
NotEarlier-trans (some a) none c h k = absurd h
NotEarlier-trans (some a) (some b) none h k = absurd k
NotEarlier-trans (some a) (some b) (some c) h k = omega arith

-- A pending entry does not mature before `limit`.
abbrev pub Waits : ℤ → PendingEntry → Type 0
Waits limit malformed = Unit
Waits limit (due_at t r) = limit ≤ℤ as_utc t

-- The time lies within the delay that begins at `t0`.
abbrev pub Within : ℤ → ℤ → Type 0
Within t0 t = (t0 ≤ℤ t) × (t <ℤ t0 +ℤ hours loosen_delay_hours)

abbrev pub KnownWithin : ℤ → Option ℤ → Type 0
KnownWithin t0 none = Unit
KnownWithin t0 (some t) = Within t0 t

-- What a request may do at once, next to the lock and the policy it was compared with.
abbrev pub Harmless : Option DateTime → EnforcementPolicy → Request → Type 0
Harmless until base (lock no_date) = NotEarlier until none
Harmless until base (lock bad_date) = Unit
Harmless until base (lock (date t)) = NotEarlier until (some t)
Harmless until base (policy none) = Unit
Harmless until base (policy (some body)) =
    NamesNoNan body × (policy_loosening_fields base (filled body) ≡ some [])
Harmless until base _ = Unit

-- No policy that the request names has a number that is NaN.
abbrev pub FreeOfNan : Request → Type 0
FreeOfNan (policy (some body)) = NamesNoNan body
FreeOfNan _ = Unit

-- Nor has the request that the file holds.
abbrev pub NoNanIn : RequestFile → Type 0
NoNanIn (holds r) = FreeOfNan r
NoNanIn _ = Unit

lock_change_harmless :
    (until requested : Option DateTime)
    → classify_lock_change until requested ≡ apply_now
    → NotEarlier until requested
unfolding classify_lock_change
lock_change_harmless none requested h = tt
lock_change_harmless (some a) none h = cc h
lock_change_harmless (some a) (some b) h = ground arith

compared_at_once :
    (o : Option (List PolicyField)) (v : RequestVerdict)
    → verdict_of o ≡ some v
    → v.action ≡ apply_now
    → o ≡ some []
compared_at_once none v e act = cc e
compared_at_once (some []) v e act = refl
compared_at_once (some (f ∷ fs)) v e act = ground (arith, e, act)

-- A request that is classified as a tightening is harmless, where it names no NaN.
pub tightening-Harmless :
    (r : Request) (until : Option DateTime) (base : EnforcementPolicy) (judge : Option Text)
    (dev_mode : Bool) (wall : ℤ) (v : RequestVerdict)
    → FreeOfNan r
    → classify_request r until base judge dev_mode wall ≡ some v
    → v.error ≡ none
    → v.action ≡ apply_now
    → Harmless until base r
unfolding classify_request
tightening-Harmless (lock no_date) until base judge dev_mode wall v free e ok act =
    lock_change_harmless until none (ground arith)
tightening-Harmless (lock bad_date) until base judge dev_mode wall v free e ok act = tt
tightening-Harmless (lock (date t)) until base judge dev_mode wall v free e ok act =
    lock_change_harmless until (some t) (ground arith)
tightening-Harmless (policy none) until base judge dev_mode wall v free e ok act = tt
tightening-Harmless (policy (some body)) until base judge dev_mode wall v free e ok act =
    (free, compared_at_once (policy_loosening_fields base (filled body)) v e act)
tightening-Harmless (judge_policy t) until base judge dev_mode wall v free e ok act = tt
tightening-Harmless unknown_type until base judge dev_mode wall v free e ok act = tt
tightening-Harmless not_a_dict until base judge dev_mode wall v free e ok act = tt

module _ (t0 : ℤ) (until : Option DateTime) (base : EnforcementPolicy) where
  -- The lock and the policy are no looser than those, and nothing pending matures within the delay
  -- after `t0`.
  pub record IsHeld (s : Store) : Type 0 where
    pub keeps_lock : NotEarlier until (read_lock_until s.lock_file)
    pub keeps_policy : IsAsStrict base s.policy_file
    pub waits : All (Waits (t0 +ℤ hours loosen_delay_hours)) s.pending
    pub clock : KnownWithin t0 s.ntp_cache
