-- ===== src/Enforcer/Change.antt =====
-- The classification of change requests (enforcer/logic.py): a tightening applies now, a loosening
-- after a delay. Dates are read by `fromisoformat`, of which the model keeps the outcome.
use hypr_blocker.Base.{Bool, Option, none, some, List, [], ◌∷◌, if◌then◌else◌}
use hypr_blocker.Base.Int.{ℤ, leb_ℤ}
use hypr_blocker.Base.Text.{Text}
use hypr_blocker.Base.Time.{DateTime, as_utc}
use hypr_blocker.Grants.Policy.{
  PolicyError, validate_policy_text, classify_policy_edit, default_policy_text, loosen_delay,
}
use hypr_blocker.Enforcer.Policy.{
  EnforcementPolicy, PolicyBody, PolicyField, policy_loosening_fields, filled,
}

pub data ChangeAction : Type 0 where
  apply_now delay : ChangeAction

lock_action : Option ℤ → Option ℤ → ChangeAction
lock_action none none = apply_now
lock_action (some current) none = delay
lock_action none (some requested) = apply_now
lock_action (some current) (some requested) = if leb_ℤ current requested then apply_now else delay

abbrev pub utc_of : Option DateTime → Option ℤ
utc_of none = none
utc_of (some t) = some (as_utc t)

-- Naive datetimes are treated as UTC.
unfoldable pub classify_lock_change : Option DateTime → Option DateTime → ChangeAction
unfolding lock_action
classify_lock_change current_until requested_until =
    lock_action (utc_of current_until) (utc_of requested_until)

-- `request.get("locked_until")`: absent or null, a date, or anything else.
pub data DateField : Type 0 where
  no_date bad_date : DateField
  date : DateTime → DateField

-- A parsed request file. `not_a_dict` is JSON that is no object, on which `.get` raises.
pub data Request : Type 0 where
  lock : DateField → Request
  policy : Option PolicyBody → Request
  judge_policy : Option Text → Request
  unknown_type not_a_dict : Request

pub data RequestError : Type 0 where
  bad_locked_until missing_policy_body missing_policy_text unknown_request : RequestError
  invalid_policy : List PolicyError → RequestError

pub record RequestVerdict : Type 0 where
  pub action : ChangeAction
  pub error : Option RequestError
  pub loosened_fields : List PolicyField

abbrev rejected : RequestError → RequestVerdict
rejected e = record { action = delay; error = some e; loosened_fields = [] }

abbrev accepted : ChangeAction → RequestVerdict
accepted a = record { action = a; error = none; loosened_fields = [] }

classify_lock_field : Option DateTime → DateField → RequestVerdict
classify_lock_field current no_date = accepted (classify_lock_change current none)
classify_lock_field current bad_date = rejected bad_locked_until
classify_lock_field current (date t) = accepted (classify_lock_change current (some t))

abbrev pub action_of : List PolicyField → ChangeAction
action_of [] = apply_now
action_of (f ∷ fs) = delay

abbrev pub verdict_of : Option (List PolicyField) → Option RequestVerdict
verdict_of none = none
verdict_of (some fields) =
    some (record { action = action_of fields; error = none; loosened_fields = fields })

classify_body : EnforcementPolicy → PolicyBody → Option RequestVerdict
classify_body current body = verdict_of (policy_loosening_fields current (filled body))

-- A judge policy that passed its validation, outside dev mode.
abbrev judge_action : Text → Text → ℤ → ChangeAction
judge_action current text now = elim (classify_policy_edit current text now loosen_delay) [
  | none ↦ delay
  | some d ↦ if d.apply_immediately then apply_now else delay
]

classify_judge : Option Text → Bool → ℤ → Text → List PolicyError → RequestVerdict
classify_judge current dev_mode now text (e ∷ es) = rejected (invalid_policy (e ∷ es))
classify_judge none dev_mode now text [] =
    accepted (if dev_mode then apply_now else judge_action default_policy_text text now)
classify_judge (some current) dev_mode now text [] =
    accepted (if dev_mode then apply_now else judge_action current text now)

-- `none` stands for the AttributeError of a request that is no dict, or the TypeError of a policy that cannot be
-- compared. `now` is the wall clock, which
-- `classify_policy_edit` reads and whose part of the answer is dropped.
unfoldable pub classify_request :
    Request → Option DateTime → EnforcementPolicy → Option Text → Bool → ℤ → Option RequestVerdict
unfolding classify_lock_field classify_body classify_judge
classify_request (lock field) until current judge dev_mode now =
    some (classify_lock_field until field)
classify_request (policy none) until current judge dev_mode now =
    some (rejected missing_policy_body)
classify_request (policy (some body)) until current judge dev_mode now = classify_body current body
classify_request (judge_policy none) until current judge dev_mode now =
    some (rejected missing_policy_text)
classify_request (judge_policy (some text)) until current judge dev_mode now =
    some (classify_judge judge dev_mode now text (validate_policy_text text))
classify_request unknown_type until current judge dev_mode now = some (rejected unknown_request)
classify_request not_a_dict until current judge dev_mode now = none
