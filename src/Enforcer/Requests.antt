-- ===== src/Enforcer/Requests.antt =====
-- The enforcer's handling of settings requests (enforcer/main.py): `_process_settings_requests`,
-- `_apply_request`, `_schedule_pending` and `_apply_matured_pending`. The files under `secure/` and
-- `requests/settings/` are the fields of a store, and a write succeeds.
pub mod Delay
pub mod Held
pub mod Window
pub mod Effects
pub mod Unlock
use hypr_blocker.Base.{
  ℕ, ◌+◌, Bool, true, false, Option, none, some, List, [], ◌∷◌, ◌++◌, if◌then◌else◌,
}
use hypr_blocker.Base.Int.{ℤ, pos, ◌+ℤ◌, leb_ℤ}
use hypr_blocker.Base.Text.{Text}
use hypr_blocker.Base.Time.{DateTime, aware, as_utc, hours}
use hypr_blocker.Grants.Policy.{validate_policy_text, load_policy_text}
use hypr_blocker.Enforcer.Policy.{EnforcementPolicy, merge}
use hypr_blocker.Enforcer.Change.{
  ChangeAction, apply_now, delay, DateField, no_date, bad_date, date, Request, lock, policy,
  judge_policy, unknown_type, not_a_dict, RequestVerdict, RequestError, classify_request,
}

-- `DEFAULT_LOOSEN_DELAY_HOURS`, 36 hours.
abbrev pub loosen_delay_hours : ℤ
loosen_delay_hours = pos 36

-- The root `lock.json`: absent, present and not to be trusted, or a record of its two keys.
pub data LockFile : Type 0 where
  absent corrupt : LockFile
  recorded : Option DateTime → Option ℤ → LockFile

-- `settings_lock.read_lock_until` in the root layout.
abbrev pub read_lock_until : LockFile → Option DateTime
read_lock_until (recorded until stamp) = until
read_lock_until _ = none

-- An entry of `pending_changes.json`: malformed, or a request with the time at which it applies.
pub data PendingEntry : Type 0 where
  malformed : PendingEntry
  due_at : DateTime → Request → PendingEntry

-- A file under `requests/settings/`, in the sorted order of the names: one that is dropped, as its reading raises
-- OSError or JSONDecodeError, one whose reading raises another exception, or a request.
pub data RequestFile : Type 0 where
  unreadable undecodable : RequestFile
  holds : Request → RequestFile

pub record Store : Type 0 where
  pub lock_file : LockFile
  pub policy_file : EnforcementPolicy
  pub judge_file : Option Text
  pub pending : List PendingEntry
  pub requests : List RequestFile
  -- `_ntp_cache`, and how often the servers have been asked
  pub ntp_cache : Option ℤ
  pub ntp_calls : ℕ

-- How a method ends: it returns, or an exception leaves it, with what was written until then.
pub data Outcome : Type 0 where
  done raised : Store → Outcome

abbrev pub after : Outcome → Store
after (done s) = s
after (raised s) = s

-- What becomes of one request file: it is used up, left for the next tick, or an exception ends the
-- loop.
pub data Handled : Type 0 where
  consumed left failed : Store → Handled

abbrev pub result : Handled → Store
result (consumed s) = s
result (left s) = s
result (failed s) = s

abbrev pub consume : Outcome → Handled
consume (done s) = consumed s
consume (raised s) = failed s

-- `root_ntp n` is the answer of `settings_lock._root_ntp_now` to the n-th call, and `wall` the wall
-- clock.
module _ (root_ntp : ℕ → Option ℤ) (wall : ℤ) where
  -- the cached time, or a query whose answer is cached
  unfoldable pub ntp_from : Option ℤ → Store → Option ℤ × Store
  ntp_from (some t) s = (some t, s)
  ntp_from none s =
      let answer = root_ntp s.ntp_calls in
      (answer, record s { ntp_cache = answer; ntp_calls = s.ntp_calls + 1 })

  -- `_ntp_now`
  unfoldable pub ntp_now : Store → Option ℤ × Store
  unfolding ntp_from
  ntp_now s = ntp_from s.ntp_cache s

  -- `_write_lock`
  unfoldable pub write_lock : Option DateTime → Store → Store
  unfolding ntp_now
  write_lock until s = let (stamp, s') = ntp_now s in record s' { lock_file = recorded until stamp }

  unfoldable pub write_judge : Text → Store → Store
  write_judge text s = elim (validate_policy_text text) [
    | [] ↦ record s { judge_file = some text }
    | e ∷ es ↦ s
  ]

  -- `_apply_request`
  unfoldable pub apply_request : Request → Store → Outcome
  unfolding write_lock write_judge
  apply_request (lock no_date) s = done (write_lock none s)
  apply_request (lock bad_date) s = raised s
  apply_request (lock (date t)) s = done (write_lock (some t) s)
  apply_request (policy none) s = raised s
  apply_request (policy (some body)) s = done (record s { policy_file = merge s.policy_file body })
  apply_request (judge_policy none) s = done s
  apply_request (judge_policy (some text)) s = done (write_judge text s)
  apply_request unknown_type s = done s
  apply_request not_a_dict s = raised s

  -- `_schedule_pending`
  unfoldable pub schedule_pending : Request → ℤ → Store → Store
  schedule_pending request apply_at s = record s {
    pending = s.pending ++ due_at (aware apply_at) request ∷ [];
  }

  -- Without verified time a loosening cannot even be scheduled.
  unfoldable pub delay_from : Request → Option ℤ × Store → Handled
  unfolding schedule_pending
  delay_from request (none, s) = left s
  delay_from request (some t, s) =
      consumed (schedule_pending request (t +ℤ hours loosen_delay_hours) s)

  unfoldable pub delay_request : Request → Store → Handled
  unfolding delay_from ntp_now
  delay_request request s = delay_from request (ntp_now s)

  -- An error, then the action.
  unfoldable pub act_on : Option RequestError → ChangeAction → Request → Store → Handled
  unfolding apply_request delay_request
  act_on (some e) action request s = consumed s
  act_on none apply_now request s = consume (apply_request request s)
  act_on none delay request s = delay_request request s

  unfoldable pub act_on_verdict : Option RequestVerdict → Request → Store → Handled
  unfolding act_on
  act_on_verdict none request s = failed s
  act_on_verdict (some v) request s = act_on v.error v.action request s

  -- What the loop reads before it begins.
  module _ (until : Option DateTime) (current : EnforcementPolicy) (judge : Text)
      (dev_mode : Bool) where
    unfoldable pub handle_file : RequestFile → Store → Handled
    unfolding act_on_verdict
    handle_file unreadable s = consumed s
    handle_file undecodable s = failed s
    handle_file (holds request) s =
        act_on_verdict (classify_request request until current (some judge) dev_mode wall) request s

    -- The loop over the files: those read so far that stay, and those to come.
    unfoldable pub handle_files : List RequestFile → List RequestFile → Store → Outcome
    handle_files kept [] s = done (record s { requests = kept })
    handle_files kept (f ∷ fs) s = elim (handle_file f s) [
      | consumed s' ↦ handle_files kept fs s'
      | left s' ↦ handle_files (kept ++ f ∷ []) fs s'
      | failed s' ↦ raised (record s' { requests = kept ++ (f ∷ fs) })
    ]

  -- `_process_settings_requests`, at the policy that the tick has loaded.
  unfoldable pub process_settings_requests : EnforcementPolicy → Bool → Store → Outcome
  process_settings_requests current dev_mode s =
      handle_files (read_lock_until s.lock_file) current (load_policy_text s.judge_file) dev_mode []
        s.requests s

  -- The loop over the pending entries. An exception leaves the file as it was.
  unfoldable pub apply_matured_from : ℤ → List PendingEntry → List PendingEntry → Store → Outcome
  unfolding apply_request
  apply_matured_from ntp keep [] s = done (record s { pending = keep })
  apply_matured_from ntp keep (malformed ∷ es) s = apply_matured_from ntp keep es s
  apply_matured_from ntp keep (due_at t request ∷ es) s = elim (leb_ℤ (as_utc t) ntp) [
    | true ↦ elim (apply_request request s) [
      | done s' ↦ apply_matured_from ntp keep es s'
      | raised s' ↦ raised s'
    ]
    | false ↦ apply_matured_from ntp (keep ++ due_at t request ∷ []) es s
  ]

  unfoldable pub apply_matured_at : Option ℤ × Store → Outcome
  apply_matured_at (none, s) = done s
  apply_matured_at (some ntp, s) = apply_matured_from ntp [] s.pending s

  -- The pending entries as they were read, if there are any.
  unfoldable pub apply_pending : List PendingEntry → Store → Outcome
  apply_pending [] s = done s
  apply_pending (e ∷ es) s = apply_matured_at (ntp_now s)

  -- `_apply_matured_pending`
  unfoldable pub apply_matured_pending : Store → Outcome
  unfolding apply_pending
  apply_matured_pending s = apply_pending s.pending s

-- The second step runs only if no exception left the first.
unfoldable pub finish_tick : (ℕ → Option ℤ) → ℤ → Outcome → Store
finish_tick root_ntp wall (done s) = after (apply_matured_pending root_ntp wall s)
finish_tick root_ntp wall (raised s) = s

-- The settings part of `Enforcer.tick`. The loop around `tick` catches the exceptions.
unfoldable pub settings_tick : (ℕ → Option ℤ) → ℤ → Bool → Store → Store
settings_tick root_ntp wall dev_mode s =
    let fresh = record s { ntp_cache = none; ntp_calls = 0 } in
    finish_tick root_ntp wall
      (process_settings_requests root_ntp wall fresh.policy_file dev_mode fresh)
