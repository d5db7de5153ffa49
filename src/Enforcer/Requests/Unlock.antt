-- ===== src/Enforcer/Requests/Unlock.antt =====
-- A request to clear the lock waits, and then lands.
use hypr_blocker.Base.{
  ℕ, ◌+◌, ◌≡◌, refl, ◌∙◌, Bool, true, false, Option, none, some, [], ◌∷◌, arith,
}
use hypr_blocker.Base.Int.{ℤ, ◌+ℤ◌, ◌≤ℤ◌, leb_ℤ, +ℤ_parts, scale_parts}
use hypr_blocker.Base.Time.{DateTime, aware, as_utc, hours}
use hypr_blocker.Grants.Policy.{load_policy_text}
use hypr_blocker.Enforcer.Change.{no_date, Request, lock}
use hypr_blocker.Enforcer.Requests.{
  recorded, read_lock_until, PendingEntry, due_at, holds, Store, settings_tick, loosen_delay_hours,
  done, finish_tick, handle_files, consumed, delay_request, ntp_now, process_settings_requests,
  apply_matured_pending, apply_matured_at, apply_matured_from, apply_request,
}
use hypr_blocker.Enforcer.Requests.Effects.{one_file, handle_unlock}

module _ (root_ntp : ℕ → Option ℤ) (wall : ℤ) (dev_mode : Bool) where
  -- The store as the loop finds it, with the request to clear the lock.
  abbrev cleared : Store → Store
  cleared s = record s {
    requests = holds (lock no_date) ∷ [];
    pending = [];
    ntp_cache = none;
    ntp_calls = 0;
  }

  abbrev pub unlock_at : ℤ → PendingEntry
  unlock_at n = due_at (aware (n +ℤ hours loosen_delay_hours)) (lock no_date)

  abbrev waiting : ℤ → Store → Store
  waiting n s = record (cleared s) {
    pending = unlock_at n ∷ [];
    ntp_cache = some n;
    ntp_calls = 0 + 1;
  }

  not_yet_due : (n : ℤ) → leb_ℤ (n +ℤ hours loosen_delay_hours) n ≡ false
  not_yet_due n =
      ground (arith, +ℤ_parts n (hours loosen_delay_hours), scale_parts 3600000 loosen_delay_hours)

  delayed_at :
      (n : ℤ) (s : Store)
      → root_ntp 0 ≡ some n
      → delay_request root_ntp wall (lock no_date) (cleared s) ≡ consumed (waiting n s)
  unfolding delay_request
  delayed_at n s e = rw e

  one_entry_waits :
      (ntp : ℤ) (t : DateTime) (r : Request) (s : Store)
      → leb_ℤ (as_utc t) ntp ≡ false
      → apply_matured_from root_ntp wall ntp [] (due_at t r ∷ []) s
        ≡ done (record s { pending = due_at t r ∷ [] })
  unfolding apply_matured_from
  one_entry_waits ntp t r s e = rw (e, apply_matured_from)

  still_waiting :
      (n : ℤ) (s : Store)
      → let s' = finish_tick root_ntp wall (done (record (waiting n s) { requests = [] })) in
        (s'.lock_file ≡ s.lock_file) × (s'.requests ≡ []) × (s'.pending ≡ unlock_at n ∷ [])
  unfolding finish_tick apply_matured_pending apply_matured_at ntp_now
  still_waiting n s =
      rw
        (one_entry_waits n (aware (n +ℤ hours loosen_delay_hours)) (lock no_date)
          (record (waiting n s) { requests = [] }) (not_yet_due n))
        (refl, refl, refl)

  -- A request to clear a lock whose file holds a time that can be read, with nothing pending and verified time
  -- `n`: the lock stays as it is,
  -- the file is gone, and the change is pending for 36 hours after `n`.
  pub unlock_waits :
      (a : DateTime) (n : ℤ) (s : Store)
      → read_lock_until s.lock_file ≡ some a
      → root_ntp 0 ≡ some n
      → let s' =
          settings_tick root_ntp wall dev_mode
            (record s { requests = holds (lock no_date) ∷ []; pending = [] }) in
        (s'.lock_file ≡ s.lock_file) × (s'.requests ≡ []) × (s'.pending ≡ unlock_at n ∷ [])
  unfolding settings_tick process_settings_requests
  unlock_waits a n s locked answer =
      let fresh = cleared s in
      let judge = load_policy_text s.judge_file in
      rw locked (
        rw
          (one_file root_ntp wall dev_mode s.policy_file judge (some a) (holds (lock no_date)) fresh
            (waiting n s)
            (handle_unlock root_ntp wall dev_mode s.policy_file judge a fresh
              ∙ delayed_at n s answer))
          (still_waiting n s))

  one_entry_lands :
      (ntp : ℤ) (t : DateTime) (r : Request) (s s' : Store)
      → leb_ℤ (as_utc t) ntp ≡ true
      → apply_request root_ntp wall r s ≡ done s'
      → apply_matured_from root_ntp wall ntp [] (due_at t r ∷ []) s
        ≡ done (record s' { pending = [] })
  unfolding apply_matured_from
  one_entry_lands ntp t r s s' e f = rw (e, f, apply_matured_from)

  -- Where the clearing of the lock is the only change that is pending, and verified time has reached its moment, a
  -- tick with no new requests clears the lock, and nothing stays pending.
  pub unlock_lands :
      (t : DateTime) (n : ℤ) (s : Store)
      → root_ntp 0 ≡ some n
      → as_utc t ≤ℤ n
      → let s' =
          settings_tick root_ntp wall dev_mode
            (record s { requests = []; pending = due_at t (lock no_date) ∷ [] }) in
        (s'.lock_file ≡ recorded none (some n)) × (s'.pending ≡ [])
  unfolding settings_tick process_settings_requests handle_files finish_tick apply_matured_pending
      ntp_now
  unlock_lands t n s answer late =
      let ready = record s {
        requests = [];
        pending = due_at t (lock no_date) ∷ [];
        ntp_cache = some n;
        ntp_calls = 0 + 1;
      } in
      let due : leb_ℤ (as_utc t) n ≡ true = ground arith in
      rw answer (
        unfold apply_matured_at in
        rw
          (one_entry_lands n t (lock no_date) ready
            (record ready { lock_file = recorded none (some n) }) due
            (unfold apply_request in refl))
          (refl, refl))
