-- ===== src/Enforcer/Requests/Effects.antt =====
-- What single requests do: a tightening lands in its tick, and ways in which a request does less than
-- it should.
use hypr_blocker.Base.{ℕ, ◌≡◌, refl, ◌∙◌, Bool, true, Option, none, some, List, [], ◌∷◌, arith}
use hypr_blocker.Base.Int.{ℤ, leb_ℤ}
use hypr_blocker.Base.Text.{Text}
use hypr_blocker.Base.Time.{DateTime, as_utc}
use hypr_blocker.Grants.Policy.{load_policy_text}
use hypr_blocker.Enforcer.Policy.{EnforcementPolicy}
use hypr_blocker.Enforcer.Change.{
  no_date, date, lock, not_a_dict, classify_request, classify_lock_change,
}
use hypr_blocker.Enforcer.Requests.{
  read_lock_until, PendingEntry, RequestFile, holds, Store, settings_tick, done, finish_tick,
  handle_file, handle_files, consumed, delay_request, write_lock, process_settings_requests,
  apply_matured_pending, ntp_from, apply_pending,
}
use hypr_blocker.Enforcer.Requests.Delay.{NotEarlier}

module _ (root_ntp : ℕ → Option ℤ) (wall : ℤ) (dev_mode : Bool) (s : Store) where
  -- A request file that holds JSON which is no object stops the settings part of the tick: whatever
  -- follows it in the directory is not read, what is pending is not applied, and the file stays, so
  -- that the next tick ends the same way.
  pub non_object_stops_settings :
      (rest : List RequestFile)
      → settings_tick root_ntp wall dev_mode (record s { requests = holds not_a_dict ∷ rest })
        ≡ record s { requests = holds not_a_dict ∷ rest; ntp_cache = none; ntp_calls = 0 }
  unfolding settings_tick finish_tick process_settings_requests handle_files handle_file
      classify_request
  non_object_stops_settings rest = refl

module _ (root_ntp : ℕ → Option ℤ) (wall : ℤ) (dev_mode : Bool) (base : EnforcementPolicy)
    (judge : Text) where
  pub one_file :
      (current : Option DateTime) (f : RequestFile) (s s' : Store)
      → handle_file root_ntp wall current base judge dev_mode f s ≡ consumed s'
      → handle_files root_ntp wall current base judge dev_mode [] (f ∷ []) s
        ≡ done (record s' { requests = [] })
  unfolding handle_files
  one_file current f s s' e = rw (e, handle_files)

  next_file :
      (current : Option DateTime) (f : RequestFile) (fs : List RequestFile) (s s' : Store)
      → handle_file root_ntp wall current base judge dev_mode f s ≡ consumed s'
      → handle_files root_ntp wall current base judge dev_mode [] (f ∷ fs) s
        ≡ handle_files root_ntp wall current base judge dev_mode [] fs s'
  unfolding handle_files
  next_file current f fs s s' e = rw (e, handle_files)

  handle_extension :
      (current : Option DateTime) (t : DateTime) (s : Store)
      → NotEarlier current (some t)
      → handle_file root_ntp wall current base judge dev_mode (holds (lock (date t))) s
        ≡ consumed (write_lock root_ntp wall (some t) s)
  unfolding handle_file classify_request classify_lock_change
  handle_extension none t s h = refl
  handle_extension (some a) t s h =
      let e : leb_ℤ (as_utc a) (as_utc t) ≡ true = ground arith in rw (e, handle_file)

  pub handle_unlock :
      (a : DateTime) (s : Store)
      → handle_file root_ntp wall (some a) base judge dev_mode (holds (lock no_date)) s
        ≡ delay_request root_ntp wall (lock no_date) s
  unfolding handle_file classify_request classify_lock_change
  handle_unlock a s = refl

module _ (root_ntp : ℕ → Option ℤ) (wall : ℤ) (dev_mode : Bool) where
  -- With nothing pending, a request for a lock that ends no earlier than the one in force is in force
  -- at the end of the tick, and its file is gone.
  pub extension_applies :
      (t : DateTime) (s : Store)
      → NotEarlier (read_lock_until s.lock_file) (some t)
      → let s' =
          settings_tick root_ntp wall dev_mode
            (record s { requests = holds (lock (date t)) ∷ []; pending = [] }) in
        (read_lock_until s'.lock_file ≡ some t) × (s'.requests ≡ [])
  unfolding settings_tick process_settings_requests
  extension_applies t s h =
      let fresh = record s {
        requests = holds (lock (date t)) ∷ [];
        pending = [];
        ntp_cache = none;
        ntp_calls = 0;
      } in
      let until = read_lock_until s.lock_file in
      let judge = load_policy_text s.judge_file in
      let locked = write_lock root_ntp wall (some t) fresh in
      rw
        (one_file root_ntp wall dev_mode s.policy_file judge until (holds (lock (date t))) fresh
          locked (handle_extension root_ntp wall dev_mode s.policy_file judge until t fresh h))
        (unfold finish_tick apply_matured_pending write_lock in (refl, refl))

  pending-ntp_from : (c : Option ℤ) (s : Store) → (ntp_from root_ntp wall c s).1.pending ≡ s.pending
  unfolding ntp_from
  pending-ntp_from none s = refl
  pending-ntp_from (some n) s = refl

  pending-write_lock :
      (until : Option DateTime) (s : Store) → (write_lock root_ntp wall until s).pending ≡ s.pending
  unfolding write_lock
  pending-write_lock until s = pending-ntp_from s.ntp_cache s

  apply_pending-nil :
      (es : List PendingEntry) (s : Store) → es ≡ [] → apply_pending root_ntp wall es s ≡ done s
  unfolding apply_pending
  apply_pending-nil es s e = rw e

  nothing_pending : (s : Store) → s.pending ≡ [] → apply_matured_pending root_ntp wall s ≡ done s
  unfolding apply_matured_pending
  nothing_pending s e = apply_pending-nil s.pending s e

  -- Two requests in one tick are both compared with the lock that was in force before it: the second is
  -- in force afterwards, also where it ends earlier than the first.
  pub second_extension_wins :
      (t u : DateTime) (s : Store)
      → NotEarlier (read_lock_until s.lock_file) (some t)
      → NotEarlier (read_lock_until s.lock_file) (some u)
      → read_lock_until
          (settings_tick root_ntp wall dev_mode (record s {
            requests = holds (lock (date t)) ∷ holds (lock (date u)) ∷ [];
            pending = [];
          })).lock_file
        ≡ some u
  unfolding settings_tick process_settings_requests
  second_extension_wins t u s ht hu =
      let first = holds (lock (date t)) in
      let second = holds (lock (date u)) in
      let fresh = record s {
        requests = first ∷ second ∷ [];
        pending = [];
        ntp_cache = none;
        ntp_calls = 0;
      } in
      let until = read_lock_until s.lock_file in
      let judge = load_policy_text s.judge_file in
      let once = write_lock root_ntp wall (some t) fresh in
      let twice = write_lock root_ntp wall (some u) once in
      let p = s.policy_file in
      rw
        (next_file root_ntp wall dev_mode p judge until first (second ∷ []) fresh once
          (handle_extension root_ntp wall dev_mode p judge until t fresh ht))
        (rw
          (one_file root_ntp wall dev_mode p judge until second once twice
            (handle_extension root_ntp wall dev_mode p judge until u once hu))
          (unfold finish_tick in
            rw
              (nothing_pending (record twice { requests = [] })
                (pending-write_lock (some u) once ∙ pending-write_lock (some t) fresh))
              (unfold write_lock in refl)))
