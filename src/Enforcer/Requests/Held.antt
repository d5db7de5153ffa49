-- ===== src/Enforcer/Requests/Held.antt =====
-- The steps of the settings part of a tick keep what is held: the lock no earlier, the policy no looser,
-- and every pending change waiting.
use hypr_blocker.Base.{
  ℕ, ◌≡◌, refl, Bool, false, Option, none, some, List, [], ◌∷◌, ◌++◌, arith, All, All-append,
  Option-cases, inl, inr,
}
use hypr_blocker.Base.Int.{ℤ, ◌+ℤ◌, ◌≤ℤ◌, ◌<ℤ◌, leb_ℤ, int_laws}
use hypr_blocker.Base.Text.{Text}
use hypr_blocker.Base.Time.{DateTime, aware, as_utc, hours}
use hypr_blocker.Grants.Policy.{validate_policy_text}
use hypr_blocker.Enforcer.Policy.{EnforcementPolicy}
use hypr_blocker.Enforcer.Policy.Merge.{merge-IsAsStrict}
use hypr_blocker.Enforcer.Change.{
  ChangeAction, apply_now, delay, no_date, bad_date, date, Request, lock, policy, judge_policy,
  unknown_type, not_a_dict, RequestVerdict, RequestError, classify_request,
}
use hypr_blocker.Enforcer.Requests.{
  PendingEntry, malformed, due_at, RequestFile, unreadable, undecodable, holds, Store, Outcome,
  done, raised, after, Handled, consumed, left, failed, result, consume, ntp_from, ntp_now,
  write_lock, write_judge, apply_request, schedule_pending, delay_from, delay_request, act_on,
  act_on_verdict, handle_file, handle_files, apply_matured_from, apply_matured_at, apply_pending,
  apply_matured_pending, loosen_delay_hours,
}
use hypr_blocker.Enforcer.Requests.Delay.{
  NotEarlier, Waits, Within, KnownWithin, NoNanIn, Harmless, tightening-Harmless, IsHeld,
}

module _ (root_ntp : ℕ → Option ℤ) (wall t0 : ℤ)
    (answers : (n : ℕ) (t : ℤ) → root_ntp n ≡ some t → Within t0 t) (until : Option DateTime)
    (base : EnforcementPolicy) where
  abbrev Held : Store → Type 0
  Held = IsHeld t0 until base

  KnownWithin-answer : (n : ℕ) → KnownWithin t0 (root_ntp n)
  KnownWithin-answer n = elim (Option-cases (root_ntp n)) [
    | inl e ↦ rw e tt
    | inr (t, e) ↦ rw e (answers n t e)
  ]

  known_by_cache :
      (s : Store) (c : Option ℤ) → KnownWithin t0 c → KnownWithin t0 (ntp_from root_ntp wall c s).0
  unfolding ntp_from
  known_by_cache s none k = KnownWithin-answer s.ntp_calls
  known_by_cache s (some t) k = k

  Held-ntp_from : (c : Option ℤ) (s : Store) → Held s → Held (ntp_from root_ntp wall c s).1
  unfolding ntp_from
  Held-ntp_from none s h = record {
    keeps_lock = h.keeps_lock;
    keeps_policy = h.keeps_policy;
    waits = h.waits;
    clock = KnownWithin-answer s.ntp_calls;
  }
  Held-ntp_from (some t) s h = h

  Held-ntp_now : (s : Store) → Held s → Held (ntp_now root_ntp wall s).1
  unfolding ntp_now
  Held-ntp_now s h = Held-ntp_from s.ntp_cache s h

  Held-write_lock :
      (s : Store) (t : Option DateTime)
      → NotEarlier until t
      → Held s
      → Held (write_lock root_ntp wall t s)
  unfolding write_lock
  Held-write_lock s t n h =
      let k = Held-ntp_now s h in
      record { keeps_lock = n; keeps_policy = k.keeps_policy; waits = k.waits; clock = k.clock }

  Held-write_judge : (s : Store) (t : Text) → Held s → Held (write_judge root_ntp wall t s)
  unfolding write_judge
  Held-write_judge s t h =
      elim (validate_policy_text t)
        as (λ es. Held (elim es [ [] ↦ record s { judge_file = some t } | e ∷ es ↦ s ])) [
          | [] ↦ record {
            keeps_lock = h.keeps_lock;
            keeps_policy = h.keeps_policy;
            waits = h.waits;
            clock = h.clock;
          }
          | e ∷ es ↦ h
        ]

  -- A harmless request keeps what is held, however it ends.
  pub Held-apply_request :
      (r : Request) (s : Store)
      → Harmless until base r
      → Held s
      → Held (after (apply_request root_ntp wall r s))
  unfolding apply_request
  Held-apply_request (lock no_date) s n h = Held-write_lock s none n h
  Held-apply_request (lock bad_date) s n h = h
  Held-apply_request (lock (date t)) s n h = Held-write_lock s (some t) n h
  Held-apply_request (policy none) s n h = h
  Held-apply_request (policy (some body)) s n h = record {
    keeps_lock = h.keeps_lock;
    keeps_policy = merge-IsAsStrict base s.policy_file body h.keeps_policy n.0 n.1;
    waits = h.waits;
    clock = h.clock;
  }
  Held-apply_request (judge_policy none) s n h = h
  Held-apply_request (judge_policy (some t)) s n h = Held-write_judge s t h
  Held-apply_request unknown_type s n h = h
  Held-apply_request not_a_dict s n h = h

  Held-schedule :
      (r : Request) (t : ℤ) (s : Store)
      → t0 ≤ℤ t
      → Held s
      → Held (schedule_pending root_ntp wall r (t +ℤ hours loosen_delay_hours) s)
  unfolding schedule_pending
  Held-schedule r t s late h = record {
    keeps_lock = h.keeps_lock;
    keeps_policy = h.keeps_policy;
    waits =
        All-append (Waits (t0 +ℤ hours loosen_delay_hours)) s.pending
          (due_at (aware (t +ℤ hours loosen_delay_hours)) r ∷ []) h.waits (omega int_laws, tt);
    clock = h.clock;
  }

  delayed :
      (r : Request) (ntp : Option ℤ) (s : Store)
      → KnownWithin t0 ntp
      → Held s
      → Held (result (delay_from root_ntp wall r (ntp, s)))
  unfolding delay_from
  delayed r none s k h = h
  delayed r (some t) s k h = Held-schedule r t s k.0 h

  Held-delay_request :
      (r : Request) (s : Store) → Held s → Held (result (delay_request root_ntp wall r s))
  unfolding delay_request
  Held-delay_request r s h =
      delayed r (ntp_now root_ntp wall s).0 (ntp_now root_ntp wall s).1
        (unfold ntp_now in known_by_cache s s.ntp_cache h.clock) (Held-ntp_now s h)

  consume-after : (o : Outcome) → Held (after o) → Held (result (consume o))
  consume-after (done s) h = h
  consume-after (raised s) h = h

  -- What the loop does on a verdict that only lets harmless requests through at once.
  Held-act_on :
      (e : Option RequestError) (a : ChangeAction) (r : Request) (s : Store)
      → (e ≡ none → a ≡ apply_now → Harmless until base r)
      → Held s
      → Held (result (act_on root_ntp wall e a r s))
  unfolding act_on
  Held-act_on (some e) a r s ok h = h
  Held-act_on none apply_now r s ok h =
      consume-after (apply_request root_ntp wall r s) (Held-apply_request r s (ok refl refl) h)
  Held-act_on none delay r s ok h = Held-delay_request r s h

  Held-act_on_verdict :
      (v : Option RequestVerdict) (r : Request) (s : Store)
      → ((w : RequestVerdict)
          → v ≡ some w
          → w.error ≡ none
          → w.action ≡ apply_now
          → Harmless until base r)
      → Held s
      → Held (result (act_on_verdict root_ntp wall v r s))
  unfolding act_on_verdict
  Held-act_on_verdict none r s ok h = h
  Held-act_on_verdict (some w) r s ok h = Held-act_on w.error w.action r s (ok w refl) h

  module _ (judge : Text) (dev_mode : Bool) where
    Held-handle_file :
        (f : RequestFile) (s : Store)
        → NoNanIn f
        → Held s
        → Held (result (handle_file root_ntp wall until base judge dev_mode f s))
    unfolding handle_file
    Held-handle_file unreadable s free h = h
    Held-handle_file undecodable s free h = h
    Held-handle_file (holds r) s free h =
        Held-act_on_verdict (classify_request r until base (some judge) dev_mode wall) r s
          (λ w. tightening-Harmless r until base (some judge) dev_mode wall w free) h

    Held-requests : (s : Store) (fs : List RequestFile) → Held s → Held (record s { requests = fs })
    Held-requests s fs h = record {
      keeps_lock = h.keeps_lock;
      keeps_policy = h.keeps_policy;
      waits = h.waits;
      clock = h.clock;
    }

    -- The loop over the request files keeps what is held.
    pub Held-handle_files :
        (kept fs : List RequestFile) (s : Store)
        → All NoNanIn fs
        → Held s
        → Held (after (handle_files root_ntp wall until base judge dev_mode kept fs s))
    unfolding handle_files
    Held-handle_files kept [] s free h = Held-requests s kept h
    Held-handle_files kept (f ∷ fs) s free h =
        next (handle_file root_ntp wall until base judge dev_mode f s)
          (Held-handle_file f s free.0 h) (λ t k. Held-handle_files kept fs t free.1 k)
          (λ t k. Held-handle_files (kept ++ f ∷ []) fs t free.1 k)
      where
        next :
            (o : Handled)
            → Held (result o)
            → ((s' : Store)
                → Held s'
                → Held (after (handle_files root_ntp wall until base judge dev_mode kept fs s')))
            → ((s' : Store)
                → Held s'
                → Held (
                    after (
                      handle_files root_ntp wall until base judge dev_mode (kept ++ f ∷ []) fs s')))
            → Held (
                after (elim o [
                  | consumed s' ↦ handle_files root_ntp wall until base judge dev_mode kept fs s'
                  | left s' ↦
                      handle_files root_ntp wall until base judge dev_mode (kept ++ f ∷ []) fs s'
                  | failed s' ↦ raised (record s' { requests = kept ++ (f ∷ fs) })
                ]))
        next (consumed s') h' go stay = go s' h'
        next (left s') h' go stay = stay s' h'
        next (failed s') h' go stay = Held-requests s' (kept ++ (f ∷ fs)) h'

  -- Before the delay has passed no pending change matures.
  Held-matured_from :
      (ntp : ℤ) (early : ntp <ℤ t0 +ℤ hours loosen_delay_hours) (keep es : List PendingEntry)
      (s : Store)
      → All (Waits (t0 +ℤ hours loosen_delay_hours)) keep
      → All (Waits (t0 +ℤ hours loosen_delay_hours)) es
      → Held s
      → Held (after (apply_matured_from root_ntp wall ntp keep es s))
  unfolding apply_matured_from
  Held-matured_from ntp early keep [] s k w h = record {
    keeps_lock = h.keeps_lock;
    keeps_policy = h.keeps_policy;
    waits = k;
    clock = h.clock;
  }
  Held-matured_from ntp early keep (malformed ∷ es) s k w h =
      Held-matured_from ntp early keep es s k w.1 h
  Held-matured_from ntp early keep (due_at t r ∷ es) s k w h =
      let not_yet : leb_ℤ (as_utc t) ntp ≡ false = ground arith in
      rw (not_yet, after, apply_matured_from)
        (Held-matured_from ntp early (keep ++ due_at t r ∷ []) es s
          (All-append (Waits (t0 +ℤ hours loosen_delay_hours)) keep (due_at t r ∷ []) k (w.0, tt))
          w.1 h)

  Held-matured_at :
      (c : Option ℤ) (s : Store)
      → KnownWithin t0 c
      → Held s
      → Held (after (apply_matured_at root_ntp wall (c, s)))
  unfolding apply_matured_at
  Held-matured_at none s k h = h
  Held-matured_at (some t) s k h = Held-matured_from t k.1 [] s.pending s tt h.waits h

  -- The pending changes keep what is held.
  pub Held-apply_matured :
      (s : Store) → Held s → Held (after (apply_matured_pending root_ntp wall s))
  unfolding apply_matured_pending ntp_now
  Held-apply_matured s h = by_pending s.pending
    where
      due : Held (after (apply_matured_at root_ntp wall (ntp_from root_ntp wall s.ntp_cache s)))
      due =
          Held-matured_at (ntp_from root_ntp wall s.ntp_cache s).0
            (ntp_from root_ntp wall s.ntp_cache s).1 (known_by_cache s s.ntp_cache h.clock)
            (Held-ntp_from s.ntp_cache s h)

      by_pending : (es : List PendingEntry) → Held (after (apply_pending root_ntp wall es s))
      by_pending [] = h
      by_pending (e ∷ es) = due
