-- ===== src/Enforcer/Requests/Window.antt =====
-- Any number of ticks within the delay leaves the lock and the policy as strict as they were.
use hypr_blocker.Base.{ℕ, ◌≡◌, Bool, Option, none, some, List, [], ◌∷◌, All}
use hypr_blocker.Base.Int.{ℤ, ◌+ℤ◌}
use hypr_blocker.Base.Time.{DateTime, hours}
use hypr_blocker.Grants.Policy.{load_policy_text}
use hypr_blocker.Enforcer.Policy.Strictness.{
  IsAsStrict, IsSound, IsAsStrict-IsSound, IsAsStrict-refl, IsAsStrict-trans,
}
use hypr_blocker.Enforcer.Requests.{
  read_lock_until, RequestFile, Store, Outcome, done, raised, after, process_settings_requests,
  settings_tick, finish_tick, handle_files, loosen_delay_hours,
}
use hypr_blocker.Enforcer.Requests.Delay.{
  NoNanIn, NotEarlier, NotEarlier-refl, NotEarlier-trans, Waits, Within, IsHeld,
}
use hypr_blocker.Enforcer.Requests.Held.{Held-handle_files, Held-apply_matured}
use hypr_blocker.Base.Text.{Text}

-- What the world puts before one tick: the answers of the NTP servers, the wall clock, whether the root
-- credential is missing, and whatever the user left in the requests directory.
pub record TickInput : Type 0 where
  pub root_ntp : ℕ → Option ℤ
  pub wall : ℤ
  pub dev_mode : Bool
  pub requests : List RequestFile

unfoldable pub run_ticks : List TickInput → Store → Store
run_ticks [] s = s
run_ticks (i ∷ is) s =
    run_ticks is (settings_tick i.root_ntp i.wall i.dev_mode (record s { requests = i.requests }))

-- Every answer of the time servers lies in the delay that begins at `t0`.
abbrev pub InWindow : ℤ → TickInput → Type 0
InWindow t0 i = (n : ℕ) (t : ℤ) → i.root_ntp n ≡ some t → Within t0 t

tick-IsHeld :
    (t0 : ℤ) (i : TickInput) (s : Store)
    → InWindow t0 i
    → All NoNanIn s.requests
    → IsSound s.policy_file
    → All (Waits (t0 +ℤ hours loosen_delay_hours)) s.pending
    → IsHeld t0
        (read_lock_until s.lock_file)
        s.policy_file
        (settings_tick i.root_ntp i.wall i.dev_mode s)
unfolding settings_tick finish_tick process_settings_requests
tick-IsHeld t0 i s window free sound w =
    finish (handle_files i.root_ntp i.wall until s.policy_file judge i.dev_mode [] s.requests fresh)
      (Held-handle_files i.root_ntp i.wall t0 window until s.policy_file judge i.dev_mode []
        s.requests fresh free
        (record {
          keeps_lock = NotEarlier-refl until;
          keeps_policy = IsAsStrict-refl s.policy_file sound;
          waits = w;
          clock = tt;
        }))
  where
    until : Option DateTime
    until = read_lock_until s.lock_file

    judge : Text
    judge = load_policy_text s.judge_file

    fresh : Store
    fresh = record s { ntp_cache = none; ntp_calls = 0 }

    finish :
        (o : Outcome)
        → IsHeld t0 until s.policy_file (after o)
        → IsHeld t0 until s.policy_file (finish_tick i.root_ntp i.wall o)
    finish (done s') h = Held-apply_matured i.root_ntp i.wall t0 window until s.policy_file s' h
    finish (raised s') h = h

-- A policy whose kill-list is a list and whose numbers are numbers other than NaN, and pending changes that do not
-- mature within the delay: whatever requests the user drops, so long as none gives NaN for a number of a policy,
-- in ticks for which the time servers answer nothing or a time within the delay, in dev mode or not, a lock
-- that can be read from the lock file ends no earlier afterwards and the policy is as strict or stricter.
pub ticks_loosen_nothing :
    (t0 : ℤ) (inputs : List TickInput) (s : Store)
    → All (InWindow t0) inputs
    → All (λ i. All NoNanIn i.requests) inputs
    → IsSound s.policy_file
    → All (Waits (t0 +ℤ hours loosen_delay_hours)) s.pending
    → NotEarlier (read_lock_until s.lock_file) (read_lock_until (run_ticks inputs s).lock_file)
      × IsAsStrict s.policy_file (run_ticks inputs s).policy_file
unfolding run_ticks
ticks_loosen_nothing t0 [] s windows free sound w =
    (NotEarlier-refl (read_lock_until s.lock_file), IsAsStrict-refl s.policy_file sound)
ticks_loosen_nothing t0 (i ∷ is) s windows free sound w =
    let before = record s { requests = i.requests } in
    let next = settings_tick i.root_ntp i.wall i.dev_mode before in
    let held = tick-IsHeld t0 i before windows.0 free.0 sound w in
    let (lock, policy) =
      ticks_loosen_nothing t0 is next windows.1 free.1
        (IsAsStrict-IsSound s.policy_file next.policy_file held.keeps_policy) held.waits in
    (
      NotEarlier-trans (read_lock_until s.lock_file) (read_lock_until next.lock_file)
          (read_lock_until (run_ticks is next).lock_file) held.keeps_lock lock,
      IsAsStrict-trans s.policy_file next.policy_file (run_ticks is next).policy_file
          held.keeps_policy policy,
    )
