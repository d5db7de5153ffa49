-- ===== src/Breakglass/Runner/Countdown.antt =====
-- What a sequence of passes can and cannot do, whatever happens to the trigger file between them.
use hypr_blocker.Base.{
  ◌≡◌, refl, ◌∙◌, inl, inr, Bool, true, false, Option, none, some, List, [], ◌∷◌, arith, All,
  Bool-cases,
}
use hypr_blocker.Base.Int.{ℤ, pos, ◌+ℤ◌, scale, ◌≤ℤ◌, ◌<ℤ◌, +ℤ_parts, -ℤ_parts}
use hypr_blocker.Base.Float.{Float, fin, minus}
use hypr_blocker.Base.Time.{hours}
use hypr_blocker.Enforcer.Requests.{LockFile}
use hypr_blocker.Breakglass.Runner.{
  default_delay_hours, clamp_delay_hours, should_release, State, load_state, Files, Failures,
  save_then, watch_trigger, count_down, run_state, run_once,
}

-- What the world puts before one pass: the clock, the calls that fail, and whether the trigger file is there.
pub record Pass : Type 0 where
  pub now : ℤ
  pub fails : Failures
  pub trigger : Bool

unfoldable pub run_pass : Pass → Files → Files
run_pass p w = (run_once p.fails (fin p.now) (record w { trigger = p.trigger })).1

unfoldable pub run_passes : List Pass → Files → Files
unfolding run_pass
run_passes [] w = w
run_passes (p ∷ ps) w = run_passes ps (run_pass p w)

early_is_false :
    (t0 t now : ℤ)
    → t0 ≤ℤ t
    → now <ℤ t0 +ℤ hours (pos 36)
    → should_release (fin t) (fin now) (clamp_delay_hours default_delay_hours) ≡ false
unfolding should_release clamp_delay_hours minus scale
early_is_false t0 t now h k = ground (arith, +ℤ_parts t0 (hours (pos 36)), -ℤ_parts now t)

-- No request is recorded, or one that was recorded at `t0` or later with the default delay.
pub data Counting (t0 : ℤ) : State → Type 0 where
  not_asked :
      (d r : Option Float)
      → Counting t0
          (record { requested_at = none; delay_hours = d; released = false; released_at = r })
  asked :
      (t : ℤ) (r : Option Float)
      → t0 ≤ℤ t
      → Counting t0 (record {
        requested_at = some (fin t);
        delay_hours = some default_delay_hours;
        released = false;
        released_at = r;
      })

-- The lock and the credential are those given, and the state is still counting.
record IsUntouched (t0 : ℤ) (lock : LockFile) (credential : Option Bool) (w : Files) : Type 0 where
  pub same_lock : w.lock_file ≡ lock
  pub same_credential : w.credential ≡ credential
  pub counting : Counting t0 (load_state w.state_file)

module _ (t0 : ℤ) (p : Pass) (from : t0 ≤ℤ p.now) (to : p.now <ℤ t0 +ℤ hours (pos 36)) where
  watch_trigger-IsUntouched :
      (d r : Option Float) (b : Bool) (w : Files)
      → load_state w.state_file
        ≡ record { requested_at = none; delay_hours = d; released = false; released_at = r }
      → IsUntouched t0 w.lock_file w.credential (watch_trigger p.fails (fin p.now) b w).1
  unfolding watch_trigger save_then load_state
  watch_trigger-IsUntouched d r false w e = record {
    same_lock = refl;
    same_credential = refl;
    counting = rw e (not_asked d r);
  }
  watch_trigger-IsUntouched d r true w e = elim (Bool-cases (p.fails.save_state)) [
    | inl f ↦
        rw f (record { same_lock = refl; same_credential = refl; counting = rw e (not_asked d r) })
    | inr f ↦
        rw f (record { same_lock = refl; same_credential = refl; counting = asked p.now none from })
  ]

  run_state-IsUntouched :
      (s : State)
      → Counting t0 s
      → (w : Files) → load_state w.state_file ≡ s
      → IsUntouched t0 w.lock_file w.credential (run_state p.fails (fin p.now) s w).1
  unfolding run_state count_down
  run_state-IsUntouched _ (not_asked d r) w e = watch_trigger-IsUntouched d r w.trigger w e
  run_state-IsUntouched _ (asked t r h) w e =
      rw (early_is_false t0 t p.now h to)
        (record { same_lock = refl; same_credential = refl; counting = rw e (asked t r h) })

-- A pass within the delay that begins at `t0`.
abbrev pub IsEarly : ℤ → Pass → Type 0
IsEarly t0 p = (t0 ≤ℤ p.now) × (p.now <ℤ t0 +ℤ hours (pos 36))

-- With nothing released, and no request recorded but with the default delay at `t0` or later, the passes
-- of the 36 hours from `t0` on leave the lock and the root credential as they are, whatever is done to
-- the trigger file and whichever calls fail.
pub nothing_released_early :
    (t0 : ℤ) (passes : List Pass) (w : Files)
    → All (IsEarly t0) passes
    → Counting t0 (load_state w.state_file)
    → ((run_passes passes w).lock_file ≡ w.lock_file)
      × ((run_passes passes w).credential ≡ w.credential)
unfolding run_passes run_once
nothing_released_early t0 [] w early c = (refl, refl)
nothing_released_early t0 (p ∷ ps) w early c =
    let seen = record w { trigger = p.trigger } in
    let next = run_pass p w in
    let kept =
      run_state-IsUntouched t0 p early.0.0 early.0.1 (load_state w.state_file) c seen refl in
    let (lock, credential) = nothing_released_early t0 ps next early.1 kept.counting in
    (lock ∙ kept.same_lock, credential ∙ kept.same_credential)
