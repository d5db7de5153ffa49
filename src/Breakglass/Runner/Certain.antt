-- ===== src/Breakglass/Runner/Certain.antt =====
-- A recorded request is carried out in the end, and what a failed write of the lock does to it.
use hypr_blocker.Base.{
  ◌≡◌, refl, ap, ◌∙◌, inl, inr, true, false, Option, none, some, List, [], ◌∷◌, arith, All,
  Bool-cases,
}
use hypr_blocker.Base.Int.{ℤ, pos, ◌+ℤ◌, scale, ◌≤ℤ◌, +ℤ_parts, -ℤ_parts}
use hypr_blocker.Base.Float.{Float, fin, minus}
use hypr_blocker.Base.Time.{hours}
use hypr_blocker.Enforcer.Requests.{LockFile, recorded}
use hypr_blocker.Breakglass.Runner.{
  clamp_delay_hours, should_release, State, load_state, Files, Failures, release, save_then,
  count_down, run_state, run_once,
}
use hypr_blocker.Breakglass.Runner.Countdown.{Pass, run_pass, run_passes}

late_is_true :
    (t d now : ℤ)
    → t +ℤ hours (pos 48) ≤ℤ now
    → should_release (fin t) (fin now) (clamp_delay_hours (fin d)) ≡ true
unfolding should_release clamp_delay_hours minus scale
late_is_true t d now h = ground (arith, +ℤ_parts t (hours (pos 48)), -ℤ_parts now t)

-- The document of a request that is counting down.
abbrev pub asked_at : ℤ → ℤ → Option Float → State
asked_at t d r = record {
  requested_at = some (fin t);
  delay_hours = some (fin d);
  released = false;
  released_at = r;
}

-- A request recorded at `t` is counting down with the delay that its document names, or has been
-- carried out.
pub data Committed (t d : ℤ) : LockFile → State → Type 0 where
  waiting : (lock : LockFile) (r : Option Float) → Committed t d lock (asked_at t d r)
  carried_out : (s : State) → s.released ≡ true → Committed t d (recorded none none) s

module _ (t d : ℤ) (p : Pass) (lock_written : p.fails.write_lock ≡ false) where
  count_down-Committed :
      (r : Option Float) (w : Files)
      → load_state w.state_file ≡ asked_at t d r
      → Committed t d
          (count_down p.fails (fin p.now) (fin t) (asked_at t d r) w).1.lock_file
          (load_state (count_down p.fails (fin p.now) (fin t) (asked_at t d r) w).1.state_file)
  unfolding count_down release save_then load_state
  count_down-Committed r w e =
      elim (Bool-cases (should_release (fin t) (fin p.now) (clamp_delay_hours (fin d)))) [
        | inl due ↦ elim (Bool-cases (p.fails.save_state)) [
          | inl f ↦ rw (due, f, lock_written, e) (waiting (recorded none none) r)
          | inr f ↦
              rw (due, f, lock_written)
                (carried_out
                  (record (asked_at t d r) { released = true; released_at = some (fin p.now) })
                  refl)
        ]
        | inr early ↦ rw (early, e) (waiting w.lock_file r)
      ]

  run_state-Committed :
      (w : Files)
      → (lock : LockFile) (s : State) → Committed t d lock s
      → w.lock_file ≡ lock
      → load_state w.state_file ≡ s
      → Committed t d
          (run_state p.fails (fin p.now) s w).1.lock_file
          (load_state (run_state p.fails (fin p.now) s w).1.state_file)
  unfolding run_state
  run_state-Committed w _ _ (waiting lock r) l e = count_down-Committed r w e
  run_state-Committed w _ _ (carried_out s h) l e = rw (h, l, e) (carried_out s h)

-- The lock is cleared and the document says so.
abbrev pub IsReleased : Files → Type 0
IsReleased w = (w.lock_file ≡ recorded none none) × ((load_state w.state_file).released ≡ true)

module _ (t d : ℤ) (p : Pass) (late : t +ℤ hours (pos 48) ≤ℤ p.now)
    (lock_written : p.fails.write_lock ≡ false) (saved : p.fails.save_state ≡ false) where
  run_state-IsReleased :
      (w : Files)
      → (lock : LockFile) (s : State) → Committed t d lock s
      → w.lock_file ≡ lock
      → load_state w.state_file ≡ s
      → IsReleased (run_state p.fails (fin p.now) s w).1
  unfolding run_state count_down release save_then load_state
  run_state-IsReleased w _ _ (waiting lock r) l e =
      rw (late_is_true t d p.now late, lock_written, saved) (refl, refl)
  run_state-IsReleased w _ _ (carried_out s h) l e = rw h (l, ap (λ (s : State). s.released) e ∙ h)

-- A request cannot be canceled: once it is recorded at `t` with a finite delay of whatever length, any number of
-- passes, whatever is done to the trigger file, and a pass at least 48 hours after `t` leave the lock
-- cleared and the request marked as released, if every write of the lock succeeds and so does the last
-- pass's write of the document.
pub release_is_certain :
    (t d : ℤ) (passes : List Pass) (last : Pass) (w : Files)
    → All (λ p. p.fails.write_lock ≡ false) passes
    → t +ℤ hours (pos 48) ≤ℤ last.now
    → last.fails.write_lock ≡ false
    → last.fails.save_state ≡ false
    → Committed t d w.lock_file (load_state w.state_file)
    → IsReleased (run_pass last (run_passes passes w))
unfolding run_passes run_once
release_is_certain t d [] last w written late lock_written saved c =
    run_state-IsReleased t d last late lock_written saved (record w { trigger = last.trigger })
      w.lock_file (load_state w.state_file) c refl refl
release_is_certain t d (p ∷ ps) last w written late lock_written saved c =
    release_is_certain t d ps last (run_pass p w) written.1 late lock_written saved (
      run_state-Committed t d p written.0 (record w { trigger = p.trigger }) w.lock_file
        (load_state w.state_file) c refl refl)

run_state-already :
    (fails : Failures) (now : Float) (s : State) (w : Files)
    → s.released ≡ true
    → (run_state fails now s w).1 ≡ w
unfolding run_state
run_state-already fails now s w h = rw h refl

released_is_final :
    (passes : List Pass) (w : Files)
    → (load_state w.state_file).released ≡ true
    → (run_passes passes w).lock_file ≡ w.lock_file
unfolding run_passes run_once
released_is_final [] w h = refl
released_is_final (p ∷ ps) w h =
    let seen = record w { trigger = p.trigger } in
    let same : run_pass p w ≡ seen =
      unfold run_pass in run_state-already p.fails (fin p.now) (load_state w.state_file) seen h in
    let still : (load_state (run_pass p w).state_file).released ≡ true =
      ap (λ (v : Files). (load_state v.state_file).released) same ∙ h in
    released_is_final ps (run_pass p w) still ∙ ap (λ (v : Files). v.lock_file) same

run_state-failed :
    (t d : ℤ) (r : Option Float) (fails : Failures) (now : ℤ) (s : State) (w : Files)
    → s ≡ asked_at t d r
    → t +ℤ hours (pos 48) ≤ℤ now
    → fails.write_lock ≡ true
    → fails.save_state ≡ false
    → ((run_state fails (fin now) s w).1.lock_file ≡ w.lock_file)
      × ((load_state (run_state fails (fin now) s w).1.state_file).released ≡ true)
unfolding run_state count_down release save_then load_state
run_state-failed t d r fails now s w e late failed saved =
    rw (e, late_is_true t d now late, failed, saved) (refl, refl)

-- A write of the lock that fails in a pass at least 48 hours after the request, in which the document can still be
-- saved, is never repeated: the document is marked as released all the same, and the lock stays as it was
-- through every later pass.
pub failed_release_is_final :
    (t d : ℤ) (r : Option Float) (p : Pass) (passes : List Pass) (w : Files)
    → load_state w.state_file ≡ asked_at t d r
    → t +ℤ hours (pos 48) ≤ℤ p.now
    → p.fails.write_lock ≡ true
    → p.fails.save_state ≡ false
    → ((load_state (run_pass p w).state_file).released ≡ true)
      × ((run_passes passes (run_pass p w)).lock_file ≡ w.lock_file)
unfolding run_pass run_once
failed_release_is_final t d r p passes w e late failed saved =
    let seen = record w { trigger = p.trigger } in
    let (lock, marked) =
      run_state-failed t d r p.fails p.now (load_state w.state_file) seen e late failed saved in
    (marked, released_is_final passes (run_pass p w) marked ∙ lock)
