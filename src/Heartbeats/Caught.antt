-- ===== src/Heartbeats/Caught.antt =====
-- A browser that stays silent is reported by a check after its grace period, whatever the monitor does in between.
use hypr_blocker.Base.{
  ℕ, ◌≡◌, refl, sym, ap, ◌∙◌, inl, inr, Bool, true, false, not, Option, none, some, List, [], ◌∷◌,
  arith, keep, Bool-cases, ◌==◌, is_among, and_iff, All,
}
use hypr_blocker.Base.Int.{ℤ, pos, ◌≤ℤ◌, ◌+ℤ◌, +ℤ_parts}
use hypr_blocker.Base.Time.{seconds}
use hypr_blocker.Base.Text.{Text}
use hypr_blocker.Base.Dict.{find, find-put, find-put-other}
use hypr_blocker.Heartbeats.{
  HeartbeatTracker, new_browser_grace, is_grace_period_active, registered, register_first_seen,
  is_compliant, is_recent, late_browsers, get_non_compliant_browsers, register_heartbeat,
  cleanup_old_heartbeats,
}
use hypr_blocker.Heartbeats.Silence.{LongKnown, non_compliant_iff, is_among-keep, same_key}

-- What happens to the tracker while the daemon runs: the check and the cleanup of a pass of the monitor, each with
-- the time of its own reading of the clock, and the heartbeats that arrive.
pub data Step : Type 0 where
  check : ℤ → List ℕ → Step
  cleanup : ℤ → Step
  heartbeat : ℕ → Text → Bool → Bool → Text → ℕ → ℤ → Step

unfoldable pub step : ℤ → Step → HeartbeatTracker → HeartbeatTracker
unfolding get_non_compliant_browsers cleanup_old_heartbeats register_heartbeat
step timeout (check now pids) t = (get_non_compliant_browsers timeout now pids t).1
step timeout (cleanup now) t = cleanup_old_heartbeats timeout now t
step timeout (heartbeat pid browser incognito enabled id count now) t =
    register_heartbeat pid browser incognito enabled id count now t

unfoldable pub run_steps : ℤ → List Step → HeartbeatTracker → HeartbeatTracker
unfolding step
run_steps timeout [] t = t
run_steps timeout (s ∷ ss) t = run_steps timeout ss (step timeout s t)

-- A cleanup comes at most two minutes after the time given.
abbrev pub CleansBy : ℤ → Step → Type 0
CleansBy first (cleanup now) = now ≤ℤ first +ℤ seconds (pos 120)
CleansBy first _ = Unit

registered-keeps :
    (now first : ℤ) (p q : ℕ) (seen : List (ℕ × ℤ)) (o : Option ℤ)
    → find q seen ≡ o
    → find p seen ≡ some first
    → find p (registered now q seen o) ≡ some first
registered-keeps now first p q seen (some t) e h = h
registered-keeps now first p q seen none e h = elim (Bool-cases (p == q)) [
  | inl k ↦
      let same : find p seen ≡ find q seen = ap (λ x. find x seen) (same_key p q k) in
      cc (same, e, h)
  | inr k ↦ find-put-other p q now seen k ∙ h
]

late-keeps :
    (now first : ℤ) (p : ℕ) (ps : List ℕ) (seen : List (ℕ × ℤ))
    → find p seen ≡ some first
    → find p (late_browsers now ps seen).1 ≡ some first
unfolding late_browsers register_first_seen
late-keeps now first p [] seen h = h
late-keeps now first p (q ∷ ps) seen h =
    late-keeps now first p ps (register_first_seen now q seen)
      (registered-keeps now first p q seen (find q seen) refl h)

registers_other :
    (now : ℤ) (p q : ℕ) (seen : List (ℕ × ℤ)) (o : Option ℤ)
    → (p == q) ≡ false
    → find p (registered now q seen o) ≡ find p seen
registers_other now p q seen (some t) k = refl
registers_other now p q seen none k = find-put-other p q now seen k

registers_self :
    (now : ℤ) (p : ℕ) (seen : List (ℕ × ℤ)) (o : Option ℤ)
    → o ≡ none
    → find p (registered now p seen o) ≡ some now
registers_self now p seen none h = find-put p now seen
registers_self now p seen (some t) h = cc h

late-registers :
    (now : ℤ) (p : ℕ) (ps : List ℕ) (seen : List (ℕ × ℤ))
    → is_among p ps ≡ true
    → find p seen ≡ none
    → find p (late_browsers now ps seen).1 ≡ some now
unfolding late_browsers register_first_seen
late-registers now p [] seen m h = cc m
late-registers now p (q ∷ ps) seen m h = elim (Bool-cases (p == q)) [
  | inl k ↦
      let same = same_key p q k in
      let first = registers_self now p seen (find p seen) h in
      late-keeps now now p ps (register_first_seen now q seen) (rw (sym same) first)
  | inr k ↦
      late-registers now p ps (register_first_seen now q seen) (ground (arith, m, k))
        (registers_other now p q seen (find q seen) k ∙ h)
]

find-keep :
    (g : ℤ → Bool) (p : ℕ) (v : ℤ) (d : List (ℕ × ℤ))
    → g v ≡ true
    → find p d ≡ some v
    → find p (keep (λ e. g e.1) d) ≡ some v
find-keep g p v [] t h = cc h
find-keep g p v ((j, w) ∷ d) t h = elim (Bool-cases (p == j)) [
  | inl k ↦
      let found : some w ≡ some v = rw k at h in
      let one : w ≡ v = cc found in let kept : g w ≡ true = ap g one ∙ t in rw kept (rw k found)
  | inr k ↦
      let later : find p d ≡ some v = rw k at h in
      let rest = find-keep g p v d t later in
      elim (Bool-cases (g w)) [ inl e ↦ rw e (rw k rest) | inr e ↦ rw e rest ]
]

-- The tracker after a check outside the global grace period, and the same within it.
abbrev checked : ℤ → ℤ → List ℕ → HeartbeatTracker → HeartbeatTracker
checked timeout now pids t = record t {
  first_seen_pids =
      (late_browsers now (keep (λ p. not (is_compliant timeout now t p)) pids) t.first_seen_pids).1;
}

after_check :
    (timeout now : ℤ) (pids : List ℕ) (t : HeartbeatTracker)
    → is_grace_period_active now t ≡ false
    → (get_non_compliant_browsers timeout now pids t).1 ≡ checked timeout now pids t
unfolding get_non_compliant_browsers
after_check timeout now pids t h = rw h refl

after_idle_check :
    (timeout now : ℤ) (pids : List ℕ) (t : HeartbeatTracker)
    → is_grace_period_active now t ≡ true
    → (get_non_compliant_browsers timeout now pids t).1 ≡ t
unfolding get_non_compliant_browsers
after_idle_check timeout now pids t h = rw h refl

step-keeps :
    (timeout first : ℤ) (p : ℕ) (s : Step) (t : HeartbeatTracker)
    → CleansBy first s
    → find p t.first_seen_pids ≡ some first
    → find p (step timeout s t).first_seen_pids ≡ some first
unfolding step cleanup_old_heartbeats register_heartbeat
step-keeps timeout first p (check now pids) t c h =
    elim (Bool-cases (is_grace_period_active now t)) [
      | inl e ↦
          ap (λ (x : HeartbeatTracker). find p x.first_seen_pids)
            (after_idle_check timeout now pids t e)
          ∙ h
      | inr e ↦
          ap (λ (x : HeartbeatTracker). find p x.first_seen_pids) (after_check timeout now pids t e)
          ∙ late-keeps now first p (keep (λ p. not (is_compliant timeout now t p)) pids)
              t.first_seen_pids h
    ]
step-keeps timeout first p (cleanup now) t c h =
    find-keep (is_recent (seconds (pos 120)) now) p first t.first_seen_pids (ground (arith, c)) h
step-keeps timeout first p (heartbeat pid browser incognito enabled id count now) t c h = h

run-keeps :
    (timeout first : ℤ) (p : ℕ) (ss : List Step) (t : HeartbeatTracker)
    → All (CleansBy first) ss
    → find p t.first_seen_pids ≡ some first
    → find p (run_steps timeout ss t).first_seen_pids ≡ some first
unfolding run_steps
run-keeps timeout first p [] t c h = h
run-keeps timeout first p (s ∷ ss) t c h =
    run-keeps timeout first p ss (step timeout s t) c.1 (step-keeps timeout first p s t c.0 h)

first_check :
    (timeout now : ℤ) (pids : List ℕ) (t : HeartbeatTracker) (pid : ℕ)
    → find pid t.first_seen_pids ≡ none
    → is_among pid pids ≡ true
    → is_compliant timeout now t pid ≡ false
    → is_grace_period_active now t ≡ false
    → find pid (step timeout (check now pids) t).first_seen_pids ≡ some now
unfolding step
first_check timeout now pids t pid unseen running silent no_grace =
    let quiet = keep (λ p. not (is_compliant timeout now t p)) pids in
    let among =
      is_among-keep (λ p. not (is_compliant timeout now t p)) pid pids
      ∙ (and_iff (is_among pid pids) (not (is_compliant timeout now t pid))).1
          (running, ap not silent) in
    ap (λ (x : HeartbeatTracker). find pid x.first_seen_pids)
      (after_check timeout now pids t no_grace)
    ∙ late-registers now pid quiet t.first_seen_pids among unseen

long_known :
    (now later : ℤ) (o : Option ℤ)
    → o ≡ some now
    → now +ℤ new_browser_grace ≤ℤ later
    → LongKnown later o
long_known now later none e h = cc e
long_known now later (some seen) e h =
    let one : seen ≡ now = cc e in rw one (ground (arith, h, +ℤ_parts now new_browser_grace))

-- A browser that a check meets for the first time, without a heartbeat within the timeout and outside the global grace
-- period: whatever checks, cleanups and heartbeats follow, with no cleanup more than two minutes after that
-- check, a check at least ten seconds after it, outside the global grace period, that meets the browser
-- without a heartbeat within the timeout reports it.
pub silent_browser_is_caught :
    (timeout now later : ℤ) (pids pids' : List ℕ) (between : List Step) (t : HeartbeatTracker)
    (pid : ℕ)
    → find pid t.first_seen_pids ≡ none
    → is_among pid pids ≡ true
    → is_compliant timeout now t pid ≡ false
    → is_grace_period_active now t ≡ false
    → All (CleansBy now) between
    → now +ℤ new_browser_grace ≤ℤ later
    → is_among pid pids' ≡ true
    → is_compliant timeout later (run_steps timeout (check now pids ∷ between) t) pid ≡ false
    → is_grace_period_active later (run_steps timeout (check now pids ∷ between) t) ≡ false
    → is_among pid
        (get_non_compliant_browsers timeout later pids'
          (run_steps timeout (check now pids ∷ between) t)).0
      ≡ true
unfolding run_steps
silent_browser_is_caught timeout now later pids pids' between t pid unseen running silent no_grace
      cleans wait running' silent' no_grace' =
    let met = step timeout (check now pids) t in
    let seen = run_steps timeout between met in
    let kept =
      run-keeps timeout now pid between met cleans
        (first_check timeout now pids t pid unseen running silent no_grace) in
    (non_compliant_iff timeout later pids' seen pid).1
      (no_grace', running', silent', long_known now later (find pid seen.first_seen_pids) kept wait)
