-- ===== src/Enforcer/Guard/Survival.antt =====
-- A browser that a tick spares has been vouched for by an echo that was verified in time.
use hypr_blocker.Base.{
  ◌≡◌, refl, sym, ap, ◌∙◌, ◌⊎◌, inl, inr, Bool, true, false, Option, none, some, List, [], ◌∷◌,
  String, arith, All, Bool-cases,
}
use hypr_blocker.Base.Int.{ℤ, pos, scale, max_ℤ, ltb_ℤ, ◌≤ℤ◌}
use hypr_blocker.Base.Float.{Float, fin, max_float}
use hypr_blocker.Enforcer.Attest.{EchoResponse, PidInfo}
use hypr_blocker.Enforcer.Attest.Verified.{Attests, IsHonest, InTime, in_time, verified_sound}
use hypr_blocker.Enforcer.Kill.{HeartbeatObservation, KillDecision, default_grace, kill_decision}
use hypr_blocker.Enforcer.Kill.Decision.{PastLogin, spared_by_heartbeat}
use hypr_blocker.Enforcer.Policy.{number}
use hypr_blocker.Enforcer.Guard.{
  expected_exe_prefix, Guard, GuardInput, Reading, found, raised, Readings, with_limit,
  with_process, with_echo, gather, tick_with, stale_after, info_of_echo, heartbeat_verdict,
  observation_of, remember, check_heartbeat, issue_challenge, note_session, guard_tick, run_guard,
}

-- The tick verified an echo that left this observation: it answers the challenge that was issued before,
-- and the process that it names is an honest one.
abbrev pub VerifiedAt : GuardInput → Guard → HeartbeatObservation → Type 0
VerifiedAt i g seen =
    (nonce : String) × (echo : EchoResponse) × (process : PidInfo) × (limit : ℤ) × (g.issued_nonce
      ≡ some nonce)
    × (gather i ≡ some (record { echo = some echo; process = some process; limit = fin limit }))
    × (seen ≡ observation_of echo)
    × Attests nonce g.boot_id i.now limit echo
    × IsHonest expected_exe_prefix g.expected_exes process

-- Some tick of the run did.
abbrev pub VerifiedIn : List GuardInput → Guard → HeartbeatObservation → Type 0
VerifiedIn [] g seen = ⊥
VerifiedIn (i ∷ is) g seen = VerifiedAt i g seen ⊎ VerifiedIn is (guard_tick i g).1 seen

remember_lem :
    (ok : Bool) (echo : Option EchoResponse) (last : Option HeartbeatObservation)
    (seen : HeartbeatObservation)
    → remember ok echo last ≡ some seen
    → (last ≡ some seen)
      ⊎ ((ok ≡ true) × (e : EchoResponse) × (echo ≡ some e) × (seen ≡ observation_of e))
unfolding remember
remember_lem true (some e) last seen h =
    let same : observation_of e ≡ seen = cc h in inr (refl, e, refl, sym same)
remember_lem true none last seen h = inl h
remember_lem false echo last seen h = inl h

-- The interval of the heartbeat is a finite number.
abbrev pub HasInterval : GuardInput → Type 0
HasInterval i = (k : ℤ) × (i.heartbeat_interval_seconds ≡ number (fin k))

-- The limit for an interval of `k`.
abbrev pub limit_for : ℤ → ℤ
limit_for k = max_ℤ (scale 3 k) (pos 90000)

max_of_finite : (a b : ℤ) → max_float (fin a) (fin b) ≡ fin (max_ℤ a b)
max_of_finite a b = elim (Bool-cases (ltb_ℤ a b)) [ inl e ↦ rw e refl | inr e ↦ rw e refl ]

with_limit_lem :
    (e : Option EchoResponse) (p : Option PidInfo) (l : Float) (o : Option Float) (r : Readings)
    → o ≡ some l
    → with_limit e p o ≡ some r
    → r.limit ≡ l
with_limit_lem e p l none r h k = cc h
with_limit_lem e p l (some m) r h k =
    let one : record { echo = e; process = p; limit = m } ≡ r = cc k in
    sym (ap (λ (x : Readings). x.limit) one) ∙ cc h

with_process_lem :
    (e : Option EchoResponse) (p : Reading PidInfo) (l : Float) (o : Option Float) (r : Readings)
    → o ≡ some l
    → with_process e p o ≡ some r
    → r.limit ≡ l
with_process_lem e raised l o r h k = cc k
with_process_lem e (found p) l o r h k = with_limit_lem e p l o r h k

with_echo_lem :
    (table : ℤ → Reading PidInfo) (e : Reading EchoResponse) (l : Float) (o : Option Float)
    (r : Readings)
    → o ≡ some l
    → with_echo table e o ≡ some r
    → r.limit ≡ l
with_echo_lem table raised l o r h k = cc k
with_echo_lem table (found e) l o r h k = with_process_lem e (info_of_echo table e) l o r h k

gather-limit :
    (i : GuardInput) (k : ℤ) (r : Readings)
    → i.heartbeat_interval_seconds ≡ number (fin k)
    → gather i ≡ some r
    → r.limit ≡ fin (limit_for k)
unfolding gather
gather-limit i k r e h =
    with_echo_lem i.pid_info i.echo (fin (limit_for k)) (stale_after i.heartbeat_interval_seconds) r
      (ap (λ n. stale_after n) e
        ∙ ap {B = Option Float} some (max_of_finite (scale 3 k) (pos 90000)))
      h

-- What a tick with these readings keeps as verified.
kept-Verified :
    (i : GuardInput) (g : Guard) (seen : HeartbeatObservation) (r : Readings) (limit : ℤ)
    → gather i ≡ some r
    → r.limit ≡ fin limit
    → remember (heartbeat_verdict i.now r g).ok r.echo g.last_verified ≡ some seen
    → (g.last_verified ≡ some seen) ⊎ VerifiedAt i g seen
unfolding heartbeat_verdict
kept-Verified i g seen r limit read bound h =
    elim (remember_lem (heartbeat_verdict i.now r g).ok r.echo g.last_verified seen h) [
      | inl old ↦ inl old
      | inr (ok, e, is_echo, same) ↦
          let (nonce, echo, process, issued, answered, named, attests, honest) =
            verified_sound g.issued_nonce r.echo g.boot_id i.now r.process expected_exe_prefix
              g.expected_exes limit (rw bound at ok) in
          let one : e ≡ echo = cc (is_echo, answered) in
          let these : r ≡ record { echo = some echo; process = some process; limit = fin limit } =
            readings_of r (some echo) (some process) (fin limit) answered named bound in
          inr (
            nonce,
            echo,
            process,
            limit,
            issued,
            read ∙ ap {B = Option Readings} some these,
            same ∙ ap (λ x. observation_of x) one,
            attests,
            honest,
          )
    ]
  where
    readings_of :
        (r : Readings) (e : Option EchoResponse) (p : Option PidInfo) (l : Float)
        → r.echo ≡ e
        → r.process ≡ p
        → r.limit ≡ l
        → r ≡ record { echo = e; process = p; limit = l }
    readings_of r e p l a b c = λ i. record { echo = a i; process = b i; limit = c i }

tick-remembers :
    (i : GuardInput) (g : Guard) (seen : HeartbeatObservation)
    → HasInterval i
    → (guard_tick i g).1.last_verified ≡ some seen
    → (g.last_verified ≡ some seen) ⊎ VerifiedAt i g seen
unfolding guard_tick note_session tick_with check_heartbeat issue_challenge heartbeat_verdict
tick-remembers i g seen (k, interval) h = by_readings (gather i) refl h
  where
    by_readings :
        (o : Option Readings)
        → gather i ≡ o
        → (tick_with i o (note_session i g)).1.last_verified ≡ some seen
        → (g.last_verified ≡ some seen) ⊎ VerifiedAt i g seen
    by_readings none e h = inl h
    by_readings (some r) e h =
        kept-Verified i g seen r (limit_for k) e (gather-limit i k r interval e) h

run-remembers :
    (is : List GuardInput) (g : Guard) (seen : HeartbeatObservation)
    → All HasInterval is
    → (run_guard is g).last_verified ≡ some seen
    → (g.last_verified ≡ some seen) ⊎ VerifiedIn is g seen
unfolding run_guard
run-remembers [] g seen a h = inl h
run-remembers (i ∷ is) g seen a h = elim (run-remembers is (guard_tick i g).1 seen a.1 h) [
  | inl now ↦ elim (tick-remembers i g seen a.0 now) [ inl old ↦ inl old | inr v ↦ inr (inl v) ]
  | inr later ↦ inr (inr later)
]

spared_with :
    (i : GuardInput) (g : Guard) (k : ℤ) (d : KillDecision) (o : Option Readings)
    → i.heartbeat_interval_seconds ≡ number (fin k)
    → i.session ≡ true
    → i.enforcement_on ≡ true
    → pos 300000 ≤ℤ i.now
    → PastLogin i.now g.session_started default_grace
    → gather i ≡ o
    → (tick_with i o g).0 ≡ some d
    → d.kill ≡ false
    → (seen : HeartbeatObservation) × ((tick_with i o g).1.last_verified ≡ some seen)
      × (seen.boot_id ≡ g.boot_id)
      × InTime i.now (limit_for k) seen.monotonic
unfolding tick_with check_heartbeat issue_challenge
spared_with i g k d none interval session on boot login read is_d h = cc is_d
spared_with i g k d (some r) interval session on boot login read is_d h =
    let last = (tick_with i (some r) g).1.last_verified in
    let kills = λ (s e : Bool) (l : Float).
      (kill_decision (fin i.now) g.boot_id last s g.session_started e default_grace l).kill in
    let same : kills i.session i.enforcement_on r.limit ≡ d.kill = ap (λ o. killed o) is_d in
    let spared : kills true true (fin (limit_for k)) ≡ false =
      sym (
        ap (λ s. kills s i.enforcement_on r.limit) session
        ∙ ap (λ e. kills true e r.limit) on
        ∙ ap (λ l. kills true true l) (gather-limit i k r interval read))
      ∙ same
      ∙ h in
    spared_by_heartbeat i.now g.boot_id last g.session_started default_grace (limit_for k)
      (ground (arith, boot)) login spared
  where
    killed : Option KillDecision → Bool
    killed none = false
    killed (some x) = x.kill

-- An enforcer that starts without a verified heartbeat and runs any ticks, each with a finite number for the
-- interval of the heartbeat: if a further tick, with enforcement on, a session, and the grace periods after
-- the boot and the login over, comes to a decision and spares the browsers, then a tick of the run, or this
-- one, verified an echo of this boot whose stamp is in time for this tick, or is NaN, by an honest process
-- that answered the challenge issued before. A tick that an exception ends comes to no decision.
pub spared_is_attested :
    (before : List GuardInput) (i : GuardInput) (g : Guard) (k : ℤ) (d : KillDecision)
    → All HasInterval before
    → i.heartbeat_interval_seconds ≡ number (fin k)
    → g.last_verified ≡ none
    → i.session ≡ true
    → i.enforcement_on ≡ true
    → pos 300000 ≤ℤ i.now
    → PastLogin i.now (note_session i (run_guard before g)).session_started default_grace
    → (guard_tick i (run_guard before g)).0 ≡ some d
    → d.kill ≡ false
    → (seen : HeartbeatObservation) × (VerifiedIn before g seen
        ⊎ VerifiedAt i (run_guard before g) seen)
      × (seen.boot_id ≡ (run_guard before g).boot_id)
      × InTime i.now (limit_for k) seen.monotonic
unfolding guard_tick note_session
spared_is_attested before i g k d timed interval start session on boot login decided h =
    let met = run_guard before g in
    let (seen, kept, same_boot, in_time) =
      spared_with i (note_session i met) k d (gather i) interval session on boot login refl decided
        h in
    (seen, source seen (tick-remembers i met seen (k, interval) kept), same_boot, in_time)
  where
    source :
        (seen : HeartbeatObservation)
        → ((run_guard before g).last_verified ≡ some seen) ⊎ VerifiedAt i (run_guard before g) seen
        → VerifiedIn before g seen ⊎ VerifiedAt i (run_guard before g) seen
    source seen (inr now) = inr now
    source seen (inl old) = elim (run-remembers before g seen timed old) [
      | inl at_start ↦ cc (start, at_start)
      | inr v ↦ inl v
    ]
