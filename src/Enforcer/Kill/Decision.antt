-- ===== src/Enforcer/Kill/Decision.antt =====
-- When the kill fires, over readings that are numbers, and what a reading that is none does to it.
use hypr_blocker.Base.{
  ◌≡◌, refl, ◌↔◌, Bool, true, false, not, Option, none, some, String, arith, str_eq_iff,
  str_eq_refl, str_eq, if◌then◌else◌,
}
use hypr_blocker.Base.Int.{ℤ, pos, ◌-ℤ◌, ◌+ℤ◌, ◌≤ℤ◌, ltb_ℤ, -ℤ_parts, +ℤ_parts}
use hypr_blocker.Base.Float.{Float, fin, nan, minus, less, minus-nan, less-nan}
use hypr_blocker.Enforcer.Attest.Verified.{InTime, in_time}
use hypr_blocker.Enforcer.Kill.{
  GraceWindows, spare, enforcement_off, no_session, post_boot_grace, post_login_grace,
  HeartbeatObservation, KillDecision, in_login_grace, judge_heartbeat, kill_decision,
}

-- A heartbeat of this boot, not from the future and no older than `stale_after`.
abbrev pub IsFresh : ℤ → String → ℤ → Option (ℤ × String) → Type 0
IsFresh now boot stale_after none = ⊥
IsFresh now boot stale_after (some (at, its_boot)) =
    (its_boot ≡ boot) × (at ≤ℤ now) × (now ≤ℤ at +ℤ stale_after)

abbrev pub observed : Option (ℤ × String) → Option HeartbeatObservation
observed none = none
observed (some (at, its_boot)) = some (record { monotonic = fin at; boot_id = its_boot })

abbrev pub started : Option ℤ → Option Float
started none = none
started (some t) = some (fin t)

-- The session is not within its grace period.
abbrev pub LoginGraceOver : ℤ → Option ℤ → ℤ → Type 0
LoginGraceOver now none login_grace = Unit
LoginGraceOver now (some t) login_grace = t +ℤ login_grace ≤ℤ now

login_grace_iff :
    (now : ℤ) (since : Option ℤ) (b l : ℤ)
    → (in_login_grace
          (fin now)
          (started since)
          (record { boot_grace_seconds = fin b; login_grace_seconds = fin l })
        ≡ false)
      ↔ LoginGraceOver now since l
unfolding in_login_grace minus
login_grace_iff now none b l = (λ h. tt, λ h. refl)
login_grace_iff now (some t) b l = (
  λ h. ground (arith, -ℤ_parts now t, +ℤ_parts t l),
  λ h. ground (arith, -ℤ_parts now t, +ℤ_parts t l),
)

-- The order of a difference, as the code tests it.
delta_negative_iff : (now at : ℤ) → (ltb_ℤ (now -ℤ at) (pos 0) ≡ false) ↔ (at ≤ℤ now)
delta_negative_iff now at =
    (λ h. ground (arith, -ℤ_parts now at), λ h. ground (arith, -ℤ_parts now at))

delta_stale_iff : (now at limit : ℤ) → (ltb_ℤ limit (now -ℤ at) ≡ false) ↔ (now ≤ℤ at +ℤ limit)
delta_stale_iff now at limit = (
  λ h. ground (arith, -ℤ_parts now at, +ℤ_parts at limit),
  λ h. ground (arith, -ℤ_parts now at, +ℤ_parts at limit),
)

IsFresh-iff :
    (now : ℤ) (boot : String) (last : Option (ℤ × String)) (stale_after : ℤ)
    → ((judge_heartbeat (fin now) boot (observed last) (fin stale_after)).kill ≡ false)
      ↔ IsFresh now boot stale_after last
unfolding judge_heartbeat minus
IsFresh-iff now boot none stale_after = (λ h. cc h, λ h. absurd h)
IsFresh-iff now boot (some (at, its_boot)) stale_after =
    let same = str_eq_iff its_boot boot in
    let past = delta_negative_iff now at in
    let recent = delta_stale_iff now at stale_after in
    (
      λ h. (ground (arith, same), past.0 (ground arith), recent.0 (ground arith)),
      λ h. let e1 = same.1 h.0 in let e2 = past.1 h.1 in let e3 = recent.1 h.2 in rw (e1, e2, e3),
    )

kill-or-not : (b : Bool) (P : Type 0) → ((b ≡ false) ↔ P) → (b ≡ true) ↔ (¬ P)
kill-or-not true P iff = (λ h k. cc (iff.1 k), λ h. refl)
kill-or-not false P iff = (λ h k. cc h, λ h. absurd (h (iff.0 refl)))

ladder_iff :
    (on session booting login : Bool) (j : KillDecision)
    → ((if not on
          then spare enforcement_off
          else if not session
          then spare no_session
          else if booting
          then spare post_boot_grace
          else if login
          then spare post_login_grace
          else j).kill
        ≡ true)
      ↔ ((on ≡ true) × (session ≡ true) × (booting ≡ false) × (login ≡ false) × (j.kill ≡ true))
ladder_iff on session booting login j = (λ h. ground arith, λ h. ground arith)

not_below_iff : (a b : ℤ) → (ltb_ℤ a b ≡ false) ↔ (b ≤ℤ a)
not_below_iff a b = ground arith

-- With readings that are numbers, the browsers are killed exactly when enforcement is meant to be on, a
-- session is there, neither grace period runs, and no heartbeat of this boot that is neither from the
-- future nor older than the limit has been seen.
pub kill_iff :
    (now : ℤ) (boot : String) (last : Option (ℤ × String)) (session enforcement : Bool)
    (since : Option ℤ) (boot_grace login_grace stale_after : ℤ)
    → ((kill_decision
          (fin now)
          boot
          (observed last)
          session
          (started since)
          enforcement
          (record { boot_grace_seconds = fin boot_grace; login_grace_seconds = fin login_grace })
          (fin stale_after)).kill
        ≡ true)
      ↔ ((enforcement ≡ true)
          × (session ≡ true)
          × (boot_grace ≤ℤ now)
          × LoginGraceOver now since login_grace
          × (¬ IsFresh now boot stale_after last))
unfolding kill_decision
kill_iff now boot last session enforcement since boot_grace login_grace stale_after =
    let login = login_grace_iff now since boot_grace login_grace in
    let judged = judge_heartbeat (fin now) boot (observed last) (fin stale_after) in
    let stale =
      kill-or-not judged.kill (IsFresh now boot stale_after last)
        (IsFresh-iff now boot last stale_after) in
    let boot_over = not_below_iff now boot_grace in
    let ladder =
      ladder_iff enforcement session (ltb_ℤ now boot_grace)
        (in_login_grace (fin now) (started since)
          (record { boot_grace_seconds = fin boot_grace; login_grace_seconds = fin login_grace }))
        judged in
    (
      λ h. let l = ladder.0 h in (l.0, l.1, boot_over.0 l.2, login.0 l.3, stale.0 l.4),
      λ h. ladder.1 (h.0, h.1, boot_over.1 h.2, login.1 h.3, stale.1 h.4),
    )

nan_is_fresh :
    (now : Float) (boot : String) (stale_after : Float)
    → (judge_heartbeat now boot
        (some (record { monotonic = nan; boot_id = boot }))
        stale_after).kill
      ≡ false
unfolding judge_heartbeat
nan_is_fresh now boot stale_after =
    rw (str_eq_refl boot) (rw (minus-nan now) (rw (less-nan stale_after)))

ladder_spares :
    (on session booting login : Bool) (j : KillDecision)
    → j.kill ≡ false
    → (if not on
        then spare enforcement_off
        else if not session
        then spare no_session
        else if booting
        then spare post_boot_grace
        else if login
        then spare post_login_grace
        else j).kill
      ≡ false
ladder_spares on session booting login j h = ground arith

-- A heartbeat of this boot whose stamp is NaN is never stale: the kill never fires again, however long
-- ago the heartbeat was.
pub nan_never_stale :
    (now : Float) (boot : String) (session enforcement : Bool) (since : Option Float)
    (grace : GraceWindows) (stale_after : Float)
    → (kill_decision now boot
        (some (record { monotonic = nan; boot_id = boot }))
        session
        since
        enforcement
        grace
        stale_after).kill
      ≡ false
unfolding kill_decision
nan_never_stale now boot session enforcement since grace stale_after =
    let judged =
      judge_heartbeat now boot (some (record { monotonic = nan; boot_id = boot })) stale_after in
    ladder_spares enforcement session (less now grace.boot_grace_seconds)
      (in_login_grace now since grace) judged (nan_is_fresh now boot stale_after)

-- The session has lasted as long as its grace period.
abbrev pub PastLogin : ℤ → Option Float → GraceWindows → Type 0
PastLogin now none grace = Unit
PastLogin now (some since) grace = less (minus (fin now) since) grace.login_grace_seconds ≡ false

login_grace_over :
    (now : ℤ) (since : Option Float) (grace : GraceWindows)
    → PastLogin now since grace
    → in_login_grace (fin now) since grace ≡ false
unfolding in_login_grace
login_grace_over now none grace h = refl
login_grace_over now (some s) grace h = h

judge-spares :
    (now : ℤ) (boot : String) (last : Option HeartbeatObservation) (stale_after : ℤ)
    → (judge_heartbeat (fin now) boot last (fin stale_after)).kill ≡ false
    → (seen : HeartbeatObservation) × (last ≡ some seen)
      × (seen.boot_id ≡ boot)
      × InTime now stale_after seen.monotonic
unfolding judge_heartbeat
judge-spares now boot none stale_after h = cc h
judge-spares now boot (some seen) stale_after h =
    let delta = minus (fin now) seen.monotonic in
    let (b, f, o) : (str_eq seen.boot_id boot ≡ true)
        × (less delta (fin (pos 0)) ≡ false)
        × (less (fin stale_after) delta ≡ false) =
      ground (arith, h) in
    (seen, refl, (str_eq_iff seen.boot_id boot).0 b, in_time now stale_after seen.monotonic f o)

-- With enforcement on, a session, and both grace periods over, only a heartbeat of this boot that is in
-- time spares the browsers.
pub spared_by_heartbeat :
    (now : ℤ) (boot : String) (last : Option HeartbeatObservation) (since : Option Float)
    (grace : GraceWindows) (stale_after : ℤ)
    → less (fin now) grace.boot_grace_seconds ≡ false
    → PastLogin now since grace
    → (kill_decision (fin now) boot last true since true grace (fin stale_after)).kill ≡ false
    → (seen : HeartbeatObservation) × (last ≡ some seen)
      × (seen.boot_id ≡ boot)
      × InTime now stale_after seen.monotonic
unfolding kill_decision
spared_by_heartbeat now boot last since grace stale_after b l h =
    judge-spares now boot last stale_after (rw (b, login_grace_over now since grace l) at h)
