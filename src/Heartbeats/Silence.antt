-- ===== src/Heartbeats/Silence.antt =====
-- When a browser without heartbeats is found out.
use hypr_blocker.Base.{
  ℕ, ◌≡◌, refl, sym, ap, ◌∙◌, ◌↔◌, inl, inr, Bool, true, false, not, ◌&&◌, Option, none, some, List,
  [], ◌∷◌, arith, keep, Bool-cases, if◌then◌else◌, ◌==◌, is_among, and_iff,
}
use hypr_blocker.Base.Int.{ℤ, ◌≤ℤ◌, ◌+ℤ◌, +ℤ_parts}
use hypr_blocker.Base.Dict.{find, find-put, find-put-other}
use hypr_blocker.Heartbeats.{
  HeartbeatTracker, new_browser_grace, is_grace_period_active, in_grace, is_new_browser, registered,
  register_first_seen, is_compliant, late_browsers, get_non_compliant_browsers,
}

-- A process that is registered now counts as new, as it did before.
just_seen : (now : ℤ) → in_grace now (some now) ≡ true
just_seen now = ground (arith, +ℤ_parts now new_browser_grace)

pub same_key : (p q : ℕ) → (p == q) ≡ true → p ≡ q
same_key p q h = ground (arith, h)

in_grace-registered :
    (now : ℤ) (p q : ℕ) (seen : List (ℕ × ℤ)) (known : Option ℤ)
    → find q seen ≡ known
    → in_grace now (find p (registered now q seen known)) ≡ in_grace now (find p seen)
in_grace-registered now p q seen (some t) e = refl
in_grace-registered now p q seen none e = elim (Bool-cases (p == q)) [
  | inl k ↦
      let same = same_key p q k in
      rw same (ap (in_grace now) (find-put q now seen) ∙ just_seen now ∙ sym (ap (in_grace now) e))
  | inr k ↦ ap (in_grace now) (find-put-other p q now seen k)
]

is_new-register :
    (now : ℤ) (p q : ℕ) (seen : List (ℕ × ℤ))
    → is_new_browser now (register_first_seen now q seen) p ≡ is_new_browser now seen p
unfolding is_new_browser register_first_seen
is_new-register now p q seen = in_grace-registered now p q seen (find q seen) refl

if_not : (b : Bool) (x y : List ℕ) → (if b then x else y) ≡ (if not b then y else x)
if_not true x y = refl
if_not false x y = refl

keep-same : (f g : ℕ → Bool) → ((p : ℕ) → f p ≡ g p) → (ps : List ℕ) → keep f ps ≡ keep g ps
keep-same f g h [] = refl
keep-same f g h (p ∷ ps) = rw (h p, keep-same f g h ps) refl

late_browsers-keep :
    (now : ℤ) (ps : List ℕ) (seen : List (ℕ × ℤ))
    → (late_browsers now ps seen).0 ≡ keep (λ p. not (is_new_browser now seen p)) ps
unfolding late_browsers
late_browsers-keep now [] seen = refl
late_browsers-keep now (p ∷ ps) seen =
    let known = register_first_seen now p seen in
    let rest =
      late_browsers-keep now ps known
      ∙ keep-same (λ q. not (is_new_browser now known q)) (λ q. not (is_new_browser now seen q))
          (λ q. ap not (is_new-register now q p seen)) ps in
    rw (rest, is_new-register now p p seen)
      (if_not (is_new_browser now seen p) (keep (λ q. not (is_new_browser now seen q)) ps)
        (p ∷ keep (λ q. not (is_new_browser now seen q)) ps))

pub is_among-keep :
    (f : ℕ → Bool) (p : ℕ) (ps : List ℕ) → is_among p (keep f ps) ≡ (is_among p ps && f p)
is_among-keep f p [] = refl
is_among-keep f p (q ∷ ps) =
    let rest = is_among-keep f p ps in
    elim (Bool-cases (p == q)) [
      | inl k ↦
          let fp = ap f (same_key p q k) in
          elim (Bool-cases (f q)) [
            | inl e ↦ ground (arith, k, fp, e)
            | inr e ↦ ground (arith, k, fp, e, rest)
          ]
      | inr k ↦ elim (Bool-cases (f q)) [
        | inl e ↦ ground (arith, k, e, rest)
        | inr e ↦ ground (arith, k, e, rest)
      ]
    ]

-- A process that was first seen at least the grace period ago.
abbrev pub LongKnown : ℤ → Option ℤ → Type 0
LongKnown now none = ⊥
LongKnown now (some seen) = seen +ℤ new_browser_grace ≤ℤ now

not-in_grace_iff :
    (now : ℤ) (seen : Option ℤ) → (not (in_grace now seen) ≡ true) ↔ LongKnown now seen
not-in_grace_iff now none = (λ h. cc h, λ h. absurd h)
not-in_grace_iff now (some seen) = (λ h. ground (arith, h), λ h. ground (arith, h))

-- Of the running browsers those are reported that have no heartbeat within the timeout and were first seen
-- without one at least ten seconds before, and none while the global grace period lasts.
pub non_compliant_iff :
    (timeout now : ℤ) (pids : List ℕ) (t : HeartbeatTracker) (pid : ℕ)
    → (is_among pid (get_non_compliant_browsers timeout now pids t).0 ≡ true) ↔ (
        (is_grace_period_active now t ≡ false)
        × (is_among pid pids ≡ true)
        × (is_compliant timeout now t pid ≡ false)
        × LongKnown now (find pid t.first_seen_pids))
unfolding get_non_compliant_browsers is_new_browser
non_compliant_iff timeout now pids t pid =
    let silent = λ (p : ℕ). not (is_compliant timeout now t p) in
    let seen = t.first_seen_pids in
    let late =
      ap (is_among pid) (late_browsers-keep now (keep silent pids) seen)
      ∙ is_among-keep (λ p. not (is_new_browser now seen p)) pid (keep silent pids)
      ∙ ap (λ b. b && not (is_new_browser now seen pid)) (is_among-keep silent pid pids) in
    let (out, back) = not-in_grace_iff now (find pid seen) in
    elim (Bool-cases (is_grace_period_active now t)) [
      | inl g ↦ rw g (λ h. cc h, λ h. cc h.0)
      | inr g ↦
          rw (g, late)
            (
              λ h.
                  let both =
                    (and_iff (is_among pid pids && silent pid)
                        (not (is_new_browser now seen pid))).0
                      h in
                  let first = (and_iff (is_among pid pids) (silent pid)).0 both.0 in
                  (refl, first.0, ground (arith, first.1), out both.1),
              λ h.
                  (and_iff (is_among pid pids && silent pid) (not (is_new_browser now seen pid))).1
                    (
                      (and_iff (is_among pid pids) (silent pid)).1 (h.1, ground (arith, h.2)),
                      back h.3,
                    ),
            )
    ]
