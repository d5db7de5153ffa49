-- ===== src/Watchdogs/Loop.antt =====
-- When a watchdog restarts the daemon.
use hypr_blocker.Base.{
  ℕ, suc, ◌≡◌, refl, inl, inr, Bool, true, false, ◌||◌, List, [], ◌∷◌, ◌++◌, arith, Bool-cases, leb,
}
use hypr_blocker.Watchdogs.{check_daemon, daemon_fail_threshold}

-- A health check: whether the daemon answers, and whether a restart would succeed.
pub record Health : Type 0 where
  pub healthy : Bool
  pub restarts : Bool

-- The failures counted after a number of health checks.
unfoldable pub failures_after : List Health → ℕ → ℕ
unfolding check_daemon
failures_after [] n = n
failures_after (h ∷ hs) n = failures_after hs (check_daemon h.healthy h.restarts n).0

failures_after-append :
    (hs ks : List Health) (n : ℕ)
    → failures_after (hs ++ ks) n ≡ failures_after ks (failures_after hs n)
unfolding failures_after
failures_after-append [] ks n = refl
failures_after-append (h ∷ hs) ks n =
    failures_after-append hs ks (check_daemon h.healthy h.restarts n).0

-- Whether a check tries to restart the daemon.
abbrev pub tries : Health → ℕ → Bool
unfolding check_daemon
tries h n = (check_daemon h.healthy h.restarts n).1

third_failure :
    (h a b : Health) (n : ℕ)
    → tries h (failures_after (a ∷ b ∷ []) n) ≡ true
    → (h.healthy ≡ false) × (a.healthy ≡ false) × (b.healthy ≡ false)
unfolding failures_after tries
third_failure h a b n t = ground (arith, t)

silent_thrice :
    (ra rb rh : Bool) (n : ℕ)
    → ((check_daemon false ra n).1
        || ((check_daemon false rb (check_daemon false ra n).0).1
            || (check_daemon false rh (check_daemon false rb (check_daemon false ra n).0).0).1))
      ≡ true
unfolding check_daemon
silent_thrice ra rb rh n = elim (Bool-cases (leb daemon_fail_threshold (suc n))) [
  | inl e ↦ rw e refl
  | inr e ↦ rw e (ground (arith, e))
]

three_tries :
    (a b h : Health) (n : ℕ)
    → a.healthy ≡ false
    → b.healthy ≡ false
    → h.healthy ≡ false
    → (tries a n
        || (tries b (failures_after (a ∷ []) n) || tries h (failures_after (a ∷ b ∷ []) n)))
      ≡ true
unfolding failures_after tries
three_tries a b h n ka kb kh = rw (ka, kb, kh) (silent_thrice a.restarts b.restarts h.restarts n)

-- From any count of failures, three checks in a row that find the daemon silent try at least one restart; and a
-- check that tries one, after any history, finds the daemon silent as the two checks before it did.
pub restart_after_three :
    (hs : List Health) (a b h : Health)
    → (a.healthy ≡ false
        → b.healthy ≡ false
        → h.healthy ≡ false
        → (tries a (failures_after hs 0)
            || (tries b (failures_after (hs ++ (a ∷ [])) 0)
                || tries h (failures_after (hs ++ (a ∷ b ∷ [])) 0)))
          ≡ true)
      × (tries h (failures_after (hs ++ (a ∷ b ∷ [])) 0) ≡ true
          → (h.healthy ≡ false) × (a.healthy ≡ false) × (b.healthy ≡ false))
unfolding failures_after tries
restart_after_three hs a b h =
    let two = failures_after-append hs (a ∷ b ∷ []) 0 in
    let one = failures_after-append hs (a ∷ []) 0 in
    (
      λ ka kb kh. rw (one, two) (three_tries a b h (failures_after hs 0) ka kb kh),
      λ t. third_failure h a b (failures_after hs 0) (rw two at t),
    )
