-- ===== src/Grants/RateLimit/FailClosed.antt =====
-- No damage to the audit log short of losing entries widens the budget.
use hypr_blocker.Base.{ℕ, ◌≤◌, ◌≡◌, true, Option, none, List, [], ◌∷◌, arith, Bool-cases, inl, inr}
use hypr_blocker.Base.Int.{ℤ, ◌-ℤ◌}
use hypr_blocker.Base.Time.{DateTime, as_utc}
use hypr_blocker.Grants.RateLimit.{
  Entry, entry_timestamp, counts, count_from, count_recent_requests, check, remaining,
  is_rate_limited, Stamp,
}

-- The second log is the first with entries added and with timestamps that can no longer be read.
pub data Damaged : List Entry → List Entry → Type 0 where
  same : Damaged [] []
  kept : (e : Entry) (es fs : List Entry) → Damaged es fs → Damaged (e ∷ es) (e ∷ fs)
  corrupted :
      (e : Entry) (bad : Stamp) (es fs : List Entry)
      → entry_timestamp (record e { ts = bad }) ≡ none
      → Damaged es fs
      → Damaged (e ∷ es) (record e { ts = bad } ∷ fs)
  added : (e : Entry) (es fs : List Entry) → Damaged es fs → Damaged es (e ∷ fs)

module _ (cutoff now : ℤ) (tier : Option ℤ) where
  counts-corrupted :
      (e : Entry) (bad : Stamp)
      → entry_timestamp (record e { ts = bad }) ≡ none
      → counts cutoff now tier e ≡ true
      → counts cutoff now tier (record e { ts = bad }) ≡ true
  unfolding counts
  counts-corrupted e bad h c = rw h (ground (arith, c))

  count_from-Damaged :
      (es fs : List Entry)
      → Damaged es fs
      → count_from cutoff now tier es ≤ count_from cutoff now tier fs
  unfolding count_from
  count_from-Damaged _ _ same = omega arith
  count_from-Damaged _ _ (kept e es fs d) = ground (arith, count_from-Damaged es fs d)
  count_from-Damaged _ _ (corrupted e bad es fs h d) =
      elim (Bool-cases (counts cutoff now tier e)) [
        | inl c ↦
            let c' = counts-corrupted e bad h c in
            rw (c, c') (ground (arith, count_from-Damaged es fs d))
        | inr c ↦ rw c (ground (arith, count_from-Damaged es fs d))
      ]
  count_from-Damaged _ _ (added e es fs d) = ground (arith, count_from-Damaged es fs d)

-- A log with more entries, and with timestamps that no longer parse, never leaves a larger budget: what
-- remains is no more than before, and who was limited still is.
pub damage_never_widens :
    (es fs : List Entry) (now : DateTime) (limit : ℕ) (window : ℤ) (tier : Option ℤ)
    → Damaged es fs
    → (remaining (check fs now limit window tier) ≤ remaining (check es now limit window tier))
      × (is_rate_limited es now limit window tier ≡ true
          → is_rate_limited fs now limit window tier ≡ true)
unfolding is_rate_limited check count_recent_requests
damage_never_widens es fs now limit window tier d =
    let le = count_from-Damaged (as_utc now -ℤ window) (as_utc now) tier es fs d in
    (ground (arith, le), λ h. ground (arith, le, h))
