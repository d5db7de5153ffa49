-- ===== src/LockManager/Clock.antt =====
-- The local clock alone decides: NTP's answer changes nothing.
use hypr_blocker.Base.{
  ℕ, ◌≡◌, ◌≢◌, ◌⊎◌, ◌==◌, refl, Bool, true, false, Option, some, List, [], ◌∷◌, All, if◌then◌else◌,
  arith, Bool-cases, inl, inr,
}
use hypr_blocker.Base.Int.{ℤ, ◌<ℤ◌}
use hypr_blocker.Base.Time.{naive}
use hypr_blocker.TimeVerifier.{TimeVerifier, get_verified_time}
use hypr_blocker.BlockRoutes.{LockMode, no_lock, other_lock, locked_until}
use hypr_blocker.LockManager.{
  BlockRow, before_time, by_mode, locked_at, find_locked, is_block_locked, has_expired, reset_row,
  reset_expired, check_transitions,
}

-- The row has a lock time that the clock has passed.
abbrev pub ClockPassed : ℤ → BlockRow → Type 0
ClockPassed now r = (t : ℤ) × (r.block.lock_until ≡ some (naive t)) × (t <ℤ now)

locked_at-passed :
    (enabled : Bool) (mode : LockMode) (t now : ℤ)
    → t <ℤ now
    → (if enabled then by_mode mode (some (naive t)) now else some false) ≡ some false
unfolding by_mode before_time
locked_at-passed false mode t now h = refl
locked_at-passed true no_lock t now h = refl
locked_at-passed true other_lock t now h = refl
locked_at-passed true locked_until t now h = ground arith

row-passed : (now : ℤ) (r : BlockRow) → ClockPassed now r → locked_at r.block now ≡ some false
unfolding locked_at
row-passed now r (t, e, h) = rw e (locked_at-passed r.block.enabled r.block.lock_mode t now h)

find_locked-passed :
    (block_id : ℕ) (now : ℤ) (rows : List BlockRow)
    → All (ClockPassed now) rows
    → find_locked block_id rows now ≡ some false
unfolding find_locked
find_locked-passed block_id now [] a = refl
find_locked-passed block_id now (r ∷ rs) a =
    rw (row-passed now r a.0, find_locked-passed block_id now rs a.1) (if_same (r.id == block_id))
  where
    if_same : (b : Bool) → (if b then some false else some false) ≡ some false
    if_same true = refl
    if_same false = refl

mode-reset :
    (mode : LockMode) (t now : ℤ)
    → t <ℤ now
    → (has_expired now mode (some (naive t)) ≡ true) ⊎ (mode ≢ locked_until)
unfolding has_expired
mode-reset no_lock t now h = inr (λ e. cc e)
mode-reset other_lock t now h = inr (λ e. cc e)
mode-reset locked_until t now h = inl (ground arith)

reset_row-unlocks :
    (now : ℤ) (r : BlockRow) → ClockPassed now r → (reset_row now r).block.lock_mode ≢ locked_until
unfolding reset_row
reset_row-unlocks now r (t, e, h) = elim (mode-reset r.block.lock_mode t now h) [
  | inl x ↦ rw (e, x) (λ k. cc k)
  | inr n ↦ elim (Bool-cases (has_expired now r.block.lock_mode r.block.lock_until)) [
    | inl x ↦ rw x (λ k. cc k)
    | inr x ↦ rw x n
  ]
]

reset-unlocks :
    (now : ℤ) (rows : List BlockRow)
    → All (ClockPassed now) rows
    → All (λ r. r.block.lock_mode ≢ locked_until) (reset_expired now rows)
unfolding reset_expired
reset-unlocks now [] a = tt
reset-unlocks now (r ∷ rs) a = (reset_row-unlocks now r a.0, reset-unlocks now rs a.1)

-- Setting the local clock past the lock times unlocks every block, whatever NTP answers, also where the
-- verification finds that the clock is wrong: no block counts as locked, and the next check of
-- transitions clears the locks for good.
pub clock_alone_unlocks :
    (max_diff system local : ℤ) (ntp : Option ℤ) (block_id : ℕ) (rows : List BlockRow)
    (v : TimeVerifier)
    → All (ClockPassed local) rows
    → ((is_block_locked max_diff ntp system local block_id rows v).0 ≡ some false)
      × All
          (λ r. r.block.lock_mode ≢ locked_until)
          (check_transitions max_diff ntp system local rows v).0
unfolding is_block_locked check_transitions get_verified_time
clock_alone_unlocks max_diff system local ntp block_id rows v a =
    (find_locked-passed block_id local rows a, reset-unlocks local rows a)
