-- ===== src/Watchdogs/Siblings.antt =====
-- The number of watchdogs over their checks.
use hypr_blocker.Base.{
  ℕ, zero, suc, ◌+◌, ◌≤◌, ◌≡◌, refl, Bool, Option, none, some, List, [], ◌∷◌, arith, keep, length,
  length-append,
}
use hypr_blocker.Base.Int.{ℤ}
use hypr_blocker.Watchdogs.{
  WatchdogEntry, WatchdogState, load, clamp_count, Fork, started_entry, spawned, take_forks,
  spawn_watchdogs, stays, missing_count, check_and_respawn_siblings,
}

-- The forks that fail.
abbrev pub failed_fork : Option ℕ → ℕ
failed_fork none = 1
failed_fork (some pid) = 0

unfoldable pub failed_forks : List Fork → ℕ
failed_forks [] = 0
failed_forks (f ∷ fs) = failed_fork f.child + failed_forks fs

length-started :
    (now : ℤ) (o : Option ℕ) (f : Fork) → length (started_entry now o f.name) + failed_fork o ≡ 1
length-started now none f = refl
length-started now (some pid) f = refl

length-spawned : (now : ℤ) (fs : List Fork) → length (spawned now fs) + failed_forks fs ≡ length fs
unfolding spawned failed_forks
length-spawned now [] = refl
length-spawned now (f ∷ fs) = omega (
  arith,
  length-append (started_entry now f.child f.name) (spawned now fs),
  length-started now f.child f,
  length-spawned now fs,
)

length-take : (n : ℕ) (forks : ℕ → Fork) → length (take_forks n forks) ≡ n
length-take zero forks = refl
length-take (suc n) forks = omega (arith, length-take n (λ i. forks (suc i)))

length-missing :
    (f : WatchdogEntry → Bool) (ws : List WatchdogEntry)
    → length (keep f ws) + missing_count f ws ≡ length ws
unfolding missing_count
length-missing f [] = refl
length-missing f (w ∷ ws) = ground (arith, length-missing f ws)

-- The forks that a check makes: one for each sibling that is gone.
abbrev pub forks_made : ℕ → (ℕ → Bool) → ℤ → (ℕ → Fork) → Option WatchdogState → List Fork
forks_made my_pid alive now forks file =
    take_forks (missing_count (stays my_pid alive now) (load file).watchdogs) forks

-- A check of the siblings leaves as many watchdogs in the state as there were, less one for each fork
-- that failed: it never makes the number larger, whatever number of watchdogs was asked for.
pub siblings_replaced :
    (my_pid : ℕ) (alive : ℕ → Bool) (now : ℤ) (forks : ℕ → Fork) (file : Option WatchdogState)
    → length (check_and_respawn_siblings my_pid alive now forks file).watchdogs
        + failed_forks (forks_made my_pid alive now forks file)
      ≡ length (load file).watchdogs
unfolding check_and_respawn_siblings
siblings_replaced my_pid alive now forks file =
    let ws = (load file).watchdogs in
    let f = stays my_pid alive now in
    let made = take_forks (missing_count f ws) forks in
    omega (
      arith,
      length-append (keep f ws) (spawned now made),
      length-spawned now made,
      length-take (missing_count f ws) forks,
      length-missing f ws,
    )

clamp_count-bounds : (n : ℕ) → (2 ≤ clamp_count n) × (clamp_count n ≤ 5)
unfolding clamp_count
clamp_count-bounds n = ground arith

-- One check of the siblings, by some watchdog at some time.
pub record Check : Type 0 where
  pub my_pid : ℕ
  pub alive : ℕ → Bool
  pub now : ℤ
  pub forks : ℕ → Fork

unfoldable pub check_all : List Check → WatchdogState → WatchdogState
unfolding check_and_respawn_siblings
check_all [] state = state
check_all (c ∷ cs) state =
    check_all cs (check_and_respawn_siblings c.my_pid c.alive c.now c.forks (some state))

check_all-le :
    (cs : List Check) (state : WatchdogState)
    → length (check_all cs state).watchdogs ≤ length state.watchdogs
unfolding check_all
check_all-le [] state = omega arith
check_all-le (c ∷ cs) state =
    let next = check_and_respawn_siblings c.my_pid c.alive c.now c.forks (some state) in
    omega
      (arith, check_all-le cs next, siblings_replaced c.my_pid c.alive c.now c.forks (some state))

-- Whatever count a manager is made with, the state lists at most five watchdogs after it has spawned them, and
-- after any checks of siblings, by whichever of them, at most as many as were spawned.
pub watchdogs_bounded :
    (count my_pid : ℕ) (now : ℤ) (forks : ℕ → Fork) (file : Option WatchdogState)
    (checks : List Check)
    → let first = spawn_watchdogs count my_pid now forks file in
      (length (check_all checks first).watchdogs ≤ length first.watchdogs)
      × (length first.watchdogs ≤ 5)
unfolding spawn_watchdogs
watchdogs_bounded count my_pid now forks file checks =
    let made = take_forks (clamp_count count) forks in
    (
      check_all-le checks (spawn_watchdogs count my_pid now forks file),
      omega (
        arith,
        length-spawned now made,
        length-take (clamp_count count) forks,
        (clamp_count-bounds count).1,
      ),
    )
