-- ===== src/SettingsRoutes/Locked.antt =====
-- What the lock of the settings holds fast.
use hypr_blocker.Base.{
  ◌≡◌, refl, ap, ◌∙◌, inl, inr, Bool, true, false, not, ◌||◌, Option, none, some, List, [], ◌∷◌,
  arith, All, Bool-cases, if◌then◌else◌,
}
use hypr_blocker.Base.Int.{ℤ, pos, ◌≤ℤ◌, ◌<ℤ◌, min_ℤ, ltb_ℤ, leb_ℤ}
use hypr_blocker.Base.Time.{DateTime, aware, as_utc}
use hypr_blocker.SettingsLock.{
  user, LockSource, locked, is_settings_locked, read_lock_until, parse, by_time,
}
use hypr_blocker.SettingsRoutes.{
  SecurityConfig, Store, World, Call, browser_enforcement, safe_search, shutdown_prevention,
  watchdog, lock, unlock, Reply, refused, done, lock_source, is_settings_locked_ntp,
  reject_if_locked, set_shutdown_prevention, set_watchdog, clamped, set_count, turns_off, lowers,
  change_watchdog, save_lock, lock_user, lock_in, lock_settings, call, store_of, call_all,
}

-- Every protection that was on is on, the number of watchdogs is no lower (five at most are kept), and the lock
-- lasts until the time given or later.
pub record IsProtected (until : ℤ) (old new : SecurityConfig) : Type 0 where
  pub browsers : old.browser_enforcement_enabled ≡ true → new.browser_enforcement_enabled ≡ true
  pub searches : old.safe_search_enabled ≡ true → new.safe_search_enabled ≡ true
  pub shutdowns : old.shutdown_prevention_enabled ≡ true → new.shutdown_prevention_enabled ≡ true
  pub watchdogs : old.watchdog_enabled ≡ true → new.watchdog_enabled ≡ true
  pub count : min_ℤ old.watchdog_count (pos 5) ≤ℤ new.watchdog_count
  pub lock_time : DateTime
  pub has_lock : new.settings_lock_until ≡ some lock_time
  pub no_earlier : until ≤ℤ as_utc lock_time

-- NTP does not answer, or answers a time before.
abbrev pub NotReached : ℤ → Option ℤ → Type 0
NotReached until none = Unit
NotReached until (some t) = t <ℤ until

-- A call in the layout of the user while NTP has not reached the time.
abbrev pub Within : ℤ → Call × World → Type 0
Within until c = (c.1.layout ≡ user) × NotReached until c.1.ntp

user_locked :
    (until now : ℤ) (ntp : Option ℤ) (file : LockSource) (l : DateTime)
    → NotReached until ntp
    → until ≤ℤ as_utc l
    → is_settings_locked user true now ntp (lock_source user file (some l)) ≡ locked
unfolding is_settings_locked read_lock_until parse by_time
user_locked until now none file l n k = refl
user_locked until now (some t) file l n k =
    let before : ltb_ℤ t (as_utc l) ≡ true = ground (arith, n, k) in rw before refl

module _ (until : ℤ) (old : SecurityConfig) where
  still_locked :
      (w : World) (c : SecurityConfig)
      → w.layout ≡ user
      → NotReached until w.ntp
      → IsProtected until old c
      → is_settings_locked_ntp w c ≡ locked
  unfolding is_settings_locked_ntp
  still_locked w c layout n h =
      let held = h.has_lock in
      ap
        (λ l.
          is_settings_locked l true w.now w.ntp (lock_source l w.lock_file c.settings_lock_until))
        layout
      ∙ ap (λ o. is_settings_locked user true w.now w.ntp (lock_source user w.lock_file o)) held
      ∙ user_locked until w.now w.ntp w.lock_file h.lock_time n h.no_earlier

  Protected : Store → Reply → Type 0
  Protected s r = IsProtected until old (store_of s r).config

  reject-Protected :
      (loosening : Bool) (w : World) (s : Store) (rest : Reply)
      → is_settings_locked_ntp w s.config ≡ locked
      → IsProtected until old s.config
      → (loosening ≡ false → Protected s rest)
      → Protected s (reject_if_locked loosening w s.config rest)
  unfolding Protected reject_if_locked
  reject-Protected true w s rest k h f = rw k h
  reject-Protected false w s rest k h f = f refl

  -- A change that turns nothing off and leaves the lock alone.
  moved-IsProtected :
      (c d : SecurityConfig)
      → IsProtected until old c
      → (c.browser_enforcement_enabled ≡ true → d.browser_enforcement_enabled ≡ true)
      → (c.safe_search_enabled ≡ true → d.safe_search_enabled ≡ true)
      → (c.shutdown_prevention_enabled ≡ true → d.shutdown_prevention_enabled ≡ true)
      → (c.watchdog_enabled ≡ true → d.watchdog_enabled ≡ true)
      → min_ℤ old.watchdog_count (pos 5) ≤ℤ d.watchdog_count
      → d.settings_lock_until ≡ c.settings_lock_until
      → IsProtected until old d
  moved-IsProtected c d h b q p w n l = record {
    browsers = λ e. b (h.browsers e);
    searches = λ e. q (h.searches e);
    shutdowns = λ e. p (h.shutdowns e);
    watchdogs = λ e. w (h.watchdogs e);
    count = n;
    lock_time = h.lock_time;
    has_lock = l ∙ h.has_lock;
    no_earlier = h.no_earlier;
  }

  shutdown-IsProtected :
      (enabled : Bool) (w : World) (s : Store)
      → not enabled ≡ false
      → IsProtected until old s.config
      → IsProtected until old (set_shutdown_prevention enabled w s).config
  unfolding set_shutdown_prevention
  shutdown-IsProtected false w s e h = cc e
  shutdown-IsProtected true w s e h =
      moved-IsProtected s.config (record s.config { shutdown_prevention_enabled = true }) h (λ k. k)
        (λ k. k) (λ _. refl) (λ k. k) h.count refl

  watchdog-IsProtected :
      (w : World) (s : Store)
      → IsProtected until old s.config
      → IsProtected until old (set_watchdog true w s).config
  unfolding set_watchdog
  watchdog-IsProtected w s h =
      moved-IsProtected s.config (record s.config { watchdog_enabled = true }) h (λ k. k) (λ k. k)
        (λ k. k) (λ _. refl) h.count refl

  count-IsProtected :
      (count : Option ℤ) (current : ℤ) (s : Store)
      → lowers count current ≡ false
      → min_ℤ old.watchdog_count (pos 5) ≤ℤ current
      → IsProtected until old s.config
      → IsProtected until old (set_count count s).config
  count-IsProtected none current s e k h = h
  count-IsProtected (some n) current s e k h =
      moved-IsProtected s.config (record s.config { watchdog_count = clamped n }) h (λ m. m)
        (λ m. m) (λ m. m) (λ m. m) (ground (arith, e, k)) refl

  if-Protected :
      (b : Bool) (r t : Reply) (s : Store)
      → Protected s r
      → Protected s t
      → Protected s (if b then r else t)
  if-Protected true r t s h k = h
  if-Protected false r t s h k = k

  change-Protected :
      (enabled : Option Bool) (count : Option ℤ) (w : World) (s : Store)
      → (turns_off enabled || lowers count s.config.watchdog_count) ≡ false
      → IsProtected until old s.config
      → Protected s (change_watchdog enabled count w s)
  unfolding Protected change_watchdog
  change-Protected none count w s e h =
      count-IsProtected count s.config.watchdog_count s e h.count h
  change-Protected (some false) count w s e h = cc e
  change-Protected (some true) count w s e h =
      if-Protected (not s.config.shutdown_prevention_enabled) (refused 400)
        (done (set_count count (set_watchdog true w s))) s h
        (count-IsProtected count s.config.watchdog_count (set_watchdog true w s) e h.count
          (watchdog-IsProtected w s h))

  -- A later lock.
  later-IsProtected :
      (t current : DateTime) (s : Store)
      → leb_ℤ (as_utc t) (as_utc current) ≡ false
      → until ≤ℤ as_utc current
      → IsProtected until old s.config
      → Protected s (save_lock t s)
  unfolding Protected
  later-IsProtected t current s e k h = record {
    browsers = h.browsers;
    searches = h.searches;
    shutdowns = h.shutdowns;
    watchdogs = h.watchdogs;
    count = h.count;
    lock_time = aware (as_utc t);
    has_lock = refl;
    no_earlier = ground (arith, e, k);
  }

  lock_user-Protected :
      (t current : DateTime) (w : World) (s : Store)
      → is_settings_locked_ntp w s.config ≡ locked
      → until ≤ℤ as_utc current
      → IsProtected until old s.config
      → Protected s (lock_user t (some current) w s)
  unfolding Protected lock_user
  lock_user-Protected t current w s locked_now k h =
      elim (Bool-cases (leb_ℤ (as_utc t) (as_utc current))) [
        | inl e ↦ rw (locked_now, e) h
        | inr e ↦ rw (locked_now, e) (later-IsProtected t current s e k h)
      ]

  lock-Protected :
      (t : Option DateTime) (w : World) (s : Store)
      → w.layout ≡ user
      → is_settings_locked_ntp w s.config ≡ locked
      → IsProtected until old s.config
      → Protected s (lock_settings t w s)
  unfolding Protected lock_settings lock_in
  lock-Protected none w s layout locked_now h = h
  lock-Protected (some t) w s layout locked_now h =
      let same = ap (λ l. lock_in l t w s) layout ∙ ap (λ o. lock_user t o w s) h.has_lock in
      if-Protected w.time_valid (lock_in w.layout t w s) (refused 403) s
        (rw same (lock_user-Protected t h.lock_time w s locked_now h.no_earlier h)) h

  call-Protected :
      (c : Call) (w : World) (s : Store)
      → w.layout ≡ user
      → is_settings_locked_ntp w s.config ≡ locked
      → IsProtected until old s.config
      → Protected s (call c w s)
  unfolding Protected call
  call-Protected (browser_enforcement on) w s layout k h =
      reject-Protected (not on) w s
        (done (record s { config = record s.config { browser_enforcement_enabled = on } })) k h
        (λ e.
          moved-IsProtected s.config (record s.config { browser_enforcement_enabled = on }) h
            (λ _. ground (arith, e)) (λ m. m) (λ m. m) (λ m. m) h.count refl)
  call-Protected (safe_search on) w s layout k h =
      reject-Protected (not on) w s
        (done (record s { config = record s.config { safe_search_enabled = on } })) k h
        (λ e.
          moved-IsProtected s.config (record s.config { safe_search_enabled = on }) h (λ m. m)
            (λ _. ground (arith, e)) (λ m. m) (λ m. m) h.count refl)
  call-Protected (shutdown_prevention on) w s layout k h =
      reject-Protected (not on) w s (done (set_shutdown_prevention on w s)) k h
        (λ e. shutdown-IsProtected on w s e h)
  call-Protected (watchdog on count) w s layout k h =
      reject-Protected (turns_off on || lowers count s.config.watchdog_count) w s
        (change_watchdog on count w s) k h (λ e. change-Protected on count w s e h)
  call-Protected (lock t) w s layout k h = lock-Protected t w s layout k h
  call-Protected unlock w s layout k h = rw k h

  calls-IsProtected :
      (calls : List (Call × World)) (s : Store)
      → All (Within until) calls
      → IsProtected until old s.config
      → IsProtected until old (call_all calls s).config
  unfolding call_all Protected
  calls-IsProtected [] s a h = h
  calls-IsProtected ((c, w) ∷ cs) s a h =
      let locked_now = still_locked w s.config a.0.0 a.0.1 h in
      calls-IsProtected cs (store_of s (call c w s)) a.1 (call-Protected c w s a.0.0 locked_now h)

-- In the layout of the user, with the settings locked until a time: whatever calls of the routes for browser
-- enforcement, safe search, shutdown prevention, the watchdogs and the lock are made while NTP does not answer or
-- answers a time before that one, every protection that was on stays on, the number of watchdogs is no lower than it
-- was, or than five, and the settings stay locked until that time or later.
pub locked_settings-IsProtected :
    (s : Store) (until : DateTime) (calls : List (Call × World))
    → s.config.settings_lock_until ≡ some until
    → All (Within (as_utc until)) calls
    → IsProtected (as_utc until) s.config (call_all calls s).config
locked_settings-IsProtected s until calls lock_set times =
    calls-IsProtected (as_utc until) s.config calls s times (record {
      browsers = λ e. e;
      searches = λ e. e;
      shutdowns = λ e. e;
      watchdogs = λ e. e;
      count = ground arith;
      lock_time = until;
      has_lock = lock_set;
      no_earlier = omega arith;
    })
