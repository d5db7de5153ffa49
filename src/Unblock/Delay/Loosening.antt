-- ===== src/Unblock/Delay/Loosening.antt =====
-- A loosening of the delay waits for the delay.
use hypr_blocker.Base.{
  ℕ, ◌≡◌, refl, ap, inl, inr, Bool, true, false, not, ◌&&◌, ◌||◌, Option, none, some, arith,
  Bool-cases, if◌then◌else◌,
}
use hypr_blocker.Base.Int.{ℤ, pos, ◌+ℤ◌, ◌≤ℤ◌, ltb_ℤ, eqb_ℤ, max_ℤ, min_ℤ, eq_of_parts}
use hypr_blocker.Base.Time.{minutes}
use hypr_blocker.Unblock.Queue.{
  SettingsPayload, settings, PendingUnblock, Config, Store, delay_settings, cancel_settings_pending,
  cancel_same, new_entry, admit, enqueue,
}
use hypr_blocker.Unblock.Delay.{
  UnblockDelayUpdate, DelayReply, refused, failed, unchanged, saved, queued, changed_enabled,
  changed_minutes, out_of_range, disables, shortens, save_now, queue_reply, change_delay,
  update_unblock_delay,
}

-- A store in which the delay is on, and what a reply may have done to it: the delay stays on and gets no shorter, and
-- a queued change waits for the delay and leaves the delay as it is.
abbrev pub KeepsDelay : ℤ → Store → DelayReply → Type 0
KeepsDelay now s (refused code) = Unit
KeepsDelay now s failed = ⊥
KeepsDelay now s (unchanged t) = t ≡ s
KeepsDelay now s (saved t) =
    (t.config.unblock_delay_enabled ≡ true)
    × (s.config.unblock_delay_minutes ≤ℤ t.config.unblock_delay_minutes)
KeepsDelay now s (queued p t) =
    (t.config ≡ s.config) × (p.effective_at ≡ now +ℤ minutes s.config.unblock_delay_minutes)

sane_minutes :
    (n : ℤ)
    → pos 1 ≤ℤ n
    → n ≤ℤ pos 1440
    → max_ℤ (pos 1) (min_ℤ (if eqb_ℤ n (pos 0) then pos 10 else n) (pos 1440)) ≡ n
sane_minutes n low high =
    let stated : eqb_ℤ n (pos 0) ≡ false = ground (arith, low) in
    let most : ltb_ℤ (pos 1440) n ≡ false = ground (arith, high) in
    rw (stated, most)
      (elim (Bool-cases (ltb_ℤ (pos 1) n)) [
        | inl e ↦ rw e refl
        | inr e ↦ rw e (eq_of_parts (pos 1) n (ground (arith, low, e)))
      ])

delay_on : (c : Config) → c.unblock_delay_enabled ≡ true → (delay_settings c).0 ≡ true
unfolding delay_settings
delay_on c h = h

delay_minutes_lem :
    (c : Config)
    → pos 1 ≤ℤ c.unblock_delay_minutes
    → c.unblock_delay_minutes ≤ℤ pos 1440
    → (delay_settings c).1 ≡ c.unblock_delay_minutes
unfolding delay_settings
delay_minutes_lem c low high = sane_minutes c.unblock_delay_minutes low high

admit-KeepsDelay :
    (on : Bool) (entry : PendingUnblock) (now : ℤ) (left s : Store)
    → on ≡ true
    → left.config ≡ s.config
    → entry.effective_at ≡ now +ℤ minutes s.config.unblock_delay_minutes
    → KeepsDelay now s (queue_reply (admit on entry left))
unfolding admit
admit-KeepsDelay false entry now left s h c e = cc h
admit-KeepsDelay true entry now left s h c e = (c, e)

cancel_same-config :
    (p : SettingsPayload) (s : Store) → (cancel_same (settings p) s).config ≡ s.config
unfolding cancel_same cancel_settings_pending
cancel_same-config p s = refl

module _ (id : ℕ) (now : ℤ) (s : Store) (on : s.config.unblock_delay_enabled ≡ true) where
  queued-KeepsDelay :
      (p : SettingsPayload)
      → (delay_settings s.config).1 ≡ s.config.unblock_delay_minutes
      → KeepsDelay now s (queue_reply (enqueue id (settings p) now s))
  unfolding enqueue
  queued-KeepsDelay p sane =
      admit-KeepsDelay (delay_settings s.config).0
        (new_entry id (settings p) now (delay_settings s.config).1) now (cancel_same (settings p) s)
        s (delay_on s.config on) (cancel_same-config p s) (ap (λ m. now +ℤ minutes m) sane)

  saved-KeepsDelay :
      (enabled : Option Bool) (mins : Option ℤ)
      → (disables enabled || shortens mins s.config.unblock_delay_minutes) ≡ false
      → KeepsDelay now s (saved (save_now enabled mins s))
  unfolding save_now
  saved-KeepsDelay none none e = (on, omega arith)
  saved-KeepsDelay none (some m) e = (on, ground (arith, e))
  saved-KeepsDelay (some true) none e = (refl, omega arith)
  saved-KeepsDelay (some true) (some m) e = (refl, ground (arith, e))
  saved-KeepsDelay (some false) mins e = cc e

  either-KeepsDelay :
      (loosening : Bool) (r t : DelayReply)
      → KeepsDelay now s r
      → (loosening ≡ false → KeepsDelay now s t)
      → KeepsDelay now s (if loosening then r else t)
  either-KeepsDelay true r t h f = h
  either-KeepsDelay false r t h f = f refl

  test_lem :
      (on_now off short : Bool)
      → on_now ≡ true
      → (on_now && (off && on_now || short)) ≡ false
      → (off || short) ≡ false
  test_lem on_now off short h e = ground (arith, h, e)

  change-KeepsDelay :
      (enabled : Option Bool) (mins : Option ℤ) (on_now : Bool) (current : ℤ)
      → on_now ≡ true
      → current ≡ s.config.unblock_delay_minutes
      → (delay_settings s.config).1 ≡ s.config.unblock_delay_minutes
      → KeepsDelay now s (change_delay enabled mins id now (on_now, current) s)
  unfolding change_delay
  change-KeepsDelay none none on_now current h k sane = refl
  change-KeepsDelay none (some m) on_now current h k sane =
      either-KeepsDelay (on_now && (false && on_now || shortens (some m) current))
        (queue_reply
          (enqueue id (settings (record { new_minutes = some m; new_enabled = none })) now s))
        (saved (save_now none (some m) s))
        (queued-KeepsDelay (record { new_minutes = some m; new_enabled = none }) sane)
        (λ e.
          saved-KeepsDelay none (some m)
            (rw (← k) (test_lem on_now false (shortens (some m) current) h e)))
  change-KeepsDelay (some b) mins on_now current h k sane =
      either-KeepsDelay (on_now && (not b && on_now || shortens mins current))
        (queue_reply
          (enqueue id (settings (record { new_minutes = mins; new_enabled = some b })) now s))
        (saved (save_now (some b) mins s))
        (queued-KeepsDelay (record { new_minutes = mins; new_enabled = some b }) sane)
        (λ e.
          saved-KeepsDelay (some b) mins
            (rw (← k) (test_lem on_now (not b) (shortens mins current) h e)))

-- While the delay is on and set to between a minute and a day, a request to change the delay saves at once only what
-- leaves it on and no shorter; any other change that is accepted is queued for the length of the delay, which
-- stays as it is until then.
pub delay_loosening_waits :
    (u : UnblockDelayUpdate) (id : ℕ) (now : ℤ) (s : Store)
    → s.config.unblock_delay_enabled ≡ true
    → pos 1 ≤ℤ s.config.unblock_delay_minutes
    → s.config.unblock_delay_minutes ≤ℤ pos 1440
    → KeepsDelay now s (update_unblock_delay u id now s)
unfolding update_unblock_delay
delay_loosening_waits u id now s on low high =
    let sane = delay_minutes_lem s.config low high in
    elim (Bool-cases (out_of_range u.delay_minutes)) [
      | inl e ↦ rw e tt
      | inr e ↦ rw e (
          change-KeepsDelay id now s on (changed_enabled u.enabled s.config.unblock_delay_enabled)
            (changed_minutes u.delay_minutes s.config.unblock_delay_minutes)
            (delay_settings s.config).0 (delay_settings s.config).1 (delay_on s.config on) sane
            sane)
    ]
