-- ===== src/Unblock/Delay.antt =====
-- update_unblock_delay_settings of daemon/api/routes/settings.py: the delay itself, whose loosening waits as well.
pub mod Loosening
use hypr_blocker.Base.{
  ℕ, ◌≡◌, refl, sym, ap, ◌∙◌, inl, inr, ◌⊎◌, Bool, true, false, not, ◌&&◌, ◌||◌, Option, none, some,
  List, [], ◌∷◌, arith, Bool-cases, if◌then◌else◌,
}
use hypr_blocker.Base.Int.{ℤ, pos, ◌+ℤ◌, ◌≤ℤ◌, ltb_ℤ, eqb_ℤ, max_ℤ, min_ℤ, eq_of_parts}
use hypr_blocker.Base.Time.{minutes}
use hypr_blocker.Unblock.Queue.{
  SettingsPayload, Change, settings, PendingUnblock, Config, Store, delay_settings, cancel_all,
  cancel_settings_pending, cancel_same, new_entry, admit, enqueue,
}

pub record UnblockDelayUpdate : Type 0 where
  pub enabled : Option Bool
  pub delay_minutes : Option ℤ

-- An HTTP error, an exception, nothing to change, a queued change, or one that was saved.
pub data DelayReply : Type 0 where
  refused : ℕ → DelayReply
  failed : DelayReply
  unchanged saved : Store → DelayReply
  queued : PendingUnblock → Store → DelayReply

abbrev same_flag : Bool → Bool → Bool
same_flag true b = b
same_flag false b = not b

-- The keys of the payload: what differs from the configuration.
abbrev pub changed_enabled : Option Bool → Bool → Option Bool
changed_enabled none current = none
changed_enabled (some b) current = if same_flag b current then none else some b

abbrev pub changed_minutes : Option ℤ → ℤ → Option ℤ
changed_minutes none current = none
changed_minutes (some n) current = if eqb_ℤ n current then none else some n

abbrev pub out_of_range : Option ℤ → Bool
out_of_range none = false
out_of_range (some n) = ltb_ℤ n (pos 1) || ltb_ℤ (pos 1440) n

abbrev pub disables : Option Bool → Bool
disables none = false
disables (some b) = not b

abbrev pub shortens : Option ℤ → ℤ → Bool
shortens none now = false
shortens (some n) now = ltb_ℤ n now

abbrev pub set_minutes : Option ℤ → Config → Config
set_minutes none c = c
set_minutes (some n) c = record c { unblock_delay_minutes = n }

abbrev pub set_enabled : Option Bool → Config → Config
set_enabled none c = c
set_enabled (some b) c = record c { unblock_delay_enabled = b }

-- The change that is saved at once; turning the delay off empties the queue.
unfoldable pub save_now : Option Bool → Option ℤ → Store → Store
save_now enabled mins s = record s {
  config = set_enabled enabled (set_minutes mins s.config);
  pending = if disables enabled then (cancel_all s).1.pending else s.pending;
}

abbrev pub queue_reply : Option (PendingUnblock × Store) → DelayReply
queue_reply none = failed
queue_reply (some (p, s)) = queued p s

unfoldable pub change_delay : Option Bool → Option ℤ → ℕ → ℤ → Bool × ℤ → Store → DelayReply
unfolding save_now enqueue
change_delay none none id now (enabled_now, minutes_now) s = unchanged s
change_delay enabled mins id now (enabled_now, minutes_now) s =
    if enabled_now && (disables enabled && enabled_now || shortens mins minutes_now)
    then queue_reply
        (enqueue id (settings (record { new_minutes = mins; new_enabled = enabled })) now s)
    else saved (save_now enabled mins s)

-- `update_unblock_delay_settings`, with the id of a new entry.
unfoldable pub update_unblock_delay : UnblockDelayUpdate → ℕ → ℤ → Store → DelayReply
unfolding change_delay delay_settings
update_unblock_delay u id now s =
    if out_of_range u.delay_minutes
    then refused 400
    else change_delay (changed_enabled u.enabled s.config.unblock_delay_enabled)
        (changed_minutes u.delay_minutes s.config.unblock_delay_minutes) id now
        (delay_settings s.config) s
