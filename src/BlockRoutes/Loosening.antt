-- ===== src/BlockRoutes/Loosening.antt =====
-- What an update that is not held back can change, and what it can still weaken.
use hypr_blocker.Base.{
  ◌≡◌, ◌≢◌, refl, inl, inr, Bool, true, false, ◌||◌, Option, none, some, List, [], ◌∷◌, arith,
  Bool-cases, and_iff,
}
use hypr_blocker.Base.Text.{Text, member, text_eq, text_eq_iff}
use hypr_blocker.Base.Time.{DateTime}
use hypr_blocker.Blocker.Priority.{Priority}
use hypr_blocker.Schedule.{BlockMode, disabled, time_range}
use hypr_blocker.BlockRoutes.{
  LockMode, no_lock, DbBlock, BlockUpdate, rules_set, is_superset, turns_off, disables, unlocks,
  shrinks, grows, is_loosening_update, set_or, set_text, Reply, updated, changed, commit,
  apply_update, canonicalize_priority, on_row, with_priority, update_block, is_disabled, is_no_lock,
  lacks_time, known_mode, known_lock, until_by_mode, until_by_time,
}

-- Every rule of the first text is one of the second.
abbrev pub KeepsRules : Option Text → Option Text → Type 0
KeepsRules old new = (r : Text) → member r (rules_set old) ≡ true → member r (rules_set new) ≡ true

superset-member :
    (a b : List Text) (r : Text) → is_superset a b ≡ true → member r b ≡ true → member r a ≡ true
superset-member a [] r h m = cc m
superset-member a (x ∷ xs) r h m =
    let both = (and_iff (member x a) (is_superset a xs)).0 h in
    elim (Bool-cases (text_eq r x)) [
      | inl e ↦ let same = (text_eq_iff r x).0 e in rw same both.0
      | inr e ↦ superset-member a xs r both.1 (rw e at m)
    ]

shrinks-KeepsRules :
    (requested current : Option Text)
    → shrinks requested current ≡ false
    → KeepsRules current (set_text requested current)
unfolding shrinks
shrinks-KeepsRules none current h = λ r m. m
shrinks-KeepsRules (some t) current h =
    λ r m. superset-member (rules_set (some t)) (rules_set current) r (ground (arith, h)) m

grows-KeepsRules :
    (requested current : Option Text)
    → grows requested current ≡ false
    → KeepsRules (set_text requested current) current
unfolding grows
grows-KeepsRules none current h = λ r m. m
grows-KeepsRules (some t) current h =
    λ r m. superset-member (rules_set current) (rules_set (some t)) r (ground (arith, h)) m

-- What an update that applies at once leaves as strict as it was.
pub record IsGuarded (old new : DbBlock) : Type 0 where
  pub stays_on : old.enabled ≡ true → new.enabled ≡ true
  pub stays_in_use : old.block_mode ≢ disabled → new.block_mode ≢ disabled
  pub stays_locked : old.lock_mode ≢ no_lock → new.lock_mode ≢ no_lock
  pub keeps_sites : KeepsRules old.websites_blocked new.websites_blocked
  pub keeps_media : KeepsRules old.websites_media_blocked new.websites_media_blocked
  pub keeps_apps : KeepsRules old.apps_blocked new.apps_blocked
  pub allows_no_more : KeepsRules new.websites_allowed old.websites_allowed

turns_off_lem : (o : Option Bool) (b : Bool) → turns_off o b ≡ false → b ≡ true → set_or o b ≡ true
unfolding turns_off
turns_off_lem none b h e = e
turns_off_lem (some true) b h e = refl
turns_off_lem (some false) b h e = cc (h, e)

disables_lem :
    (o : Option BlockMode) (m : BlockMode)
    → disables o m ≡ false
    → m ≢ disabled
    → set_or o m ≢ disabled
unfolding disables is_disabled
disables_lem none m h n = n
disables_lem (some r) disabled h n = λ e. n refl
disables_lem (some r) m h n = λ e. cc (h, e)

unlocks_lem :
    (o : Option LockMode) (m : LockMode) → unlocks o m ≡ false → m ≢ no_lock → set_or o m ≢ no_lock
unfolding unlocks is_no_lock
unlocks_lem none m h n = n
unlocks_lem (some r) no_lock h n = λ e. n refl
unlocks_lem (some r) m h n = λ e. cc (h, e)

-- A refusal of seven tests in a row is a refusal of each.
none_of_seven :
    (a b c d e f g : Bool)
    → (a || b || c || d || e || f || g) ≡ false
    → (a ≡ false)
      × (b ≡ false)
      × (c ≡ false)
      × (d ≡ false)
      × (e ≡ false)
      × (f ≡ false)
      × (g ≡ false)
none_of_seven a b c d e f g h = ground (arith, h)

changed-IsGuarded :
    (db : DbBlock) (block : BlockUpdate) (priority : Option Priority) (until : Option DateTime)
    → is_loosening_update db block ≡ false
    → IsGuarded db (changed db block priority until)
unfolding is_loosening_update
changed-IsGuarded db block priority until h =
    let (on, mode, lock, sites, media, apps, allowed) =
      none_of_seven (turns_off block.enabled db.enabled) (disables block.block_mode db.block_mode)
        (unlocks block.lock_mode db.lock_mode) (shrinks block.websites_blocked db.websites_blocked)
        (shrinks block.websites_media_blocked db.websites_media_blocked)
        (shrinks block.apps_blocked db.apps_blocked)
        (grows block.websites_allowed db.websites_allowed) h in
    record {
      stays_on = turns_off_lem block.enabled db.enabled on;
      stays_in_use = disables_lem block.block_mode db.block_mode mode;
      stays_locked = unlocks_lem block.lock_mode db.lock_mode lock;
      keeps_sites = shrinks-KeepsRules block.websites_blocked db.websites_blocked sites;
      keeps_media = shrinks-KeepsRules block.websites_media_blocked db.websites_media_blocked media;
      keeps_apps = shrinks-KeepsRules block.apps_blocked db.apps_blocked apps;
      allows_no_more = grows-KeepsRules block.websites_allowed db.websites_allowed allowed;
    }

commit-changed :
    (db new : DbBlock) (block : BlockUpdate) (priority : Option Priority)
    (until : Option (Option DateTime))
    → commit db block priority until ≡ updated new
    → (t : Option DateTime) × (changed db block priority t ≡ new)
unfolding commit
commit-changed db new block priority none h = cc h
commit-changed db new block priority (some t) h =
    elim (Bool-cases (lacks_time (set_or block.lock_mode db.lock_mode) t)) [
      | inl e ↦ let no : Reply.refused 400 ≡ updated new = rw e at h in cc no
      | inr e ↦
          let yes : updated (changed db block priority t) ≡ updated new = rw e at h in (t, cc yes)
    ]

apply_update-changed :
    (db new : DbBlock) (block : BlockUpdate) (priority : Option Priority)
    → apply_update db block priority ≡ updated new
    → (t : Option DateTime) × (changed db block priority t ≡ new)
unfolding apply_update
apply_update-changed db new block priority h = elim (Bool-cases (known_mode block.block_mode)) [
  | inl e ↦ elim (Bool-cases (known_lock block.lock_mode)) [
    | inl f ↦
        commit-changed db new block priority
          (until_by_time block.lock_until (until_by_mode block.lock_mode db.lock_until))
          (rw (e, f) at h)
    | inr f ↦ let no : Reply.refused 400 ≡ updated new = rw (e, f) at h in cc no
  ]
  | inr e ↦ let no : Reply.refused 400 ≡ updated new = rw e at h in cc no
]

with_priority-IsGuarded :
    (locked : Bool) (db new : DbBlock) (block : BlockUpdate) (priority : Option (Option Priority))
    → with_priority locked true (some db) block priority ≡ updated new
    → IsGuarded db new
unfolding with_priority on_row
with_priority-IsGuarded locked db new block none h = cc h
with_priority-IsGuarded true db new block (some p) h = cc h
with_priority-IsGuarded false db new block (some p) h =
    elim (Bool-cases (is_loosening_update db block)) [
      | inl e ↦ let no : Reply.queued ≡ updated new = rw e at h in cc no
      | inr e ↦
          let (t, same) = apply_update-changed db new block p (rw e at h) in
          rw (← same) (changed-IsGuarded db block p t e)
    ]

-- With the delay on, an update that is applied at once leaves an enabled block enabled, a mode other than
-- `disabled` another mode than that, and a lock mode other than `none` likewise; every blocked site,
-- media and application rule stays, and every allowed rule was allowed before.
pub immediate_update-IsGuarded :
    (locked : Bool) (db new : DbBlock) (block : BlockUpdate)
    → update_block locked true (some db) block ≡ updated new
    → IsGuarded db new
unfolding update_block
immediate_update-IsGuarded locked db new block h =
    with_priority-IsGuarded locked db new block (canonicalize_priority block.priority) h

-- A request that only sets hours.
abbrev pub hours_only : Text → Text → Text → BlockUpdate
hours_only days start end = record {
  name = none;
  block_mode = some time_range;
  block_days_of_week = some days;
  block_start_time = some start;
  block_end_time = some end;
  lock_mode = none;
  lock_until = none;
  enabled = none;
  websites_blocked = none;
  websites_allowed = none;
  websites_media_blocked = none;
  apps_blocked = none;
  priority = none;
}

-- An update that only puts a block on hours is never held back: whatever its mode was and whatever the
-- hours are, it applies at once, also with the delay on, if the block is not locked and its lock mode
-- has the time that it needs.
pub hours_apply_at_once :
    (db : DbBlock) (days start end : Text)
    → lacks_time db.lock_mode db.lock_until ≡ false
    → update_block false true (some db) (hours_only days start end)
      ≡ updated (record db {
        block_mode = time_range;
        block_days_of_week = some days;
        block_start_time = some start;
        block_end_time = some end;
      })
unfolding update_block with_priority canonicalize_priority on_row is_loosening_update apply_update
    commit
hours_apply_at_once db days start end h = rw h refl
