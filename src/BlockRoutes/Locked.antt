-- ===== src/BlockRoutes/Locked.antt =====
-- What the routes can do to a block while it is locked.
use hypr_blocker.Base.{
  ◌≡◌, refl, sym, ap, ◌∙◌, inl, inr, Bool, true, false, not, Option, none, some, List, [], ◌∷◌,
  arith, All, Bool-cases, and_iff,
}
use hypr_blocker.Base.Int.{ℤ, pos, +ℤ_parts, ◌≤ℤ◌, ◌<ℤ◌, leb_ℤ}
use hypr_blocker.Base.Text.{member}
use hypr_blocker.Base.Time.{DateTime, naive, aware, as_utc}
use hypr_blocker.BlockRoutes.{
  locked_until, DbBlock, BlockUpdate, rules_set, Reply, updated, update_block, with_priority,
  canonicalize_priority,
}
use hypr_blocker.Blocker.Priority.{Priority}
use hypr_blocker.BlockRoutes.Loosening.{KeepsRules}
use hypr_blocker.BlockRoutes.Strict.{
  IsoTime, local, zoned, instant, stored, BlockStrictUpdate, stricter, update_block_strict,
  extend_from, extend_row, extend_block_lock, DeleteReply, deleted, delete_block, lock_time,
}
use hypr_blocker.BlockRoutes.Strict.Rules.{strict_update_rules}
use hypr_blocker.LockManager.{locked_at, by_mode, before_time}

-- A call of one of the routes that change a block.
pub data Call : Type 0 where
  update_call : BlockUpdate → Call
  delete_call : Call
  strict_call : BlockStrictUpdate → Call
  extend_call : Bool → Option IsoTime → Call

abbrev row_of : Option DbBlock → Reply → Option DbBlock
row_of row (updated db) = some db
row_of row _ = row

abbrev row_after_delete : Option DbBlock → DeleteReply → Option DbBlock
row_after_delete row deleted = none
row_after_delete row _ = row

-- The guard of `check_block_lock`: an exception of the lock manager ends the request as well.
abbrev guarded : Option Bool → Bool
guarded none = true
guarded (some locked) = locked

is_locked : Option DbBlock → ℤ → Bool
unfolding locked_at
is_locked none now = false
is_locked (some db) now = guarded (locked_at db now)

-- The row after a call at the time that the clock shows.
unfoldable pub call_at : Bool → Call → ℤ → Option DbBlock → Option DbBlock
unfolding is_locked
call_at delay_on (update_call u) now row =
    row_of row (update_block (is_locked row now) delay_on row u)
call_at delay_on delete_call now row =
    row_after_delete row (delete_block (is_locked row now) delay_on row)
call_at delay_on (strict_call u) now row = row_of row (update_block_strict u row)
call_at delay_on (extend_call valid until) now row = row_of row (extend_block_lock valid until row)

unfoldable pub call_all : Bool → List (Call × ℤ) → Option DbBlock → Option DbBlock
unfolding call_at
call_all delay_on [] row = row
call_all delay_on ((c, now) ∷ cs) row = call_all delay_on cs (call_at delay_on c now row)

-- An extension does not name a zone that is behind UTC.
abbrev pub NotBehindUtc : Call → Type 0
NotBehindUtc (extend_call valid (some (zoned t offset))) = pos 0 ≤ℤ offset
NotBehindUtc _ = Unit

-- The same of the requested time.
abbrev ZoneNotBehind : Option IsoTime → Type 0
ZoneNotBehind (some (zoned t offset)) = pos 0 ≤ℤ offset
ZoneNotBehind _ = Unit

-- The row is there, enabled and locked until the time given or later, and its rules are at least as strict.
pub record IsHeld (until : ℤ) (old new : DbBlock) : Type 0 where
  pub stays_on : new.enabled ≡ true
  pub stays_locked : new.lock_mode ≡ locked_until
  pub lock : DateTime
  pub has_lock : new.lock_until ≡ some lock
  pub no_earlier : until ≤ℤ as_utc lock
  pub keeps_sites : KeepsRules old.websites_blocked new.websites_blocked
  pub keeps_media : KeepsRules old.websites_media_blocked new.websites_media_blocked
  pub keeps_apps : KeepsRules old.apps_blocked new.apps_blocked
  pub allows_no_more : KeepsRules new.websites_allowed old.websites_allowed

-- The same of a row that may be missing.
abbrev pub HeldRow : ℤ → DbBlock → Option DbBlock → Type 0
HeldRow until old none = ⊥
HeldRow until old (some new) = IsHeld until old new

still_before :
    (now until : ℤ) (t : DateTime)
    → now <ℤ until
    → until ≤ℤ as_utc t
    → guarded (before_time now t) ≡ true
unfolding before_time
still_before now until (naive t) h k = ground arith
still_before now until (aware t) h k = refl

held-is_locked :
    (until now : ℤ) (old new : DbBlock)
    → now <ℤ until
    → IsHeld until old new
    → is_locked (some new) now ≡ true
unfolding is_locked locked_at by_mode
held-is_locked until now old new h held =
    let on = held.stays_on in
    let mode = held.stays_locked in
    let lock = held.has_lock in
    rw (on, mode, lock) (still_before now until held.lock h held.no_earlier)

locked-update :
    (delay_on : Bool) (u : BlockUpdate) (row : Option DbBlock) (p : Option (Option Priority))
    → row_of row (with_priority true delay_on row u p) ≡ row
unfolding with_priority
locked-update delay_on u row none = refl
locked-update delay_on u row (some p) = refl

locked-delete :
    (delay_on : Bool) (row : Option DbBlock)
    → row_after_delete row (delete_block true delay_on row) ≡ row
unfolding delete_block
locked-delete delay_on row = refl

strict-IsHeld :
    (until : ℤ) (old new : DbBlock) (u : BlockStrictUpdate)
    → IsHeld until old new
    → IsHeld until old (stricter u new)
unfolding stricter update_block_strict
strict-IsHeld until old new u h = record {
  stays_on = h.stays_on;
  stays_locked = h.stays_locked;
  lock = h.lock;
  has_lock = h.has_lock;
  no_earlier = h.no_earlier;
  keeps_sites = λ r m.
      let (sites, _, _, _, _) = strict_update_rules new (stricter u new) u r refl in
      let kept = h.keeps_sites r m in rw (sites, kept) refl;
  keeps_media = λ r m.
      let (_, media, _, _, _) = strict_update_rules new (stricter u new) u r refl in
      let kept = h.keeps_media r m in rw (media, kept) refl;
  keeps_apps = λ r m.
      let (_, _, apps, _, _) = strict_update_rules new (stricter u new) u r refl in
      let kept = h.keeps_apps r m in rw (apps, kept) refl;
  allows_no_more = λ r m.
      let (_, _, _, allowed, _) = strict_update_rules new (stricter u new) u r refl in
      h.allows_no_more r
        ((and_iff (member r (rules_set new.websites_allowed))
            (not (member r (rules_set u.websites_allowed_remove)))).0
          (sym allowed ∙ m)).0;
}

later-IsHeld :
    (until : ℤ) (old new : DbBlock) (t : DateTime)
    → until ≤ℤ as_utc t
    → IsHeld until old new
    → IsHeld until old (record new { lock_until = some t })
later-IsHeld until old new t later h = record {
  stays_on = h.stays_on;
  stays_locked = h.stays_locked;
  lock = t;
  has_lock = refl;
  no_earlier = later;
  keeps_sites = h.keeps_sites;
  keeps_media = h.keeps_media;
  keeps_apps = h.keeps_apps;
  allows_no_more = h.allows_no_more;
}

extend_from-HeldRow :
    (until : ℤ) (old new : DbBlock) (current : DateTime) (requested : Option IsoTime)
    → ZoneNotBehind requested
    → until ≤ℤ as_utc current
    → IsHeld until old new
    → HeldRow until old (row_of (some new) (extend_from current requested new))
unfolding extend_from
extend_from-HeldRow until old new current none z k h = h
extend_from-HeldRow until old new current (some t) z k h =
    elim (Bool-cases (leb_ℤ (instant t) (as_utc current))) [
      | inl e ↦ rw e h
      | inr e ↦ rw e (later-IsHeld until old new (stored t) (late t z e) h)
    ]
  where
    late :
        (t : IsoTime)
        → ZoneNotBehind (some t)
        → leb_ℤ (instant t) (as_utc current) ≡ false
        → until ≤ℤ as_utc (stored t)
    late (local t) z e = ground (arith, k, e)
    late (zoned t o) z e = ground (arith, k, e, z, +ℤ_parts t o)

extend_row-HeldRow :
    (until : ℤ) (old new : DbBlock) (valid : Bool) (requested : Option IsoTime)
    (lock : Option DateTime) (current : DateTime)
    → ZoneNotBehind requested
    → lock ≡ some current
    → until ≤ℤ as_utc current
    → IsHeld until old new
    → HeldRow until old (row_of (some new) (extend_row valid requested new lock))
unfolding extend_row
extend_row-HeldRow until old new true requested lock current z e k h =
    rw e (extend_from-HeldRow until old new current requested z k h)
extend_row-HeldRow until old new false requested lock current z e k h = rw e h

extend-HeldRow :
    (until : ℤ) (old new : DbBlock) (valid : Bool) (requested : Option IsoTime)
    → ZoneNotBehind requested
    → IsHeld until old new
    → HeldRow until old (row_of (some new) (extend_block_lock valid requested (some new)))
unfolding extend_block_lock
extend-HeldRow until old new valid requested z h =
    let mode = ap (λ m. lock_time m new.lock_until) h.stays_locked in
    let held = ap (lock_time locked_until) h.has_lock in
    extend_row-HeldRow until old new valid requested (lock_time new.lock_mode new.lock_until) h.lock
      z (mode ∙ held) h.no_earlier h

call-HeldRow :
    (delay_on : Bool) (until now : ℤ) (old : DbBlock) (c : Call) (row : Option DbBlock)
    → now <ℤ until
    → NotBehindUtc c
    → HeldRow until old row
    → HeldRow until old (call_at delay_on c now row)
unfolding call_at update_block update_block_strict
call-HeldRow delay_on until now old c none k z h = absurd h
call-HeldRow delay_on until now old (update_call u) (some new) k z h =
    let locked = held-is_locked until now old new k h in
    rw (locked, locked-update delay_on u (some new) (canonicalize_priority u.priority)) h
call-HeldRow delay_on until now old delete_call (some new) k z h =
    let locked = held-is_locked until now old new k h in
    rw (locked, locked-delete delay_on (some new)) h
call-HeldRow delay_on until now old (strict_call u) (some new) k z h =
    strict-IsHeld until old new u h
call-HeldRow delay_on until now old (extend_call valid t) (some new) k z h =
    extend-HeldRow until old new valid t (zone t z) h
  where
    zone : (t : Option IsoTime) → NotBehindUtc (extend_call valid t) → ZoneNotBehind t
    zone none z = tt
    zone (some (local t)) z = tt
    zone (some (zoned t o)) z = z

calls-HeldRow :
    (delay_on : Bool) (until : ℤ) (old : DbBlock) (calls : List (Call × ℤ)) (row : Option DbBlock)
    → All (λ (c : Call × ℤ). (c.1 <ℤ until) × NotBehindUtc c.0) calls
    → HeldRow until old row
    → HeldRow until old (call_all delay_on calls row)
unfolding call_all
calls-HeldRow delay_on until old [] row a h = h
calls-HeldRow delay_on until old ((c, now) ∷ cs) row a h =
    calls-HeldRow delay_on until old cs (call_at delay_on c now row) a.1
      (call-HeldRow delay_on until now old c row a.0.0 a.0.1 h)

-- An enabled block that is locked until a time: whatever calls of the four routes that change a block are made
-- while the clock is before that time, so long as no extension names its time in a zone behind UTC, the
-- block is still there and enabled, locked until that time or later, every blocked rule stays, and every allowed
-- rule was allowed before.
pub locked_block-HeldRow :
    (delay_on : Bool) (db : DbBlock) (until : DateTime) (calls : List (Call × ℤ))
    → db.enabled ≡ true
    → db.lock_mode ≡ locked_until
    → db.lock_until ≡ some until
    → All (λ (c : Call × ℤ). (c.1 <ℤ as_utc until) × NotBehindUtc c.0) calls
    → HeldRow (as_utc until) db (call_all delay_on calls (some db))
locked_block-HeldRow delay_on db until calls on mode lock times =
    calls-HeldRow delay_on (as_utc until) db calls (some db) times (record {
      stays_on = on;
      stays_locked = mode;
      lock = until;
      has_lock = lock;
      no_earlier = omega arith;
      keeps_sites = λ r m. m;
      keeps_media = λ r m. m;
      keeps_apps = λ r m. m;
      allows_no_more = λ r m. m;
    })
