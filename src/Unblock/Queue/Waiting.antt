-- ===== src/Unblock/Queue/Waiting.antt =====
-- A queued change waits for the whole delay, counted from the last request for the same block.
use hypr_blocker.Base.{
  ℕ, ◌≡◌, refl, sym, ap, ◌∙◌, Bool, true, false, not, Option, some, List, [], ◌∷◌, arith, ◌≢◌, ◌==◌,
  All, keep, All-keep, All-mono,
}
use hypr_blocker.Base.Int.{ℤ, pos, ◌+ℤ◌, ◌≤ℤ◌, ◌<ℤ◌, leb_ℤ, +ℤ_parts, scale_parts}
use hypr_blocker.Base.Text.{Text}
use hypr_blocker.Base.Time.{DateTime, minutes, hours}
use hypr_blocker.Unblock.Queue.{
  Change, delete, update, settings, PendingUnblock, Config, Store, delay_settings, cancel,
  cancel_all, cancel_for_block, cancel_settings_pending, put, cancel_same, new_entry, admit,
  enqueue, apply_all, apply_due,
}
use hypr_blocker.Unblock.Queue.Slots.{
  Op, enqueue_op, cancel_op, cancel_all_op, apply_op, stored, perform, perform_all, slot, All-put,
  cancel_same-stays, All-stays, stays,
}

-- The entry is not due before the time given.
abbrev pub NotDue : ℤ → PendingUnblock → Type 0
NotDue until p = until ≤ℤ p.effective_at

none_due :
    (until now : ℤ) (ps : List PendingUnblock)
    → now <ℤ until
    → All (NotDue until) ps
    → keep (λ (p : PendingUnblock). leb_ℤ p.effective_at now) ps ≡ []
none_due until now [] h a = refl
none_due until now (p ∷ ps) h a =
    let late : leb_ℤ p.effective_at now ≡ false = ground (arith, a.0) in
    rw late (none_due until now ps h a.1)

-- The configuration and the block table of a store.
abbrev SameTables : Store → Store → Type 0
SameTables s s' = (s'.config ≡ s.config) × (s'.rows ≡ s.rows)

cancel_same-tables : (c : Change) (s : Store) → SameTables s (cancel_same c s)
unfolding cancel_same cancel_for_block cancel_settings_pending
cancel_same-tables (delete b) s = (refl, refl)
cancel_same-tables (update b fields) s = (refl, refl)
cancel_same-tables (settings p) s = (refl, refl)

-- The tables are as they were, and no entry is due before the time given.
record IsQuiet (until : ℤ) (s s' : Store) : Type 0 where
  pub tables : SameTables s s'
  pub waiting : All (NotDue until) s'.pending

admit-IsQuiet :
    (enabled : Bool) (until : ℤ) (p : PendingUnblock) (left s : Store)
    → SameTables s left
    → NotDue until p
    → All (NotDue until) left.pending
    → All (NotDue until) s.pending
    → IsQuiet until s (stored s (admit enabled p left))
unfolding admit
admit-IsQuiet false until p left s t n a b = record { tables = (refl, refl); waiting = b }
admit-IsQuiet true until p left s t n a b = record {
  tables = t;
  waiting = All-put (NotDue until) p left.pending n a;
}

module _ (from_iso : Text → Option DateTime) (t0 d : ℤ) where
  -- An operation in the delay that begins at `t0`.
  abbrev pub InTime : Op → Type 0
  InTime (enqueue_op id c now) = t0 ≤ℤ now
  InTime (apply_op now) = now <ℤ t0 +ℤ minutes d
  InTime _ = Unit

  enqueue-IsQuiet :
      (id : ℕ) (c : Change) (now : ℤ) (s : Store)
      → (delay_settings s.config).1 ≡ d
      → t0 ≤ℤ now
      → All (NotDue (t0 +ℤ minutes d)) s.pending
      → IsQuiet (t0 +ℤ minutes d) s (stored s (enqueue id c now s))
  unfolding enqueue
  enqueue-IsQuiet id c now s e h a =
      let until = t0 +ℤ minutes d in
      let entry = new_entry id c now (delay_settings s.config).1 in
      admit-IsQuiet (delay_settings s.config).0 until entry (cancel_same c s) s
        (cancel_same-tables c s)
        (rw e (ground (arith, +ℤ_parts t0 (minutes d), +ℤ_parts now (minutes d))))
        (rw (cancel_same-stays c s) (All-keep (NotDue until) (λ q. stays c q) s.pending a)) a

  perform-IsQuiet :
      (o : Op) (s : Store)
      → (delay_settings s.config).1 ≡ d
      → InTime o
      → All (NotDue (t0 +ℤ minutes d)) s.pending
      → IsQuiet (t0 +ℤ minutes d) s (perform from_iso o s)
  unfolding perform cancel cancel_all apply_due apply_all
  perform-IsQuiet (enqueue_op id c now) s e h a = enqueue-IsQuiet id c now s e h a
  perform-IsQuiet (cancel_op id) s e h a = record {
    tables = (refl, refl);
    waiting = All-keep (NotDue (t0 +ℤ minutes d)) (λ p. not (p.id == id)) s.pending a;
  }
  perform-IsQuiet cancel_all_op s e h a = record { tables = (refl, refl); waiting = tt }
  perform-IsQuiet (apply_op now) s e h a =
      rw (none_due (t0 +ℤ minutes d) now s.pending h a)
        (record { tables = (refl, refl); waiting = a })

  -- With a delay of `d` minutes in the settings and nothing pending that is due before `t0` and `d` minutes,
  -- no sequence of requests from `t0` on, cancellations, and applications of what is due within the
  -- delay changes the settings or the block table.
  pub queue_changes_nothing_early :
      (ops : List Op) (s : Store)
      → (delay_settings s.config).1 ≡ d
      → All InTime ops
      → All (NotDue (t0 +ℤ minutes d)) s.pending
      → ((perform_all from_iso ops s).config ≡ s.config)
        × ((perform_all from_iso ops s).rows ≡ s.rows)
  unfolding perform_all
  queue_changes_nothing_early [] s e h a = (refl, refl)
  queue_changes_nothing_early (o ∷ os) s e h a =
      let quiet = perform-IsQuiet o s e h.0 a in
      let (config, rows) = quiet.tables in
      let later =
        queue_changes_nothing_early os (perform from_iso o s)
          (ap (λ c. (delay_settings c).1) config ∙ e) h.1 quiet.waiting in
      (later.0 ∙ config, later.1 ∙ rows)

delay_bounds :
    (cfg : Config) → (pos 1 ≤ℤ (delay_settings cfg).1) × ((delay_settings cfg).1 ≤ℤ pos 1440)
unfolding delay_settings
delay_bounds cfg = ground arith

admit-entry :
    (enabled : Bool) (p q : PendingUnblock) (left s' : Store)
    → admit enabled p left ≡ some (q, s')
    → (q ≡ p) × (s'.pending ≡ put p left.pending)
unfolding admit
admit-entry false p q left s' e = cc e
admit-entry true p q left s' e =
    let both : (p, record left { pending = put p left.pending }) ≡ (q, s') = cc e in
    (
      sym (ap (λ (r : PendingUnblock × Store). r.0) both),
      sym (ap (λ (r : PendingUnblock × Store). r.1.pending) both),
    )

same_slot_is_new :
    (c : Change) (p : PendingUnblock) (qs : List PendingUnblock)
    → All (λ q. slot c ≢ slot q.change) qs
    → All (λ q. slot c ≡ slot q.change → q ≡ p) (put p qs)
same_slot_is_new c p qs h =
    All-put (λ q. slot c ≡ slot q.change → q ≡ p) p qs (λ e. refl)
      (All-mono (λ q. slot c ≢ slot q.change) (λ q. slot c ≡ slot q.change → q ≡ p)
        (λ q n e. absurd (n e)) qs h)

-- A request that is queued waits between a minute and a day from now on, whatever the settings say, and
-- every change that is then pending for the same block, or for the settings, waits as long: an earlier
-- request has lost its place.
pub enqueue_restarts :
    (id : ℕ) (c : Change) (now : ℤ) (s s' : Store) (p : PendingUnblock)
    → enqueue id c now s ≡ some (p, s')
    → (now +ℤ minutes (pos 1) ≤ℤ p.effective_at)
      × (p.effective_at ≤ℤ now +ℤ hours (pos 24))
      × All (λ q. slot c ≡ slot q.change → q ≡ p) s'.pending
unfolding enqueue
enqueue_restarts id c now s s' p e =
    let d = (delay_settings s.config).1 in
    let entry = new_entry id c now d in
    let (same, queue) = admit-entry (delay_settings s.config).0 entry p (cancel_same c s) s' e in
    let (low, high) = delay_bounds s.config in
    let others : All (λ q. slot c ≢ slot q.change) (cancel_same c s).pending =
      rw (cancel_same-stays c s) (All-stays c s.pending) in
    rw (same, queue)
      (
        ground (
          arith,
          +ℤ_parts now (minutes d),
          +ℤ_parts now (minutes (pos 1)),
          scale_parts 60000 d,
          scale_parts 60000 (pos 1),
        ),
        ground (
          arith,
          +ℤ_parts now (minutes d),
          +ℤ_parts now (hours (pos 24)),
          scale_parts 60000 d,
          scale_parts 3600000 (pos 24),
        ),
        same_slot_is_new c entry (cancel_same c s).pending others,
      )
