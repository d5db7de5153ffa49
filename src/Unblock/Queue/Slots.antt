-- ===== src/Unblock/Queue/Slots.antt =====
-- At most one change is pending for each block, and at most one of the settings.
use hypr_blocker.Base.{
  ℕ, ◌≡◌, ◌≢◌, refl, sym, inl, inr, Bool, true, false, not, Option, none, some, List, [], ◌∷◌,
  arith, ◌==◌, if◌then◌else◌, All, keep, Bool-cases, All-keep,
}
use hypr_blocker.Base.Int.{ℤ, leb_ℤ}
use hypr_blocker.Base.Text.{Text}
use hypr_blocker.Base.Time.{DateTime}
use hypr_blocker.Unblock.Queue.{
  Change, delete, update, settings, PendingUnblock, Store, delay_settings, is_settings,
  is_for_block, cancel, cancel_all, cancel_for_block, cancel_settings_pending, put, cancel_same,
  new_entry, admit, enqueue, apply_settings_payload, turns_off, commit, update_row, apply_one,
  apply_all, apply_due, Row, SettingsPayload,
}

-- What a change is for: a block, or the settings.
abbrev pub slot : Change → Option ℕ
slot (delete b) = some b
slot (update b fields) = some b
slot (settings p) = none

abbrev pub Apart : PendingUnblock → PendingUnblock → Type 0
Apart p q = slot p.change ≢ slot q.change

-- No two entries are for the same block, nor two for the settings.
abbrev pub OnePerSlot : List PendingUnblock → Type 0
OnePerSlot [] = Unit
OnePerSlot (p ∷ ps) = All (Apart p) ps × OnePerSlot ps

OnePerSlot-keep :
    (f : PendingUnblock → Bool) (ps : List PendingUnblock) → OnePerSlot ps → OnePerSlot (keep f ps)
OnePerSlot-keep f [] h = h
OnePerSlot-keep f (p ∷ ps) h =
    elim (f p) as (λ b. OnePerSlot (if b then p ∷ keep f ps else keep f ps)) [
      | true ↦ (All-keep (Apart p) f ps h.0, OnePerSlot-keep f ps h.1)
      | false ↦ OnePerSlot-keep f ps h.1
    ]

pub All-put :
    (P : PendingUnblock → Type 0) (p : PendingUnblock) (qs : List PendingUnblock)
    → P p
    → All P qs
    → All P (put p qs)
unfolding put
All-put P p [] h a = (h, tt)
All-put P p (q ∷ qs) h a =
    elim (q.id == p.id) as (λ b. All P (if b then p ∷ qs else q ∷ put p qs)) [
      | true ↦ (h, a.1)
      | false ↦ (a.0, All-put P p qs h a.1)
    ]

OnePerSlot-put :
    (p : PendingUnblock) (qs : List PendingUnblock)
    → All (Apart p) qs
    → OnePerSlot qs
    → OnePerSlot (put p qs)
unfolding put
OnePerSlot-put p [] a h = (tt, tt)
OnePerSlot-put p (q ∷ qs) a h =
    elim (q.id == p.id) as (λ b. OnePerSlot (if b then p ∷ qs else q ∷ put p qs)) [
      | true ↦ (a.1, h.1)
      | false ↦ (All-put (Apart q) p qs (λ e. a.0 (sym e)) h.0, OnePerSlot-put p qs a.1 h.1)
    ]

-- Which entries `cancel_same` leaves.
pub stays : Change → PendingUnblock → Bool
stays (delete b) q = not (is_for_block b q.change)
stays (update b fields) q = not (is_for_block b q.change)
stays (settings p) q = not (is_settings q.change)

pub cancel_same-stays :
    (c : Change) (s : Store) → (cancel_same c s).pending ≡ keep (λ q. stays c q) s.pending
unfolding cancel_same stays cancel_for_block cancel_settings_pending
cancel_same-stays (delete b) s = refl
cancel_same-stays (update b fields) s = refl
cancel_same-stays (settings p) s = refl

block-apart : (b : ℕ) (d : Change) → not (is_for_block b d) ≡ true → some b ≢ slot d
block-apart b (delete i) h = λ e. ground arith
block-apart b (update i fields) h = λ e. ground arith
block-apart b (settings p) h = λ e. cc e

settings-apart : (d : Change) → not (is_settings d) ≡ true → none ≢ slot d
settings-apart (delete i) h = λ e. cc e
settings-apart (update i fields) h = λ e. cc e
settings-apart (settings p) h = cc h

stays-apart : (c : Change) (q : PendingUnblock) → stays c q ≡ true → slot c ≢ slot q.change
unfolding stays
stays-apart (delete b) q h = block-apart b q.change h
stays-apart (update b fields) q h = block-apart b q.change h
stays-apart (settings p) q h = settings-apart q.change h

pub All-stays :
    (c : Change) (qs : List PendingUnblock)
    → All (λ q. slot c ≢ slot q.change) (keep (λ q. stays c q) qs)
All-stays c [] = tt
All-stays c (q ∷ qs) = elim (Bool-cases (stays c q)) [
  | inl e ↦ rw e (stays-apart c q e, All-stays c qs)
  | inr e ↦ rw e (All-stays c qs)
]

cancel_same-OnePerSlot :
    (c : Change) (s : Store)
    → OnePerSlot s.pending
    → All (λ q. slot c ≢ slot q.change) (cancel_same c s).pending
      × OnePerSlot (cancel_same c s).pending
cancel_same-OnePerSlot c s h =
    rw (cancel_same-stays c s) (All-stays c s.pending, OnePerSlot-keep (λ q. stays c q) s.pending h)

-- What can happen to the queue.
pub data Op : Type 0 where
  enqueue_op : ℕ → Change → ℤ → Op
  cancel_op : ℕ → Op
  cancel_all_op : Op
  apply_op : ℤ → Op

abbrev pub stored : Store → Option (PendingUnblock × Store) → Store
stored s none = s
stored s (some r) = r.1

admit-OnePerSlot :
    (enabled : Bool) (p : PendingUnblock) (left s : Store)
    → All (Apart p) left.pending
    → OnePerSlot left.pending
    → OnePerSlot s.pending
    → OnePerSlot (stored s (admit enabled p left)).pending
unfolding admit
admit-OnePerSlot false p left s a o h = h
admit-OnePerSlot true p left s a o h = OnePerSlot-put p left.pending a o

module _ (from_iso : Text → Option DateTime) where
  unfoldable pub perform : Op → Store → Store
  perform (enqueue_op id c now) s = stored s (enqueue id c now s)
  perform (cancel_op id) s = (cancel id s).1
  perform cancel_all_op s = (cancel_all s).1
  perform (apply_op now) s = apply_due from_iso now s

  unfoldable pub perform_all : List Op → Store → Store
  unfolding perform
  perform_all [] s = s
  perform_all (o ∷ os) s = perform_all os (perform o s)

  apply_settings-OnePerSlot :
      (payload : SettingsPayload) (s : Store)
      → OnePerSlot s.pending
      → OnePerSlot (apply_settings_payload payload s).pending
  unfolding apply_settings_payload
  apply_settings-OnePerSlot payload s h =
      elim (turns_off s.config payload.new_enabled)
        as (λ b. OnePerSlot (
          if b then keep (λ (p : PendingUnblock). is_settings p.change) s.pending else s.pending)) [
            | true ↦ OnePerSlot-keep (λ p. is_settings p.change) s.pending h
            | false ↦ h
          ]

  commit-OnePerSlot :
      (id : ℕ) (s : Store) (rows : Option (List Row))
      → OnePerSlot s.pending
      → OnePerSlot (commit from_iso id s rows).pending
  commit-OnePerSlot id s none h = h
  commit-OnePerSlot id s (some rows) h = OnePerSlot-keep (λ p. not (p.id == id)) s.pending h

  apply_change-OnePerSlot :
      (p : PendingUnblock) (c : Change) (s : Store)
      → p.change ≡ c
      → OnePerSlot s.pending
      → OnePerSlot (apply_one from_iso p s).pending
  unfolding apply_one
  apply_change-OnePerSlot p (delete b) s e h =
      rw e (OnePerSlot-keep (λ q. not (q.id == p.id)) s.pending h)
  apply_change-OnePerSlot p (update b fields) s e h =
      rw e (commit-OnePerSlot p.id s (update_row from_iso b fields s.rows) h)
  apply_change-OnePerSlot p (settings payload) s e h = rw e (
      OnePerSlot-keep (λ q. not (q.id == p.id)) (apply_settings_payload payload s).pending
        (apply_settings-OnePerSlot payload s h))

  apply_all-OnePerSlot :
      (ps : List PendingUnblock) (s : Store)
      → OnePerSlot s.pending
      → OnePerSlot (apply_all from_iso ps s).pending
  unfolding apply_all
  apply_all-OnePerSlot [] s h = h
  apply_all-OnePerSlot (p ∷ ps) s h =
      apply_all-OnePerSlot ps (apply_one from_iso p s) (apply_change-OnePerSlot p p.change s refl h)

  enqueue-OnePerSlot :
      (id : ℕ) (c : Change) (now : ℤ) (s : Store)
      → OnePerSlot s.pending
      → OnePerSlot (stored s (enqueue id c now s)).pending
  unfolding enqueue
  enqueue-OnePerSlot id c now s h =
      let left = cancel_same-OnePerSlot c s h in
      admit-OnePerSlot (delay_settings s.config).0 (new_entry id c now (delay_settings s.config).1)
        (cancel_same c s) s left.0 left.1 h

  -- However entries are queued, canceled and applied, at most one change is pending for each block and at
  -- most one of the settings.
  pub perform_all-OnePerSlot :
      (ops : List Op) (s : Store) → OnePerSlot s.pending → OnePerSlot (perform_all ops s).pending
  unfolding perform_all perform apply_due cancel cancel_all
  perform_all-OnePerSlot [] s h = h
  perform_all-OnePerSlot (enqueue_op id c now ∷ os) s h =
      perform_all-OnePerSlot os (stored s (enqueue id c now s)) (enqueue-OnePerSlot id c now s h)
  perform_all-OnePerSlot (cancel_op id ∷ os) s h =
      perform_all-OnePerSlot os (cancel id s).1
        (OnePerSlot-keep (λ p. not (p.id == id)) s.pending h)
  perform_all-OnePerSlot (cancel_all_op ∷ os) s h = perform_all-OnePerSlot os (cancel_all s).1 tt
  perform_all-OnePerSlot (apply_op now ∷ os) s h =
      perform_all-OnePerSlot os (apply_due from_iso now s) (
        apply_all-OnePerSlot (keep (λ (p : PendingUnblock). leb_ℤ p.effective_at now) s.pending) s
          h)
