-- ===== src/Unblock/Queue.antt =====
-- The queue of daemon/pending_unblock.py with the configuration and the block table that its entries
-- change. Times are instants in milliseconds, an identifier of an entry is a number, and writes of the
-- files and the table succeed.
pub mod Slots
pub mod Waiting
pub mod Applied
use hypr_blocker.Base.{
  ℕ, Bool, true, false, not, ◌&&◌, Option, none, some, List, [], ◌∷◌, if◌then◌else◌, ◌==◌, any,
  keep, length, map,
}
use hypr_blocker.Base.Int.{ℤ, pos, ◌+ℤ◌, leb_ℤ, eqb_ℤ, max_ℤ, min_ℤ}
use hypr_blocker.Base.Text.{Text, codes, text_eq, strip}
use hypr_blocker.Base.Time.{DateTime, minutes}

-- A value of a column of the block table.
pub data Value : Type 0 where
  null : Value
  flag : Bool → Value
  number : ℤ → Value
  text : Text → Value
  date : DateTime → Value

-- The keys "minutes" and "enabled" of a payload, `none` where a key is missing or its value is None.
pub record SettingsPayload : Type 0 where
  pub new_minutes : Option ℤ
  pub new_enabled : Option Bool

-- The kind of an entry with the payload that belongs to it; the block is the one of `block_id`.
pub data Change : Type 0 where
  delete : ℕ → Change
  update : ℕ → List (Text × Value) → Change
  settings : SettingsPayload → Change

pub record PendingUnblock : Type 0 where
  pub id : ℕ
  pub change : Change
  pub created_at : ℤ
  pub effective_at : ℤ

-- `security.unblock_delay_enabled` and `security.unblock_delay_minutes`.
pub record Config : Type 0 where
  pub unblock_delay_enabled : Bool
  pub unblock_delay_minutes : ℤ

-- A row of the block table: its key and its columns.
pub record Row : Type 0 where
  pub row_id : ℕ
  pub columns : List (Text × Value)

pub record Store : Type 0 where
  pub pending : List PendingUnblock
  pub config : Config
  pub rows : List Row

-- `delay_settings`
unfoldable pub delay_settings : Config → Bool × ℤ
delay_settings cfg =
    let stated = cfg.unblock_delay_minutes in
    (
      cfg.unblock_delay_enabled,
      max_ℤ (pos 1) (min_ℤ (if eqb_ℤ stated (pos 0) then pos 10 else stated) (pos 1440)),
    )

abbrev pub is_settings : Change → Bool
is_settings (settings p) = true
is_settings _ = false

abbrev pub is_for_block : ℕ → Change → Bool
is_for_block b (delete i) = i == b
is_for_block b (update i fields) = i == b
is_for_block b (settings p) = false

-- `pending_id in _pending`, then the removal; the answer says whether it was there.
unfoldable pub cancel : ℕ → Store → Bool × Store
cancel pending_id s = (
  any (λ (p : PendingUnblock). p.id == pending_id) s.pending,
  record s { pending = keep (λ (p : PendingUnblock). not (p.id == pending_id)) s.pending },
)

unfoldable pub cancel_all : Store → ℕ × Store
cancel_all s = (length s.pending, record s { pending = [] })

unfoldable pub cancel_for_block : ℕ → Store → ℕ × Store
cancel_for_block block_id s = (
  length (keep (λ (p : PendingUnblock). is_for_block block_id p.change) s.pending),
  record s {
    pending = keep (λ (p : PendingUnblock). not (is_for_block block_id p.change)) s.pending;
  },
)

unfoldable pub cancel_settings_pending : Store → ℕ × Store
cancel_settings_pending s = (
  length (keep (λ (p : PendingUnblock). is_settings p.change) s.pending),
  record s { pending = keep (λ (p : PendingUnblock). not (is_settings p.change)) s.pending },
)

-- `_pending[p.id] = p`
unfoldable pub put : PendingUnblock → List PendingUnblock → List PendingUnblock
put p [] = p ∷ []
put p (q ∷ qs) = let rest = put p qs in if q.id == p.id then p ∷ qs else q ∷ rest

-- The call before a new entry: what is pending for the same block, or for the settings, goes.
unfoldable pub cancel_same : Change → Store → Store
unfolding cancel_for_block cancel_settings_pending
cancel_same (delete b) s = (cancel_for_block b s).1
cancel_same (update b fields) s = (cancel_for_block b s).1
cancel_same (settings p) s = (cancel_settings_pending s).1

-- The new entry of `enqueue`, whose uuid is `id`.
abbrev pub new_entry : ℕ → Change → ℤ → ℤ → PendingUnblock
new_entry id change now delay = record {
  id = id;
  change = change;
  created_at = now;
  effective_at = now +ℤ minutes delay;
}

-- The end of `enqueue`: with the delay disabled there is no entry.
unfoldable pub admit : Bool → PendingUnblock → Store → Option (PendingUnblock × Store)
unfolding put
admit false entry left = none
admit true entry left = some (entry, record left { pending = put entry left.pending })

-- `enqueue`: `none` stands for the RuntimeError where the delay is disabled.
unfoldable pub enqueue : ℕ → Change → ℤ → Store → Option (PendingUnblock × Store)
unfolding admit cancel_same delay_settings
enqueue id change now s =
    admit (delay_settings s.config).0 (new_entry id change now (delay_settings s.config).1)
      (cancel_same change s)

turns_off : Config → Option Bool → Bool
turns_off cfg none = false
turns_off cfg (some on) = cfg.unblock_delay_enabled && not on

abbrev or_else {ℓ} : {A : Type ℓ} → A → Option A → A
or_else x none = x
or_else x (some y) = y

-- `_apply_settings_payload`
unfoldable pub apply_settings_payload : SettingsPayload → Store → Store
unfolding turns_off
apply_settings_payload payload s = record s {
  pending =
      if turns_off s.config payload.new_enabled
      then keep (λ (p : PendingUnblock). is_settings p.change) s.pending
      else s.pending;
  config = record {
    unblock_delay_enabled = or_else s.config.unblock_delay_enabled payload.new_enabled;
    unblock_delay_minutes = or_else s.config.unblock_delay_minutes payload.new_minutes;
  };
}

-- `setattr(row, key, value)` of a column; a key that is no column is skipped.
abbrev set_column : Text → Value → List (Text × Value) → List (Text × Value)
set_column key value [] = []
set_column key value (c ∷ cs) =
    let rest = set_column key value cs in if text_eq c.0 key then (key, value) ∷ cs else c ∷ rest

-- Python's `datetime.fromisoformat`, `none` where it raises.
module _ (from_iso : Text → Option DateTime) where
  -- The value that is set: a `lock_until` that is a text with more than blanks is parsed.
  new_value : Text → Value → Option Value
  new_value key (text t) =
      if text_eq key (codes "lock_until") && not (text_eq (strip t) [])
      then elim (from_iso t) [ none ↦ none | some d ↦ some (date d) ]
      else some (text t)
  new_value key value = some value

  -- The loop over the payload; an error leaves the row uncommitted.
  unfoldable pub set_columns :
      List (Text × Value) → List (Text × Value) → Option (List (Text × Value))
  unfolding new_value
  set_columns [] columns = some columns
  set_columns ((key, value) ∷ fields) columns = elim (new_value key value) [
    | none ↦ none
    | some v ↦ set_columns fields (set_column key v columns)
  ]

  abbrev changed_row : Row → List Row → Option (List (Text × Value)) → Option (List Row)
  changed_row r rs none = none
  changed_row r rs (some columns) = some (record r { columns = columns } ∷ rs)

  abbrev kept_row : Row → Option (List Row) → Option (List Row)
  kept_row r none = none
  kept_row r (some rs) = some (r ∷ rs)

  -- The table with the row of the given key changed, `none` where the change raises.
  unfoldable pub update_row : ℕ → List (Text × Value) → List Row → Option (List Row)
  unfolding set_columns
  update_row block_id fields [] = some []
  update_row block_id fields (r ∷ rs) =
      let rest = update_row block_id fields rs in
      if r.row_id == block_id
      then changed_row r rs (set_columns fields r.columns)
      else kept_row r rest

  -- `_pending.pop(id, None)`
  abbrev pub pop : ℕ → Store → Store
  pop id s = record s { pending = keep (λ (p : PendingUnblock). not (p.id == id)) s.pending }

  abbrev commit : ℕ → Store → Option (List Row) → Store
  commit id s none = s
  commit id s (some rows) = pop id (record s { rows = rows })

  -- One round of the loop in `apply_due`. An update that raises stays pending.
  unfoldable pub apply_one : PendingUnblock → Store → Store
  unfolding apply_settings_payload update_row
  apply_one p s = elim p.change [
    | settings payload ↦ pop p.id (apply_settings_payload payload s)
    | delete b ↦ pop p.id (record s { rows = keep (λ (r : Row). not (r.row_id == b)) s.rows })
    | update b fields ↦ commit p.id s (update_row b fields s.rows)
  ]

  unfoldable pub apply_all : List PendingUnblock → Store → Store
  unfolding apply_one
  apply_all [] s = s
  apply_all (p ∷ ps) s = apply_all ps (apply_one p s)

  -- `apply_due`: the entries that are due are read once, before the loop.
  unfoldable pub apply_due : ℤ → Store → Store
  unfolding apply_all
  apply_due now s = apply_all (keep (λ (p : PendingUnblock). leb_ℤ p.effective_at now) s.pending) s
