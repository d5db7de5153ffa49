-- ===== src/Unblock/Queue/Applied.antt =====
-- What is due is carried out, also what a settings change of the same round has just dropped.
use hypr_blocker.Base.{
  ℕ, ◌≡◌, ◌≢◌, refl, inl, inr, true, not, Option, none, some, List, [], ◌∷◌, arith, ◌==◌, All, Any,
  keep, Bool-cases, All-keep, Any-keep, Any-mono,
}
use hypr_blocker.Base.Int.{ℤ, ◌≤ℤ◌, leb_ℤ}
use hypr_blocker.Base.Text.{Text}
use hypr_blocker.Base.Time.{DateTime}
use hypr_blocker.Unblock.Queue.{
  Change, delete, update, settings, PendingUnblock, Store, apply_settings_payload, commit,
  set_columns, changed_row, kept_row, update_row, apply_one, apply_all, apply_due, Value, Row,
}

-- The table has no row for the block.
abbrev pub Lacks : ℕ → List Row → Type 0
Lacks b rows = All (λ (r : Row). r.row_id ≢ b) rows

Lacks-delete : (b : ℕ) (rows : List Row) → Lacks b (keep (λ (r : Row). not (r.row_id == b)) rows)
Lacks-delete b [] = tt
Lacks-delete b (r ∷ rs) = elim (Bool-cases (r.row_id == b)) [
  | inl e ↦ rw e (Lacks-delete b rs)
  | inr e ↦ rw e (λ same. ground arith, Lacks-delete b rs)
]

module _ (from_iso : Text → Option DateTime) where
  abbrev LacksIn : ℕ → Option (List Row) → Type 0
  LacksIn b none = Unit
  LacksIn b (some rows) = Lacks b rows

  commit-Lacks :
      (b id : ℕ) (s : Store) (rows : Option (List Row))
      → Lacks b s.rows
      → LacksIn b rows
      → Lacks b (commit from_iso id s rows).rows
  commit-Lacks b id s none h k = h
  commit-Lacks b id s (some rows) h k = k

  changed_row-Lacks :
      (b : ℕ) (r : Row) (rs : List Row) (columns : Option (List (Text × Value)))
      → Lacks b (r ∷ rs)
      → LacksIn b (changed_row from_iso r rs columns)
  changed_row-Lacks b r rs none h = tt
  changed_row-Lacks b r rs (some columns) h = h

  kept_row-Lacks :
      (b : ℕ) (r : Row) (rows : Option (List Row))
      → r.row_id ≢ b
      → LacksIn b rows
      → LacksIn b (kept_row from_iso r rows)
  kept_row-Lacks b r none n h = tt
  kept_row-Lacks b r (some rs) n h = (n, h)

  update_row-Lacks :
      (b i : ℕ) (fields : List (Text × Value)) (rows : List Row)
      → Lacks b rows
      → LacksIn b (update_row from_iso i fields rows)
  unfolding update_row
  update_row-Lacks b i fields [] h = tt
  update_row-Lacks b i fields (r ∷ rs) h = elim (Bool-cases (r.row_id == i)) [
    | inl e ↦ rw e (changed_row-Lacks b r rs (set_columns from_iso fields r.columns) h)
    | inr e ↦ rw e (
        kept_row-Lacks b r (update_row from_iso i fields rs) h.0
          (update_row-Lacks b i fields rs h.1))
  ]

  apply_change-Lacks :
      (b : ℕ) (p : PendingUnblock) (c : Change) (s : Store)
      → p.change ≡ c
      → Lacks b s.rows
      → Lacks b (apply_one from_iso p s).rows
  unfolding apply_one apply_settings_payload
  apply_change-Lacks b p (delete i) s e h =
      rw e (All-keep (λ (r : Row). r.row_id ≢ b) (λ r. not (r.row_id == i)) s.rows h)
  apply_change-Lacks b p (update i fields) s e h = rw e (
      commit-Lacks b p.id s (update_row from_iso i fields s.rows) h
        (update_row-Lacks b i fields s.rows h))
  apply_change-Lacks b p (settings payload) s e h = rw e h

  apply_all-Lacks :
      (b : ℕ) (ps : List PendingUnblock) (s : Store)
      → Lacks b s.rows
      → Lacks b (apply_all from_iso ps s).rows
  unfolding apply_all
  apply_all-Lacks b [] s h = h
  apply_all-Lacks b (p ∷ ps) s h =
      apply_all-Lacks b ps (apply_one from_iso p s) (apply_change-Lacks b p p.change s refl h)

  apply_delete-Lacks :
      (b : ℕ) (p : PendingUnblock) (s : Store)
      → p.change ≡ delete b
      → Lacks b (apply_one from_iso p s).rows
  unfolding apply_one
  apply_delete-Lacks b p s e = rw e (Lacks-delete b s.rows)

  apply_all-deletes :
      (b : ℕ) (ps : List PendingUnblock) (s : Store)
      → Any (λ (p : PendingUnblock). p.change ≡ delete b) ps
      → Lacks b (apply_all from_iso ps s).rows
  unfolding apply_all
  apply_all-deletes b [] s h = absurd h
  apply_all-deletes b (p ∷ ps) s (inl e) =
      apply_all-Lacks b ps (apply_one from_iso p s) (apply_delete-Lacks b p s e)
  apply_all-deletes b (p ∷ ps) s (inr h) = apply_all-deletes b ps (apply_one from_iso p s) h

  -- A deletion that is due takes its block out of the table, whatever else is due in the same round: it
  -- does so also where a settings change before it turns the delay off and drops it from the queue.
  pub due_deletion_happens :
      (b : ℕ) (now : ℤ) (s : Store)
      → Any (λ (p : PendingUnblock). (p.effective_at ≤ℤ now) × (p.change ≡ delete b)) s.pending
      → Lacks b (apply_due from_iso now s).rows
  unfolding apply_due
  due_deletion_happens b now s h =
      let due = λ (p : PendingUnblock). leb_ℤ p.effective_at now in
      apply_all-deletes b (keep due s.pending) s (
        (Any-keep (λ (p : PendingUnblock). p.change ≡ delete b) due s.pending).1 (
          Any-mono (λ (p : PendingUnblock). (p.effective_at ≤ℤ now) × (p.change ≡ delete b))
            (λ p. (due p ≡ true) × (p.change ≡ delete b)) (λ p e. (ground (arith, e.0), e.1))
            s.pending h))
