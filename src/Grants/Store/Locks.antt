-- ===== src/Grants/Store/Locks.antt =====
-- No grant opens a site that a locked block blocks.
use hypr_blocker.Base.{
  ℕ, ◌≡◌, ◌≤◌, refl, sym, ◌∙◌, inl, inr, Bool, true, false, Option, none, some, List, [], ◌∷◌, map,
  Any, All, Any-and, All-mono, Option-cases, Bool-cases, if◌then◌else◌, is_among, arith,
}
use hypr_blocker.Base.Int.{ℤ}
use hypr_blocker.Base.Text.{Text, codes}
use hypr_blocker.Blocker.Url.{is_protected_url}
use hypr_blocker.Blocker.Priority.{
  Priority, low, medium, high, missing, text, items, name_key, priority_key, blocked, media_blocked,
  allowed, websites_blocked, Block, patterns_from,
}
use hypr_blocker.Blocker.Evaluate.{cares, block_rank, blocks_it, evaluate_url_against_blocks}
use hypr_blocker.Blocker.Bands.{Vetoes, evaluate_iff_veto}
use hypr_blocker.LockManager.{BlockRow, by_mode}
use hypr_blocker.Grants.Store.{
  ActiveGrant, active_grants, WireBlock, overlay_block, overlay_blocks, wire_block,
}

abbrev label : Priority → Text
label low = codes "low"
label medium = codes "medium"
label high = codes "high"

-- The dict as the evaluation reads it.
unfoldable pub as_block : WireBlock → Block
as_block w name_key = text w.name
as_block w priority_key = text (label w.priority)
as_block w blocked = items w.blocked_sites
as_block w allowed = items w.allowed_sites
as_block w media_blocked = items w.media_sites
as_block w _ = missing

abbrev pub add_locked : ℕ → Option Bool → Option (List ℕ) → Option (List ℕ)
add_locked n none ids = none
add_locked n (some locked) none = none
add_locked n (some locked) (some ids) = some (if locked then n ∷ ids else ids)

-- The loop over the active blocks that collects the ids of the locked ones, none where the comparison with
-- the clock raises.
unfoldable pub locked_block_ids : ℤ → List BlockRow → Option (List ℕ)
unfolding by_mode
locked_block_ids now [] = some []
locked_block_ids now (r ∷ rs) =
    add_locked r.id (by_mode r.block.lock_mode r.block.lock_until now) (locked_block_ids now rs)

abbrev pub overlay_with :
    Option (List ℕ) → List WireBlock → List ActiveGrant → ℤ → Option (List WireBlock)
unfolding overlay_blocks
overlay_with none blocks grants now = none
overlay_with (some ids) blocks grants now = some (overlay_blocks blocks grants now ids)

-- `get_blocked_sites` over the active blocks, at the local time and the instant given.
unfoldable pub get_blocked_sites :
    List BlockRow → List ActiveGrant → ℤ → ℤ → Option (List WireBlock)
unfolding locked_block_ids overlay_with
get_blocked_sites rows stored local now =
    overlay_with (locked_block_ids local rows) (map wire_block rows) (active_grants stored now) now

-- The lock of the row is still running.
abbrev pub IsLockedRow : ℤ → BlockRow → Type 0
IsLockedRow local r = by_mode r.block.lock_mode r.block.lock_until local ≡ some true

abbrev LockedIsAmong : ℤ → List ℕ → BlockRow → Type 0
LockedIsAmong local ids r = IsLockedRow local r → is_among r.id ids ≡ true

among-cons :
    (n m : ℕ) (b : Bool) (ids : List ℕ)
    → is_among n ids ≡ true
    → is_among n (if b then m ∷ ids else ids) ≡ true
among-cons n m true ids h = ground (arith, h)
among-cons n m false ids h = h

among_self : (n : ℕ) (ids : List ℕ) → is_among n (n ∷ ids) ≡ true
among_self n ids = ground arith

add_locked-some :
    (n : ℕ) (b : Option Bool) (o : Option (List ℕ)) (ids : List ℕ)
    → add_locked n b o ≡ some ids
    → (l : Bool) × (rest : List ℕ) × (b ≡ some l)
      × (o ≡ some rest)
      × (ids ≡ (if l then n ∷ rest else rest))
add_locked-some n none o ids h = cc h
add_locked-some n (some l) none ids h = cc h
add_locked-some n (some l) (some rest) ids h = (l, rest, refl, refl, sym (cc h))

locked_ids_lem :
    (local : ℤ) (rows : List BlockRow) (ids : List ℕ)
    → locked_block_ids local rows ≡ some ids
    → All (LockedIsAmong local ids) rows
unfolding locked_block_ids
locked_ids_lem local [] ids h = tt
locked_ids_lem local (r ∷ rs) ids h =
    let (l, rest, mode, tail, same) =
      add_locked-some r.id (by_mode r.block.lock_mode r.block.lock_until local)
        (locked_block_ids local rs) ids h in
    (
      λ k. let yes : l ≡ true = cc (sym mode ∙ k) in rw (same, yes) (among_self r.id rest),
      All-mono (LockedIsAmong local rest) (LockedIsAmong local ids)
          (λ q m k. rw same (among-cons q.id r.id l rest (m k))) rs
          (locked_ids_lem local rs rest tail),
    )

module _ (url : Text) (locked : List ℕ) (live : List ActiveGrant) where
  overlaid : WireBlock → Block
  unfolding as_block overlay_block
  overlaid w = as_block (overlay_block locked live w)

  overlay-cares :
      (w : WireBlock)
      → cares url (blocked, websites_blocked) (overlaid w)
        ≡ cares url (blocked, websites_blocked) (as_block w)
  unfolding overlaid cares patterns_from
  overlay-cares w = elim (Bool-cases (is_among w.id locked)) [
    | inl e ↦ rw e refl
    | inr e ↦ rw e refl
  ]

  overlay-rank : (w : WireBlock) → block_rank (overlaid w) ≡ block_rank (as_block w)
  unfolding overlaid block_rank
  overlay-rank w = elim (Bool-cases (is_among w.id locked)) [
    | inl e ↦ rw e refl
    | inr e ↦ rw e refl
  ]

  overlay-locked : (w : WireBlock) → is_among w.id locked ≡ true → overlaid w ≡ as_block w
  unfolding overlaid
  overlay-locked w h = rw h refl

  -- The block keeps its veto if the overlay leaves it alone.
  Keeps : List WireBlock → WireBlock → Type 0
  Keeps ws w =
      (is_among w.id locked ≡ true)
      × Vetoes url (blocked, websites_blocked) (map as_block ws) (as_block w)

  outranked-overlay :
      (top : ℕ) (ws : List WireBlock)
      → All
          (λ c. cares url (blocked, websites_blocked) c ≡ true → block_rank c ≤ top)
          (map as_block ws)
      → All
          (λ c. cares url (blocked, websites_blocked) c ≡ true → block_rank c ≤ top)
          (map as_block (map (overlay_block locked live) ws))
  unfolding overlaid
  outranked-overlay top [] h = tt
  outranked-overlay top (w ∷ ws) h =
      (λ k. rw (overlay-rank w) (h.0 (sym (overlay-cares w) ∙ k)), outranked-overlay top ws h.1)

  overlay-Vetoes :
      (all ws : List WireBlock)
      → Any (Keeps all) ws
      → Any
          (Vetoes url
            (blocked, websites_blocked)
            (map as_block (map (overlay_block locked live) all)))
          (map as_block (map (overlay_block locked live) ws))
  unfolding overlaid Keeps
  overlay-Vetoes all [] h = h
  overlay-Vetoes all (w ∷ ws) (inl (k, (c, a, top))) =
      inl (rw (overlay-locked w k) (c, a, outranked-overlay (block_rank (as_block w)) all top))
  overlay-Vetoes all (w ∷ ws) (inr m) = inr (overlay-Vetoes all ws m)

-- A row with a running lock that blocks the URL and is outranked by no other row that cares about it.
abbrev pub LockedVeto : Text → ℤ → List BlockRow → BlockRow → Type 0
LockedVeto url local rows r =
    IsLockedRow local r
    × Vetoes url (blocked, websites_blocked) (map as_block (map wire_block rows))
        (as_block (wire_block r))

vetoing_rows :
    (url : Text) (local : ℤ) (ids : List ℕ) (live : List ActiveGrant) (all rows : List BlockRow)
    → Any (λ r. LockedIsAmong local ids r × LockedVeto url local all r) rows
    → Any (Keeps url ids live (map wire_block all)) (map wire_block rows)
unfolding Keeps wire_block
vetoing_rows url local ids live all [] h = h
vetoing_rows url local ids live all (r ∷ rs) (inl (k, (l, v))) = inl (k l, v)
vetoing_rows url local ids live all (r ∷ rs) (inr m) =
    inr (vetoing_rows url local ids live all rs m)

-- Of the active blocks, one whose lock is still running blocks the URL: its list matches, its allow list does
-- not, and no other block whose list matches has a higher priority. Then the answer to the extension still
-- blocks the URL, whatever the store of grants holds, if the URL is none of the protected ones.
pub locked_block_wins :
    (url : Text) (rows : List BlockRow) (stored : List ActiveGrant) (local now : ℤ)
    (answer : List WireBlock)
    → is_protected_url url ≡ false
    → get_blocked_sites rows stored local now ≡ some answer
    → Any (LockedVeto url local rows) rows
    → blocks_it (evaluate_url_against_blocks url (map as_block answer) blocked) ≡ true
unfolding get_blocked_sites overlay_with overlay_blocks
locked_block_wins url rows stored local now answer public h vetoed =
    elim (Option-cases (locked_block_ids local rows)) [
      | inl e ↦ cc (rw e at h)
      | inr (ids, e) ↦
          let live = active_grants (active_grants stored now) now in
          let same : map (overlay_block ids live) (map wire_block rows) ≡ answer = cc (rw e at h) in
          let kept = vetoing_rows url local ids live rows rows (
            Any-and (LockedIsAmong local ids) (LockedVeto url local rows) rows
              (locked_ids_lem local rows ids e) vetoed) in
          rw (sym same) (
            (evaluate_iff_veto url
                (map as_block (map (overlay_block ids live) (map wire_block rows))) blocked
                (blocked, websites_blocked) refl).1
              (
                public,
                overlay-Vetoes url ids live (map wire_block rows) (map wire_block rows) kept,
              ))
    ]
