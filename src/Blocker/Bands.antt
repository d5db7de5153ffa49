-- ===== src/Blocker/Bands.antt =====
-- What the evaluation promises, said of the blocks alone: a URL is blocked exactly when some block
-- that cares, of the highest priority among those, does not allow it.
use hypr_blocker.Base.{
  ℕ, ◌≤◌, ◌≡◌, refl, ◌↔◌, inl, inr, Bool, true, false, not, ◌&&◌, some, List, [], ◌∷◌, arith, ◌==◌,
  any, keep, All, Any, ltb, if◌then◌else◌, any→Any, Any→any, Any-keep, All-keep_iff, Any-mono,
  All-mono, Any-and, Bool-cases,
}
use hypr_blocker.Base.Text.{Text}
use hypr_blocker.Blocker.Url.{is_protected_url}
use hypr_blocker.Blocker.Priority.{Key, Block}
use hypr_blocker.Blocker.Evaluate.{
  field_keys, cares, allows, block_rank, top_rank, vote, decide_caring, evaluate_url_against_blocks,
  blocks_it,
}

-- The block speaks against the URL, and no block in `caring` has a higher priority.
abbrev Refuses : Text → List Block → Block → Type 0
Refuses url caring b = (allows url b ≡ false) × All (λ c. block_rank c ≤ block_rank b) caring

top_rank_bounds :
    (best : ℕ) (bs : List Block)
    → (best ≤ top_rank best bs) × All (λ c. block_rank c ≤ top_rank best bs) bs
unfolding top_rank
top_rank_bounds best [] = (omega arith, tt)
top_rank_bounds best (b ∷ bs) =
    let m = if ltb best (block_rank b) then block_rank b else best in
    let (low, all) = top_rank_bounds m bs in (ground arith, (ground arith, all))

top_rank_least :
    (best m : ℕ) (bs : List Block)
    → best ≤ m
    → All (λ c. block_rank c ≤ m) bs
    → top_rank best bs ≤ m
unfolding top_rank
top_rank_least best m [] h a = h
top_rank_least best m (b ∷ bs) h a =
    top_rank_least (if ltb best (block_rank b) then block_rank b else best) m bs (ground arith) a.1

votes_against : Text → ℕ → Block → Bool
votes_against url top b = (block_rank b == top) && not (allows url b)

vote-any :
    (url : Text) (top : ℕ) (bs : List Block)
    → blocks_it (vote url top bs) ≡ any (λ b. votes_against url top b) bs
unfolding vote votes_against
vote-any url top [] = refl
vote-any url top (b ∷ bs) = ground (arith, vote-any url top bs)

module _ (url : Text) where
  vote→Refuses :
      (top : ℕ) (caring : List Block)
      → All (λ c. block_rank c ≤ top) caring
      → blocks_it (vote url top caring) ≡ true
      → Any (Refuses url caring) caring
  unfolding votes_against
  vote→Refuses top caring bound h =
      Any-mono (λ b. votes_against url top b ≡ true) (Refuses url caring)
        (λ b v. (
          ground arith,
          All-mono (λ c. block_rank c ≤ top) (λ c. block_rank c ≤ block_rank b)
              (λ c le. ground arith) caring bound,
        ))
        caring
        (any→Any (λ b. votes_against url top b ≡ true) (λ b. votes_against url top b) (λ b v. v)
          caring (rw vote-any at h))

  Refuses→vote :
      (top : ℕ) (caring : List Block)
      → All (λ c. block_rank c ≤ top) caring
      → ((m : ℕ) → All (λ c. block_rank c ≤ m) caring → top ≤ m)
      → Any (Refuses url caring) caring
      → blocks_it (vote url top caring) ≡ true
  unfolding votes_against
  Refuses→vote top caring bound least h = rw vote-any (
      Any→any (λ b. (block_rank b ≤ top) × Refuses url caring b) (λ b. votes_against url top b)
        (λ b v. ground (arith, least (block_rank b) v.1.1)) caring
        (Any-and (λ b. block_rank b ≤ top) (Refuses url caring) caring bound h))

  decide_caring_iff :
      (caring : List Block)
      → (blocks_it (decide_caring url caring) ≡ true) ↔ Any (Refuses url caring) caring
  unfolding decide_caring
  decide_caring_iff [] = (λ h. cc h, λ h. absurd h)
  decide_caring_iff (b ∷ bs) =
      let (low, all) = top_rank_bounds (block_rank b) bs in
      let top = top_rank (block_rank b) bs in
      let bound : All (λ c. block_rank c ≤ top) (b ∷ bs) = (low, all) in
      (
        vote→Refuses top (b ∷ bs) bound,
        Refuses→vote top (b ∷ bs) bound (λ m a. top_rank_least (block_rank b) m bs a.0 a.1),
      )

-- A block that cares about the URL, does not allow it, and is outranked by no block that cares.
abbrev pub Vetoes : Text → Key × Key → List Block → Block → Type 0
Vetoes url keys blocks b =
    (cares url keys b ≡ true)
    × (allows url b ≡ false)
    × All (λ c. cares url keys c ≡ true → block_rank c ≤ block_rank b) blocks

Vetoes-iff :
    (url : Text) (keys : Key × Key) (blocks : List Block)
    → Any (Refuses url (keep (λ b. cares url keys b) blocks)) (keep (λ b. cares url keys b) blocks)
      ↔ Any (Vetoes url keys blocks) blocks
Vetoes-iff url keys blocks =
    let cared = λ (b : Block). cares url keys b in
    let caring = keep cared blocks in
    (
      λ h.
          Any-mono (λ b. (cared b ≡ true) × Refuses url caring b) (Vetoes url keys blocks)
            (λ b p.
              (p.0, p.1.0, (All-keep_iff (λ c. block_rank c ≤ block_rank b) cared blocks).0 p.1.1))
            blocks ((Any-keep (Refuses url caring) cared blocks).0 h),
      λ h. (Any-keep (Refuses url caring) cared blocks).1 (
          Any-mono (Vetoes url keys blocks) (λ b. (cared b ≡ true) × Refuses url caring b)
            (λ b p.
              (p.0, (p.1, (All-keep_iff (λ c. block_rank c ≤ block_rank b) cared blocks).1 p.2)))
            blocks h),
    )

-- For each of the four list fields, the evaluation blocks a URL exactly when the URL is not a
-- protected one and some block vetoes it: the block's list for the field matches the URL, its allow
-- list does not, and no block whose list for the field matches the URL has a higher priority.
pub evaluate_iff_veto :
    (url : Text) (blocks : List Block) (field : Key) (keys : Key × Key)
    → field_keys field ≡ some keys
    → (blocks_it (evaluate_url_against_blocks url blocks field) ≡ true)
      ↔ ((is_protected_url url ≡ false) × Any (Vetoes url keys blocks) blocks)
unfolding evaluate_url_against_blocks
evaluate_iff_veto url blocks field keys e =
    let caring = keep (λ b. cares url keys b) blocks in
    let (from, to) = decide_caring_iff url caring in
    let (out, back) = Vetoes-iff url keys blocks in
    rw e (elim (Bool-cases (is_protected_url url)) [
      | inl p ↦ rw p (λ h. cc h, λ h. cc h.0)
      | inr p ↦ rw p (λ h. (refl, out (from h)), λ h. to (back h.1))
    ])
