-- ===== src/Grants/Store/Overlay.antt =====
-- Which patterns the overlay adds to the allow list of a block.
use hypr_blocker.Base.{
  ℕ, ◌≡◌, refl, ◌∙◌, ◌↔◌, ◌⊎◌, inl, inr, Bool, true, false, not, ◌&&◌, ◌||◌, List, [], ◌∷◌, arith,
  any, Any, any→Any, Any→any, Any-keep, Any-mono, any-append, and_iff, or_iff, Bool-cases, is_among,
  keep,
}
use hypr_blocker.Base.Int.{ℤ}
use hypr_blocker.Base.Text.{Text, text_eq, text_eq_iff, member}
use hypr_blocker.Grants.Store.{
  ActiveGrant, is_expired, active_grants, WireBlock, blocks_grant, add_allowed, overlay_allowed,
  overlay_block,
}

member-of_eq :
    (p q : Text) (ps : List Text) → member q ps ≡ true → text_eq p q ≡ true → member p ps ≡ true
member-of_eq p q ps h e = let same = (text_eq_iff p q).0 e in rw same h

add_allowed-member :
    (b : Bool) (p q : Text) (ps : List Text)
    → member p (add_allowed b q ps) ≡ (member p ps || (b && text_eq p q))
add_allowed-member false p q ps = ground arith
add_allowed-member true p q ps = elim (Bool-cases (member q ps)) [
  | inl e ↦ rw e (ground (arith, member-of_eq p q ps e))
  | inr e ↦ rw e (any-append (λ t. text_eq p t) ps (q ∷ []) ∙ ground arith)
]

abbrev adds : Text → WireBlock → ActiveGrant → Bool
adds p block g = blocks_grant block g && text_eq p g.pattern

overlay_allowed-member :
    (p : Text) (block : WireBlock) (gs : List ActiveGrant) (ps : List Text)
    → member p (overlay_allowed block gs ps) ≡ (member p ps || any (adds p block) gs)
unfolding overlay_allowed
overlay_allowed-member p block [] ps = ground arith
overlay_allowed-member p block (g ∷ gs) ps =
    let head = add_allowed-member (blocks_grant block g) p g.pattern ps in
    let tail =
      overlay_allowed-member p block gs (add_allowed (blocks_grant block g) g.pattern ps) in
    ground (arith, head, tail)

-- A grant in force of this pattern, for something that the block blocks.
abbrev pub Opens : Text → WireBlock → ℤ → ActiveGrant → Type 0
Opens p block now g = (is_expired g now ≡ false) × (blocks_grant block g ≡ true) × (p ≡ g.pattern)

live-Opens :
    (p : Text) (block : WireBlock) (now : ℤ) (grants : List ActiveGrant)
    → (any (adds p block) (active_grants grants now) ≡ true) ↔ Any (Opens p block now) grants
unfolding active_grants
live-Opens p block now grants =
    let live = λ (g : ActiveGrant). not (is_expired g now) in
    let Adds = λ (g : ActiveGrant). (blocks_grant block g ≡ true) × (p ≡ g.pattern) in
    let (out, back) = Any-keep Adds live grants in
    (
      λ h.
          Any-mono (λ g. (live g ≡ true) × Adds g) (Opens p block now)
            (λ g m. (ground (arith, m.0), m.1.0, m.1.1)) grants
            (out (
              any→Any Adds (adds p block)
                (λ g e.
                  let both = (and_iff (blocks_grant block g) (text_eq p g.pattern)).0 e in
                  (both.0, (text_eq_iff p g.pattern).0 both.1))
                (keep live grants) h)),
      λ h.
          Any→any Adds (adds p block)
            (λ g m.
              (and_iff (blocks_grant block g) (text_eq p g.pattern)).1
                (m.0, (text_eq_iff p g.pattern).1 m.1))
            (keep live grants)
            (back (
              Any-mono (Opens p block now) (λ g. (live g ≡ true) × Adds g)
                (λ g m. (ground (arith, m.0), (m.1, m.2))) grants h)),
    )

-- In the answer to the extension the allow list of a block holds its own patterns, and, where the block
-- is not among the locked ones, the patterns of the grants that have not expired and whose URL the block
-- blocks, as a page or as media; nothing else.
pub overlay_iff :
    (p : Text) (block : WireBlock) (grants : List ActiveGrant) (now : ℤ) (locked : List ℕ)
    → (member p (overlay_block locked (active_grants grants now) block).allowed_sites ≡ true) ↔ (
        (member p block.allowed_sites ≡ true)
        ⊎ ((is_among block.id locked ≡ false) × Any (Opens p block now) grants))
unfolding overlay_block
overlay_iff p block grants now locked =
    let own = member p block.allowed_sites in
    let added = any (adds p block) (active_grants grants now) in
    let all = overlay_allowed-member p block (active_grants grants now) block.allowed_sites in
    let (out, back) = live-Opens p block now grants in
    elim (Bool-cases (is_among block.id locked)) [
      | inl e ↦ rw e (λ h. inl h, λ h. elim h [ inl m ↦ m | inr m ↦ cc m.0 ])
      | inr e ↦
          rw (e, all)
            (
              λ h. elim ((or_iff own added).0 h) [ inl m ↦ inl m | inr m ↦ inr (refl, out m) ],
              λ h. elim h [
                | inl m ↦ (or_iff own added).1 (inl m)
                | inr m ↦ (or_iff own added).1 (inr (back m.1))
              ],
            )
    ]
