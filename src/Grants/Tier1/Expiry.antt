-- ===== src/Grants/Tier1/Expiry.antt =====
-- The expiry of a grant takes back what the grant added.
use hypr_blocker.Base.{
  ℕ, ◌≡◌, refl, ap, ◌∙◌, Bool, true, false, not, ◌==◌, Option, none, some, List, [], ◌∷◌, ◌++◌,
  arith, All, All-append, map, keep,
}
use hypr_blocker.Base.Text.{
  Text, text_eq, text_eq_iff, text_eq_refl, member, lower, rstrip_by, join_lines, strip,
  split_first, codes,
}
use hypr_blocker.Base.Text.Lines.{IsRule, rules_of_lines-IsRule, rules_of-join}
use hypr_blocker.Blocker.Url.{parse_rules_from_text}
use hypr_blocker.LockManager.{BlockRow}
use hypr_blocker.Grants.Tier1.{
  normalize_url_pattern, without_scheme, BlockMutation, append_pattern, remove_pattern,
  holds_pattern, expiry_mutations, grant_mutations, plan_allowlist_expiry,
}

parsed-IsRule : (o : Option Text) → All IsRule (parse_rules_from_text o)
unfolding parse_rules_from_text
parsed-IsRule none = tt
parsed-IsRule (some t) = rules_of_lines-IsRule t

parsed-join : (rs : List Text) → All IsRule rs → parse_rules_from_text (some (join_lines rs)) ≡ rs
unfolding parse_rules_from_text
parsed-join rs a = rules_of-join rs a

lower-twice : (t : Text) → lower (lower t) ≡ lower t
lower-twice [] = refl
lower-twice (c ∷ t) = ground (arith, lower-twice t)

lower-rstrip : (f : ℕ → Bool) (t : Text) → lower (rstrip_by f (lower t)) ≡ rstrip_by f (lower t)
lower-rstrip f [] = refl
lower-rstrip f (c ∷ t) = ground (arith, lower-rstrip f t)

normalized-lower : (url : Text) → lower (normalize_url_pattern url) ≡ normalize_url_pattern url
unfolding normalize_url_pattern
normalized-lower url =
    lower-rstrip (λ c. c == b'/')
      (strip (without_scheme (strip url) (split_first (codes "://") (strip url))))

appended :
    (o : Option Text) (p : Text)
    → IsRule p
    → parse_rules_from_text (some (append_pattern o p)) ≡ parse_rules_from_text o ++ (p ∷ [])
unfolding append_pattern
appended o p h =
    parsed-join (parse_rules_from_text o ++ (p ∷ []))
      (All-append IsRule (parse_rules_from_text o) (p ∷ []) (parsed-IsRule o) (h, tt))

member-last :
    (p : Text) (rs : List Text) → lower p ≡ p → member p (map lower (rs ++ (p ∷ []))) ≡ true
member-last p [] h = rw h (ground (arith, text_eq_refl p))
member-last p (r ∷ rs) h = ground (arith, member-last p rs h)

-- The rule is not the pattern in whatever case.
abbrev unlike : Text → Text → Bool
unlike p rule = not (text_eq (lower rule) (lower p))

same_text : (s t : Text) → text_eq s t ≡ text_eq t s
same_text s t = ground (arith, text_eq_iff s t, text_eq_iff t s, text_eq_refl s, text_eq_refl t)

keep-unlike :
    (p : Text) (rs : List Text)
    → lower p ≡ p
    → member p (map lower rs) ≡ false
    → keep (unlike p) (rs ++ (p ∷ [])) ≡ rs
keep-unlike p [] h n = rw (h, text_eq_refl p) refl
keep-unlike p (r ∷ rs) h n =
    let other : text_eq (lower r) (lower p) ≡ false =
      rw h (same_text (lower r) p ∙ ground (arith, n)) in
    rw other (ap (λ (l : List Text). r ∷ l) (keep-unlike p rs h (ground (arith, n))))

abbrev pub with_mutation : BlockMutation → BlockRow → BlockRow
with_mutation m row = record row {
  block = record row.block { websites_allowed = some m.new_websites_allowed };
}

-- The grant of a URL changes a row that does not have its pattern yet, and the expiry of that pattern changes
-- the row back: the text it writes has the rules that the row had before the grant. The pattern has to be
-- a rule, that is one line with no blank at its ends, and its own normal form.
pub expiry_undoes_grant :
    (url : Text) (row : BlockRow)
    → IsRule (normalize_url_pattern url)
    → normalize_url_pattern (normalize_url_pattern url) ≡ normalize_url_pattern url
    → holds_pattern (normalize_url_pattern url) row.block.websites_allowed ≡ false
    → (m n : BlockMutation) × (grant_mutations (normalize_url_pattern url) (row ∷ []) ≡ m ∷ [])
      × (plan_allowlist_expiry (normalize_url_pattern url) (with_mutation m row ∷ []) ≡ n ∷ [])
      × (parse_rules_from_text (some n.new_websites_allowed)
          ≡ parse_rules_from_text row.block.websites_allowed)
unfolding grant_mutations plan_allowlist_expiry expiry_mutations remove_pattern
expiry_undoes_grant url row rule normal absent =
    let p = normalize_url_pattern url in
    let old = parse_rules_from_text row.block.websites_allowed in
    let low = normalized-lower url in
    let after_grant = appended row.block.websites_allowed p rule in
    let there = member-last p old low in
    let back = keep-unlike p old low absent in
    let kept = parsed-join old (parsed-IsRule row.block.websites_allowed) in
    (
      record {
        block_id = row.id;
        block_name = row.block.name;
        new_websites_allowed = append_pattern row.block.websites_allowed p;
      },
      record {
        block_id = row.id;
        block_name = row.block.name;
        new_websites_allowed = join_lines old;
      },
      rw absent refl,
      rw (normal, after_grant, there, back) refl,
      kept,
    )
