-- ===== src/BlockRoutes/Strict/Rules.antt =====
-- The rules of a column after a strict update: the text that is written reads back as the set.
use hypr_blocker.Base.{
  ◌≡◌, refl, ap, ◌∙◌, inl, inr, Bool, true, false, not, ◌&&◌, ◌||◌, Option, none, some, List, [],
  ◌∷◌, ◌++◌, arith, All, All-append, All-keep, keep, any-append, Bool-cases,
}
use hypr_blocker.Base.Text.{Text, text_eq, text_eq_iff, member}
use hypr_blocker.Base.Text.Lines.{IsRule, rules_of_lines-IsRule, rules_of-join}
use hypr_blocker.Blocker.Url.{parse_rules_from_text}
use hypr_blocker.BlockRoutes.{DbBlock, rules_set, updated}
use hypr_blocker.BlockRoutes.Strict.{
  text_less, insert_rule, sorted_set, set_to_rules, add_rules, remove_rules, BlockStrictUpdate,
  stricter, update_block_strict,
}

rules_set-IsRule : (o : Option Text) → All IsRule (rules_set o)
unfolding parse_rules_from_text
rules_set-IsRule none = tt
rules_set-IsRule (some t) = rules_of_lines-IsRule t

insert_rule-IsRule :
    (r : Text) (rs : List Text) → IsRule r → All IsRule rs → All IsRule (insert_rule r rs)
unfolding insert_rule
insert_rule-IsRule r [] h a = (h, tt)
insert_rule-IsRule r (s ∷ ss) h a = elim (Bool-cases (text_eq r s)) [
  | inl e ↦ rw e a
  | inr e ↦ elim (Bool-cases (text_less r s)) [
    | inl l ↦ rw (e, l) (h, a)
    | inr l ↦ rw (e, l) (a.0, insert_rule-IsRule r ss h a.1)
  ]
]

sorted_set-IsRule : (rs : List Text) → All IsRule rs → All IsRule (sorted_set rs)
unfolding sorted_set
sorted_set-IsRule [] a = tt
sorted_set-IsRule (r ∷ rs) a = insert_rule-IsRule r (sorted_set rs) a.0 (sorted_set-IsRule rs a.1)

member-insert :
    (x r : Text) (rs : List Text) → member x (insert_rule r rs) ≡ (text_eq x r || member x rs)
unfolding insert_rule
member-insert x r [] = refl
member-insert x r (s ∷ ss) = elim (Bool-cases (text_eq r s)) [
  | inl e ↦ let same = (text_eq_iff r s).0 e in rw (e, same) (ground arith)
  | inr e ↦ elim (Bool-cases (text_less r s)) [
    | inl l ↦ rw (e, l) refl
    | inr l ↦ rw (e, l, member-insert x r ss) (ground arith)
  ]
]

member-sorted : (x : Text) (rs : List Text) → member x (sorted_set rs) ≡ member x rs
unfolding sorted_set
member-sorted x [] = refl
member-sorted x (r ∷ rs) =
    member-insert x r (sorted_set rs) ∙ ap (λ b. text_eq x r || b) (member-sorted x rs)

-- The text of a set of rules reads back as the set.
member-set_to_rules :
    (x : Text) (rs : List Text)
    → All IsRule rs
    → member x (rules_set (set_to_rules rs)) ≡ member x rs
unfolding set_to_rules parse_rules_from_text
member-set_to_rules x [] a = refl
member-set_to_rules x (r ∷ rs) a =
    ap (λ l. member x l) (rules_of-join (sorted_set (r ∷ rs)) (sorted_set-IsRule (r ∷ rs) a))
    ∙ member-sorted x (r ∷ rs)

member-keep :
    (x : Text) (f : Text → Bool) (rs : List Text) → member x (keep f rs) ≡ (member x rs && f x)
member-keep x f [] = refl
member-keep x f (r ∷ rs) =
    let ih = member-keep x f rs in
    elim (Bool-cases (text_eq x r)) [
      | inl e ↦
          let same : f x ≡ f r = ap f ((text_eq_iff x r).0 e) in
          elim (Bool-cases (f r)) [
            | inl k ↦ let kx : f x ≡ true = same ∙ k in rw (k, e, kx) refl
            | inr k ↦ let kx : f x ≡ false = same ∙ k in rw (k, e, ih, kx) (ground arith)
          ]
      | inr e ↦ elim (Bool-cases (f r)) [ inl k ↦ rw (k, e, ih) refl | inr k ↦ rw (k, e, ih) refl ]
    ]

member-add_rules :
    (x : Text) (u current : Option Text)
    → member x (rules_set (add_rules u current))
      ≡ (member x (rules_set current) || member x (rules_set u))
unfolding add_rules parse_rules_from_text
member-add_rules x none current = ground arith
member-add_rules x (some []) current = ground arith
member-add_rules x (some (c ∷ t)) current =
    member-set_to_rules x (rules_set current ++ rules_set (some (c ∷ t))) (
      All-append IsRule (rules_set current) (rules_set (some (c ∷ t))) (rules_set-IsRule current)
        (rules_set-IsRule (some (c ∷ t))))
    ∙ any-append (λ y. text_eq x y) (rules_set current) (rules_set (some (c ∷ t)))

member-remove_rules :
    (x : Text) (u current : Option Text)
    → member x (rules_set (remove_rules u current))
      ≡ (member x (rules_set current) && not (member x (rules_set u)))
unfolding remove_rules parse_rules_from_text
member-remove_rules x none current = ground arith
member-remove_rules x (some []) current = ground arith
member-remove_rules x (some (c ∷ t)) current =
    let stays = λ (r : Text). not (member r (rules_set (some (c ∷ t)))) in
    member-set_to_rules x (keep stays (rules_set current))
      (All-keep IsRule stays (rules_set current) (rules_set-IsRule current))
    ∙ member-keep x stays (rules_set current)

-- A strict update, which a locked block allows: read back from the texts that it writes, each list of
-- blocked rules is the old one together with the rules that were sent, the allow list is the old one
-- without them, and no other column changes.
pub strict_update_rules :
    (db new : DbBlock) (u : BlockStrictUpdate) (r : Text)
    → update_block_strict u (some db) ≡ updated new
    → (member r (rules_set new.websites_blocked)
        ≡ (member r (rules_set db.websites_blocked) || member r (rules_set u.websites_blocked_add)))
      × (member r (rules_set new.websites_media_blocked) ≡ (
          member r (rules_set db.websites_media_blocked)
          || member r (rules_set u.websites_media_blocked_add)))
      × (member r (rules_set new.apps_blocked)
          ≡ (member r (rules_set db.apps_blocked) || member r (rules_set u.apps_blocked_add)))
      × (member r (rules_set new.websites_allowed) ≡ (
          member r (rules_set db.websites_allowed)
          && not (member r (rules_set u.websites_allowed_remove))))
      × (new ≡ record db {
        websites_blocked = new.websites_blocked;
        websites_media_blocked = new.websites_media_blocked;
        apps_blocked = new.apps_blocked;
        websites_allowed = new.websites_allowed;
      })
unfolding update_block_strict stricter
strict_update_rules db new u r h =
    let same : stricter u db ≡ new = cc h in
    rw (← same) (
      member-add_rules r u.websites_blocked_add db.websites_blocked,
      member-add_rules r u.websites_media_blocked_add db.websites_media_blocked,
      member-add_rules r u.apps_blocked_add db.apps_blocked,
      member-remove_rules r u.websites_allowed_remove db.websites_allowed,
      refl,
    )
