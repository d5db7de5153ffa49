-- ===== src/Grants/Denylist/CaseBlind.antt =====
-- The denylist does not look at the case of letters.
use hypr_blocker.Base.{◌≡◌, refl, Option, none, some, List, [], ◌∷◌, any, map}
use hypr_blocker.Base.Text.{Text, lower}
use hypr_blocker.Grants.Regex.{Regex}
use hypr_blocker.Grants.Regex.Laws.{search-lower}
use hypr_blocker.Grants.Denylist.{hits_text, denials_of, find_denials}
use hypr_blocker.Grants.Denylist.Rules.{Rule, rules}

abbrev pub lower_text : Option Text → Option Text
lower_text none = none
lower_text (some t) = some (lower t)

hits_text-lower : (r : Regex) (o : Option Text) → hits_text r (lower_text o) ≡ hits_text r o
unfolding hits_text
hits_text-lower r none = refl
hits_text-lower r (some []) = refl
hits_text-lower r (some (c ∷ t)) = search-lower r (c ∷ t)

any_hit-lower :
    (r : Regex) (texts : List (Option Text))
    → any (hits_text r) (map lower_text texts) ≡ any (hits_text r) texts
any_hit-lower r [] = refl
any_hit-lower r (o ∷ os) = rw (hits_text-lower r o, any_hit-lower r os) refl

denials_of-lower :
    (rs : List Rule) (texts : List (Option Text))
    → denials_of rs (map lower_text texts) ≡ denials_of rs texts
unfolding denials_of
denials_of-lower [] texts = refl
denials_of-lower (r ∷ rs) texts = rw (any_hit-lower r.pattern texts, denials_of-lower rs texts) refl

-- Whatever the texts, the denials found are those found in the same texts in lower case: no spelling
-- with capital letters gets past a rule.
pub case_blind :
    (texts : List (Option Text)) → find_denials (map lower_text texts) ≡ find_denials texts
unfolding find_denials
case_blind texts = denials_of-lower rules texts
