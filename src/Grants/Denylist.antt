-- ===== src/Grants/Denylist.antt =====
-- daemon/grants/denylist.py: the requests that are denied before any judge sees them.
pub mod Rules
pub mod CaseBlind
use hypr_blocker.Base.{
  Bool, true, false, not, Option, none, some, List, [], ◌∷◌, ◌++◌, if◌then◌else◌, any,
}
use hypr_blocker.Base.Text.{Text}
use hypr_blocker.Grants.Regex.{Regex, search}
use hypr_blocker.Grants.Models.{GrantRequest}
use Rules.{Rule, rules}

-- `text and pattern.search(text)`
unfoldable pub hits_text : Regex → Option Text → Bool
hits_text r none = false
hits_text r (some []) = false
hits_text r (some (c ∷ t)) = search r (c ∷ t)

unfoldable pub denials_of : List Rule → List (Option Text) → List Text
unfolding hits_text
denials_of [] texts = []
denials_of (r ∷ rs) texts =
    let later = denials_of rs texts in
    if any (hits_text r.pattern) texts then r.label ∷ later else later

-- `find_denials`
unfoldable pub find_denials : List (Option Text) → List Text
unfolding denials_of
find_denials texts = denials_of rules texts

-- `" ".join(args)`
abbrev pub join_spaces : List Text → Text
join_spaces [] = []
join_spaces (a ∷ []) = a
join_spaces (a ∷ b ∷ args) = a ++ (b' ' ∷ join_spaces (b ∷ args))

abbrev pub argv_text : Option (List Text) → Option Text
argv_text none = none
argv_text (some []) = none
argv_text (some (a ∷ args)) = some (join_spaces (a ∷ args))

-- `check_request`
unfoldable pub check_request : GrantRequest → List Text
unfolding find_denials
check_request request =
    find_denials (some request.target ∷ some request.reason ∷ argv_text request.argv ∷ [])
