-- ===== src/Grants/Regex.antt =====
-- The regular expressions of daemon/grants/denylist.py and executor.py, as `re` matches them with
-- IGNORECASE, with the ASCII classes. A class is asked for the character in lower case.
pub mod Laws
use hypr_blocker.Base.{
  ℕ, zero, suc, Bool, true, false, not, ◌&&◌, ◌||◌, Option, none, some, List, [], ◌∷◌, ◌==◌, leb,
}
use hypr_blocker.Base.Text.{Text, lower_char, is_blank}

pub data Regex : Type 0 where
  -- The empty expression, and `\b`.
  nothing boundary : Regex
  -- One character of a class, `[...]*` and `[...]{0,n}`.
  one many : (ℕ → Bool) → Regex
  up_to : ℕ → (ℕ → Bool) → Regex
  -- `xy` and `x|y`.
  seq alt : Regex → Regex → Regex

-- `\w`, `\s`, and one character.
abbrev pub is_word : ℕ → Bool
is_word c =
    leb b'a' c && leb c b'z'
    || (leb b'A' c && leb c b'Z' || (leb b'0' c && leb c b'9' || c == b'_'))

abbrev pub is_char : ℕ → ℕ → Bool
is_char c d = c == d

abbrev pub literal : Text → Regex
literal [] = nothing
literal (c ∷ s) = seq (one (is_char c)) (literal s)

-- `x|y|...` of texts.
abbrev pub one_of : List Text → Regex
one_of [] = one (λ _. false)
one_of (s ∷ []) = literal s
one_of (s ∷ t ∷ ss) = alt (literal s) (one_of (t ∷ ss))

-- `\b...\b`.
abbrev pub word : Regex → Regex
word r = seq boundary (seq r boundary)

-- `\s+`, and a last letter that may be missing.
abbrev pub spaces : Regex
spaces = seq (one is_blank) (many is_blank)

abbrev pub optional : ℕ → Regex
optional c = up_to 1 (is_char c)

abbrev pub word_at : Option ℕ → Bool
word_at none = false
word_at (some c) = is_word c

abbrev pub next : Text → Option ℕ
next [] = none
next (c ∷ t) = some c

abbrev pub differ : Bool → Bool → Bool
differ true b = not b
differ false b = b

-- What is left to match: the character before and the text from here on.
abbrev pub Rest : Type 0
Rest = Option ℕ → Text → Bool

abbrev pub match_many : (ℕ → Bool) → Option ℕ → Text → Rest → Bool
match_many f prev [] k = k prev []
match_many f prev (c ∷ t) k = k prev (c ∷ t) || (f (lower_char c) && match_many f (some c) t k)

abbrev pub match_up_to : ℕ → (ℕ → Bool) → Option ℕ → Text → Rest → Bool
match_up_to zero f prev t k = k prev t
match_up_to (suc n) f prev [] k = k prev []
match_up_to (suc n) f prev (c ∷ t) k =
    k prev (c ∷ t) || (f (lower_char c) && match_up_to n f (some c) t k)

abbrev pub match_one : (ℕ → Bool) → Text → Rest → Bool
match_one f [] k = false
match_one f (c ∷ t) k = f (lower_char c) && k (some c) t

-- Some way for the expression to match from here with the rest matching after it.
unfoldable pub match_here : Regex → Option ℕ → Text → Rest → Bool
match_here nothing prev t k = k prev t
match_here boundary prev t k = differ (word_at prev) (word_at (next t)) && k prev t
match_here (one f) prev t k = match_one f t k
match_here (many f) prev t k = match_many f prev t k
match_here (up_to n f) prev t k = match_up_to n f prev t k
match_here (seq r s) prev t k = match_here r prev t (λ p u. match_here s p u k)
match_here (alt r s) prev t k = match_here r prev t k || match_here s prev t k

unfoldable pub search_from : Regex → Option ℕ → Text → Bool
unfolding match_here
search_from r prev [] = match_here r prev [] (λ p u. true)
search_from r prev (c ∷ t) = match_here r prev (c ∷ t) (λ p u. true) || search_from r (some c) t

-- `pattern.search(text)`.
unfoldable pub search : Regex → Text → Bool
unfolding search_from
search r t = search_from r none t
