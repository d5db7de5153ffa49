-- ===== src/Grants/Regex/Laws.antt =====
-- What the search finds.
use hypr_blocker.Base.{ℕ, zero, suc, ◌≡◌, refl, Bool, true, Option, none, some, [], ◌∷◌, arith}
use hypr_blocker.Base.Text.{Text, lower, lower_char, starts_with, contains}
use hypr_blocker.Grants.Regex.{
  Regex, nothing, boundary, one, many, up_to, seq, alt, is_word, literal, word_at, next, Rest,
  match_many, match_up_to, match_one, match_here, search_from, search,
}

lower_char_twice : (c : ℕ) → lower_char (lower_char c) ≡ lower_char c
lower_char_twice c = ground arith

is_word-lower : (c : ℕ) → is_word (lower_char c) ≡ is_word c
is_word-lower c = ground arith

abbrev lower_opt : Option ℕ → Option ℕ
lower_opt none = none
lower_opt (some c) = some (lower_char c)

word_at-lower : (o : Option ℕ) → word_at (lower_opt o) ≡ word_at o
word_at-lower none = refl
word_at-lower (some c) = is_word-lower c

next-lower : (t : Text) → next (lower t) ≡ lower_opt (next t)
next-lower [] = refl
next-lower (c ∷ t) = refl

-- The rests take a text and the same in lower case alike.
abbrev Agree : Rest → Rest → Type 0
Agree k l = (p : Option ℕ) (t : Text) → k (lower_opt p) (lower t) ≡ l p t

match_many-lower :
    (f : ℕ → Bool) (k l : Rest)
    → Agree k l
    → Agree (λ p t. match_many f p t k) (λ p t. match_many f p t l)
match_many-lower f k l h p [] = h p []
match_many-lower f k l h p (c ∷ t) =
    rw (lower_char_twice c, h p (c ∷ t), match_many-lower f k l h (some c) t) refl

match_up_to-lower :
    (n : ℕ) (f : ℕ → Bool) (k l : Rest)
    → Agree k l
    → Agree (λ p t. match_up_to n f p t k) (λ p t. match_up_to n f p t l)
match_up_to-lower zero f k l h p t = h p t
match_up_to-lower (suc n) f k l h p [] = h p []
match_up_to-lower (suc n) f k l h p (c ∷ t) =
    rw (lower_char_twice c, h p (c ∷ t), match_up_to-lower n f k l h (some c) t) refl

match_one-lower :
    (f : ℕ → Bool) (k l : Rest)
    → Agree k l
    → Agree (λ p t. match_one f t k) (λ p t. match_one f t l)
match_one-lower f k l h p [] = refl
match_one-lower f k l h p (c ∷ t) = rw (lower_char_twice c, h (some c) t) refl

match_here-lower :
    (r : Regex) (k l : Rest)
    → Agree k l
    → Agree (λ p t. match_here r p t k) (λ p t. match_here r p t l)
unfolding match_here
match_here-lower nothing k l h p t = h p t
match_here-lower boundary k l h p t =
    rw (next-lower t, word_at-lower p, word_at-lower (next t), h p t) refl
match_here-lower (one f) k l h p t = match_one-lower f k l h p t
match_here-lower (many f) k l h p t = match_many-lower f k l h p t
match_here-lower (up_to n f) k l h p t = match_up_to-lower n f k l h p t
match_here-lower (seq r s) k l h p t =
    match_here-lower r (λ q u. match_here s q u k) (λ q u. match_here s q u l)
      (match_here-lower s k l h) p t
match_here-lower (alt r s) k l h p t =
    rw (match_here-lower r k l h p t, match_here-lower s k l h p t) refl

search_from-lower :
    (r : Regex) (p : Option ℕ) (t : Text)
    → search_from r (lower_opt p) (lower t) ≡ search_from r p t
unfolding search_from
search_from-lower r p [] = match_here-lower r (λ _ _. true) (λ _ _. true) (λ _ _. refl) p []
search_from-lower r p (c ∷ t) =
    rw
      (
        match_here-lower r (λ _ _. true) (λ _ _. true) (λ _ _. refl) p (c ∷ t),
        search_from-lower r (some c) t,
      )
      refl

pub search-lower : (r : Regex) (t : Text) → search r (lower t) ≡ search r t
unfolding search
search-lower r t = search_from-lower r none t

match_here-literal :
    (s : Text) (p : Option ℕ) (t : Text)
    → match_here (literal s) p t (λ _ _. true) ≡ starts_with s (lower t)
unfolding match_here
match_here-literal [] p t = refl
match_here-literal (c ∷ s) p [] = refl
match_here-literal (c ∷ s) p (d ∷ t) = rw (match_here-literal s (some d) t) refl

search_from-literal :
    (s : Text) (p : Option ℕ) (t : Text) → search_from (literal s) p t ≡ contains s (lower t)
unfolding search_from
search_from-literal [] p [] = match_here-literal [] p []
search_from-literal (c ∷ s) p [] = match_here-literal (c ∷ s) p []
search_from-literal s p (c ∷ t) =
    rw (match_here-literal s p (c ∷ t), search_from-literal s (some c) t) refl

-- A literal is found where the text in lower case contains it.
pub search-literal : (s t : Text) → search (literal s) t ≡ contains s (lower t)
unfolding search
search-literal s t = search_from-literal s none t
