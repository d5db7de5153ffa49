-- ===== src/Grants/Judge/Verdicts.antt =====
-- The verdicts that the judge's part lets through.
use hypr_blocker.Base.{
  ◌≡◌, refl, inl, inr, true, ◌&&◌, ◌||◌, Option, none, some, List, [], ◌∷◌, arith, Bool-cases,
}
use hypr_blocker.Base.Int.{ℤ, pos, ◌≤ℤ◌, ltb_ℤ, eqb_ℤ}
use hypr_blocker.Base.Text.{Text, codes}
use hypr_blocker.Grants.Models.{GrantRequest, Verdict, DecisionWord, is_allow, max_grant_minutes}
use hypr_blocker.Grants.Denylist.{find_denials}
use hypr_blocker.Grants.Judge.{
  Json, Value, boolean, integer, string, other_value, text_of, word_of, failed, parsed, Parsed,
  check_minutes, check_integer, check_texts, check_word, check_fields, check_object, get_field,
  extract_json_object, parse_verdict, harden, judge_parsed, judge_request,
}

abbrev InRange : Verdict → Type 0
InRange v = is_allow v.decision ≡ true → (pos 1 ≤ℤ v.minutes) × (v.minutes ≤ℤ max_grant_minutes)

-- A parsed verdict that allows is for at least a minute and at most the maximum.
abbrev Sound : Parsed → Type 0
Sound (failed e) = Unit
Sound (parsed v) = InRange v

check_minutes-Sound :
    (d : DecisionWord) (s r : Text) (m : ℤ) → Sound (check_minutes d s r m max_grant_minutes)
unfolding check_minutes
check_minutes-Sound d s r m = elim (Bool-cases (ltb_ℤ m (pos 0) || ltb_ℤ max_grant_minutes m)) [
  | inl e ↦ rw e tt
  | inr e ↦ elim (Bool-cases (is_allow d && eqb_ℤ m (pos 0))) [
    | inl f ↦ rw (e, f) tt
    | inr f ↦ rw (e, f) (λ a. (ground (arith, a, e, f), ground (arith, e)))
  ]
]

check_integer-Sound :
    (d : DecisionWord) (s r : Text) (m : Value) → Sound (check_integer d s r m max_grant_minutes)
unfolding check_integer
check_integer-Sound d s r (integer m) = check_minutes-Sound d s r m
check_integer-Sound d s r (boolean b) = tt
check_integer-Sound d s r (string t) = tt
check_integer-Sound d s r other_value = tt

check_texts-Sound :
    (d : DecisionWord) (s r : Option Text) (m : Value)
    → Sound (check_texts d s r m max_grant_minutes)
unfolding check_texts
check_texts-Sound d none r m = tt
check_texts-Sound d (some s) none m = tt
check_texts-Sound d (some s) (some r) m = check_integer-Sound d s r m

check_word-Sound :
    (d : Option DecisionWord) (s m r : Value) → Sound (check_word d s m r max_grant_minutes)
unfolding check_word
check_word-Sound none s m r = tt
check_word-Sound (some d) s m r = check_texts-Sound d (text_of s) (text_of r) m

check_fields-Sound : (d s m r : Option Value) → Sound (check_fields d s m r max_grant_minutes)
unfolding check_fields
check_fields-Sound none s m r = tt
check_fields-Sound (some d) none m r = tt
check_fields-Sound (some d) (some s) none r = tt
check_fields-Sound (some d) (some s) (some m) none = tt
check_fields-Sound (some d) (some s) (some m) (some r) =
    check_word-Sound (word_of (text_of d)) s m r

check_object-Sound : (o : Option (List (Text × Value))) → Sound (check_object o max_grant_minutes)
unfolding check_object
check_object-Sound none = tt
check_object-Sound (some o) =
    check_fields-Sound (get_field (codes "decision") o) (get_field (codes "scope") o)
      (get_field (codes "minutes") o) (get_field (codes "reason") o)

parse_verdict-Sound :
    (loads : Text → Option Json) (reply : Text)
    → Sound (parse_verdict loads reply max_grant_minutes)
unfolding parse_verdict
parse_verdict-Sound loads reply = check_object-Sound (extract_json_object loads reply)

-- A verdict that allows is for at least a minute, at most what was requested and the maximum, and neither its
-- scope nor its reason is on the denylist.
pub record IsSafe (requested : ℤ) (v : Verdict) : Type 0 where
  pub some_time : pos 1 ≤ℤ v.minutes
  pub within_maximum : v.minutes ≤ℤ max_grant_minutes
  pub within_request : v.minutes ≤ℤ requested
  pub clean_scope : find_denials (some v.scope ∷ some v.reason ∷ []) ≡ []

abbrev pub SafeIfAllowed : ℤ → Verdict → Type 0
SafeIfAllowed requested v = is_allow v.decision ≡ true → IsSafe requested v

harden-SafeIfAllowed :
    (requested : ℤ) (v : Verdict) (hits : List Text)
    → pos 1 ≤ℤ requested
    → find_denials (some v.scope ∷ some v.reason ∷ []) ≡ hits
    → is_allow v.decision ≡ true
    → InRange v
    → SafeIfAllowed requested (harden requested v hits)
unfolding harden
harden-SafeIfAllowed requested v (hit ∷ hits) k e a range = λ b. cc b
harden-SafeIfAllowed requested v [] k e a range =
    let (low, high) = range a in
    elim (Bool-cases (ltb_ℤ (pos 0) requested && ltb_ℤ requested v.minutes)) [
      | inl f ↦ rw f (λ b. record {
        some_time = k;
        within_maximum = ground (arith, f, high);
        within_request = omega arith;
        clean_scope = e;
      })
      | inr f ↦ rw f (λ b. record {
        some_time = low;
        within_maximum = high;
        within_request = ground (arith, f, k);
        clean_scope = e;
      })
    ]

judge_parsed-SafeIfAllowed :
    (request : GrantRequest) (p : Parsed)
    → pos 1 ≤ℤ request.minutes
    → Sound p
    → SafeIfAllowed request.minutes (judge_parsed request p)
unfolding judge_parsed
judge_parsed-SafeIfAllowed request (failed e) k s = λ b. cc b
judge_parsed-SafeIfAllowed request (parsed v) k s = elim (Bool-cases (is_allow v.decision)) [
  | inl a ↦ rw a (
      harden-SafeIfAllowed request.minutes v (find_denials (some v.scope ∷ some v.reason ∷ [])) k
        refl a s)
  | inr a ↦ rw a (λ b. cc b)
]

pub judge_request-SafeIfAllowed :
    (loads : Text → Option Json) (request : GrantRequest) (reply : Option Text)
    → pos 1 ≤ℤ request.minutes
    → SafeIfAllowed request.minutes (judge_request loads request reply)
unfolding judge_request
judge_request-SafeIfAllowed loads request none k = λ b. cc b
judge_request-SafeIfAllowed loads request (some reply) k =
    judge_parsed-SafeIfAllowed request (parse_verdict loads reply max_grant_minutes) k
      (parse_verdict-Sound loads reply)
