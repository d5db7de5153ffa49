-- ===== src/Base/Text/Lines.antt =====
-- Stripped texts without line ends, and that joining such texts to lines can be undone.
use Prim.Native.Nat.{ℕ}
use mathlib.Core.Path.{◌≡◌, refl, ap, ◌∙◌}
use mathlib.Core.Logic.{inl, inr}
use mathlib.Core.Bool.{Bool, false, not, ◌&&◌}
use mathlib.Core.List.{List, [], ◌∷◌, ◌++◌, map}
use native.Mathlib.Omega.{arith}
use hypr_blocker.Base.Tests.{Bool-cases, ◌==◌}
use hypr_blocker.Base.Lists.{keep, All}
use hypr_blocker.Base.Text.{
  Text, text_eq, has_char, is_blank, lstrip_by, rstrip_by, strip, split_char, cons_first,
  join_lines,
}

-- No line feed, no blank at either end, and not empty.
pub record IsRule (t : Text) : Type 0 where
  pub one_line : has_char b'\n' t ≡ false
  pub stripped : strip t ≡ t
  pub some_char : text_eq t [] ≡ false

module _ (f : ℕ → Bool) where
  has_char-lstrip : (c : ℕ) (t : Text) → has_char c t ≡ false → has_char c (lstrip_by f t) ≡ false
  has_char-lstrip c [] h = h
  has_char-lstrip c (d ∷ t) h = ground (arith, has_char-lstrip c t)

  has_char-rstrip : (c : ℕ) (t : Text) → has_char c t ≡ false → has_char c (rstrip_by f t) ≡ false
  has_char-rstrip c [] h = h
  has_char-rstrip c (d ∷ t) h = ground (arith, has_char-rstrip c t)

  rstrip-rstrip : (t : Text) → rstrip_by f (rstrip_by f t) ≡ rstrip_by f t
  rstrip-rstrip [] = refl
  rstrip-rstrip (c ∷ t) = elim (Bool-cases (f c && text_eq (rstrip_by f t) [])) [
    | inl e ↦ rw e refl
    | inr e ↦ rw (e, rstrip-rstrip t, e) refl
  ]

  -- The text is empty or begins with a character that stays.
  StartsWell : Text → Type 0
  StartsWell [] = Unit
  StartsWell (c ∷ t) = f c ≡ false

  lstrip-StartsWell : (t : Text) → StartsWell (lstrip_by f t)
  unfolding StartsWell
  lstrip-StartsWell [] = tt
  lstrip-StartsWell (c ∷ t) = elim (Bool-cases (f c)) [
    | inl e ↦ rw e (lstrip-StartsWell t)
    | inr e ↦ rw e e
  ]

  rstrip-StartsWell : (t : Text) → StartsWell t → StartsWell (rstrip_by f t)
  unfolding StartsWell
  rstrip-StartsWell [] h = tt
  rstrip-StartsWell (c ∷ t) h = rw h h

  StartsWell-lstrip : (t : Text) → StartsWell t → lstrip_by f t ≡ t
  unfolding StartsWell
  StartsWell-lstrip [] h = refl
  StartsWell-lstrip (c ∷ t) h = rw h refl

strip-strip : (t : Text) → strip (strip t) ≡ strip t
strip-strip t =
    let left = lstrip_by is_blank t in
    let well = rstrip-StartsWell is_blank left (lstrip-StartsWell is_blank t) in
    ap (λ (s : Text). rstrip_by is_blank s) (StartsWell-lstrip is_blank (strip t) well)
    ∙ rstrip-rstrip is_blank left

strip-IsRule :
    (t : Text) → has_char b'\n' t ≡ false → text_eq (strip t) [] ≡ false → IsRule (strip t)
strip-IsRule t h n = record {
  one_line =
      has_char-rstrip is_blank b'\n' (lstrip_by is_blank t) (has_char-lstrip is_blank b'\n' t h);
  stripped = strip-strip t;
  some_char = n;
}

OneLine : Text → Type 0
OneLine t = has_char b'\n' t ≡ false

cons_first-OneLine :
    (c : ℕ) (ls : List Text) → (b'\n' == c) ≡ false → All OneLine ls → All OneLine (cons_first c ls)
unfolding OneLine
cons_first-OneLine c [] h a = (ground arith, tt)
cons_first-OneLine c (l ∷ ls) h a = (ground (arith, a.0), a.1)

split_char-OneLine : (t : Text) → All OneLine (split_char b'\n' t)
unfolding OneLine
split_char-OneLine [] = (refl, tt)
split_char-OneLine (c ∷ t) = elim (Bool-cases (b'\n' == c)) [
  | inl e ↦ rw e (refl, split_char-OneLine t)
  | inr e ↦
      rw e (unfold OneLine in cons_first-OneLine c (split_char b'\n' t) e (split_char-OneLine t))
]

-- The lines of a text, stripped, without the empty ones.
abbrev pub rules_of : List Text → List Text
rules_of ls = keep (λ t. not (text_eq t [])) (map strip ls)

rules_of-IsRule : (ls : List Text) → All OneLine ls → All IsRule (rules_of ls)
unfolding OneLine
rules_of-IsRule [] a = tt
rules_of-IsRule (l ∷ ls) a = elim (Bool-cases (text_eq (strip l) [])) [
  | inl e ↦ rw e (rules_of-IsRule ls a.1)
  | inr e ↦ rw e (strip-IsRule l a.0 e, rules_of-IsRule ls a.1)
]

pub rules_of_lines-IsRule : (t : Text) → All IsRule (rules_of (split_char b'\n' t))
rules_of_lines-IsRule t = rules_of-IsRule (split_char b'\n' t) (split_char-OneLine t)

split_char-append :
    (l t : Text)
    → has_char b'\n' l ≡ false
    → split_char b'\n' (l ++ (b'\n' ∷ t)) ≡ l ∷ split_char b'\n' t
split_char-append [] t h = refl
split_char-append (c ∷ l) t h =
    let (n, m) : ((b'\n' == c) ≡ false) × (has_char b'\n' l ≡ false) = ground arith in
    rw (n, split_char-append l t m) refl

split_char-single : (l : Text) → has_char b'\n' l ≡ false → split_char b'\n' l ≡ l ∷ []
split_char-single [] h = refl
split_char-single (c ∷ l) h =
    let (n, m) : ((b'\n' == c) ≡ false) × (has_char b'\n' l ≡ false) = ground arith in
    rw (n, split_char-single l m) refl

rules_of-rules : (rs : List Text) → All IsRule rs → rules_of rs ≡ rs
rules_of-rules [] a = refl
rules_of-rules (r ∷ rs) a =
    let stripped = a.0.stripped in
    let full = a.0.some_char in rw (stripped, full, rules_of-rules rs a.1) refl

split-join :
    (r : Text) (rs : List Text)
    → All IsRule (r ∷ rs)
    → split_char b'\n' (join_lines (r ∷ rs)) ≡ r ∷ rs
split-join r [] a = split_char-single r a.0.one_line
split-join r (s ∷ rs) a =
    split_char-append r (join_lines (s ∷ rs)) a.0.one_line ∙ ap (λ x. r ∷ x) (split-join s rs a.1)

-- Rules that are joined to lines are read back as they were.
pub rules_of-join :
    (rs : List Text) → All IsRule rs → rules_of (split_char b'\n' (join_lines rs)) ≡ rs
rules_of-join [] a = refl
rules_of-join (r ∷ rs) a = ap rules_of (split-join r rs a) ∙ rules_of-rules (r ∷ rs) a
