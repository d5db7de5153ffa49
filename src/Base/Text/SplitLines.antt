-- ===== src/Base/Text/SplitLines.antt =====
-- `splitlines` of joined lines.
use Prim.Native.Nat.{ℕ}
use mathlib.Core.Path.{◌≡◌, refl, ap, ◌∙◌}
use mathlib.Core.Logic.{inl, inr}
use mathlib.Core.Bool.{Bool, false, ◌&&◌}
use mathlib.Core.List.{List, [], ◌∷◌, ◌++◌}
use native.Mathlib.Omega.{arith}
use hypr_blocker.Base.Tests.{Bool-cases, ◌==◌}
use hypr_blocker.Base.Lists.{any, All}
use hypr_blocker.Base.Text.{
  Text, ends_line, lines_from, split_lines, cons_first, same_line, join_lines,
}

-- No character that ends a line.
abbrev pub NoEnd : Text → Type 0
NoEnd l = any ends_line l ≡ false

cons_first-NoEnd :
    (c : ℕ) (ls : List Text) → ends_line c ≡ false → All NoEnd ls → All NoEnd (cons_first c ls)
cons_first-NoEnd c [] e a = (rw e refl, tt)
cons_first-NoEnd c (l ∷ ls) e a = (rw e a.0, a.1)

same_line-NoEnd :
    (c : ℕ) (t : Text) (ls : List Text)
    → ends_line c ≡ false
    → All NoEnd ls
    → All NoEnd (same_line c t ls)
same_line-NoEnd c [] ls f a = (rw f refl, tt)
same_line-NoEnd c (d ∷ t) ls f a = cons_first-NoEnd c ls f a

lines_from-NoEnd : (b : Bool) (t : Text) → All NoEnd (lines_from b t)
lines_from-NoEnd b [] = tt
lines_from-NoEnd b (c ∷ t) = elim (Bool-cases (b && c == 10)) [
  | inl e ↦ rw (e, All) (lines_from-NoEnd false t)
  | inr e ↦ elim (Bool-cases (ends_line c)) [
    | inl f ↦ rw (e, f, All) (refl, lines_from-NoEnd (c == 13) t)
    | inr f ↦ rw (e, f, All) (same_line-NoEnd c t (lines_from false t) f (lines_from-NoEnd false t))
  ]
]

pub split_lines-NoEnd : (t : Text) → All NoEnd (split_lines t)
split_lines-NoEnd t = lines_from-NoEnd false t

lines_from-inside :
    (c d : ℕ) (t : Text)
    → ends_line c ≡ false
    → lines_from false (c ∷ d ∷ t) ≡ cons_first c (lines_from false (d ∷ t))
lines_from-inside c d t h = rw (h, lines_from) refl

-- A line with a line feed behind it.
lines_from-append :
    (l r : Text) → NoEnd l → lines_from false (l ++ (b'\n' ∷ r)) ≡ l ∷ lines_from false r
lines_from-append [] r h = refl
lines_from-append (c ∷ []) r h =
    let one : ends_line c ≡ false = ground (arith, h) in rw (one, lines_from) refl
lines_from-append (c ∷ d ∷ l) r h =
    let one : ends_line c ≡ false = ground (arith, h) in
    lines_from-inside c d (l ++ (b'\n' ∷ r)) one
    ∙ ap (cons_first c) (lines_from-append (d ∷ l) r (ground (arith, h)))

lines_from-last : (c : ℕ) (l : Text) → NoEnd (c ∷ l) → lines_from false (c ∷ l) ≡ (c ∷ l) ∷ []
lines_from-last c [] h =
    let one : ends_line c ≡ false = ground (arith, h) in rw (one, lines_from) refl
lines_from-last c (d ∷ l) h =
    let one : ends_line c ≡ false = ground (arith, h) in
    lines_from-inside c d l one ∙ ap (cons_first c) (lines_from-last d l (ground (arith, h)))

-- Joined lines are split into some of them: an empty last line is lost.
pub split_lines-join :
    (P : Text → Type 0) (ls : List Text)
    → All NoEnd ls
    → All P ls
    → All P (split_lines (join_lines ls))
split_lines-join P [] a p = tt
split_lines-join P ([] ∷ []) a p = tt
split_lines-join P ((c ∷ l) ∷ []) a p = rw (lines_from-last c l a.0) (p.0, tt)
split_lines-join P (l ∷ m ∷ ls) a p =
    rw (lines_from-append l (join_lines (m ∷ ls)) a.0) (p.0, split_lines-join P (m ∷ ls) a.1 p.1)
