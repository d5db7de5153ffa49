-- ===== src/Base/Text.antt =====
-- Python's `str` as a list of code points, for the code that looks inside a text. Letters and
-- blanks are the ASCII ones; other characters are left as they are by `lower` and `strip`.
pub mod Laws
pub mod Lines
pub mod SplitLines
use Prim.Native.Nat.{ℕ, ◌+◌}
use Prim.Native.Char.{code}
use Prim.Native.String.{String}
use mathlib.Core.Path.{◌≡◌, refl}
use mathlib.Core.Logic.{◌↔◌}
use mathlib.Core.Bool.{Bool, true, false, ◌&&◌, ◌||◌}
use mathlib.Core.Option.{Option, none, some}
use mathlib.Core.List.{List, [], ◌∷◌, ◌++◌, map}
use native.Mathlib.Omega.{arith}
use hypr_blocker.Base.Tests.{leb, ◌==◌, if◌then◌else◌}
use hypr_blocker.Base.Lists.{any}

abbrev pub Text : Type 0
Text = List ℕ

-- A text literal.
abbrev pub codes : String → Text
codes String.[] = []
codes (String.◌∷◌ c s) = code c ∷ codes s

-- `s == t`.
abbrev pub text_eq : Text → Text → Bool
text_eq [] [] = true
text_eq [] (d ∷ t) = false
text_eq (c ∷ s) [] = false
text_eq (c ∷ s) (d ∷ t) = c == d && text_eq s t

pub text_eq_iff : (s t : Text) → (text_eq s t ≡ true) ↔ (s ≡ t)
text_eq_iff [] [] = ground arith
text_eq_iff [] (d ∷ t) = ground arith
text_eq_iff (c ∷ s) [] = ground arith
text_eq_iff (c ∷ s) (d ∷ t) = ground (arith, text_eq_iff s t)

pub text_eq_refl : (s : Text) → text_eq s s ≡ true
text_eq_refl s = (text_eq_iff s s).1 refl

-- `s in texts`.
abbrev pub member : Text → List Text → Bool
member s texts = any (λ t. text_eq s t) texts

-- `t.startswith(s)`, the prefix first.
abbrev pub starts_with : Text → Text → Bool
starts_with [] t = true
starts_with (c ∷ s) [] = false
starts_with (c ∷ s) (d ∷ t) = c == d && starts_with s t

-- `t.endswith(s)`: some tail of `t` is `s`.
abbrev pub ends_with : Text → Text → Bool
ends_with s [] = text_eq s []
ends_with s (d ∷ t) = text_eq s (d ∷ t) || ends_with s t

-- `s in t`.
abbrev pub contains : Text → Text → Bool
contains s [] = text_eq s []
contains s (d ∷ t) = starts_with s (d ∷ t) || contains s t

-- `chr(c) in t`.
abbrev pub has_char : ℕ → Text → Bool
has_char c t = any (λ d. c == d) t

abbrev pub lower_char : ℕ → ℕ
lower_char c = if leb b'A' c && leb c b'Z' then c + 32 else c

-- `t.lower()`.
abbrev pub lower : Text → Text
lower = map lower_char

abbrev pub is_blank : ℕ → Bool
is_blank c = leb 9 c && leb c 13 || leb 28 c && leb c 32

abbrev pub lstrip_by : (ℕ → Bool) → Text → Text
lstrip_by f [] = []
lstrip_by f (c ∷ t) = if f c then lstrip_by f t else c ∷ t

abbrev pub rstrip_by : (ℕ → Bool) → Text → Text
rstrip_by f [] = []
rstrip_by f (c ∷ t) = let rest = rstrip_by f t in if f c && text_eq rest [] then [] else c ∷ rest

-- `t.strip()`.
abbrev pub strip : Text → Text
strip t = rstrip_by is_blank (lstrip_by is_blank t)

-- `t.rstrip("/")`.
abbrev pub rstrip_slash : Text → Text
rstrip_slash = rstrip_by (λ c. c == b'/')

-- `t[:-1]` of a text that ends in the character `c`, and `t` of any other.
abbrev pub drop_last_char : ℕ → Text → Text
drop_last_char c [] = []
drop_last_char c (d ∷ []) = if c == d then [] else d ∷ []
drop_last_char c (d ∷ e ∷ t) = d ∷ drop_last_char c (e ∷ t)

-- `t.split(c)[0]`: what stands before the first `c`.
abbrev pub before : ℕ → Text → Text
before c [] = []
before c (d ∷ t) = if c == d then [] else d ∷ before c t

-- `t.partition(c)[2]`: what stands after the first `c`, empty where there is none.
abbrev pub after : ℕ → Text → Text
after c [] = []
after c (d ∷ t) = if c == d then t else after c t

abbrev pub drop_text : Text → Text → Text
drop_text [] t = t
drop_text (c ∷ s) [] = []
drop_text (c ∷ s) (d ∷ t) = drop_text s t

-- `t.split(s, 1)`: the parts around the first `s`.
abbrev pub split_first : Text → Text → Option (Text × Text)
split_first s [] = if text_eq s [] then some ([], []) else none
split_first s (d ∷ t) =
    if starts_with s (d ∷ t)
    then some ([], drop_text s (d ∷ t))
    else elim (split_first s t) [ none ↦ none | some (a, b) ↦ some (d ∷ a, b) ]

-- `t.split(s)[-1]`, for a separator no proper prefix of which is a suffix of it: what stands after
-- the last `s`. The first argument is the answer where no `s` is left.
abbrev pub after_last : Text → Text → Text → Text
after_last s best [] = best
after_last s best (d ∷ t) =
    after_last s (if starts_with s (d ∷ t) then drop_text s (d ∷ t) else best) t

abbrev pub cons_first : ℕ → List Text → List Text
cons_first c [] = (c ∷ []) ∷ []
cons_first c (s ∷ rest) = (c ∷ s) ∷ rest

-- `t.split(chr(c))`.
abbrev pub split_char : ℕ → Text → List Text
split_char c [] = [] ∷ []
split_char c (d ∷ t) = let rest = split_char c t in if c == d then [] ∷ rest else cons_first d rest

abbrev pub ends_line : ℕ → Bool
ends_line c = leb 10 c && leb c 13 || leb 28 c && leb c 30

-- A character in front of a text with the lines given.
abbrev pub same_line : ℕ → Text → List Text → List Text
same_line c [] ls = (c ∷ []) ∷ []
same_line c (d ∷ t) ls = cons_first c ls

abbrev pub lines_from : Bool → Text → List Text
lines_from after_return [] = []
lines_from after_return (c ∷ t) = elim (after_return && c == 10) [
  | true ↦ lines_from false t
  | false ↦ elim (ends_line c) [
    | true ↦ [] ∷ lines_from (c == 13) t
    | false ↦ same_line c t (lines_from false t)
  ]
]

-- `t.splitlines()`: a carriage return with a line feed ends one line, and no empty line follows the
-- last line end.
abbrev pub split_lines : Text → List Text
split_lines = lines_from false

-- `"\n".join(lines)`.
abbrev pub join_lines : List Text → Text
join_lines [] = []
join_lines (l ∷ []) = l
join_lines (l ∷ m ∷ ls) = l ++ (b'\n' ∷ join_lines (m ∷ ls))
