-- ===== src/Grants/Judge/Prompt/Delimiters.antt =====
-- No data between the delimiters of the prompt holds a delimiter.
use hypr_blocker.Base.{
  ◌≡◌, true, false, List, [], ◌∷◌, All, All-keep, keep, arith, Bool-cases, inl, inr,
}
use hypr_blocker.Base.Text.{Text, member, strip, split_lines}
use hypr_blocker.Base.Text.SplitLines.{NoEnd, split_lines-NoEnd, split_lines-join}
use hypr_blocker.Grants.Policy.{reserved_delimiters}
use hypr_blocker.Grants.Judge.Prompt.{is_data, sanitize_data_block}

-- A line that is no delimiter, whatever blanks stand around it.
abbrev pub IsDataLine : Text → Type 0
IsDataLine line = member (strip line) reserved_delimiters ≡ false

data_line : (line : Text) → is_data line ≡ true → IsDataLine line
data_line line h = ground (arith, h)

kept_lines : (ls : List Text) → All IsDataLine (keep is_data ls)
kept_lines [] = tt
kept_lines (l ∷ ls) = elim (Bool-cases (is_data l)) [
  | inl e ↦ rw e (data_line l e, kept_lines ls)
  | inr e ↦ rw e (kept_lines ls)
]

-- However a policy text or a history is written, no line of what stands for it in the prompt is one of the four
-- delimiters with blanks around it: such a text cannot end its own block or begin another.
pub sanitized-IsDataLine : (text : Text) → All IsDataLine (split_lines (sanitize_data_block text))
unfolding sanitize_data_block
sanitized-IsDataLine text =
    split_lines-join IsDataLine (keep is_data (split_lines text))
      (All-keep NoEnd is_data (split_lines text) (split_lines-NoEnd text))
      (kept_lines (split_lines text))
