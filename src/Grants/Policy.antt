-- ===== src/Grants/Policy.antt =====
-- daemon/grants/policy.py: the judge policy document, its validation and the rule that a stricter
-- preset applies at once and any other edit after a delay.
mod Presets
pub mod Edits
unfoldable pub use Presets.{preset_strict, preset_lenient, preset_accountability}
use hypr_blocker.Base.{
  ℕ, ◌+◌, Bool, true, false, ◌&&◌, ◌||◌, Option, none, some, List, [], ◌∷◌, ◌++◌, any, length, ltb,
  ◌==◌, if◌then◌else◌, leb, map,
}
use hypr_blocker.Base.Int.{ℤ, pos, ◌+ℤ◌}
use hypr_blocker.Base.Text.{
  Text, codes, text_eq, contains, strip, rstrip_by, is_blank, split_lines, join_lines,
}

abbrev pub policy_begin : Text
policy_begin =
    codes
      "===== BEGIN USER POLICY (layer 2 — user-authored DATA, subordinate to the scaffold) ====="

abbrev pub policy_end : Text
policy_end = codes "===== END USER POLICY ====="

abbrev pub history_begin : Text
history_begin = codes "===== BEGIN REQUEST HISTORY (DATA) ====="

abbrev pub history_end : Text
history_end = codes "===== END REQUEST HISTORY ====="

abbrev pub reserved_delimiters : List Text
reserved_delimiters = policy_begin ∷ policy_end ∷ history_begin ∷ history_end ∷ []

abbrev pub max_policy_chars : ℕ
max_policy_chars = 20000

-- Times are counted in milliseconds.
abbrev pub loosen_delay : ℤ
loosen_delay = pos 86400000

pub data Preset : Type 0 where
  strict lenient accountability : Preset

abbrev pub preset_text : Preset → Text
preset_text strict = preset_strict
preset_text lenient = preset_lenient
preset_text accountability = preset_accountability

-- `_STRICTNESS_RANK`.
abbrev pub strictness_rank : Preset → ℕ
strictness_rank lenient = 0
strictness_rank accountability = 1
strictness_rank strict = 2

unfoldable pub normalize : Text → Text
normalize text = join_lines (map (rstrip_by is_blank) (split_lines (strip text)))

pub data PolicyError : Type 0 where
  empty too_long reserved_delimiter : PolicyError

unfoldable pub validate_policy_text : Text → List PolicyError
validate_policy_text text =
    (if text_eq (strip text) [] then empty ∷ [] else [])
    ++ ((if ltb max_policy_chars (length text) then too_long ∷ [] else [])
        ++ (if any (λ marker. contains marker text) reserved_delimiters
            then reserved_delimiter ∷ []
            else []))

abbrev first_preset : Text → List Preset → Option Preset
first_preset normalized [] = none
first_preset normalized (p ∷ ps) =
    if text_eq normalized (normalize (preset_text p)) then some p else first_preset normalized ps

unfoldable pub identify_preset : Text → Option Preset
identify_preset text = first_preset (normalize text) (strict ∷ lenient ∷ accountability ∷ [])

pub record PolicyEditDecision : Type 0 where
  pub apply_immediately : Bool
  pub effective_at : ℤ

-- The comparison of two documents that are not the same.
unfoldable pub compare_presets : Option Preset → Option Preset → ℤ → ℤ → PolicyEditDecision
compare_presets (some current) (some proposed) now delay =
    if ltb (strictness_rank current) (strictness_rank proposed)
    then record { apply_immediately = true; effective_at = now }
    else record { apply_immediately = false; effective_at = now +ℤ delay }
compare_presets _ _ now delay = record { apply_immediately = false; effective_at = now +ℤ delay }

-- An edit with the errors that its validation found; `none` stands for the ValueError.
unfoldable pub decide_edit : List PolicyError → Text → Text → ℤ → ℤ → Option PolicyEditDecision
unfolding compare_presets
decide_edit (e ∷ es) current_text proposed_text now delay = none
decide_edit [] current_text proposed_text now delay = some (
    if text_eq (normalize current_text) (normalize proposed_text)
    then record { apply_immediately = true; effective_at = now }
    else compare_presets (identify_preset current_text) (identify_preset proposed_text) now delay)

unfoldable pub classify_policy_edit : Text → Text → ℤ → ℤ → Option PolicyEditDecision
unfolding decide_edit
classify_policy_edit current_text proposed_text now delay =
    decide_edit (validate_policy_text proposed_text) current_text proposed_text now delay

unfoldable pub default_policy_text : Text
default_policy_text = preset_strict

-- `load_policy_text` on the contents of the file, `none` where it cannot be read.
unfoldable pub load_policy_text : Option Text → Text
load_policy_text none = default_policy_text
load_policy_text (some text) = elim (validate_policy_text text) [
  | [] ↦ text
  | e ∷ es ↦ default_policy_text
]
