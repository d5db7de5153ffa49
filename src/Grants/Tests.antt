-- ===== src/Grants/Tests.antt =====
-- Instances of the properties of the grant rules, and runs of their definitions.
use hypr_blocker.Base.{◌≡◌, refl, true, some}
use hypr_blocker.Base.Int.{pos}
use hypr_blocker.Base.Text.{Text, codes}
use hypr_blocker.Grants.Policy.{
  lenient, normalize, identify_preset, classify_policy_edit, loosen_delay, preset_lenient,
  preset_strict, preset_accountability, validate_policy_text,
}

abbrev note : Text
note = codes "Deny games.  \n"

-- The same note with a blank at the end of its line removed.
abbrev trimmed : Text
trimmed = codes "Deny games."

trimmed_at_once :
    classify_policy_edit note trimmed (pos 5) loosen_delay
    ≡ some (record { apply_immediately = true; effective_at = pos 5 })
unfolding classify_policy_edit validate_policy_text normalize
trimmed_at_once = refl

lenient_is_known : identify_preset preset_lenient ≡ some lenient
unfolding identify_preset normalize preset_lenient preset_strict preset_accountability
lenient_is_known = refl

lenient_to_strict :
    classify_policy_edit preset_lenient preset_strict (pos 5) loosen_delay
    ≡ some (record { apply_immediately = true; effective_at = pos 5 })
unfolding classify_policy_edit validate_policy_text normalize identify_preset preset_lenient
    preset_strict preset_accountability
lenient_to_strict = refl
