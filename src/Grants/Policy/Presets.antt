-- ===== src/Grants/Policy/Presets.antt =====
-- The three policy documents that daemon/grants/policy.py ships.
use hypr_blocker.Base.{List, [], ◌∷◌, ◌++◌}
use hypr_blocker.Base.Text.{Text, codes}

-- Each line with its newline.
abbrev unlines : List Text → Text
unlines [] = []
unlines (l ∷ ls) = l ++ (b'\n' ∷ unlines ls)

unfoldable pub preset_strict : Text
preset_strict = unlines (
    codes "# Grant policy: STRICT"
    ∷ codes ""
    ∷ codes "Deny by default. Approve a request only when ALL of these hold:"
    ∷ codes "- The stated reason is specific, plausible, and clearly work- or health-related"
    ∷ codes "  (not entertainment, not \"just quickly checking\" anything)."
    ∷ codes "- The requested duration is the minimum needed; never grant more than 30 minutes."
    ∷ codes "- The same target has not been granted in the last 24 hours."
    ∷ codes "- The request history does not show a pattern of repeated similar excuses."
    ∷ codes ""
    ∷ codes "When in doubt, deny. Vague reasons (\"research\", \"I need it\", \"important\") are"
    ∷ codes "an automatic deny. Weekends and after 21:00 local time: deny everything."
    ∷ [])

unfoldable pub preset_lenient : Text
preset_lenient = unlines (
    codes "# Grant policy: LENIENT"
    ∷ codes ""
    ∷ codes "Approve reasonable requests by default. Deny only when:"
    ∷ codes "- The reason is empty or obviously dishonest."
    ∷ codes "- The requested duration exceeds 2 hours (offer less instead)."
    ∷ codes "- The history shows more than 3 grants for the same target today."
    ∷ codes ""
    ∷ codes "Prefer granting a shorter window over denying outright."
    ∷ [])

unfoldable pub preset_accountability : Text
preset_accountability = unlines (
    codes "# Grant policy: ACCOUNTABILITY"
    ∷ codes ""
    ∷ codes "Approve requests with a concrete, verifiable reason; the audit log is the"
    ∷ codes "accountability mechanism, not denial. Apply skepticism to patterns:"
    ∷ codes "- If the same or a similar reason was used more than twice this week, deny and"
    ∷ codes "  say which prior requests looked alike."
    ∷ codes "- Reasons must name WHAT will be done and WHY it needs this target now."
    ∷ codes "- Cap grants at 60 minutes. One extension per day, half the original length."
    ∷ codes ""
    ∷ codes "Deny anything framed to be hard to audit (\"personal\", \"can't say\")."
    ∷ [])
