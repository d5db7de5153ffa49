-- ===== src/Grants/Policy/Edits.antt =====
-- Which edits of the judge policy apply at once.
use hypr_blocker.Base.{
  ◌≤◌, ◌<◌, ◌≡◌, refl, ◌∙◌, ◌↔◌, ◌⊎◌, inl, inr, true, Option, none, some, List, [], ◌∷◌, arith,
  Bool-cases,
}
use hypr_blocker.Base.Int.{ℤ}
use hypr_blocker.Base.Text.{Text, text_eq, text_eq_iff}
use hypr_blocker.Grants.Policy.{
  Preset, strictness_rank, normalize, PolicyError, validate_policy_text, identify_preset,
  PolicyEditDecision, decide_edit, compare_presets, classify_policy_edit,
}

-- Both documents are shipped presets, and the proposed one is the stricter.
abbrev pub Stricter : Text → Text → Type 0
Stricter current proposed =
    (p q : Preset) × (identify_preset current ≡ some p)
    × (identify_preset proposed ≡ some q)
    × (strictness_rank p < strictness_rank q)

compare_presets_iff :
    (a b : Option Preset) (now delay : ℤ)
    → ((compare_presets a b now delay).apply_immediately ≡ true) ↔ (
        (p : Preset) × (q : Preset) × (a ≡ some p)
        × (b ≡ some q)
        × (strictness_rank p < strictness_rank q))
unfolding compare_presets
compare_presets_iff none b now delay = (λ h. cc h, λ h. cc h.2)
compare_presets_iff (some p) none now delay = (λ h. cc h, λ h. cc h.3)
compare_presets_iff (some p) (some q) now delay =
    (λ h. (p, q, refl, refl, ground arith), λ h. ground arith)

identify_preset-congr :
    (s t : Text) → normalize s ≡ normalize t → identify_preset t ≡ identify_preset s
unfolding identify_preset
identify_preset-congr s t e = rw e

decide_edit_iff :
    (errors : List PolicyError) (current proposed : Text) (now delay : ℤ) (d : PolicyEditDecision)
    → decide_edit errors current proposed now delay ≡ some d
    → (d.apply_immediately ≡ true)
      ↔ ((normalize current ≡ normalize proposed) ⊎ Stricter current proposed)
unfolding decide_edit
decide_edit_iff (x ∷ xs) current proposed now delay d e = cc
decide_edit_iff [] current proposed now delay d e =
    let a = identify_preset current in
    let b = identify_preset proposed in
    let same = text_eq_iff (normalize current) (normalize proposed) in
    elim (Bool-cases (text_eq (normalize current) (normalize proposed))) [
      | inl t ↦ (λ h. inl (same.0 t), λ h. ground arith)
      | inr f ↦
          let chosen : compare_presets a b now delay ≡ d = ground arith in
          (
            λ h. inr ((compare_presets_iff a b now delay).0 (rw chosen h)),
            λ h. elim h [
              | inl e ↦ cc (same.1 e, f)
              | inr s ↦ rw (← chosen) ((compare_presets_iff a b now delay).1 s)
            ],
          )
    ]

-- A valid edit applies at once exactly when both texts normalize to the same, or it goes from a shipped preset to a
-- stricter one; every free-form change waits.
pub immediate_iff :
    (current proposed : Text) (now delay : ℤ) (d : PolicyEditDecision)
    → classify_policy_edit current proposed now delay ≡ some d
    → (d.apply_immediately ≡ true)
      ↔ ((normalize current ≡ normalize proposed) ⊎ Stricter current proposed)
unfolding classify_policy_edit
immediate_iff current proposed now delay d e =
    decide_edit_iff (validate_policy_text proposed) current proposed now delay d e

-- A document that is a shipped preset is one after any immediate edit, and no weaker.
pub immediate_keeps_rank :
    (current proposed : Text) (now delay : ℤ) (d : PolicyEditDecision) (p : Preset)
    → identify_preset current ≡ some p
    → classify_policy_edit current proposed now delay ≡ some d
    → d.apply_immediately ≡ true
    → (q : Preset) × (identify_preset proposed ≡ some q) × (strictness_rank p ≤ strictness_rank q)
immediate_keeps_rank current proposed now delay d p ip e h =
    elim ((immediate_iff current proposed now delay d e).0 h) [
      | inl same ↦ (p, identify_preset-congr current proposed same ∙ ip, omega arith)
      | inr s ↦ (s.1, s.3, no_weaker s)
    ]
  where
    no_weaker : (s : Stricter current proposed) → strictness_rank p ≤ strictness_rank s.1
    no_weaker (p', q, ep, eq, lt) = let same : p ≡ p' = cc (ip, ep) in rw same (omega arith)
