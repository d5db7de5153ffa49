-- ===== src/Base/Text/Laws.antt =====
-- What the searches in a text find.
use Prim.Native.Nat.{ℕ}
use mathlib.Core.Path.{◌≡◌, refl, sym, ap}
use mathlib.Core.Logic.{◌↔◌, inl, inr}
use mathlib.Core.Bool.{true, false}
use mathlib.Core.List.{[], ◌∷◌, ◌++◌}
use native.Mathlib.Omega.{arith}
use hypr_blocker.Base.Tests.{Bool-cases}
use hypr_blocker.Base.Text.{
  Text, codes, text_eq, text_eq_iff, text_eq_refl, starts_with, ends_with, has_char, before, after,
  after_last,
}

pub starts_with_iff : (s t : Text) → (starts_with s t ≡ true) ↔ ((x : Text) × (t ≡ s ++ x))
starts_with_iff [] t = (λ _. (t, refl), λ _. refl)
starts_with_iff (c ∷ s) [] = (λ h. cc h, λ h. cc h.1)
starts_with_iff (c ∷ s) (d ∷ t) = (
  λ h. let (x, e) = (starts_with_iff s t).0 (ground arith) in (x, ground arith),
  λ h.
      let same : starts_with s t ≡ true = (starts_with_iff s t).1 (h.0, cc h.1) in
      ground (arith, h.1),
)

ends_with-append : (s x : Text) → ends_with s (x ++ s) ≡ true
ends_with-append [] [] = refl
ends_with-append (c ∷ s) [] = ground (arith, text_eq_refl s)
ends_with-append s (d ∷ x) = ground (arith, ends_with-append s x)

ends_with→append : (s t : Text) → ends_with s t ≡ true → (x : Text) × (t ≡ x ++ s)
ends_with→append s [] h = ([], sym ((text_eq_iff s []).0 h))
ends_with→append s (d ∷ t) h = elim (Bool-cases (text_eq s (d ∷ t))) [
  | inl e ↦ ([], sym ((text_eq_iff s (d ∷ t)).0 e))
  | inr e ↦ let (x, q) = ends_with→append s t (rw e at h) in (d ∷ x, ap (λ (r : Text). d ∷ r) q)
]

pub ends_with_iff : (s t : Text) → (ends_with s t ≡ true) ↔ ((x : Text) × (t ≡ x ++ s))
ends_with_iff s t = (ends_with→append s t, λ h. rw h.1 (ends_with-append s h.0))

pub before-append_char : (c : ℕ) (s t : Text) → has_char c s ≡ false → before c (s ++ (c ∷ t)) ≡ s
before-append_char c [] t h = ground arith
before-append_char c (d ∷ s) t h = ground (arith, before-append_char c s t)

pub after-append_char : (c : ℕ) (s t : Text) → has_char c s ≡ false → after c (s ++ (c ∷ t)) ≡ t
after-append_char c [] t h = ground arith
after-append_char c (d ∷ s) t h = ground (arith, after-append_char c s t)

-- What stands before the last separator is forgotten, whatever it is.
pub after_last-append :
    (u best v : Text)
    → after_last (codes "://") best (u ++ (codes "://" ++ v)) ≡ after_last (codes "://") v v
after_last-append [] best v = refl
after_last-append (d ∷ u) best v = after_last-append u _ v
