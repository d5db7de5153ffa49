-- ===== src/Base/Dict.antt =====
-- Python's dict as an association list with keys in the order of their insertion.
use Prim.Native.Nat.{ℕ}
use mathlib.Core.Path.{◌≡◌}
use mathlib.Core.Bool.{false}
use mathlib.Core.Option.{Option, none, some}
use mathlib.Core.List.{List, [], ◌∷◌}
use native.Mathlib.Omega.{arith}
use hypr_blocker.Base.Tests.{if◌then◌else◌, ◌==◌}

module _ {ℓ} {A : Type ℓ} where
  -- `d.get(k)`
  abbrev pub find : ℕ → List (ℕ × A) → Option A
  find k [] = none
  find k ((j, v) ∷ d) = if k == j then some v else find k d

  -- `d[k] = v`
  abbrev pub put : ℕ → A → List (ℕ × A) → List (ℕ × A)
  put k v [] = (k, v) ∷ []
  put k v ((j, w) ∷ d) = let rest = put k v d in if k == j then (j, v) ∷ d else (j, w) ∷ rest

  pub find-put : (k : ℕ) (v : A) (d : List (ℕ × A)) → find k (put k v d) ≡ some v
  find-put k v [] = ground arith
  find-put k v ((j, w) ∷ d) = ground (arith, find-put k v d)

  pub find-put-other :
      (k j : ℕ) (v : A) (d : List (ℕ × A)) → (k == j) ≡ false → find k (put j v d) ≡ find k d
  find-put-other k j v [] h = ground (arith, h)
  find-put-other k j v ((i, w) ∷ d) h = ground (arith, h, find-put-other k j v d h)
