-- ===== src/Base/Float.antt =====
-- Python's `float` as far as the program uses it: a clock reading counted in milliseconds, the
-- infinities, and NaN, which `json.loads` and `float()` produce too. Every comparison with NaN is
-- false. Rounding of sums is not modelled.
use mathlib.Core.Path.{◌≡◌, refl}
use mathlib.Core.Bool.{Bool, true, false}
use Prim.Native.Nat.{ℕ}
use hypr_blocker.Base.Tests.{if◌then◌else◌}
use hypr_blocker.Base.Int.{ℤ, ◌-ℤ◌, ltb_ℤ, leb_ℤ, scale}

pub data Float : Type 0 where
  fin : ℤ → Float
  pinf ninf nan : Float

-- `a - b`.
unfoldable pub minus : Float → Float → Float
minus (fin a) (fin b) = fin (a -ℤ b)
minus nan _ = nan
minus (fin a) pinf = ninf
minus (fin a) ninf = pinf
minus (fin a) nan = nan
minus pinf (fin b) = pinf
minus pinf pinf = nan
minus pinf ninf = pinf
minus pinf nan = nan
minus ninf (fin b) = ninf
minus ninf pinf = ninf
minus ninf ninf = nan
minus ninf nan = nan

-- `a < b`.
abbrev pub less : Float → Float → Bool
less (fin a) (fin b) = ltb_ℤ a b
less (fin a) pinf = true
less (fin a) ninf = false
less (fin a) nan = false
less pinf _ = false
less ninf (fin b) = true
less ninf pinf = true
less ninf ninf = false
less ninf nan = false
less nan _ = false

-- `max(a, b)` and `min(a, b)`: the second argument where it is strictly larger, or smaller.
abbrev pub max_float : Float → Float → Float
max_float a b = if less a b then b else a

abbrev pub min_float : Float → Float → Float
min_float a b = if less b a then b else a

-- `a >= b`.
abbrev pub at_least : Float → Float → Bool
at_least (fin a) (fin b) = leb_ℤ b a
at_least (fin a) ninf = true
at_least (fin a) pinf = false
at_least (fin a) nan = false
at_least pinf nan = false
at_least pinf (fin b) = true
at_least pinf pinf = true
at_least pinf ninf = true
at_least ninf ninf = true
at_least ninf (fin b) = false
at_least ninf pinf = false
at_least ninf nan = false
at_least nan _ = false

-- A multiple by a positive constant.
abbrev pub times : ℕ → Float → Float
times k (fin a) = fin (scale k a)
times k pinf = pinf
times k ninf = ninf
times k nan = nan

pub minus-nan : (a : Float) → minus a nan ≡ nan
unfolding minus
minus-nan (fin a) = refl
minus-nan _ = refl

pub less-nan : (a : Float) → less a nan ≡ false
less-nan (fin a) = refl
less-nan _ = refl
