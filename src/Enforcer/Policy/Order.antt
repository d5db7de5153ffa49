-- ===== src/Enforcer/Policy/Order.antt =====
-- The order of the numbers of an enforcement policy and of its kill-lists.
use hypr_blocker.Base.{◌≡◌, true, String, arith}
use hypr_blocker.Base.Int.{◌≤ℤ◌}
use hypr_blocker.Base.Float.{fin, pinf, ninf, nan}
use hypr_blocker.Enforcer.Policy.{Number, number, no_number, Names, listed, no_names, contains}

-- The first number is no larger than the second; NaN and what is no number stand in no order.
abbrev pub IsAtMost : Number → Number → Type 0
IsAtMost (number (fin a)) (number (fin b)) = a ≤ℤ b
IsAtMost (number (fin a)) (number pinf) = Unit
IsAtMost (number ninf) (number (fin b)) = Unit
IsAtMost (number ninf) (number ninf) = Unit
IsAtMost (number ninf) (number pinf) = Unit
IsAtMost (number pinf) (number pinf) = Unit
IsAtMost _ _ = ⊥

-- The second kill-list has every name of the first.
abbrev pub Extends : Names → Names → Type 0
Extends (listed a) (listed b) = (n : String) → contains a n ≡ true → contains b n ≡ true
Extends _ _ = ⊥

-- The value is not NaN.
abbrev pub IsNotNan : Number → Type 0
IsNotNan (number nan) = ⊥
IsNotNan _ = Unit

pub IsAtMost-NotNan : (a b : Number) → IsAtMost a b → IsNotNan a × IsNotNan b
IsAtMost-NotNan (number (fin a)) (number (fin b)) h = (tt, tt)
IsAtMost-NotNan (number (fin a)) (number pinf) h = (tt, tt)
IsAtMost-NotNan (number (fin a)) (number ninf) h = absurd h
IsAtMost-NotNan (number (fin a)) (number nan) h = absurd h
IsAtMost-NotNan (number (fin a)) no_number h = absurd h
IsAtMost-NotNan (number pinf) (number (fin b)) h = absurd h
IsAtMost-NotNan (number pinf) (number pinf) h = (tt, tt)
IsAtMost-NotNan (number pinf) (number ninf) h = absurd h
IsAtMost-NotNan (number pinf) (number nan) h = absurd h
IsAtMost-NotNan (number pinf) no_number h = absurd h
IsAtMost-NotNan (number ninf) (number (fin b)) h = (tt, tt)
IsAtMost-NotNan (number ninf) (number pinf) h = (tt, tt)
IsAtMost-NotNan (number ninf) (number ninf) h = (tt, tt)
IsAtMost-NotNan (number ninf) (number nan) h = absurd h
IsAtMost-NotNan (number ninf) no_number h = absurd h
IsAtMost-NotNan (number nan) b h = absurd h
IsAtMost-NotNan no_number b h = absurd h

pub Extends-trans : (a b c : Names) → Extends a b → Extends b c → Extends a c
Extends-trans (listed a) (listed b) (listed c) h k = λ n e. k n (h n e)
Extends-trans (listed a) (listed b) no_names h k = absurd k
Extends-trans (listed a) no_names c h k = absurd h
Extends-trans no_names b c h k = absurd h

pub IsAtMost-trans : (a b c : Number) → IsAtMost a b → IsAtMost b c → IsAtMost a c
IsAtMost-trans (number (fin a)) (number (fin b)) (number (fin c)) h k = omega (arith, h, k)
IsAtMost-trans (number (fin a)) (number (fin b)) (number pinf) h k = tt
IsAtMost-trans (number (fin a)) (number (fin b)) (number ninf) h k = absurd k
IsAtMost-trans (number (fin a)) (number (fin b)) (number nan) h k = absurd k
IsAtMost-trans (number (fin a)) (number (fin b)) no_number h k = absurd k
IsAtMost-trans (number (fin a)) (number pinf) (number (fin c)) h k = absurd k
IsAtMost-trans (number (fin a)) (number pinf) (number pinf) h k = tt
IsAtMost-trans (number (fin a)) (number pinf) (number ninf) h k = absurd k
IsAtMost-trans (number (fin a)) (number pinf) (number nan) h k = absurd k
IsAtMost-trans (number (fin a)) (number pinf) no_number h k = absurd k
IsAtMost-trans (number (fin a)) (number ninf) c h k = absurd h
IsAtMost-trans (number (fin a)) (number nan) c h k = absurd h
IsAtMost-trans (number (fin a)) no_number c h k = absurd h
IsAtMost-trans (number pinf) (number (fin b)) c h k = absurd h
IsAtMost-trans (number pinf) (number pinf) (number (fin c)) h k = absurd k
IsAtMost-trans (number pinf) (number pinf) (number pinf) h k = tt
IsAtMost-trans (number pinf) (number pinf) (number ninf) h k = absurd k
IsAtMost-trans (number pinf) (number pinf) (number nan) h k = absurd k
IsAtMost-trans (number pinf) (number pinf) no_number h k = absurd k
IsAtMost-trans (number pinf) (number ninf) c h k = absurd h
IsAtMost-trans (number pinf) (number nan) c h k = absurd h
IsAtMost-trans (number pinf) no_number c h k = absurd h
IsAtMost-trans (number ninf) (number (fin b)) (number (fin c)) h k = tt
IsAtMost-trans (number ninf) (number (fin b)) (number pinf) h k = tt
IsAtMost-trans (number ninf) (number (fin b)) (number ninf) h k = absurd k
IsAtMost-trans (number ninf) (number (fin b)) (number nan) h k = absurd k
IsAtMost-trans (number ninf) (number (fin b)) no_number h k = absurd k
IsAtMost-trans (number ninf) (number pinf) (number (fin c)) h k = absurd k
IsAtMost-trans (number ninf) (number pinf) (number pinf) h k = tt
IsAtMost-trans (number ninf) (number pinf) (number ninf) h k = absurd k
IsAtMost-trans (number ninf) (number pinf) (number nan) h k = absurd k
IsAtMost-trans (number ninf) (number pinf) no_number h k = absurd k
IsAtMost-trans (number ninf) (number ninf) (number (fin c)) h k = tt
IsAtMost-trans (number ninf) (number ninf) (number pinf) h k = tt
IsAtMost-trans (number ninf) (number ninf) (number ninf) h k = tt
IsAtMost-trans (number ninf) (number ninf) (number nan) h k = absurd k
IsAtMost-trans (number ninf) (number ninf) no_number h k = absurd k
IsAtMost-trans (number ninf) (number nan) c h k = absurd h
IsAtMost-trans (number ninf) no_number c h k = absurd h
IsAtMost-trans (number nan) b c h k = absurd h
IsAtMost-trans no_number b c h k = absurd h

pub Extends-refl : (a b : Names) → Extends a b → Extends b b
Extends-refl (listed a) (listed b) h = λ n e. e
Extends-refl (listed a) no_names h = absurd h
Extends-refl no_names b h = absurd h

pub IsAtMost-self : (a b : Number) → IsAtMost a b → IsAtMost a a × IsAtMost b b
IsAtMost-self (number (fin a)) (number (fin b)) h = (omega arith, omega arith)
IsAtMost-self (number (fin a)) (number pinf) h = (omega arith, tt)
IsAtMost-self (number (fin a)) (number ninf) h = absurd h
IsAtMost-self (number (fin a)) (number nan) h = absurd h
IsAtMost-self (number (fin a)) no_number h = absurd h
IsAtMost-self (number pinf) (number (fin b)) h = absurd h
IsAtMost-self (number pinf) (number pinf) h = (tt, tt)
IsAtMost-self (number pinf) (number ninf) h = absurd h
IsAtMost-self (number pinf) (number nan) h = absurd h
IsAtMost-self (number pinf) no_number h = absurd h
IsAtMost-self (number ninf) (number (fin b)) h = (tt, omega arith)
IsAtMost-self (number ninf) (number pinf) h = (tt, tt)
IsAtMost-self (number ninf) (number ninf) h = (tt, tt)
IsAtMost-self (number ninf) (number nan) h = absurd h
IsAtMost-self (number ninf) no_number h = absurd h
IsAtMost-self (number nan) b h = absurd h
IsAtMost-self no_number b h = absurd h
