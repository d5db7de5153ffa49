-- ===== src/Base/Lists.antt =====
-- Lists under Boolean tests, and predicates on lists by recursion, which compute to tuples and sums.
use Prim.Native.Nat.{ℕ, suc, ◌+◌, ◌≤◌}
use mathlib.Core.Path.{◌≡◌, refl}
use mathlib.Core.Logic.{◌⊎◌, ◌↔◌, inl, inr}
use mathlib.Core.Bool.{Bool, true, false, ◌&&◌, ◌||◌}
use mathlib.Core.List.{List, [], ◌∷◌, ◌++◌}
use native.Mathlib.Omega.{arith}
use hypr_blocker.Base.Tests.{if◌then◌else◌, Bool-cases, ◌==◌}

module _ {ℓ} {A : Type ℓ} where
  abbrev pub length : List A → ℕ
  length [] = 0
  length (x ∷ xs) = suc (length xs)

  -- Python's `any(f(x) for x in xs)`.
  abbrev pub any : (A → Bool) → List A → Bool
  any f [] = false
  any f (x ∷ xs) = f x || any f xs

  -- `all(f(x) for x in xs)`.
  abbrev pub all : (A → Bool) → List A → Bool
  all f [] = true
  all f (x ∷ xs) = f x && all f xs

  -- `[x for x in xs if f(x)]`.
  abbrev pub keep : (A → Bool) → List A → List A
  keep f [] = []
  keep f (x ∷ xs) = if f x then x ∷ keep f xs else keep f xs

  pub length-append : (xs ys : List A) → length (xs ++ ys) ≡ length xs + length ys
  length-append [] ys = omega arith
  length-append (x ∷ xs) ys = omega (arith, length-append xs ys)

  pub length-keep-le : (f : A → Bool) (xs : List A) → length (keep f xs) ≤ length xs
  length-keep-le f [] = omega arith
  length-keep-le f (x ∷ xs) = ground (arith, length-keep-le f xs)

  pub any-append : (f : A → Bool) (xs ys : List A) → any f (xs ++ ys) ≡ (any f xs || any f ys)
  any-append f [] ys = refl
  any-append f (x ∷ xs) ys = ground (arith, any-append f xs ys)

-- `n in numbers`.
abbrev pub is_among : ℕ → List ℕ → Bool
is_among n numbers = any (λ i. n == i) numbers

module _ {ℓ} {A : Type ℓ} (P : A → Type 0) where
  abbrev pub All : List A → Type 0
  All [] = Unit
  All (x ∷ xs) = P x × All xs

  abbrev pub Any : List A → Type 0
  Any [] = ⊥
  Any (x ∷ xs) = P x ⊎ Any xs

module _ {ℓ} {A : Type ℓ} (P : A → Type 0) where
  pub All-append : (xs ys : List A) → All P xs → All P ys → All P (xs ++ ys)
  All-append [] ys hx hy = hy
  All-append (x ∷ xs) ys hx hy = (hx.0, All-append xs ys hx.1 hy)

  pub All-keep : (f : A → Bool) (xs : List A) → All P xs → All P (keep f xs)
  All-keep f [] h = h
  All-keep f (x ∷ xs) h = elim (f x) as (λ b. All P (if b then x ∷ keep f xs else keep f xs)) [
    | true ↦ (h.0, All-keep f xs h.1)
    | false ↦ All-keep f xs h.1
  ]

  pub any→Any :
      (f : A → Bool) → ((x : A) → f x ≡ true → P x) → (xs : List A) → any f xs ≡ true → Any P xs
  any→Any f sound [] h = cc
  any→Any f sound (x ∷ xs) h = elim (Bool-cases (f x)) [
    | inl e ↦ inl (sound x e)
    | inr e ↦ inr (any→Any f sound xs (rw e at h))
  ]

  pub Any→any :
      (f : A → Bool) → ((x : A) → P x → f x ≡ true) → (xs : List A) → Any P xs → any f xs ≡ true
  Any→any f complete [] h = absurd h
  Any→any f complete (x ∷ xs) (inl p) = rw (complete x p)
  Any→any f complete (x ∷ xs) (inr q) = ground (arith, Any→any f complete xs q)

  pub Any-keep : (f : A → Bool) (xs : List A) → Any P (keep f xs) ↔ Any (λ x. (f x ≡ true) × P x) xs
  Any-keep f [] = (λ h. h, λ h. h)
  Any-keep f (x ∷ xs) = elim (Bool-cases (f x)) [
    | inl e ↦ rw e (
      λ h. elim h [ inl p ↦ inl (refl, p) | inr q ↦ inr ((Any-keep f xs).0 q) ],
      λ h. elim h [ inl p ↦ inl p.1 | inr q ↦ inr ((Any-keep f xs).1 q) ],
    )
    | inr e ↦ rw e (
      λ h. inr ((Any-keep f xs).0 h),
      λ h. elim h [ inl p ↦ cc p.0 | inr q ↦ (Any-keep f xs).1 q ],
    )
  ]

  pub All-keep_iff :
      (f : A → Bool) (xs : List A) → All P (keep f xs) ↔ All (λ x. f x ≡ true → P x) xs
  All-keep_iff f [] = (λ h. h, λ h. h)
  All-keep_iff f (x ∷ xs) = elim (Bool-cases (f x)) [
    | inl e ↦
        rw e
          (λ h. (λ _. h.0, (All-keep_iff f xs).0 h.1), λ h. (h.0 refl, (All-keep_iff f xs).1 h.1))
    | inr e ↦ rw e (λ h. (λ p. cc p, (All-keep_iff f xs).0 h), λ h. (All-keep_iff f xs).1 h.1)
  ]

module _ {ℓ} {A : Type ℓ} (P Q : A → Type 0) where
  pub Any-mono : ((x : A) → P x → Q x) → (xs : List A) → Any P xs → Any Q xs
  Any-mono f [] h = h
  Any-mono f (x ∷ xs) (inl p) = inl (f x p)
  Any-mono f (x ∷ xs) (inr q) = inr (Any-mono f xs q)

  pub All-mono : ((x : A) → P x → Q x) → (xs : List A) → All P xs → All Q xs
  All-mono f [] h = h
  All-mono f (x ∷ xs) h = (f x h.0, All-mono f xs h.1)

  pub Any-and : (xs : List A) → All P xs → Any Q xs → Any (λ x. P x × Q x) xs
  Any-and [] h q = q
  Any-and (x ∷ xs) h (inl q) = inl (h.0, q)
  Any-and (x ∷ xs) h (inr q) = inr (Any-and xs h.1 q)
