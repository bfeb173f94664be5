-- ===== src/Prelude/Sums.antt =====
-- Sums of a measure over a list, and members that a positive sum or count points at.
use Prim.Native.Nat.{ℕ, zero, suc, ◌+◌, ◌≤◌, ◌<◌}
use mathlib.Core.Path.{◌≡◌, refl}
use mathlib.Core.Logic.{inl, inr}
use mathlib.Core.Bool.{Bool, true}
use mathlib.Core.List.{List, [], ◌∷◌}
use mathlib.Core.Option.{some, some-injective}
use native.Mathlib.Omega.{arith}
use gha_mac_broker.Prelude.Tests.{Bool-cases, ltb}
use gha_mac_broker.Prelude.Lists.{get_elem?, set, count}

module _ {ℓ} {A : Type ℓ} (f : A → ℕ) where
  abbrev pub sum_of : List A → ℕ
  sum_of [] = 0
  sum_of (x ∷ xs) = f x + sum_of xs

  pub sum_of-set :
      (xs : List A) (i : ℕ) (v : A) {x : A}
      → get_elem? xs i ≡ some x
      → sum_of (set xs i v) + f x ≡ sum_of xs + f v
  sum_of-set [] i v h = cc
  sum_of-set (y ∷ xs) zero v {x} h = let e : y ≡ x = some-injective _ _ h in rw e (omega arith)
  sum_of-set (y ∷ xs) (suc i) v h = omega (arith, sum_of-set xs i v h)

  pub sum_of-pos :
      (xs : List A) → 0 < sum_of xs → (i : ℕ) × (x : A) × (get_elem? xs i ≡ some x) × (0 < f x)
  sum_of-pos [] h = elim h [ ]
  sum_of-pos (x ∷ xs) h = elim (Bool-cases (ltb 0 (f x))) [
    | inl e ↦ (0, x, refl, ground arith)
    | inr e ↦ let (i, y, at, pos) = sum_of-pos xs (ground arith) in (suc i, y, at, pos)
  ]

module _ {ℓ} {A : Type ℓ} (p : A → Bool) where
  pub count-pos :
      (xs : List A) → 0 < count p xs → (i : ℕ) × (x : A) × (get_elem? xs i ≡ some x) × (p x ≡ true)
  count-pos [] h = elim h [ ]
  count-pos (x ∷ xs) h = elim (Bool-cases (p x)) [
    | inl e ↦ (0, x, refl, e)
    | inr e ↦ let (i, y, at, q) = count-pos xs (ground arith) in (suc i, y, at, q)
  ]

pub sum_of-le {ℓ} :
    {A : Type ℓ} (f g : A → ℕ) (xs : List A) → ((x : A) → f x ≤ g x) → sum_of f xs ≤ sum_of g xs
sum_of-le f g [] h = omega arith
sum_of-le f g (x ∷ xs) h = omega (arith, h x, sum_of-le f g xs h)

pub sum_of-add {ℓ} :
    {A : Type ℓ} (f g : A → ℕ) (xs : List A)
    → sum_of (λ x. f x + g x) xs ≡ sum_of f xs + sum_of g xs
sum_of-add f g [] = omega arith
sum_of-add f g (x ∷ xs) = omega (arith, sum_of-add f g xs)
