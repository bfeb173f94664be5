-- ===== src/Prelude/Lists.antt =====
-- Lists measured and indexed by native numbers, predicates on all members, and counting.
use Prim.Native.Nat.{ℕ, zero, suc, ◌+◌, ◌≤◌, ◌<◌}
use mathlib.Core.Path.{◌≡◌, refl, sym, ap, subst}
use mathlib.Core.Logic.{◌≢◌, ◌⊎◌, inl, inr}
use mathlib.Core.Bool.{Bool, true, false, ◌||◌}
use mathlib.Core.List.{List, [], ◌∷◌, ◌++◌}
use mathlib.Core.Option.{Option, none, some, some-injective}
use native.Mathlib.Omega.{arith}
use gha_mac_broker.Prelude.Tests.{to_nat}

module _ {ℓ} {A : Type ℓ} where
  abbrev pub length : List A → ℕ
  length [] = 0
  length (x ∷ xs) = suc (length xs)

  abbrev pub get_elem? : List A → ℕ → Option A
  get_elem? [] i = none
  get_elem? (x ∷ xs) zero = some x
  get_elem? (x ∷ xs) (suc i) = get_elem? xs i

  -- A write out of bounds changes nothing.
  abbrev pub set : List A → ℕ → A → List A
  set [] i v = []
  set (x ∷ xs) zero v = v ∷ xs
  set (x ∷ xs) (suc i) v = x ∷ set xs i v

  abbrev pub replicate : ℕ → A → List A
  replicate zero a = []
  replicate (suc n) a = a ∷ replicate n a

  pub length-append : (xs ys : List A) → length (xs ++ ys) ≡ length xs + length ys
  length-append [] ys = omega arith
  length-append (x ∷ xs) ys = omega (arith, length-append xs ys)

  pub length-set : (xs : List A) (i : ℕ) (v : A) → length (set xs i v) ≡ length xs
  length-set [] i v = refl
  length-set (x ∷ xs) zero v = refl
  length-set (x ∷ xs) (suc i) v = ap suc (length-set xs i v)

  pub length-replicate : (n : ℕ) (a : A) → length (replicate n a) ≡ n
  length-replicate zero a = refl
  length-replicate (suc n) a = ap suc (length-replicate n a)

  pub get_elem?-set_self :
      (xs : List A) (i : ℕ) (v : A) → i < length xs → get_elem? (set xs i v) i ≡ some v
  get_elem?-set_self [] i v h = elim h [ ]
  get_elem?-set_self (x ∷ xs) zero v h = refl
  get_elem?-set_self (x ∷ xs) (suc i) v h = get_elem?-set_self xs i v (omega arith)

  pub get_elem?-set_ne :
      (xs : List A) (i j : ℕ) (v : A) → i ≢ j → get_elem? (set xs i v) j ≡ get_elem? xs j
  get_elem?-set_ne [] i j v h = refl
  get_elem?-set_ne (x ∷ xs) zero zero v h = absurd (h refl)
  get_elem?-set_ne (x ∷ xs) zero (suc j) v h = refl
  get_elem?-set_ne (x ∷ xs) (suc i) zero v h = refl
  get_elem?-set_ne (x ∷ xs) (suc i) (suc j) v h = get_elem?-set_ne xs i j v (λ e. h (ap suc e))

  pub set-set : (xs : List A) (i : ℕ) (a b : A) → set (set xs i a) i b ≡ set xs i b
  set-set [] i a b = refl
  set-set (x ∷ xs) zero a b = refl
  set-set (x ∷ xs) (suc i) a b = ap (λ r. x ∷ r) (set-set xs i a b)

  pub set-get_elem? : (xs : List A) (i : ℕ) {x : A} → get_elem? xs i ≡ some x → set xs i x ≡ xs
  set-get_elem? [] i e = refl
  set-get_elem? (y ∷ xs) zero e = ap (λ z. z ∷ xs) (sym (some-injective _ _ e))
  set-get_elem? (y ∷ xs) (suc i) e = ap (λ r. y ∷ r) (set-get_elem? xs i e)

  -- What stands at a place after a write.
  pub get_elem?-set_cases :
      (xs : List A) (i j : ℕ) (v : A) {x : A}
      → get_elem? (set xs i v) j ≡ some x
      → ((j ≡ i) × (x ≡ v)) ⊎ ((j ≢ i) × (get_elem? xs j ≡ some x))
  get_elem?-set_cases [] i j v h = cc
  get_elem?-set_cases (y ∷ xs) zero zero v h = inl (refl, sym (some-injective _ _ h))
  get_elem?-set_cases (y ∷ xs) zero (suc j) v h = inr (λ e. absurd (omega arith), h)
  get_elem?-set_cases (y ∷ xs) (suc i) zero v h = inr (λ e. absurd (omega arith), h)
  get_elem?-set_cases (y ∷ xs) (suc i) (suc j) v h = elim (get_elem?-set_cases xs i j v h) [
    | inl (e, f) ↦ inl (ap suc e, f)
    | inr (e, f) ↦ inr (λ q. e (omega arith), f)
  ]

  pub get_elem?-append_cases :
      (xs : List A) (j : ℕ) (v : A) {x : A}
      → get_elem? (xs ++ v ∷ []) j ≡ some x
      → ((j ≡ length xs) × (x ≡ v)) ⊎ (get_elem? xs j ≡ some x)
  get_elem?-append_cases [] zero v h = inl (refl, sym (some-injective _ _ h))
  get_elem?-append_cases [] (suc j) v h = cc
  get_elem?-append_cases (y ∷ xs) zero v h = inr h
  get_elem?-append_cases (y ∷ xs) (suc j) v h = elim (get_elem?-append_cases xs j v h) [
    | inl (e, f) ↦ inl (ap suc e, f)
    | inr f ↦ inr f
  ]

  pub get_elem?-append_old :
      (xs ys : List A) (j : ℕ) {x : A} → get_elem? xs j ≡ some x → get_elem? (xs ++ ys) j ≡ some x
  get_elem?-append_old [] ys j h = cc
  get_elem?-append_old (y ∷ xs) ys zero h = h
  get_elem?-append_old (y ∷ xs) ys (suc j) h = get_elem?-append_old xs ys j h

  pub get_elem?-append_new : (xs : List A) (v : A) → get_elem? (xs ++ v ∷ []) (length xs) ≡ some v
  get_elem?-append_new [] v = refl
  get_elem?-append_new (y ∷ xs) v = get_elem?-append_new xs v

  pub get_elem?-lt : (i : ℕ) (xs : List A) {x : A} → get_elem? xs i ≡ some x → i < length xs
  get_elem?-lt i [] h = cc
  get_elem?-lt zero (y ∷ xs) h = omega arith
  get_elem?-lt (suc i) (y ∷ xs) h = omega (arith, get_elem?-lt i xs h)

  pub lt-get_elem? : (i : ℕ) (xs : List A) → i < length xs → (x : A) × (get_elem? xs i ≡ some x)
  lt-get_elem? i [] h = elim h [ ]
  lt-get_elem? zero (y ∷ xs) h = (y, refl)
  lt-get_elem? (suc i) (y ∷ xs) h = lt-get_elem? i xs (omega arith)

  abbrev pub All {κ} : (A → Type κ) → List A → Type κ
  All P [] = Unit
  All P (x ∷ xs) = P x × All P xs

  abbrev pub any : (A → Bool) → List A → Bool
  any p [] = false
  any p (x ∷ xs) = p x || any p xs

  abbrev pub count : (A → Bool) → List A → ℕ
  count p [] = 0
  count p (x ∷ xs) = to_nat (p x) + count p xs

module _ {ℓ κ} {A : Type ℓ} (P : A → Type κ) where
  pub All-get_elem? : (i : ℕ) (xs : List A) {x : A} → All P xs → get_elem? xs i ≡ some x → P x
  All-get_elem? i [] h e = cc
  All-get_elem? zero (y ∷ xs) h e = subst P (some-injective _ _ e) h.0
  All-get_elem? (suc i) (y ∷ xs) h e = All-get_elem? i xs h.1 e

  pub All-set : (xs : List A) (i : ℕ) (v : A) → P v → All P xs → All P (set xs i v)
  All-set [] i v p h = tt
  All-set (x ∷ xs) zero v p h = (p, h.1)
  All-set (x ∷ xs) (suc i) v p h = (h.0, All-set xs i v p h.1)

  pub All-replicate : (n : ℕ) (a : A) → P a → All P (replicate n a)
  All-replicate zero a h = tt
  All-replicate (suc n) a h = (h, All-replicate n a h)

  pub All-intro : (xs : List A) → ((i : ℕ) (x : A) → get_elem? xs i ≡ some x → P x) → All P xs
  All-intro [] k = tt
  All-intro (x ∷ xs) k = (k 0 x refl, All-intro xs (λ i. k (suc i)))

-- One member changes: the count moves by what changes at that member.
module _ {ℓ} {A : Type ℓ} (p : A → Bool) where
  pub count-set :
      (xs : List A) (i : ℕ) (v : A) {x : A}
      → get_elem? xs i ≡ some x
      → count p (set xs i v) + to_nat (p x) ≡ count p xs + to_nat (p v)
  count-set [] i v h = cc
  count-set (y ∷ xs) zero v {x} h = let e : y ≡ x = some-injective _ _ h in rw e (omega arith)
  count-set (y ∷ xs) (suc i) v h = omega (arith, count-set xs i v h)

  pub count-le-length : (xs : List A) → count p xs ≤ length xs
  count-le-length [] = omega arith
  count-le-length (x ∷ xs) = ground (arith, count-le-length xs)

  pub count-replicate-false : (n : ℕ) (a : A) → p a ≡ false → count p (replicate n a) ≡ 0
  count-replicate-false zero a h = refl
  count-replicate-false (suc n) a h = ground (arith, count-replicate-false n a h)

  pub any-false_get :
      (xs : List A) (i : ℕ) {x : A} → any p xs ≡ false → get_elem? xs i ≡ some x → p x ≡ false
  any-false_get [] i h e = cc
  any-false_get (y ∷ xs) zero {x} h e =
      let q : y ≡ x = some-injective _ _ e in rw (← q) (ground arith)
  any-false_get (y ∷ xs) (suc i) h e = any-false_get xs i (ground arith) e

  pub any-replicate-false : (n : ℕ) (a : A) → p a ≡ false → any p (replicate n a) ≡ false
  any-replicate-false zero a h = refl
  any-replicate-false (suc n) a h = ground (arith, any-replicate-false n a h)

  pub any-set_same :
      (xs : List A) (i : ℕ) (v : A) {x : A}
      → get_elem? xs i ≡ some x
      → p v ≡ p x
      → any p (set xs i v) ≡ any p xs
  any-set_same [] i v h e = refl
  any-set_same (y ∷ xs) zero v {x} h e = let q : y ≡ x = some-injective _ _ h in rw q (ground arith)
  any-set_same (y ∷ xs) (suc i) v h e = ground (arith, any-set_same xs i v h e)

  pub any-set-false :
      (xs : List A) (i : ℕ) (v : A) → any p xs ≡ false → p v ≡ false → any p (set xs i v) ≡ false
  any-set-false [] i v h e = refl
  any-set-false (y ∷ xs) zero v h e = ground arith
  any-set-false (y ∷ xs) (suc i) v h e = ground (arith, any-set-false xs i v (ground arith) e)

  pub any-get_true :
      (xs : List A) (i : ℕ) {x : A} → get_elem? xs i ≡ some x → p x ≡ true → any p xs ≡ true
  any-get_true [] i h e = cc
  any-get_true (y ∷ xs) zero {x} h e = let q : y ≡ x = some-injective _ _ h in rw q (ground arith)
  any-get_true (y ∷ xs) (suc i) h e = ground (arith, any-get_true xs i h e)

-- Membership with the place kept.
module _ {A : Type 0} (a : A) where
  abbrev pub Has : List A → Type 0
  Has [] = ⊥
  Has (x ∷ xs) = (x ≡ a) ⊎ Has xs

  pub Has-append_left : (xs ys : List A) → Has xs → Has (xs ++ ys)
  Has-append_left [] ys m = absurd m
  Has-append_left (x ∷ xs) ys (inl e) = inl e
  Has-append_left (x ∷ xs) ys (inr m) = inr (Has-append_left xs ys m)

  pub Has-append_right : (xs ys : List A) → Has ys → Has (xs ++ ys)
  Has-append_right [] ys m = m
  Has-append_right (x ∷ xs) ys m = inr (Has-append_right xs ys m)

pub count-append_one {ℓ} :
    {A : Type ℓ} (p : A → Bool) (xs : List A) (v : A)
    → count p (xs ++ v ∷ []) ≡ count p xs + to_nat (p v)
count-append_one p [] v = omega arith
count-append_one p (x ∷ xs) v = omega (arith, count-append_one p xs v)

pub All-append_one {ℓ κ} :
    {A : Type ℓ} (P : A → Type κ) (xs : List A) (v : A) → All P xs → P v → All P (xs ++ v ∷ [])
All-append_one P [] v h p = (p, tt)
All-append_one P (x ∷ xs) v h p = (h.0, All-append_one P xs v h.1 p)
