-- ===== src/Prelude/Tests.antt =====
-- Boolean tests on the native numbers, the conditional, and case splits on computed values.
use Prim.Native.Nat.{ℕ, ◌<◌, compare, Ordering}
use mathlib.Core.Path.{◌≡◌, refl}
use mathlib.Core.Logic.{◌↔◌, ◌⊎◌, inl, inr}
use mathlib.Core.Bool.{Bool, true, false}
use mathlib.Core.Option.{Option, none, some}
use mathlib.Core.List.{List, [], ◌∷◌}
use native.Mathlib.Omega.{arith}

-- These compute to `compare`, which `ground` and `grind` read with no lemma listed.
abbrev pub ltb : ℕ → ℕ → Bool
ltb a b = elim (compare a b) [ Ordering.lt ↦ true | _ ↦ false ]

abbrev pub leb : ℕ → ℕ → Bool
leb a b = elim (compare a b) [ Ordering.gt ↦ false | _ ↦ true ]

infix 50 ◌==◌
abbrev pub ◌==◌ : ℕ → ℕ → Bool
a == b = elim (compare a b) [ Ordering.eq ↦ true | _ ↦ false ]

infix 1 if◌then◌else◌
abbrev pub if◌then◌else◌ {ℓ} : {A : Type ℓ} → Bool → A → A → A
if true then x else y = x
if false then x else y = y

-- A Boolean as a number, to count with.
abbrev pub to_nat : Bool → ℕ
to_nat true = 1
to_nat false = 0

abbrev pub is_some {ℓ} : {A : Type ℓ} → Option A → Bool
is_some none = false
is_some (some a) = true

pub ltb→lt : (a b : ℕ) → ltb a b ≡ true → a < b
ltb→lt a b h = ground arith

pub lt→ltb : (a b : ℕ) → a < b → ltb a b ≡ true
lt→ltb a b h = ground arith

pub ==_iff : (a b : ℕ) → ((a == b) ≡ true) ↔ (a ≡ b)
==_iff a b = ground arith

-- To split on a computed value and keep the equation.
pub Bool-cases : (b : Bool) → (b ≡ true) ⊎ (b ≡ false)
Bool-cases true = inl refl
Bool-cases false = inr refl

pub Option-cases {ℓ} : {A : Type ℓ} (o : Option A) → (o ≡ none) ⊎ ((a : A) × (o ≡ some a))
Option-cases none = inl refl
Option-cases (some a) = inr (a, refl)

-- `if b then (the branch of a found item) else a`, read by cases.
pub found_cases {ℓ κ μ} :
    {A : Type ℓ} {X : Type κ} (P : A → Type μ) (b : Bool) (o : Option X) {a : A} {f : X → A}
    → P a
    → ((x : X) → b ≡ true → o ≡ some x → P (f x))
    → P (if b then elim o [ none ↦ a | some x ↦ f x ] else a)
found_cases P false o h k = h
found_cases P true none h k = h
found_cases P true (some x) h k = k x refl refl

pub if_cases {ℓ μ} :
    {A : Type ℓ} (P : A → Type μ) (b : Bool) {x y : A}
    → (b ≡ true → P x)
    → (b ≡ false → P y)
    → P (if b then x else y)
if_cases P true h k = h refl
if_cases P false h k = k refl

pub option_cases {ℓ κ μ} :
    {A : Type ℓ} {X : Type κ} (P : A → Type μ) (o : Option X) {a : A} {f : X → A}
    → (o ≡ none → P a)
    → ((x : X) → o ≡ some x → P (f x))
    → P (elim o [ none ↦ a | some x ↦ f x ])
option_cases P none h k = h refl
option_cases P (some x) h k = k x refl

pub list_cases {ℓ κ μ} :
    {A : Type ℓ} {X : Type κ} (P : A → Type μ) (xs : List X) {a : A} {f : X → List X → A}
    → (xs ≡ [] → P a)
    → ((x : X) (r : List X) → xs ≡ x ∷ r → P (f x r))
    → P (elim xs [ [] ↦ a | x ∷ r ↦ f x r ])
list_cases P [] h k = h refl
list_cases P (x ∷ r) h k = k x r refl
