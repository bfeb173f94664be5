-- ===== src/GuestFiles/Decimal.antt =====
-- strconv.FormatUint and strconv.ParseUint as internal/guestsupervisor/slots.go uses them: base 10,
-- 32 bits.
use gha_mac_broker.Prelude.{
  ℕ, zero, suc, ◌+◌, ◌-◌, ◌*◌, ◌/◌, ◌%◌, ◌≤◌, ◌<◌, ◌≡◌, inl, inr, Bool-cases, Option-cases, List,
  [], ◌∷◌, ◌++◌, Option, none, some, ltb, All, All-append_one, if◌then◌else◌, arith,
}

-- The digits of n; n + 1 steps are enough.
unfoldable pub digits : ℕ → ℕ → List ℕ
digits zero n = []
digits (suc fuel) n =
    let rest = digits fuel (n / 10) in
    if ltb n 10 then (48 + n) ∷ [] else rest ++ (48 + n % 10) ∷ []

abbrev pub format_uint : ℕ → List ℕ
format_uint n = digits (suc n) n

-- A digit after the number `n`, which fails on another byte and on a number of more than 32 bits.
abbrev pub next_digit : ℕ → ℕ → Option ℕ
next_digit n b =
    if ltb b 48
    then none
    else if ltb 57 b
    then none
    else if ltb 4294967295 (n * 10 + (b - 48))
    then none
    else some (n * 10 + (b - 48))

unfoldable pub parse_digits : ℕ → List ℕ → Option ℕ
parse_digits n [] = some n
parse_digits n (b ∷ bs) = elim (next_digit n b) [ none ↦ none | some m ↦ parse_digits m bs ]

unfoldable pub parse_uint : List ℕ → Option ℕ
unfolding parse_digits
parse_uint [] = none
parse_uint (b ∷ bs) = parse_digits 0 (b ∷ bs)

parse_digits-append :
    (n m b : ℕ) (bs : List ℕ)
    → parse_digits n bs ≡ some m
    → parse_digits n (bs ++ b ∷ []) ≡ next_digit m b
unfolding parse_digits
parse_digits-append n m b [] h = ground (arith, h)
parse_digits-append n m b (c ∷ bs) h = elim (Option-cases (next_digit n c)) [
  | inl bad ↦ absurd (ground (arith, bad, h))
  | inr (k, e) ↦
      let next = parse_digits-append k m b bs (ground (arith, e, h)) in ground (arith, e, next)
]

pub parse_digits-parse_uint :
    (n : ℕ) (bs : List ℕ) → 0 < n → parse_digits 0 bs ≡ some n → parse_uint bs ≡ some n
unfolding parse_uint
parse_digits-parse_uint n [] pos h = absurd (ground (arith, pos, h))
parse_digits-parse_uint n (b ∷ bs) pos h = h

pub parse_digits-digits :
    (fuel n : ℕ) → n < fuel → n < 4294967296 → parse_digits 0 (digits fuel n) ≡ some n
unfolding digits
parse_digits-digits zero n enough small = absurd (omega arith)
parse_digits-digits (suc fuel) n enough small = elim (Bool-cases (ltb n 10)) [
  | inl one ↦
      let only : parse_digits 0 ((48 + n) ∷ []) ≡ some n =
        unfold parse_digits in ground (arith, one) in
      ground (arith, one, only)
  | inr more ↦
      let big : 10 ≤ n = ground (arith, more) in
      let rest = parse_digits-digits fuel (n / 10) (omega arith) (omega arith) in
      let last : parse_digits 0 (digits fuel (n / 10) ++ (48 + n % 10) ∷ [])
          ≡ next_digit (n / 10) (48 + n % 10) =
        parse_digits-append 0 (n / 10) (48 + n % 10) (digits fuel (n / 10)) rest in
      ground (arith, more, last)
]

-- Every digit is one of the ten.
pub digits-All : (fuel n : ℕ) → All (λ b. (48 ≤ b) × (b ≤ 57)) (digits fuel n)
unfolding digits
digits-All zero n = tt
digits-All (suc fuel) n = elim (Bool-cases (ltb n 10)) [
  | inl one ↦ ground (arith, one)
  | inr more ↦
      let rest =
        All-append_one (λ b. (48 ≤ b) × (b ≤ 57)) (digits fuel (n / 10)) (48 + n % 10)
          (digits-All fuel (n / 10)) (omega arith, omega arith) in
      ground (arith, more, rest)
]
