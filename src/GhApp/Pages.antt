-- ===== src/GhApp/Pages.antt =====
-- A list that is served in pages, as the GitHub API does it for internal/ghapp/ghapp.go.
use mathlib.Core.List.{append_assoc}
use gha_mac_broker.Prelude.{
  ℕ, zero, suc, ◌+◌, ◌-◌, ◌≤◌, ◌<◌, ◌≡◌, refl, sym, ap, ◌∙◌, inl, inr, true, false, Bool-cases,
  List, [], ◌∷◌, ◌++◌, Option, none, some, pos, leb, leb_ℤ, length, ◌==◌, arith,
}
use gha_mac_broker.GhApp.Paging.{Page, done, follow_pages}

module _ {A : Type 0} where
  abbrev pub take : ℕ → List A → List A
  take zero xs = []
  take (suc n) [] = []
  take (suc n) (x ∷ xs) = x ∷ take n xs

  abbrev pub drop : ℕ → List A → List A
  drop zero xs = xs
  drop (suc n) [] = []
  drop (suc n) (x ∷ xs) = drop n xs

  length-take : (n : ℕ) (xs : List A) → n ≤ length xs → length (take n xs) ≡ n
  length-take zero xs h = refl
  length-take (suc n) [] h = absurd (omega arith)
  length-take (suc n) (x ∷ xs) h = ap suc (length-take n xs (omega arith))

  take_all : (n : ℕ) (xs : List A) → length xs ≤ n → take n xs ≡ xs
  take_all zero [] h = refl
  take_all zero (x ∷ xs) h = absurd (omega arith)
  take_all (suc n) [] h = refl
  take_all (suc n) (x ∷ xs) h = ap (λ r. x ∷ r) (take_all n xs (omega arith))

  take-append-drop : (n : ℕ) (xs : List A) → take n xs ++ drop n xs ≡ xs
  take-append-drop zero xs = refl
  take-append-drop (suc n) [] = refl
  take-append-drop (suc n) (x ∷ xs) = ap (λ r. x ∷ r) (take-append-drop n xs)

  length-drop : (n : ℕ) (xs : List A) → length (drop n xs) ≡ length xs - n
  length-drop zero xs = omega arith
  length-drop (suc n) [] = omega arith
  length-drop (suc n) (x ∷ xs) = omega (arith, length-drop n xs)

  -- What is left of a list after so many pages of `per` items.
  abbrev pub after_pages : ℕ → ℕ → List A → List A
  after_pages zero per xs = xs
  after_pages (suc page) per xs = drop per (after_pages page per xs)

  -- The pages, counted from 1.
  abbrev pub serve : ℕ → List A → ℕ → Option (Page A)
  serve per xs zero = none
  serve per xs (suc page) =
      some (record { total_count = pos (length xs); items = take per (after_pages page per xs) })

-- The loop over the pages of a list adds up the whole list, if what it adds for a page is a list
-- that splits as the page does. As many turns as the list is long, and one more, are enough.
module _ {A B : Type 0} (f : List A → List B)
    (split : (xs ys : List A) → f (xs ++ ys) ≡ f xs ++ f ys) (per : ℕ) (positive : 0 < per)
    (xs : List A) where
  abbrev pub add : List A → List B → Option (List B)
  add items result = some (result ++ f items)

  pub follow_pages-serve :
      (fuel page fetched : ℕ) (result : List B)
      → fetched + length (after_pages page per xs) ≡ length xs
      → length (after_pages page per xs) < fuel
      → follow_pages (serve per xs) add fuel (suc page) fetched result
        ≡ done (result ++ f (after_pages page per xs))
  unfolding follow_pages
  follow_pages-serve zero page fetched result sum enough = absurd (omega arith)
  follow_pages-serve (suc fuel) page fetched result sum enough =
      elim (Bool-cases (leb (length (after_pages page per xs)) per)) [
        | inl last ↦
            let rest = after_pages page per xs in
            let whole : take per rest ≡ rest = take_all per rest (ground (arith, last)) in
            let stop : leb_ℤ (pos (length xs)) (pos (fetched + length (take per rest))) ≡ true =
              rw whole (ground (arith, sum)) in
            ground (arith, stop, whole)
        | inr more ↦
            let rest = after_pages page per xs in
            let big : per < length rest = ground (arith, more) in
            let long : per ≤ length rest = omega arith in
            let full = length-take per rest long in
            let left = length-drop per rest in
            let next =
              follow_pages-serve fuel (suc page) (fetched + length (take per rest))
                (result ++ f (take per rest)) (omega arith) (omega arith) in
            let on : leb_ℤ (pos (length xs)) (pos (fetched + length (take per rest))) ≡ false =
              ground (arith, full, sum, big) in
            let some_items : (length (take per rest) == 0) ≡ false =
              ground (arith, full, positive) in
            let turn : follow_pages (serve per xs) add (suc fuel) (suc page) fetched result
                ≡ follow_pages (serve per xs) add fuel (suc (suc page))
                    (fetched + length (take per rest)) (result ++ f (take per rest)) =
              ground (arith, on, some_items) in
            let joined =
              sym (split (take per rest) (drop per rest)) ∙ ap f (take-append-drop per rest) in
            turn
            ∙ next
            ∙ ap done (
                append_assoc result (f (take per rest)) (f (drop per rest))
                ∙ ap (λ r. result ++ r) joined)
      ]
