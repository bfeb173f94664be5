-- ===== src/GhApp/Returns.antt =====
-- The loop over the pages in internal/ghapp/ghapp.go ends.
use gha_mac_broker.Prelude.{
  ℕ, zero, suc, ◌+◌, ◌<◌, ◌≡◌, refl, ◌⊎◌, inl, inr, true, ◌||◌, List, Option, some, pos, leb_ℤ,
  length, ◌==◌, arith, option_cases, if_cases,
}
use gha_mac_broker.GhApp.Paging.{Page, Paged, failed, done, follow_pages}

-- Whatever the API answers from page to page, if it never reports a total above a bound, then as many
-- turns as the bound, and one more, are enough for a list: it ends with an error or with a result.
pub follow_pages-returns :
    {A B : Type 0} (fetch : ℕ → Option (Page A)) (add : List A → B → Option B) (bound : ℕ)
    (fuel page fetched : ℕ) (result : B)
    → ((p : ℕ) (out : Page A) → fetch p ≡ some out → leb_ℤ out.total_count (pos bound) ≡ true)
    → 0 < fuel
    → bound < fetched + fuel
    → (follow_pages fetch add fuel page fetched result ≡ failed)
      ⊎ ((b : B) × (follow_pages fetch add fuel page fetched result ≡ done b))
unfolding follow_pages
follow_pages-returns fetch add bound zero page fetched result small turns enough =
    absurd (omega arith)
follow_pages-returns {A} {B} fetch add bound (suc fuel) page fetched result small turns enough =
    option_cases Good (fetch page) (λ _. inl refl)
      λ out got.
        option_cases Good (add out.items result) (λ _. inl refl)
          λ next _.
            if_cases Good
              (length out.items == 0 || leb_ℤ out.total_count (pos (fetched + length out.items)))
              (λ _. inr (next, refl))
              λ on.
                let total = small page out got in
                follow_pages-returns fetch add bound fuel (suc page) (fetched + length out.items)
                  next small (ground (arith, on, total, enough)) (ground (arith, on, enough))
  where
    Good : Paged B → Type 0
    Good p = (p ≡ failed) ⊎ ((b : B) × (p ≡ done b))
