-- ===== src/GhApp/Paging.antt =====
-- The loop over the pages of a list that the methods of internal/ghapp/ghapp.go have in common.
use gha_mac_broker.Prelude.{
  ℕ, zero, suc, ◌+◌, ◌||◌, List, Option, none, some, ℤ, pos, leb_ℤ, length, ◌==◌, if◌then◌else◌,
}

-- A decoded answer: the reported total, and the items of the page.
pub record Page (A : Type 0) : Type 0 where
  pub total_count : ℤ
  pub items : List A

-- A loop that has not ended within its fuel, an error, and a result.
pub data Paged (B : Type 0) : Type 0 where
  running failed : Paged B
  done : B → Paged B

abbrev pub and_then : {A B : Type 0} → Paged A → (A → Paged B) → Paged B
and_then running k = running
and_then failed k = failed
and_then (done a) k = k a

module _ {A B : Type 0} (fetch : ℕ → Option (Page A)) (add : List A → B → Option B) where
  -- From page `page` on, with `fetched` items read so far. `fetch` gives none if the request or its
  -- decoding fails, and `add` if an item is refused. A page without items ends the list, and so does
  -- the reported total.
  unfoldable pub follow_pages : ℕ → ℕ → ℕ → B → Paged B
  follow_pages zero page fetched result = running
  follow_pages (suc fuel) page fetched result = elim (fetch page) [
    | none ↦ failed
    | some out ↦ elim (add out.items result) [
      | none ↦ failed
      | some next ↦
          let count = fetched + length out.items in
          let rest = follow_pages fuel (suc page) count next in
          if length out.items == 0 || leb_ℤ out.total_count (pos count) then done next else rest
    ]
  ]
