-- ===== src/GhApp/Examples.antt =====
-- Tests of internal/ghapp, and its theorems at concrete inputs.
use gha_mac_broker.Prelude.{
  ℕ, ◌≡◌, ◌⊎◌, refl, Bool, true, not, List, [], ◌∷◌, ◌++◌, map, Option, none, some, ℤ, pos, leb_ℤ,
  eqb_ℤ, length, count, ◌==◌, if◌then◌else◌, arith,
}
use gha_mac_broker.GhApp.Paging.{Page, failed, done, follow_pages}
use gha_mac_broker.GhApp.Client.{HeadRun, cancel_active_runs}
use gha_mac_broker.GhApp.Pages.{serve}
use gha_mac_broker.GhApp.Snapshot.{unfinished, cancel_active_runs-serve}
use gha_mac_broker.GhApp.Returns.{follow_pages-returns}

abbrev runs : List HeadRun
runs =
    record { id = pos 1; status = "queued" }
    ∷ record { id = pos 2; status = "completed" }
    ∷ record { id = pos 3; status = "in_progress" }
    ∷ []

-- GitHub refuses to cancel the first run.
abbrev allows : ℤ → Bool
allows id = not (eqb_ℤ id (pos 1))

cancels_others :
    cancel_active_runs true (serve 2 runs) allows 4
    ≡ done (record {
      cancels = record { requested = pos 1 ∷ pos 3 ∷ []; cancelled = 1; failures = 1 };
      error = some (1, 2);
    })
unfolding cancel_active_runs
cancels_others = refl

cancel_active_runs-serve_example :
    let ids = map (λ run. run.id) (unfinished runs) in
    let failures = count (λ id. not (allows id)) ids in
    cancel_active_runs true (serve 2 runs) allows 4
    ≡ done (record {
      cancels = record { requested = ids; cancelled = count allows ids; failures = failures };
      error = if failures == 0 then none else some (failures, length ids);
    })
cancel_active_runs-serve_example = cancel_active_runs-serve 2 runs allows (omega arith)

-- A server that repeats a page with one item and reports a total of 3.
abbrev repeats : ℕ → Option (Page ℕ)
repeats page = some (record { total_count = pos 3; items = page ∷ [] })

abbrev collect : List ℕ → List ℕ → Option (List ℕ)
collect items found = some (found ++ items)

follow_pages-returns_example :
    (follow_pages repeats collect 4 1 0 [] ≡ failed)
    ⊎ ((b : List ℕ) × (follow_pages repeats collect 4 1 0 [] ≡ done b))
follow_pages-returns_example =
    follow_pages-returns repeats collect 3 4 1 0 [] bounded (omega arith) (omega arith)
  where
    bounded : (p : ℕ) (out : Page ℕ) → repeats p ≡ some out → leb_ℤ out.total_count (pos 3) ≡ true
    bounded p out e = ground (arith, e)
