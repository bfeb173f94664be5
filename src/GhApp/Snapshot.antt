-- ===== src/GhApp/Snapshot.antt =====
-- The cancels for the head commit of a closed pull request, in internal/ghapp/ghapp.go.
use gha_mac_broker.Prelude.{
  ℕ, suc, ◌+◌, ◌<◌, ◌≡◌, refl, ap, ◌∙◌, inl, inr, Bool, true, not, Bool-cases, str_eq, List, [],
  ◌∷◌, ◌++◌, map, none, some, ℤ, length, count, if◌then◌else◌, arith, ◌==◌,
}
use mathlib.Core.List.{append_assoc, append-nil}
use gha_mac_broker.GhApp.Paging.{done, and_then}
use gha_mac_broker.GhApp.Client.{
  HeadRun, active_ids, list_active_run_ids, Cancels, cancel_each, cancel_runs, cancel_active_runs,
}
use gha_mac_broker.GhApp.Pages.{serve, follow_pages-serve}

active_ids-append : (xs ys : List HeadRun) → active_ids (xs ++ ys) ≡ active_ids xs ++ active_ids ys
unfolding active_ids
active_ids-append [] ys = refl
active_ids-append (x ∷ xs) ys = ground (arith, active_ids-append xs ys)

list_active_run_ids-serve :
    (per : ℕ) (runs : List HeadRun)
    → 0 < per
    → list_active_run_ids (serve per runs) (suc (length runs)) ≡ done (active_ids runs)
unfolding list_active_run_ids
list_active_run_ids-serve per runs pos =
    follow_pages-serve active_ids active_ids-append per pos runs (suc (length runs)) 0 0 []
      (omega arith) (omega arith)

-- Every run is asked for once and in order, and counted by whether its cancel succeeds.
cancel_each_lem :
    (cancels : ℤ → Bool) (ids : List ℤ) (c : Cancels)
    → cancel_each cancels ids c ≡ record {
      requested = c.requested ++ ids;
      cancelled = c.cancelled + count cancels ids;
      failures = c.failures + count (λ id. not (cancels id)) ids;
    }
unfolding cancel_each
cancel_each_lem cancels [] c = ground (arith, append-nil c.requested)
cancel_each_lem cancels (id ∷ ids) c = elim (Bool-cases (cancels id)) [
  | inl ok ↦
      let next =
        cancel_each_lem cancels ids
          (record c { requested = c.requested ++ id ∷ []; cancelled = c.cancelled + 1 }) in
      ground (arith, ok, next, append_assoc c.requested (id ∷ []) ids)
  | inr bad ↦
      let next =
        cancel_each_lem cancels ids
          (record c { requested = c.requested ++ id ∷ []; failures = c.failures + 1 }) in
      ground (arith, bad, next, append_assoc c.requested (id ∷ []) ids)
]

cancel_runs_lem :
    (cancels : ℤ → Bool) (ids : List ℤ)
    → let failures = count (λ id. not (cancels id)) ids in
      cancel_runs cancels ids ≡ record {
        cancels = record { requested = ids; cancelled = count cancels ids; failures = failures };
        error = if failures == 0 then none else some (failures, length ids);
      }
unfolding cancel_runs
cancel_runs_lem cancels ids =
    let counts =
      cancel_each_lem cancels ids (record { requested = []; cancelled = 0; failures = 0 }) in
    rw counts (ground arith)

abbrev keep_if : {A : Type 0} → (A → Bool) → List A → List A
keep_if p [] = []
keep_if p (x ∷ xs) = let rest = keep_if p xs in if p x then x ∷ rest else rest

abbrev pub unfinished : List HeadRun → List HeadRun
unfinished = keep_if (λ run. not (str_eq run.status "completed"))

active_ids-unfinished :
    (runs : List HeadRun) → active_ids runs ≡ map (λ run. run.id) (unfinished runs)
unfolding active_ids
active_ids-unfinished [] = refl
active_ids-unfinished (run ∷ runs) = elim (Bool-cases (str_eq run.status "completed")) [
  | inl over ↦ let rest = active_ids-unfinished runs in ground (arith, over, rest)
  | inr going ↦ let rest = active_ids-unfinished runs in ground (arith, going, rest)
]

-- When a pull request closes, and GitHub lists the runs on its head commit in pages of any size and
-- does not change the list meanwhile, then with one turn of the loop more than there are runs every
-- run that has not completed is asked to be cancelled, once and in the order of the list, whether or
-- not the cancels before it failed; the count is of the cancels that succeeded, and there is an error
-- exactly if one failed, with the number of failures and of runs.
pub cancel_active_runs-serve :
    (per : ℕ) (runs : List HeadRun) (cancels : ℤ → Bool)
    → 0 < per
    → let ids = map (λ run. run.id) (unfinished runs) in
      let failures = count (λ id. not (cancels id)) ids in
      cancel_active_runs true (serve per runs) cancels (suc (length runs))
      ≡ done (record {
        cancels = record { requested = ids; cancelled = count cancels ids; failures = failures };
        error = if failures == 0 then none else some (failures, length ids);
      })
unfolding cancel_active_runs
cancel_active_runs-serve per runs cancels pos =
    ap (λ p. and_then p (λ ids. done (cancel_runs cancels ids)))
      (list_active_run_ids-serve per runs pos)
    ∙ ap done (ap (cancel_runs cancels) (active_ids-unfinished runs))
    ∙ ap done (cancel_runs_lem cancels (map (λ run. run.id) (unfinished runs)))
