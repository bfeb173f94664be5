-- ===== src/GhApp/Client.antt =====
-- The lists, the sweep and the cancels of internal/ghapp/ghapp.go. A method takes the answers of the
-- API as functions of the page, and the fuel of its loops.
use gha_mac_broker.Prelude.{
  ℕ, zero, suc, ◌+◌, String, Bool, not, ◌&&◌, List, [], ◌∷◌, ◌++◌, Option, none, some, ℤ, pos,
  eqb_ℤ, ltb, length, str_eq, if◌then◌else◌,
}
use gha_mac_broker.HostedLoad.{Strings, insert_id, is_hosted_macos_job}
use gha_mac_broker.GhApp.Paging.{Page, Paged, running, failed, done, and_then, follow_pages}

pub record HeadRun : Type 0 where
  pub id : ℤ
  pub status : String

pub record RunJob : Type 0 where
  pub id : ℤ
  pub status : String
  pub labels : List String

pub record Runner : Type 0 where
  pub id : ℤ
  pub name : String
  pub status : String
  pub busy : Bool

-- The loop of listActiveRunIDsForHeadSHA over a page: the runs that have not completed.
unfoldable pub active_ids : List HeadRun → List ℤ
active_ids [] = []
active_ids (run ∷ runs) =
    let rest = active_ids runs in
    if not (str_eq run.status "completed") then run.id ∷ rest else rest

unfoldable pub list_active_run_ids : (ℕ → Option (Page HeadRun)) → ℕ → Paged (List ℤ)
unfolding active_ids follow_pages
list_active_run_ids fetch fuel =
    follow_pages fetch (λ runs ids. some (ids ++ active_ids runs)) fuel 1 0 []

-- ListRunners, whose count is the length of the list it has built.
unfoldable pub list_runners : (ℕ → Option (Page Runner)) → ℕ → Paged (List Runner)
unfolding follow_pages
list_runners fetch fuel = follow_pages fetch (λ runners found. some (found ++ runners)) fuel 1 0 []

-- listInProgressRunIDs, of the ids of the runs.
unfoldable pub list_in_progress_run_ids : (ℕ → Option (Page ℤ)) → ℕ → Paged (List ℤ)
unfolding follow_pages
list_in_progress_run_ids fetch fuel =
    follow_pages fetch (λ ids found. some (found ++ ids)) fuel 1 0 []

-- The loop of listInstallationRepos over a page: a repository without a name is an error.
unfoldable pub named_repos : List String → List String → Option (List String)
named_repos [] repos = some repos
named_repos (name ∷ names) repos =
    let rest = named_repos names (repos ++ name ∷ []) in if str_eq name "" then none else rest

unfoldable pub list_installation_repos : (ℕ → Option (Page String)) → ℕ → Paged (List String)
unfolding named_repos follow_pages
list_installation_repos fetch fuel = follow_pages fetch named_repos fuel 1 0 []

-- An installation: its id, whether a token for it is given, and its repositories by page.
pub record Installation : Type 0 where
  pub id : ℤ
  pub has_token : Bool
  pub repositories : ℕ → Option (Page String)

-- The loop of ListInstalledRepos over a page of installations.
unfoldable pub add_installations : ℕ → List Installation → List String → Paged (List String)
unfolding list_installation_repos
add_installations fuel [] repos = done repos
add_installations fuel (i ∷ is) repos =
    if eqb_ℤ i.id (pos 0)
    then failed
    else if not i.has_token
    then failed
    else and_then (list_installation_repos i.repositories fuel)
        (λ found. add_installations fuel is (repos ++ found))

-- The loop of ListInstalledRepos over the pages, the first of which is empty ends it.
unfoldable pub installed_from :
    (ℕ → Option (List Installation)) → ℕ → ℕ → ℕ → List String → Paged (List String)
unfolding add_installations
installed_from fetch inner zero page repos = running
installed_from fetch inner (suc fuel) page repos = elim (fetch page) [
  | none ↦ failed
  | some installations ↦ elim installations [
    | [] ↦ done repos
    | i ∷ is ↦
        and_then (add_installations inner (i ∷ is) repos)
          (λ found. installed_from fetch inner fuel (suc page) found)
  ]
]

-- ListInstalledRepos; `jwt` says whether the App token is made.
unfoldable pub list_installed_repos :
    Bool → (ℕ → Option (List Installation)) → ℕ → Paged (List String)
unfolding installed_from
list_installed_repos jwt fetch fuel =
    if not jwt then failed else installed_from fetch fuel fuel 1 []

-- The loop of collectHostedMacOSJobs over a page, on the set of ids.
unfoldable pub hosted_jobs : Strings → List String → List RunJob → List ℤ → List ℤ
unfolding insert_id is_hosted_macos_job
hosted_jobs s pool_labels [] result = result
hosted_jobs s pool_labels (job ∷ jobs) result = hosted_jobs s pool_labels jobs (
    if str_eq job.status "in_progress" && is_hosted_macos_job s job.labels pool_labels
    then insert_id job.id result
    else result)

unfoldable pub collect_hosted_macos_jobs :
    Strings → List String → (ℕ → Option (Page RunJob)) → ℕ → List ℤ → Paged (List ℤ)
unfolding hosted_jobs follow_pages
collect_hosted_macos_jobs s pool_labels fetch fuel result =
    follow_pages fetch (λ jobs found. some (hosted_jobs s pool_labels jobs found)) fuel 1 0 result

-- A repository: whether its name is an owner and a repository, whether a token for it is given, its
-- runs in progress by page, and the jobs of a run by page.
pub record Repository : Type 0 where
  pub well_formed : Bool
  pub has_token : Bool
  pub runs : ℕ → Option (Page ℤ)
  pub jobs : ℤ → ℕ → Option (Page RunJob)

unfoldable pub sweep_runs :
    Strings → List String → Repository → ℕ → List ℤ → List ℤ → Paged (List ℤ)
unfolding collect_hosted_macos_jobs
sweep_runs s pool_labels repo fuel [] result = done result
sweep_runs s pool_labels repo fuel (run ∷ runs) result =
    and_then (collect_hosted_macos_jobs s pool_labels (repo.jobs run) fuel result)
      (λ found. sweep_runs s pool_labels repo fuel runs found)

unfoldable pub sweep_repos :
    Strings → List String → (String → Repository) → ℕ → List String → List ℤ → Paged (List ℤ)
unfolding sweep_runs list_in_progress_run_ids
sweep_repos s pool_labels repository fuel [] result = done result
sweep_repos s pool_labels repository fuel (name ∷ names) result =
    let repo = repository name in
    let skipped = sweep_repos s pool_labels repository fuel names result in
    if not repo.well_formed
    then skipped
    else if not repo.has_token
    then failed
    else and_then (list_in_progress_run_ids repo.runs fuel) (λ runs.
      and_then (sweep_runs s pool_labels repo fuel runs result)
        (λ found. sweep_repos s pool_labels repository fuel names found))

-- ListInProgressHostedMacOSJobs of the installed repositories.
unfoldable pub list_in_progress_hosted_macos_jobs :
    Strings → List String → (String → Repository) → ℕ → Paged (List String) → Paged (List ℤ)
unfolding sweep_repos
list_in_progress_hosted_macos_jobs s pool_labels repository fuel installed =
    and_then installed (λ names. sweep_repos s pool_labels repository fuel names [])

-- The cancels of CancelActiveRunsForHeadSHA: the runs asked for, in order, and how many succeeded
-- and failed.
pub record Cancels : Type 0 where
  pub requested : List ℤ
  pub cancelled : ℕ
  pub failures : ℕ

unfoldable pub cancel_each : (ℤ → Bool) → List ℤ → Cancels → Cancels
cancel_each cancels [] c = c
cancel_each cancels (run ∷ runs) c =
    let asked = c.requested ++ run ∷ [] in
    cancel_each cancels runs (
      if cancels run
      then record c { requested = asked; cancelled = c.cancelled + 1 }
      else record c { requested = asked; failures = c.failures + 1 })

-- What CancelActiveRunsForHeadSHA returns: the number of cancelled runs, and the error with the
-- number of failures and of runs; and the requests that it made.
pub record CancelReport : Type 0 where
  pub cancels : Cancels
  pub error : Option (ℕ × ℕ)

-- CancelActiveRunsForHeadSHA once it has the runs.
unfoldable pub cancel_runs : (ℤ → Bool) → List ℤ → CancelReport
unfolding cancel_each
cancel_runs cancels ids =
    let start : Cancels = record { requested = []; cancelled = 0; failures = 0 } in
    let c = cancel_each cancels ids start in
    record { cancels = c; error = if ltb 0 c.failures then some (c.failures, length ids) else none }

-- CancelActiveRunsForHeadSHA.
unfoldable pub cancel_active_runs :
    Bool → (ℕ → Option (Page HeadRun)) → (ℤ → Bool) → ℕ → Paged CancelReport
unfolding list_active_run_ids cancel_runs
cancel_active_runs has_token fetch cancels fuel =
    if not has_token
    then failed
    else and_then (list_active_run_ids fetch fuel) (λ ids. done (cancel_runs cancels ids))
