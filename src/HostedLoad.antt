-- ===== src/HostedLoad.antt =====
-- internal/hostedload: the GitHub-hosted macOS jobs in progress. The map that serves as a set is a
-- list with one entry for a key.
pub mod Deliveries
mod Examples
use gha_mac_broker.Prelude.{
  ℕ, String, Bool, true, false, not, ◌&&◌, List, [], ◌∷◌, ℤ, eqb_ℤ, length, if◌then◌else◌,
}

pub record Tracker : Type 0 where
  pub jobs : List ℤ

abbrev pub new_tracker : Tracker
new_tracker = record { jobs = [] }

-- `delete(t.jobs, job_id)`
unfoldable pub remove_id : ℤ → List ℤ → List ℤ
remove_id job_id [] = []
remove_id job_id (x ∷ xs) =
    let rest = remove_id job_id xs in if eqb_ℤ x job_id then rest else x ∷ rest

-- `t.jobs[job_id] = struct{}{}`
unfoldable pub insert_id : ℤ → List ℤ → List ℤ
unfolding remove_id
insert_id job_id xs = job_id ∷ remove_id job_id xs

unfoldable pub mark_in_progress : ℤ → Tracker → Tracker
unfolding insert_id
mark_in_progress job_id t = record { jobs = insert_id job_id t.jobs }

unfoldable pub mark_completed : ℤ → Tracker → Tracker
unfolding remove_id
mark_completed job_id t = record { jobs = remove_id job_id t.jobs }

-- The copy that Reconcile makes of the keys that it is given.
unfoldable pub copy_ids : List ℤ → List ℤ
unfolding insert_id
copy_ids [] = []
copy_ids (x ∷ xs) = insert_id x (copy_ids xs)

unfoldable pub reconcile : List ℤ → Tracker → Tracker
unfolding copy_ids
reconcile job_ids t = record { jobs = copy_ids job_ids }

abbrev pub hosted_count : Tracker → ℕ
hosted_count t = length t.jobs

-- What IsHostedMacOSJob takes from package strings.
pub record Strings : Type 0 where
  pub to_lower : String → String
  pub has_prefix : String → String → Bool
  pub equal_fold : String → String → Bool

abbrev pub any_string : (String → Bool) → List String → Bool
any_string p [] = false
any_string p (x ∷ xs) = let rest = any_string p xs in if p x then true else rest

unfoldable pub is_hosted_macos_job : Strings → List String → List String → Bool
is_hosted_macos_job s job_labels pool_labels =
    if not (any_string (λ label. s.has_prefix (s.to_lower label) "macos-") job_labels)
    then false
    else if any_string
        (λ label. any_string (λ pool_label. s.equal_fold label pool_label) pool_labels) job_labels
    then false
    else true
