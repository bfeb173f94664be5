-- ===== src/GuestExec/Registry/Draining.antt =====
-- A draining registry of internal/guestexec/registry.go takes no new execution.
use gha_mac_broker.Prelude.{
  ℕ, ◌≡◌, refl, ◌∙◌, String, Bool, true, not, ◌||◌, List, [], ◌∷◌, ◌==◌, none, ℤ, get_elem?, set,
  length, length-set, if_cases, option_cases, arith,
}
use gha_mac_broker.GuestExec.Types.{ExecSpec, Execution, Registry}
use gha_mac_broker.GuestExec.Maps.{lookup}
use gha_mac_broker.GuestExec.Keys.{id_key}
use gha_mac_broker.GuestExec.Registry.Admission.{
  check_admission_locked, register, drain, close_drained,
}
use gha_mac_broker.GuestExec.Registry.Lifecycle.{
  at_execution, place_by_pid, report_exit, supervise, take_report, complete_execution, completed,
  expire, cancel, CancelResult,
}
use gha_mac_broker.GuestExec.Registry.System.{
  Step, registers, captures, beats, reports, supervises, expires, cancels, drains, step, run,
}
use gha_mac_broker.GuestExec.Registry.Executions.Steps.{supervisor_cases}

-- The drain flag and the number of executions ever made are the same.
abbrev pub IsFrozen : Registry → Registry → Type 0
IsFrozen r s = (s.draining ≡ r.draining) × (length s.heap ≡ length r.heap)

written : (h : ℕ) (e : Execution) (r : Registry) → IsFrozen r (record r { heap = set r.heap h e })
written h e r = (refl, length-set r.heap h e)

at_execution-IsFrozen :
    (h : ℕ) (f : Execution → Execution) (r : Registry) → IsFrozen r (at_execution h f r)
unfolding at_execution
at_execution-IsFrozen h f r =
    option_cases (IsFrozen r) (get_elem? r.heap h) (λ _. (refl, refl)) λ e _. written h (f e) r

report_exit-IsFrozen :
    (pid : ℕ) (code : ℤ) (message : String) (r : Registry)
    → IsFrozen r (report_exit pid code message r)
unfolding report_exit
report_exit-IsFrozen pid code message r =
    option_cases (IsFrozen r) (place_by_pid pid r.heap r.executions none) (λ _. (refl, refl))
      λ h _. at_execution-IsFrozen h _ r

complete_execution-IsFrozen :
    (now h : ℕ) (e : Execution) (r : Registry) → IsFrozen r (complete_execution now h e r)
unfolding complete_execution close_drained
complete_execution-IsFrozen now h e r =
    let size = length-set r.heap h (completed now e) in
    if_cases (IsFrozen r) _ (λ _. (refl, size)) (λ _. (refl, size))

supervise-IsFrozen : (now h : ℕ) (r : Registry) → IsFrozen r (supervise now h r)
unfolding supervise
supervise-IsFrozen now h r =
    option_cases (IsFrozen r) (get_elem? r.heap h) (λ _. (refl, refl))
      λ e _.
        supervisor_cases (IsFrozen r) e.supervisor
          (λ _.
            option_cases (IsFrozen r) e.exit_report (λ _. (refl, refl))
              λ report _. written h (take_report report e) r)
          (λ _.
            if_cases (IsFrozen r) (e.stdout_open || e.stderr_open) (λ _. (refl, refl))
              λ _. complete_execution-IsFrozen now h e r)
          (λ _. (refl, refl))

expire-IsFrozen : (h : ℕ) (r : Registry) → IsFrozen r (expire h r)
unfolding expire
expire-IsFrozen h r =
    option_cases (IsFrozen r) (get_elem? r.heap h) (λ _. (refl, refl))
      λ e _.
        if_cases (IsFrozen r) (not e.timer_armed) (λ _. (refl, refl))
          λ _.
            option_cases (IsFrozen r) (lookup e.id r.executions) (λ _. (refl, refl))
              λ current _.
                if_cases (IsFrozen r) (current == h) (λ _. (refl, refl)) (λ _. (refl, refl))

cancel-IsFrozen : (kill : ℕ → Bool) (id : String) (r : Registry) → IsFrozen r (cancel kill id r).0
unfolding cancel
cancel-IsFrozen kill id r =
    option_cases Good (lookup id r.executions) (λ _. (refl, refl))
      λ h _.
        option_cases Good (get_elem? r.heap h) (λ _. (refl, refl))
          λ e _.
            if_cases Good (not e.running || e.reaped || e.cancelled) (λ _. (refl, refl))
              λ _.
                if_cases Good (kill e.pgid) (λ _. written h (record e { cancelled = true }) r)
                  (λ _. (refl, refl))
  where
    Good : Registry × CancelResult → Type 0
    Good p = IsFrozen r p.0

register-draining :
    (is_abs : String → Bool) (spec : ExecSpec) (pid pgid : ℕ) (r : Registry)
    → r.draining ≡ true
    → (register is_abs spec pid pgid r).0 ≡ r
unfolding register check_admission_locked
register-draining is_abs spec pid pgid r d = ground (arith, d)

drain-starts :
    (r : Registry) → ((drain r).0.draining ≡ true) × (length (drain r).0.heap ≡ length r.heap)
unfolding drain close_drained
drain-starts r = if_cases Good (r.active_count == 0) (λ _. (refl, refl)) (λ _. (refl, refl))
  where
    Good : Registry → Type 0
    Good s = (s.draining ≡ true) × (length s.heap ≡ length r.heap)

step-draining :
    (is_abs : String → Bool) (s : Step) (r : Registry)
    → r.draining ≡ true
    → ((step is_abs s r).draining ≡ true) × (length (step is_abs s r).heap ≡ length r.heap)
unfolding step
step-draining is_abs (registers spec pid pgid) r d =
    rw (register-draining is_abs spec pid pgid r d) (d, refl)
step-draining is_abs (captures h stream result) r d =
    let f = at_execution-IsFrozen h _ r in (f.0 ∙ d, f.1)
step-draining is_abs (beats h now) r d = let f = at_execution-IsFrozen h _ r in (f.0 ∙ d, f.1)
step-draining is_abs (reports pid code message) r d =
    let f = report_exit-IsFrozen pid code message r in (f.0 ∙ d, f.1)
step-draining is_abs (supervises now h) r d = let f = supervise-IsFrozen now h r in (f.0 ∙ d, f.1)
step-draining is_abs (expires h) r d = let f = expire-IsFrozen h r in (f.0 ∙ d, f.1)
step-draining is_abs (cancels kill id) r d = let f = cancel-IsFrozen kill id r in (f.0 ∙ d, f.1)
step-draining is_abs drains r d = drain-starts r

-- Once a registry drains, it drains for good: over every interleaving from then on no execution is
-- added, whatever is registered.
pub run-draining :
    (is_abs : String → Bool) (ss : List Step) (r : Registry)
    → r.draining ≡ true
    → ((run is_abs ss r).draining ≡ true) × (length (run is_abs ss r).heap ≡ length r.heap)
unfolding run
run-draining is_abs [] r d = (d, refl)
run-draining is_abs (s ∷ ss) r d =
    let (later, size) = step-draining is_abs s r d in
    let (end, total) = run-draining is_abs ss (step is_abs s r) later in (end, total ∙ size)
