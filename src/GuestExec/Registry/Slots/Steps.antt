-- ===== src/GuestExec/Registry/Slots/Steps.antt =====
-- One running execution for a slot, over every interleaving in internal/guestexec/registry.go.
use gha_mac_broker.Prelude.{
  ℕ, ◌≡◌, ◌≢◌, refl, sym, ◌∙◌, String, Bool, true, not, ◌||◌, List, [], ◌∷◌, ◌==◌, some, none, ℤ,
  get_elem?, All-get_elem?, if_cases, option_cases,
}
use gha_mac_broker.GuestExec.Types.{Execution, Registry}
use gha_mac_broker.GuestExec.Maps.{lookup}
use gha_mac_broker.GuestExec.Keys.{id_key}
use gha_mac_broker.GuestExec.Registry.Admission.{new_registry, drain}
use gha_mac_broker.GuestExec.Registry.Lifecycle.{
  take_report, place_by_pid, report_exit, supervise, cancel, CancelResult,
}
use gha_mac_broker.GuestExec.Registry.System.{
  Step, registers, captures, beats, reports, supervises, expires, cancels, drains, step, run,
}
use gha_mac_broker.GuestExec.Registry.Executions.Life.{ExecutionIsValid}
use gha_mac_broker.GuestExec.Registry.Executions.Steps.{
  HeapIsValid, step-IsValid, unsettled, supervisor_cases, waiting≢settled,
}
use gha_mac_broker.GuestExec.Registry.Slots.{IsPlaced}
use gha_mac_broker.GuestExec.Registry.Slots.Touch.{
  touch-IsPlaced, at_execution-IsPlaced, capture-IsSame, append_heartbeat-IsSame, report_to-IsSame,
}
use gha_mac_broker.GuestExec.Registry.Slots.Change.{
  register-IsPlaced, complete_execution-IsPlaced, expire-IsPlaced, closed-IsPlaced, apart,
}

report_exit-IsPlaced :
    (pid : ℕ) (code : ℤ) (message : String) (r : Registry)
    → IsPlaced r
    → IsPlaced (report_exit pid code message r)
unfolding report_exit
report_exit-IsPlaced pid code message r v =
    option_cases IsPlaced (place_by_pid pid r.heap r.executions none) (λ _. v)
      λ h _. at_execution-IsPlaced h _ r (report_to-IsSame _) v

supervise-IsPlaced :
    (now h : ℕ) (r : Registry) → HeapIsValid r → IsPlaced r → IsPlaced (supervise now h r)
unfolding supervise
supervise-IsPlaced now h r heap v =
    option_cases IsPlaced (get_elem? r.heap h) (λ _. v)
      λ e at.
        supervisor_cases IsPlaced e.supervisor
          (λ _.
            option_cases IsPlaced e.exit_report (λ _. v)
              λ report _. touch-IsPlaced h e (take_report report e) r at (refl, refl, refl) v)
          (λ a.
            if_cases IsPlaced (e.stdout_open || e.stderr_open) (λ _. v)
              λ _.
                complete_execution-IsPlaced now h e r at
                  (unsettled e (All-get_elem? ExecutionIsValid h r.heap heap at)
                    λ s. waiting≢settled (sym a ∙ s))
                  v)
          (λ _. v)

cancel-IsPlaced :
    (kill : ℕ → Bool) (id : String) (r : Registry) → IsPlaced r → IsPlaced (cancel kill id r).0
unfolding cancel
cancel-IsPlaced kill id r v =
    option_cases Good (lookup id r.executions) (λ _. v)
      λ h _.
        option_cases Good (get_elem? r.heap h) (λ _. v)
          λ e at.
            if_cases Good (not e.running || e.reaped || e.cancelled) (λ _. v)
              λ _.
                if_cases Good (kill e.pgid)
                  (λ _.
                    touch-IsPlaced h e (record e { cancelled = true }) r at (refl, refl, refl) v)
                  (λ _. v)
  where
    Good : Registry × CancelResult → Type 0
    Good p = IsPlaced p.0

drain-IsPlaced : (r : Registry) → IsPlaced r → IsPlaced (drain r).0
unfolding drain
drain-IsPlaced r v =
    if_cases IsPlaced (r.active_count == 0)
      (λ _. closed-IsPlaced (record r { draining = true }) refusing) (λ _. refusing)
  where
    refusing : IsPlaced (record r { draining = true })
    refusing = record { listed = v.listed; slotted = v.slotted; counted = v.counted }

pub step-IsPlaced :
    (is_abs : String → Bool) (s : Step) (r : Registry)
    → HeapIsValid r
    → IsPlaced r
    → IsPlaced (step is_abs s r)
unfolding step
step-IsPlaced is_abs (registers spec pid pgid) r heap v = register-IsPlaced is_abs spec pid pgid r v
step-IsPlaced is_abs (captures h stream result) r heap v =
    at_execution-IsPlaced h _ r (capture-IsSame stream result) v
step-IsPlaced is_abs (beats h now) r heap v =
    at_execution-IsPlaced h _ r (append_heartbeat-IsSame now) v
step-IsPlaced is_abs (reports pid code message) r heap v = report_exit-IsPlaced pid code message r v
step-IsPlaced is_abs (supervises now h) r heap v = supervise-IsPlaced now h r heap v
step-IsPlaced is_abs (expires h) r heap v =
    expire-IsPlaced h r (λ e at. All-get_elem? ExecutionIsValid h r.heap heap at) v
step-IsPlaced is_abs (cancels kill id) r heap v = cancel-IsPlaced kill id r v
step-IsPlaced is_abs drains r heap v = drain-IsPlaced r v

run-IsPlaced :
    (is_abs : String → Bool) (ss : List Step) (r : Registry)
    → HeapIsValid r
    → IsPlaced r
    → IsPlaced (run is_abs ss r)
unfolding run
run-IsPlaced is_abs [] r heap v = v
run-IsPlaced is_abs (s ∷ ss) r heap v =
    run-IsPlaced is_abs ss (step is_abs s r) (step-IsValid is_abs s r heap)
      (step-IsPlaced is_abs s r heap v)

pub new_registry-IsPlaced : IsPlaced new_registry
new_registry-IsPlaced = record { listed = λ h e at t. cc; slotted = λ h e at t. cc; counted = refl }

-- Over every interleaving from a new registry, each running execution is the one that its id leads
-- to, its slot is claimed for its id, and the counter of active executions is the number of running
-- ones as a uint32.
pub run-new_registry-IsPlaced :
    (is_abs : String → Bool) (ss : List Step) → IsPlaced (run is_abs ss new_registry)
run-new_registry-IsPlaced is_abs ss = run-IsPlaced is_abs ss new_registry tt new_registry-IsPlaced

-- Over every interleaving from a new registry, two different running executions have different slots:
-- a slot never runs two jobs at once.
pub run-new_registry-exclusive :
    (is_abs : String → Bool) (ss : List Step) (h k : ℕ) (e f : Execution)
    → let r = run is_abs ss new_registry in
      get_elem? r.heap h ≡ some e
      → e.running ≡ true
      → get_elem? r.heap k ≡ some f
      → f.running ≡ true
      → k ≢ h
      → e.slot ≢ f.slot
run-new_registry-exclusive is_abs ss h k e f at t at2 t2 other same =
    let placed = run-new_registry-IsPlaced is_abs ss in
    other (apart h k e f (run is_abs ss new_registry) placed at t at2 t2 same)
