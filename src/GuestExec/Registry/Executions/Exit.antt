-- ===== src/GuestExec/Registry/Executions/Exit.antt =====
-- One execution of internal/guestexec/registry.go, from its registration to its completion.
use gha_mac_broker.Prelude.{ℕ, ◌≡◌, refl, true, false, not, ◌||◌, if◌then◌else◌, if_cases, arith}
use gha_mac_broker.GuestExec.Types.{phase_change, terminal_result, ExecSpec, ExitReport, Execution}
use gha_mac_broker.GuestExec.Log.{append_event, append_capped, empty_log, max_retained_log_bytes}
use gha_mac_broker.GuestExec.Log.Invariant.{LogIsValid, append_capped-IsValid}
use gha_mac_broker.GuestExec.Registry.Admission.{new_execution}
use gha_mac_broker.GuestExec.Registry.Lifecycle.{
  report_to, clamp_exit_code, completed, complete_events, take_report,
}
use gha_mac_broker.GuestExec.Registry.Executions.Terminal.{Finished, append_event-Unfinished}
use gha_mac_broker.GuestExec.Registry.Executions.Life.{ExecutionIsValid}

pub report_to-IsValid :
    (report : ExitReport) (e : Execution)
    → ExecutionIsValid e
    → ExecutionIsValid (report_to report e)
unfolding report_to
report_to-IsValid report e v =
    if_cases ExecutionIsValid (e.exit_reported || not e.running || e.reap_once) (λ _. v)
      λ _. record {
        log_valid = v.log_valid;
        unfinished = v.unfinished;
        finished = v.finished;
        stdout_closed = v.stdout_closed;
        stderr_closed = v.stderr_closed;
        returned = v.returned;
        supervised = v.supervised;
        armed = v.armed;
      }

pub cancelled-IsValid :
    (e : Execution) → ExecutionIsValid e → ExecutionIsValid (record e { cancelled = true })
cancelled-IsValid e v = record {
  log_valid = v.log_valid;
  unfinished = v.unfinished;
  finished = v.finished;
  stdout_closed = v.stdout_closed;
  stderr_closed = v.stderr_closed;
  returned = v.returned;
  supervised = v.supervised;
  armed = v.armed;
}

pub take_report-IsValid :
    (report : ExitReport) (e : Execution)
    → e.running ≡ true
    → ExecutionIsValid e
    → ExecutionIsValid (take_report report e)
take_report-IsValid report e t v = record {
  log_valid = v.log_valid;
  unfinished = v.unfinished;
  finished = v.finished;
  stdout_closed = v.stdout_closed;
  stderr_closed = v.stderr_closed;
  returned = λ f. cc;
  supervised = λ s. cc;
  armed = v.armed;
}

complete_events-IsValid :
    (e : Execution)
    → LogIsValid max_retained_log_bytes e.log
    → LogIsValid max_retained_log_bytes (complete_events e)
unfolding append_event
complete_events-IsValid e v =
    append_capped-IsValid max_retained_log_bytes
      (terminal_result (clamp_exit_code e.exit_code)
        (if e.cancelled then "execution cancelled" else e.exit_msg))
      (append_event (phase_change "completed") e.log)
      (append_capped-IsValid max_retained_log_bytes (phase_change "completed") e.log v)

complete_events-Finished :
    (e : Execution) → e.running ≡ true → ExecutionIsValid e → Finished (complete_events e).events
unfolding append_event append_capped
complete_events-Finished e t v = (
  (append_event (phase_change "completed") e.log).events,
  _,
  refl,
  append_event-Unfinished (phase_change "completed") e.log refl (v.unfinished t),
  refl,
)

pub completed-IsValid :
    (now : ℕ) (e : Execution)
    → e.running ≡ true
    → e.stdout_open ≡ false
    → e.stderr_open ≡ false
    → ExecutionIsValid e
    → ExecutionIsValid (completed now e)
unfolding completed
completed-IsValid now e t so se v = record {
  log_valid = complete_events-IsValid e v.log_valid;
  unfinished = λ r. cc;
  finished = λ _. complete_events-Finished e t v;
  stdout_closed = λ _. so;
  stderr_closed = λ _. se;
  returned = λ _. refl;
  supervised = λ _. refl;
  armed = λ _. refl;
}

empty-IsValid : LogIsValid max_retained_log_bytes empty_log
empty-IsValid = record {
  numbered = tt;
  counted = refl;
  spent = tt;
  in_range = omega arith;
  capped = omega arith;
}

pub new_execution-IsValid :
    (spec : ExecSpec) (pid pgid : ℕ) → ExecutionIsValid (new_execution spec pid pgid)
unfolding append_event
new_execution-IsValid spec pid pgid = record {
  log_valid =
      append_capped-IsValid max_retained_log_bytes (phase_change "running") empty_log empty-IsValid;
  unfinished = λ _. append_event-Unfinished (phase_change "running") empty_log refl tt;
  finished = λ f. cc;
  stdout_closed = λ f. cc;
  stderr_closed = λ f. cc;
  returned = λ f. cc;
  supervised = λ s. cc;
  armed = λ a. cc;
}
