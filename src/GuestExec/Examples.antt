-- ===== src/GuestExec/Examples.antt =====
-- Tests of internal/guestexec, and its theorems at concrete inputs.
use gha_mac_broker.Prelude.{
  ◌≡◌, ◌≢◌, refl, String, Bool, true, List, [], ◌∷◌, none, length, some, pos, get_elem?, arith,
}
use gha_mac_broker.GuestExec.Types.{
  Registry, Execution, stdout, stderr, ExecSpec, Payload, log_chunk, Log,
}
use gha_mac_broker.GuestExec.Log.{append_capped, enforce_log_byte_cap, with_event, empty_log}
use gha_mac_broker.GuestExec.Log.Invariant.{LogIsValid, append_capped-IsValid}
use gha_mac_broker.GuestExec.Log.Newest.{Trimmed, append_capped-keeps_newest, append_capped-Trimmed}
use gha_mac_broker.GuestExec.Log.Rescan.{enforce_log_byte_cap-rescan}
use gha_mac_broker.GuestExec.Registry.Slots.{IsPlaced}
use gha_mac_broker.GuestExec.Registry.Slots.Steps.{
  run-new_registry-IsPlaced, run-new_registry-exclusive,
}
use gha_mac_broker.GuestExec.Registry.Retry.{IsRefused, register-retry}
use gha_mac_broker.GuestExec.Registry.Draining.{run-draining}
use gha_mac_broker.GuestExec.Registry.Streaming.{subscribe}
use gha_mac_broker.GuestExec.Registry.Replay.{subscribe-suffix}
use gha_mac_broker.GuestExec.Registry.Admission.{
  invalid_spec, new_execution, new_registry, register, drain,
}
use gha_mac_broker.GuestExec.Registry.Lifecycle.{
  bytes, end_of_file, supervise, report_exit, capture,
}
use gha_mac_broker.GuestExec.Registry.System.{
  Step, registers, captures, reports, supervises, drains, run,
}
use gha_mac_broker.GuestExec.Registry.Executions.Steps.{HeapIsValid, run-new_registry-IsValid}

-- Two chunks of three bytes under a cap of four: the first has lost its data.
abbrev worn_log : Log
worn_log = record {
  events =
      record { sequence = 1; payload = log_chunk stdout [] }
      ∷ record { sequence = 2; payload = log_chunk stdout (4 ∷ 5 ∷ 6 ∷ []) }
      ∷ [];
  bytes = 3;
  cursor = 1;
}

abbrev old_log : Log
old_log = append_capped 4 (log_chunk stdout (1 ∷ 2 ∷ 3 ∷ [])) empty_log

worn : append_capped 4 (log_chunk stdout (4 ∷ 5 ∷ 6 ∷ [])) old_log ≡ worn_log
unfolding append_capped
worn = refl

worn_log-IsValid : LogIsValid 4 worn_log
worn_log-IsValid = record {
  numbered = (refl, (refl, tt));
  counted = refl;
  spent = (refl, tt);
  in_range = omega arith;
  capped = omega arith;
}

abbrev chunk : Payload
chunk = log_chunk stderr (7 ∷ 8 ∷ [])

append_capped-IsValid_example : LogIsValid 4 (append_capped 4 chunk worn_log)
append_capped-IsValid_example = append_capped-IsValid 4 chunk worn_log worn_log-IsValid

append_capped-keeps_newest_example :
    get_elem? (append_capped 4 chunk worn_log).events 2
    ≡ some (record { sequence = 3; payload = chunk })
append_capped-keeps_newest_example =
    append_capped-keeps_newest 4 chunk worn_log worn_log-IsValid (omega arith)

append_capped-Trimmed_example :
    Trimmed (with_event chunk worn_log).events (append_capped 4 chunk worn_log).events
append_capped-Trimmed_example = append_capped-Trimmed 4 chunk worn_log

abbrev rescanned : Log
rescanned = enforce_log_byte_cap 4 (record (with_event chunk worn_log) { cursor = 0 })

enforce_log_byte_cap-rescan_example :
    ((enforce_log_byte_cap 4 (with_event chunk worn_log)).events ≡ rescanned.events)
    × ((enforce_log_byte_cap 4 (with_event chunk worn_log)).bytes ≡ rescanned.bytes)
enforce_log_byte_cap-rescan_example = enforce_log_byte_cap-rescan 4 chunk worn_log worn_log-IsValid

abbrev spec : ExecSpec
spec = record {
  execution_id = "job-7";
  slot = 0;
  meta = record { repo = "owner/app"; job_id = pos 7; run_id = pos 70; runner_name = "mac-7" };
  command = "/bin/run";
}

-- A job runs, writes a line, exits with 3 while the guest drains, and is completed.
abbrev session : List Step
session =
    registers spec 11 11
    ∷ captures 0 stdout (bytes (104 ∷ 105 ∷ []))
    ∷ drains
    ∷ reports 11 (pos 3) ""
    ∷ supervises 5 0
    ∷ captures 0 stdout end_of_file
    ∷ captures 0 stderr end_of_file
    ∷ supervises 6 0
    ∷ []

abbrev any_path : String → Bool
any_path p = true

session_ends : (run any_path session new_registry).drained_closed ≡ true
unfolding run supervise report_exit drain register capture
session_ends = refl

run-new_registry-IsValid_example : HeapIsValid (run any_path session new_registry)
run-new_registry-IsValid_example = run-new_registry-IsValid any_path session

abbrev chatty : Execution
chatty = record (new_execution spec 11 11) { log = worn_log }

-- A client that has seen the first event asks for the rest.
subscribe-suffix_example : get_elem? (subscribe 1 chatty) 0 ≡ get_elem? worn_log.events 1
subscribe-suffix_example = subscribe-suffix 1 0 chatty (omega arith)

run-new_registry-IsPlaced_example : IsPlaced (run any_path session new_registry)
run-new_registry-IsPlaced_example = run-new_registry-IsPlaced any_path session

abbrev neighbour : ExecSpec
neighbour = record spec { execution_id = "job-8"; slot = 1 }

-- A third job asks for the slot of the first, which runs.
abbrev rivals : List Step
rivals =
    registers spec 11 11
    ∷ registers neighbour 12 12
    ∷ registers (record spec { execution_id = "job-9" }) 13 13
    ∷ []

first_runs : get_elem? (run any_path rivals new_registry).heap 0 ≡ some (new_execution spec 11 11)
unfolding run register
first_runs = refl

second_runs :
    get_elem? (run any_path rivals new_registry).heap 1 ≡ some (new_execution neighbour 12 12)
unfolding run register
second_runs = refl

third_refused : get_elem? (run any_path rivals new_registry).heap 2 ≡ none
unfolding run register
third_refused = refl

run-new_registry-exclusive_example : spec.slot ≢ neighbour.slot
run-new_registry-exclusive_example =
    run-new_registry-exclusive any_path rivals 0 1 (new_execution spec 11 11)
      (new_execution neighbour 12 12) first_runs refl second_runs refl (λ e. absurd (omega arith))

spec_valid : invalid_spec any_path spec ≡ none
unfolding invalid_spec
spec_valid = refl

register-retry_example :
    let r = run any_path rivals new_registry in
    IsRefused r (new_execution spec 11 11) spec (register any_path spec 14 14 r)
register-retry_example =
    register-retry any_path rivals spec 14 14 0 (new_execution spec 11 11) first_runs refl refl
      spec_valid

abbrev closing : Registry
closing = record new_registry { draining = true }

run-draining_example :
    ((run any_path rivals closing).draining ≡ true)
    × (length (run any_path rivals closing).heap ≡ 0)
run-draining_example = run-draining any_path rivals closing refl
