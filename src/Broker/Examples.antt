-- ===== src/Broker/Examples.antt =====
-- Tests of the drain and of the adoption in internal/broker, and their theorems at concrete inputs.
use mathlib.Core.List.{append-nil}
use gha_mac_broker.Prelude.{
  ℕ, ◌+◌, ◌<◌, sym, ap, ◌≤◌, ◌≡◌, ◌⊎◌, refl, String, Bool, true, false, List, [], ◌∷◌, ◌++◌, Option,
  none, some, pos, pos_part, leb_ℤ, length, any, get_elem?, All, All-get_elem?, if◌then◌else◌,
  eqb_ℤ, str_eq, arith,
}
use gha_mac_broker.RunnerPool.Types.{Vm, Pool}
use gha_mac_broker.RunnerPool.Options.{new}
use gha_mac_broker.RunnerPool.Jobs.{after_resume}
use gha_mac_broker.RunnerPool.Adopt.{bind_all, adopted_worker}
use gha_mac_broker.GuestExec.Types.{
  stderr, stdout, Event, Execution, phase_change, log_chunk, terminal_result, settled, ExecSpec,
}
use gha_mac_broker.GuestExec.Registry.Admission.{register, new_registry, new_execution}
use gha_mac_broker.GuestExec.Registry.Lifecycle.{
  bytes, end_of_file, supervise, report_exit, capture,
}
use gha_mac_broker.GuestExec.Registry.System.{Step, registers, captures, reports, supervises, run}
use gha_mac_broker.GuestExec.Registry.Executions.Steps.{run-new_registry-IsValid}
use gha_mac_broker.GuestExec.Registry.Executions.Life.{ExecutionIsValid}
use gha_mac_broker.GuestExec.Registry.Slots.Steps.{run-new_registry-IsPlaced}
use gha_mac_broker.GuestExec.Registry.Streaming.{subscribe}
use gha_mac_broker.GuestAgent.Wire.{
  run_conflict, run_accepted, WireEvent, wire_phase, wire_log, wire_result, wire_stdout,
}
use gha_mac_broker.GuestAgent.Stream.{job_status, Consecutive}
use gha_mac_broker.Broker.Drain.{
  pool_error, Mirror, Attempt, streamed, broken_stream, end_of_stream, drain_stream, outcome,
  exited, running_on, drain_to_terminal, drain_round, receive, detached, plain_cancel, deadline,
  drain_job, not_done, ended, job_terminal,
}
use gha_mac_broker.Broker.Rounds.{max_sequence, met, received, bytes_of}
use gha_mac_broker.Broker.Resume.{logged, drain_to_terminal-Contiguous}
use gha_mac_broker.Broker.Outcome.{drain_stream-completed}
use gha_mac_broker.Broker.Finish.{drain_to_terminal-finishes}
use gha_mac_broker.Broker.Reuse.{shows_end, JobIsOver, drain_job-reuse}
use gha_mac_broker.Broker.Adopt.{
  VmEntry, Guest, unresolved, answers, Candidate, Names, normalize_slot_count, adopt,
}
use gha_mac_broker.Broker.Selection.{IsReported, IsIdle, adopt-IsSafe}
use gha_mac_broker.Broker.Run.{answered, run_job, running_slots}
use gha_mac_broker.Broker.Restart.{resumed_slot, bindings, adopted-running}

abbrev spec : ExecSpec
spec = record {
  execution_id = "job-7";
  slot = 0;
  meta = record { repo = "owner/app"; job_id = pos 7; run_id = pos 70; runner_name = "mac-7" };
  command = "/bin/run";
}

-- A job runs, writes two bytes, exits with 3 and is completed.
abbrev session : List Step
session =
    registers spec 11 11
    ∷ captures 0 stdout (bytes (104 ∷ 105 ∷ []))
    ∷ reports 11 (pos 3) ""
    ∷ supervises 5 0
    ∷ captures 0 stdout end_of_file
    ∷ captures 0 stderr end_of_file
    ∷ supervises 6 0
    ∷ []

abbrev any_path : String → Bool
any_path p = true

-- The execution at the end of the session.
abbrev over : Execution
over = record {
  id = "job-7";
  slot = 0;
  meta = spec.meta;
  process_id = 11;
  pgid = 11;
  phase = "completed";
  running = false;
  reaped = true;
  cancelled = false;
  log = record {
    events =
        record { sequence = 1; payload = phase_change "running" }
        ∷ record { sequence = 2; payload = log_chunk stdout (104 ∷ 105 ∷ []) }
        ∷ record { sequence = 3; payload = phase_change "completed" }
        ∷ record { sequence = 4; payload = terminal_result (pos 3) "" }
        ∷ [];
    bytes = 2;
    cursor = 0;
  };
  completed_at = 6;
  exit_reported = true;
  exit_code = pos 3;
  exit_msg = "";
  exit_report = none;
  reap_once = true;
  stdout_open = false;
  stderr_open = false;
  supervisor = settled;
  timer_armed = true;
}

session_leaves : get_elem? (run any_path session new_registry).heap 0 ≡ some over
unfolding run supervise report_exit register capture
session_leaves = refl

over-IsValid : ExecutionIsValid over
over-IsValid =
    All-get_elem? ExecutionIsValid 0 (run any_path session new_registry).heap
      (run-new_registry-IsValid any_path session) session_leaves

abbrev started : WireEvent
started = record { sequence = 1; event = wire_phase "running" }

abbrev printed : WireEvent
printed = record { sequence = 2; event = wire_log wire_stdout (104 ∷ 105 ∷ []) }

abbrev closing : WireEvent
closing = record { sequence = 3; event = wire_phase "completed" }

abbrev result : WireEvent
result = record { sequence = 4; event = wire_result (pos 3) "" }

abbrev first_two : List WireEvent → List WireEvent
first_two [] = []
first_two (m ∷ []) = m ∷ []
first_two (m ∷ n ∷ ms) = m ∷ n ∷ []

abbrev behind_two : List WireEvent → List WireEvent
behind_two [] = []
behind_two (m ∷ []) = []
behind_two (m ∷ n ∷ ms) = ms

two-behind : (ms : List WireEvent) → ms ≡ first_two ms ++ behind_two ms
two-behind [] = refl
two-behind (m ∷ []) = refl
two-behind (m ∷ n ∷ ms) = refl

-- The first stream breaks behind two messages, and the second goes to the end.
abbrev rounds : List (ℕ → Attempt)
rounds =
    (λ c. streamed (first_two (job_status (subscribe c over))) broken_stream false)
    ∷ (λ c. streamed (job_status (subscribe c over)) end_of_stream false)
    ∷ []

abbrev fresh : Mirror
fresh = record { cursor = 0; run_log = some [] }

whole : job_status (subscribe 0 over) ≡ (started ∷ printed ∷ []) ++ closing ∷ result ∷ []
unfolding job_status subscribe
whole = refl

all_received : received rounds fresh ≡ started ∷ printed ∷ closing ∷ result ∷ []
unfolding met drain_round drain_stream receive job_status subscribe
all_received = refl

enough_numbers : fresh.cursor + length (received rounds fresh) < max_sequence
enough_numbers = let size = ap length all_received in omega (arith, size)

drain_to_terminal-Contiguous_example :
    let got = received rounds fresh in
    let end = (drain_to_terminal rounds fresh).0 in
    Consecutive 1 got
    × (end.cursor ≡ 0 + length got)
    × (end.run_log ≡ logged (some []) (bytes_of got))
drain_to_terminal-Contiguous_example =
    drain_to_terminal-Contiguous rounds fresh
      (
        λ c small. (
          over,
          behind_two (job_status (subscribe c over)),
          over-IsValid.log_valid,
          two-behind _,
        ),
        (λ c small. (over, [], over-IsValid.log_valid, sym (append-nil _)), tt),
      )
      enough_numbers

result_taken : (drain_stream (started ∷ printed ∷ closing ∷ result ∷ []) fresh).1 ≡ some (pos 3, "")
unfolding drain_stream
result_taken = refl

drain_stream-completed_example :
    (over.running ≡ false)
    × ((i : ℕ) × (x : Event) × (get_elem? over.log.events i ≡ some x)
        × (x.payload ≡ terminal_result (pos 3) ""))
drain_stream-completed_example =
    drain_stream-completed 0 over (started ∷ printed ∷ closing ∷ result ∷ []) [] fresh (pos 3) ""
      over-IsValid (omega arith) whole result_taken

-- Behind the first of the two streams, the drain still goes on.
abbrev broken_off : List (ℕ → Attempt)
broken_off = (λ c. streamed (first_two (job_status (subscribe c over))) broken_stream false) ∷ []

goes_on :
    drain_to_terminal broken_off fresh
    ≡ (record { cursor = 2; run_log = some (104 ∷ 105 ∷ []) }, running_on)
unfolding drain_to_terminal drain_round drain_stream receive job_status subscribe
goes_on = refl

drain_to_terminal-finishes_example :
    (drain_to_terminal
      (broken_off ++ (λ c. streamed (job_status (subscribe c over)) end_of_stream false) ∷ [])
      fresh).1
    ≡ outcome (if eqb_ℤ (pos 3) (pos 0) then none else some (exited (pos 3) ""))
drain_to_terminal-finishes_example =
    drain_to_terminal-finishes broken_off [] end_of_stream false fresh over 3
      (record { sequence = 4; payload = terminal_result (pos 3) "" }) (pos 3) "" over-IsValid refl
      (omega arith) refl refl (ap (λ r. r.1) goes_on)
      (let stops = ap (λ r. r.0.cursor) goes_on in omega (arith, stops))

abbrev pool : Pool
pool = new 0 (record {
  runner_count = pos 1;
  jobs_per_vm = pos 1;
  image = "golden";
  max_idle = pos 0;
  max_age = pos 0;
  max_bind = pos 0;
  pickup_timeout = pos 0;
  run_token = "";
  warm_retry_delay = pos 0;
  clock = none;
})

abbrev vm : Vm
vm = record { name = "vm-1"; image = "golden" }

-- The job exits with 3 while nothing cancels it.
job_ends : (drain_job rounds not_done [] fresh).1 ≡ ended (some (job_terminal (pos 3) ""))
unfolding drain_job drain_stream receive job_status subscribe
job_ends = refl

slot_goes_on :
    (after_resume 9 0 0 vm 1 (some (pool_error "exit 3" (job_terminal (pos 3) ""))) pool).1 ≡ true
unfolding after_resume
slot_goes_on = refl

drain_job-reuse_example :
    ((any shows_end (met rounds fresh) ≡ true) × JobIsOver (some (job_terminal (pos 3) "")))
    ⊎ ((any shows_end (met [] (drain_to_terminal rounds fresh).0) ≡ true)
        × (some (job_terminal (pos 3) "") ≡ none))
    ⊎ (((not_done ≡ plain_cancel) ⊎ (not_done ≡ deadline))
        × (some (job_terminal (pos 3) "") ≡ some detached))
drain_job-reuse_example =
    drain_job-reuse rounds [] not_done fresh (some (job_terminal (pos 3) "")) 9 0 0 vm 1 "exit 3"
      pool job_ends slot_goes_on

abbrev names : Names
names = record { has_prefix = λ s prefix. true; equal_fold = str_eq; sort_strings = λ xs. xs }

-- "vm-1" runs a job in its slot, "vm-2" is idle, and "vm-3" does not answer.
abbrev guest : String → Guest
guest name =
    if str_eq name "vm-1"
    then answers (
        record {
          execution_id = "job-7";
          slot = 0;
          meta = spec.meta;
          phase = "running";
          running = true;
          last_sequence = 2;
        }
        ∷ [])
    else if str_eq name "vm-2"
    then answers []
    else unresolved

abbrev listed : List VmEntry
listed =
    record { name = "vm-2"; state = "running" }
    ∷ record { name = "vm-1"; state = "running" }
    ∷ record { name = "vm-3"; state = "running" }
    ∷ []

adopt-IsSafe_example :
    (selected : List Candidate) × (torn_down : List String) × (adopt names guest "vm-"
        (some listed)
        (pos 1)
        (pos 1)
      ≡ some (selected, torn_down))
    × ((leb_ℤ (pos 0) (pos 1) ≡ false) ⊎ (length selected ≤ pos_part (pos 1)))
    × All (IsReported guest (normalize_slot_count (pos 1))) selected
    × All (IsIdle guest (normalize_slot_count (pos 1))) torn_down
adopt-IsSafe_example = adopt-IsSafe names guest "vm-" listed (pos 1) (pos 1)

abbrev names_of : List Candidate → List String
names_of [] = []
names_of (c ∷ cs) = c.name ∷ names_of cs

-- The idle VM is over the limit: it is torn down, and the busy one is kept.
abbrev ap_names : Option (List Candidate × List String) → Option (List String × List String)
ap_names none = none
ap_names (some (cs, torn)) = some (names_of cs, torn)

adopts_busy :
    ap_names (adopt names guest "vm-" (some listed) (pos 1) (pos 1))
    ≡ some ("vm-1" ∷ [], "vm-2" ∷ [])
unfolding adopt
adopts_busy = refl

-- Before the restart, the job of `spec` runs in slot 0 of two.
abbrev before : List Step
before = registers spec 11 11 ∷ []

runs_on : get_elem? (run any_path before new_registry).heap 0 ≡ some (new_execution spec 11 11)
unfolding run register
runs_on = refl

new-IsValid : ExecutionIsValid (new_execution spec 11 11)
new-IsValid =
    All-get_elem? ExecutionIsValid 0 (run any_path before new_registry).heap
      (run-new_registry-IsValid any_path before) runs_on

adopted-running_example :
    get_elem?
      (bind_all 9
        (bindings
          (λ ss. ss)
          (λ s ss. (λ m. m, λ m. m))
          (run any_path before new_registry)
          (run-new_registry-IsPlaced any_path before)
          9
          2
          vm)
        (adopted_worker 9 (pos 2) vm)).slots
      0
    ≡ some (resumed_slot 9 (new_execution spec 11 11))
adopted-running_example =
    adopted-running (λ ss. ss) (λ s ss. (λ m. m, λ m. m)) (run any_path before new_registry)
      (run-new_registry-IsPlaced any_path before) 9 2 vm 0 (new_execution spec 11 11) runs_on refl
      (omega arith) new-IsValid.log_valid

-- A refused dispatch never drains, an accepted one drains to the result.
dispatches :
    (run_job (answered run_conflict) rounds not_done [] (some []) ≡ none)
    × (run_job (answered run_accepted) rounds not_done [] (some [])
        ≡ some (drain_job rounds not_done [] fresh))
    × (running_slots (guest "vm-1") ≡ some (0 ∷ []))
unfolding run_job running_slots
dispatches = (refl, refl, refl)
