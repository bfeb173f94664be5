-- ===== src/GuestExec/Registry/Lifecycle.antt =====
-- The life of an execution in internal/guestexec/registry.go: output, heartbeats, the exit report, the
-- supervisor, completion, cancellation and expiry.
use gha_mac_broker.Prelude.{
  ℕ, ◌+◌, String, Bool, true, false, not, ◌&&◌, ◌||◌, List, [], ◌∷◌, Option, none, some, ℤ, pos,
  negsuc, ◌==◌, ltb, length, get_elem?, set, is_some, if◌then◌else◌,
}
use gha_mac_broker.GuestExec.Types.{
  Stream, stdout, stderr, Payload, phase_change, log_chunk, heartbeat, terminal_result, Log,
  ExitReport, awaiting, waiting_readers, settled, Execution, Registry,
}
use gha_mac_broker.GuestExec.Log.{append_event}
use gha_mac_broker.GuestExec.Maps.{lookup, remove}
use gha_mac_broker.GuestExec.Keys.{id_key, slot_key}
use gha_mac_broker.GuestExec.Registry.Admission.{u32, close_drained}

-- A change of the execution at a place of the heap.
unfoldable pub at_execution : ℕ → (Execution → Execution) → Registry → Registry
at_execution h f r = elim (get_elem? r.heap h) [
  | none ↦ r
  | some e ↦ record r { heap = set r.heap h (f e) }
]

abbrev pub emit : Payload → Execution → Execution
emit payload e = record e { log = append_event payload e.log }

-- What one Read of captureOutput gives: bytes, the end of the stream, a passed deadline, or another
-- error with its text. A Read that gives bytes and an error is two of these.
pub data ReadResult : Type 0 where
  bytes : List ℕ → ReadResult
  end_of_file deadline : ReadResult
  broken : List ℕ → ReadResult

abbrev pub is_open : Stream → Execution → Bool
is_open stdout e = e.stdout_open
is_open _ e = e.stderr_open

-- `readers.Done()`
abbrev pub close_reader : Stream → Execution → Execution
close_reader stdout e = record e { stdout_open = false }
close_reader _ e = record e { stderr_open = false }

-- One round of captureOutput, while its goroutine runs.
unfoldable pub capture : Stream → ReadResult → Execution → Execution
capture stream (bytes data_read) e =
    if is_open stream e
    then if length data_read == 0 then e else emit (log_chunk stream data_read) e
    else e
capture stream end_of_file e = if is_open stream e then close_reader stream e else e
capture stream deadline e = if is_open stream e then close_reader stream e else e
capture stream (broken text) e =
    if is_open stream e then close_reader stream (emit (log_chunk stderr text) e) else e

unfoldable pub append_heartbeat : ℕ → Execution → Execution
append_heartbeat now e = if e.running then emit (heartbeat now) e else e

-- ReportExit for the execution that owns the pid. The once and the channel's buffer of one let one
-- report through.
unfoldable pub report_to : ExitReport → Execution → Execution
report_to report e =
    if e.exit_reported || not e.running || e.reap_once
    then e
    else record e { reap_once = true; exit_report = some report }

abbrev pub is_live : Execution → Bool
is_live e = e.running && not e.reaped

-- executionByPIDLocked: the place of a live execution with the pid, and else of the first other one.
-- Go visits a map in any order; here it is the map's own.
unfoldable pub place_by_pid : ℕ → List Execution → List (String × ℕ) → Option ℕ → Option ℕ
place_by_pid pid heap [] fallback = fallback
place_by_pid pid heap ((id, h) ∷ rest) fallback =
    let first = place_by_pid pid heap rest (if is_some fallback then fallback else some h) in
    let skipped = place_by_pid pid heap rest fallback in
    elim (get_elem? heap h) [
      | none ↦ skipped
      | some e ↦ if not (e.process_id == pid) then skipped else if is_live e then some h else first
    ]

unfoldable pub report_exit : ℕ → ℤ → String → Registry → Registry
unfolding place_by_pid report_to at_execution
report_exit pid code message r = elim (place_by_pid pid r.heap r.executions none) [
  | none ↦ r
  | some h ↦
      at_execution h (report_to (record { pid = pid; exit_code = code; message = message })) r
]

-- An int32: a code outside [0, 2^31 - 1] becomes -1.
unfoldable pub clamp_exit_code : ℤ → ℤ
clamp_exit_code (pos n) = if ltb 2147483647 n then negsuc 0 else pos n
clamp_exit_code (negsuc n) = negsuc 0

abbrev pub complete_events : Execution → Log
complete_events e =
    append_event
      (terminal_result (clamp_exit_code e.exit_code)
        (if e.cancelled then "execution cancelled" else e.exit_msg))
      (append_event (phase_change "completed") e.log)

unfoldable pub completed : ℕ → Execution → Execution
unfolding clamp_exit_code
completed now e = record e {
  phase = "completed";
  running = false;
  completed_at = now;
  log = complete_events e;
  supervisor = settled;
  timer_armed = true;
}

-- completeExecution at the end of reapAndComplete, with the start of the retention timer.
unfoldable pub complete_execution : ℕ → ℕ → Execution → Registry → Registry
unfolding completed close_drained remove
complete_execution now h e r =
    let c = record r {
      heap = set r.heap h (completed now e);
      slots = remove e.slot r.slots;
      active_count = u32 (r.active_count + 4294967295);
    } in
    if c.draining && c.active_count == 0 then close_drained c else c

abbrev pub take_report : ExitReport → Execution → Execution
take_report report e = record e {
  reaped = true;
  exit_reported = true;
  exit_code = report.exit_code;
  exit_msg = report.message;
  exit_report = none;
  supervisor = waiting_readers;
}

-- A step of superviseExecution and reapAndComplete: receive the report, or, once both readers are
-- done, complete. Otherwise the goroutine is blocked or has returned.
unfoldable pub supervise : ℕ → ℕ → Registry → Registry
unfolding complete_execution
supervise now h r = elim (get_elem? r.heap h) [
  | none ↦ r
  | some e ↦ elim e.supervisor [
    | awaiting ↦ elim e.exit_report [
      | none ↦ r
      | some report ↦ record r { heap = set r.heap h (take_report report e) }
    ]
    | waiting_readers ↦ if e.stdout_open || e.stderr_open then r else complete_execution now h e r
    | settled ↦ r
  ]
]

-- The retention timer fires, which it does only if it was armed.
unfoldable pub expire : ℕ → Registry → Registry
unfolding lookup remove
expire h r = elim (get_elem? r.heap h) [
  | none ↦ r
  | some e ↦ if not e.timer_armed then r else elim (lookup e.id r.executions) [
    | none ↦ r
    | some current ↦ if current == h then record r { executions = remove e.id r.executions } else r
  ]
]

pub data CancelResult : Type 0 where
  not_found kill_failed cancel_ok : CancelResult

-- Cancel; `kill` says of a process group whether killProcessGroup succeeds.
unfoldable pub cancel : (ℕ → Bool) → String → Registry → Registry × CancelResult
unfolding lookup
cancel kill id r = elim (lookup id r.executions) [
  | none ↦ (r, not_found)
  | some h ↦ elim (get_elem? r.heap h) [
    | none ↦ (r, not_found)
    | some e ↦
        if not e.running || e.reaped || e.cancelled
        then (r, cancel_ok)
        else if kill e.pgid
        then (record r { heap = set r.heap h (record e { cancelled = true }) }, cancel_ok)
        else (r, kill_failed)
  ]
]
