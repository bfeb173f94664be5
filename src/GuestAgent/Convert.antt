-- ===== src/GuestAgent/Convert.antt =====
-- internal/guestagent/convert.go: from the registry's values to messages.
use gha_mac_broker.Prelude.{Bool, true, false, List, [], ◌∷◌}
use gha_mac_broker.GuestExec.Registry.Listing.{ExecutionState}
use gha_mac_broker.GuestExec.Types.{
  Outcome, unspecified, accepted, already_running, already_completed, conflict, Stream,
  stream_unspecified, stdout, stderr, Payload, phase_change, log_chunk, heartbeat, terminal_result,
  Event,
}
use gha_mac_broker.GuestAgent.Wire.{
  RunOutcome, run_unspecified, run_accepted, run_already_running, run_already_completed,
  run_conflict, WireStream, wire_unspecified, wire_stdout, wire_stderr, WirePayload, wire_phase,
  wire_log, wire_heartbeat, wire_result, WireEvent, WireState, RpcCode, not_found_code, unavailable,
  canceled_code, deadline_code, internal,
}

abbrev pub outcome_to_proto : Outcome → RunOutcome
outcome_to_proto accepted = run_accepted
outcome_to_proto already_running = run_already_running
outcome_to_proto already_completed = run_already_completed
outcome_to_proto conflict = run_conflict
outcome_to_proto unspecified = run_unspecified

abbrev pub stream_to_proto : Stream → WireStream
stream_to_proto stdout = wire_stdout
stream_to_proto stderr = wire_stderr
stream_to_proto stream_unspecified = wire_unspecified

abbrev pub payload_to_proto : Payload → WirePayload
payload_to_proto (phase_change p) = wire_phase p
payload_to_proto (log_chunk s bytes) = wire_log (stream_to_proto s) bytes
payload_to_proto (heartbeat n) = wire_heartbeat n
payload_to_proto (terminal_result c m) = wire_result c m

abbrev pub is_result : WirePayload → Bool
is_result (wire_phase p) = false
is_result (wire_log s bytes) = false
is_result (wire_heartbeat n) = false
is_result (wire_result c m) = true

-- eventToProto, and whether the event is terminal.
abbrev pub event_to_proto : Event → WireEvent × Bool
event_to_proto e =
    let event = payload_to_proto e.payload in
    (record { sequence = e.sequence; event = event }, is_result event)

-- The errors of the registry that mapRegistryError tells apart.
pub data RegistryError : Type 0 where
  execution_not_found is_draining context_canceled context_deadline other_error : RegistryError

abbrev pub map_registry_error : RegistryError → RpcCode
map_registry_error execution_not_found = not_found_code
map_registry_error is_draining = unavailable
map_registry_error context_canceled = canceled_code
map_registry_error context_deadline = deadline_code
map_registry_error other_error = internal

-- executionStateToProto
abbrev pub execution_state_to_proto : ExecutionState → WireState
execution_state_to_proto s = record {
  execution_id = s.execution_id;
  slot = s.slot;
  meta = s.meta;
  phase = s.phase;
  running = s.running;
  last_sequence = s.last_sequence;
}

-- The answer to Reattach.
abbrev pub reattach : List ExecutionState → List WireState
reattach [] = []
reattach (s ∷ ss) = execution_state_to_proto s ∷ reattach ss
