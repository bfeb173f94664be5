-- ===== src/GuestAgent/Wire.antt =====
-- The messages of api/guest/v1/guest.proto that the broker and the guest agent exchange.
use gha_mac_broker.Prelude.{ℕ, String, Bool, List, ℤ}
use gha_mac_broker.GuestExec.Types.{JobMeta}

pub data RunOutcome : Type 0 where
  run_unspecified run_accepted run_already_running run_already_completed run_conflict : RunOutcome

pub data WireStream : Type 0 where
  wire_unspecified wire_stdout wire_stderr : WireStream

pub data WirePayload : Type 0 where
  wire_phase : String → WirePayload
  wire_log : WireStream → List ℕ → WirePayload
  wire_heartbeat : ℕ → WirePayload
  wire_result : ℤ → String → WirePayload

-- JobStatusEvent.
pub record WireEvent : Type 0 where
  pub sequence : ℕ
  pub event : WirePayload

-- ExecutionState, in the answer to Reattach.
pub record WireState : Type 0 where
  pub execution_id : String
  pub slot : ℕ
  pub meta : JobMeta
  pub phase : String
  pub running : Bool
  pub last_sequence : ℕ

-- The codes of connect errors that the guest agent and the broker tell apart.
pub data RpcCode : Type 0 where
  not_found_code unavailable canceled_code deadline_code internal : RpcCode
