-- ===== src/GuestExec/Types.antt =====
-- The data of internal/guestexec/types.go and registry.go. Bytes are numbers, a slot is a uint32.
use gha_mac_broker.Prelude.{ℕ, String, Bool, List, Option, ℤ}

pub data Outcome : Type 0 where
  unspecified accepted already_running already_completed conflict : Outcome

pub data Stream : Type 0 where
  stream_unspecified stdout stderr : Stream

pub record JobMeta : Type 0 where
  pub repo : String
  pub job_id : ℤ
  pub run_id : ℤ
  pub runner_name : String

-- What registration reads of an ExecSpec.
pub record ExecSpec : Type 0 where
  pub execution_id : String
  pub slot : ℕ
  pub meta : JobMeta
  pub command : String

pub data Payload : Type 0 where
  phase_change : String → Payload
  log_chunk : Stream → List ℕ → Payload
  heartbeat : ℕ → Payload
  terminal_result : ℤ → String → Payload

pub record Event : Type 0 where
  pub sequence : ℕ
  pub payload : Payload

-- The event log of an execution: its events, `retainedLogBytes` and `logCapCursor`.
pub record Log : Type 0 where
  pub events : List Event
  pub bytes : ℕ
  pub cursor : ℕ

pub record ExitReport : Type 0 where
  pub pid : ℕ
  pub exit_code : ℤ
  pub message : String

-- Where the supervisor goroutine of an execution stands: before the exit report, at the wait for the
-- readers, or returned.
pub data Supervisor : Type 0 where
  awaiting waiting_readers settled : Supervisor

-- An execution. `stdout_open` and `stderr_open` say which capture goroutines still count in the wait
-- group, `exit_report` is the buffered channel, and `timer_armed` that the retention timer runs.
pub record Execution : Type 0 where
  pub id : String
  pub slot : ℕ
  pub meta : JobMeta
  pub process_id : ℕ
  pub pgid : ℕ
  pub phase : String
  pub running : Bool
  pub reaped : Bool
  pub cancelled : Bool
  pub log : Log
  pub completed_at : ℕ
  pub exit_reported : Bool
  pub exit_code : ℤ
  pub exit_msg : String
  pub exit_report : Option ExitReport
  pub reap_once : Bool
  pub stdout_open : Bool
  pub stderr_open : Bool
  pub supervisor : Supervisor
  pub timer_armed : Bool

-- Executions are shared by pointer, so the maps lead to places of a heap.
pub record Registry : Type 0 where
  pub heap : List Execution
  pub executions : List (String × ℕ)
  pub slots : List (ℕ × String)
  pub draining : Bool
  pub active_count : ℕ
  pub drained_closed : Bool
