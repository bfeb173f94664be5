-- ===== src/Broker/Drain.antt =====
-- drainStream, drainToTerminal, classifyCancel, drainJob and RunJob of internal/broker/bind.go.
use gha_mac_broker.Prelude.{
  ℕ, String, Bool, true, false, List, [], ◌∷◌, ◌++◌, Option, none, some, ℤ, pos, eqb_ℤ,
  if◌then◌else◌,
}
use gha_mac_broker.RunnerPool.Types.{Error}
use gha_mac_broker.GuestAgent.Wire.{
  RunOutcome, run_unspecified, run_accepted, run_already_running, run_already_completed,
  run_conflict, wire_phase, wire_log, wire_heartbeat, wire_result, WireEvent,
}

-- The cursor, and the bytes of the run log, if one could be opened.
pub record Mirror : Type 0 where
  pub cursor : ℕ
  pub run_log : Option (List ℕ)

abbrev pub chunk_of : WireEvent → List ℕ
chunk_of m = elim m.event [ wire_log s bytes ↦ bytes | _ ↦ [] ]

-- One event: the cursor moves and the chunk's data is written.
unfoldable pub receive : WireEvent → Mirror → Mirror
receive m s = record {
  cursor = m.sequence;
  run_log = elim s.run_log [ none ↦ none | some written ↦ some (written ++ chunk_of m) ];
}

-- drainStream over the events that one stream gives. The result of the job ends it.
unfoldable pub drain_stream : List WireEvent → Mirror → Mirror × Option (ℤ × String)
unfolding receive
drain_stream [] s = (s, none)
drain_stream (m ∷ ms) s =
    let rest = drain_stream ms (receive m s) in
    elim m.event [
      | wire_phase p ↦ rest
      | wire_log o bytes ↦ rest
      | wire_heartbeat n ↦ rest
      | wire_result code message ↦ (receive m s, some (code, message))
    ]

-- How a stream without a result ends: by EOF, by the idle watchdog, by NotFound, or by another error.
pub data StreamEnd : Type 0 where
  end_of_stream went_idle expired_midway broken_stream : StreamEnd

-- What one round of drainToTerminal meets: a context that is done, NotFound or another error at the
-- opening of the stream, or a stream, with whether the context is done behind it.
pub data Attempt : Type 0 where
  stopped missing unreachable : Attempt
  streamed : List WireEvent → StreamEnd → Bool → Attempt

pub data DrainError : Type 0 where
  exited : ℤ → String → DrainError
  stalled : DrainError

-- Cancelled, an outcome, or no answer yet: the loop goes on.
pub data Drained : Type 0 where
  cancelled : Drained
  outcome : Option DrainError → Drained
  running_on : Drained

unfoldable pub terminal_to_error : ℤ → String → Option DrainError
terminal_to_error code message = if eqb_ℤ code (pos 0) then none else some (exited code message)

-- One turn of the loop of drainToTerminal: how it returns, or none if the loop goes on.
unfoldable pub drain_round : Attempt → Mirror → Mirror × Option Drained
unfolding drain_stream terminal_to_error
drain_round stopped s = (s, some cancelled)
drain_round missing s = (s, some (outcome none))
drain_round unreachable s = (s, none)
drain_round (streamed ms end done) s =
    let t = drain_stream ms s in
    elim t.1 [
      | some (code, message) ↦ (t.0, some (outcome (terminal_to_error code message)))
      | none ↦ elim end [
        | went_idle ↦ (t.0, some (outcome (some stalled)))
        | expired_midway ↦ (t.0, some (outcome none))
        | end_of_stream ↦ if done then (t.0, some cancelled) else (t.0, none)
        | broken_stream ↦ if done then (t.0, some cancelled) else (t.0, none)
      ]
    ]

-- drainToTerminal. What a round meets depends on the cursor with which it opens the stream.
unfoldable pub drain_to_terminal : List (ℕ → Attempt) → Mirror → Mirror × Drained
unfolding drain_round
drain_to_terminal [] s = (s, running_on)
drain_to_terminal (round ∷ rounds) s =
    let t = drain_round (round s.cursor) s in
    let rest = drain_to_terminal rounds t.0 in elim t.1 [ none ↦ rest | some d ↦ (t.0, d) ]

-- The cause of a context: none while it is not done.
pub data ContextCause : Type 0 where
  not_done plain_cancel deadline custom : ContextCause

pub data CancelAction : Type 0 where
  cancel_none cancel_detach cancel_teardown : CancelAction

abbrev pub classify_cancel : ContextCause → CancelAction
classify_cancel not_done = cancel_none
classify_cancel plain_cancel = cancel_detach
classify_cancel deadline = cancel_detach
classify_cancel custom = cancel_teardown

-- What drainJob returns. `job_terminal` is joined with ErrJobTerminal.
pub data JobError : Type 0 where
  job_terminal : ℤ → String → JobError
  drain_stalled detached teardown_timed_out : JobError
  torn_down : DrainError → JobError

pub data JobEnd : Type 0 where
  not_yet : JobEnd
  ended : Option JobError → JobEnd

abbrev pub undisturbed : Option DrainError → Option JobError
undisturbed none = none
undisturbed (some stalled) = some drain_stalled
undisturbed (some (exited code message)) = some (job_terminal code message)

abbrev pub after_teardown : Drained → JobEnd
after_teardown cancelled = ended (some teardown_timed_out)
after_teardown (outcome none) = ended none
after_teardown (outcome (some e)) = ended (some (torn_down e))
after_teardown running_on = not_yet

-- drainJob. `second` is what the drain meets after CancelJob, on the bounded context. The last part
-- says whether CancelJob is called.
unfoldable pub drain_job :
    List (ℕ → Attempt) → ContextCause → List (ℕ → Attempt) → Mirror → Mirror × JobEnd × Bool
unfolding drain_to_terminal
drain_job first cause second s =
    let t = drain_to_terminal first s in
    let u = drain_to_terminal second t.0 in
    elim t.1 [
      | running_on ↦ (t.0, not_yet, false)
      | outcome e ↦ (t.0, ended (undisturbed e), false)
      | cancelled ↦ elim (classify_cancel cause) [
        | cancel_detach ↦ (t.0, ended (some detached), false)
        | cancel_none ↦ (u.0, after_teardown u.1, true)
        | cancel_teardown ↦ (u.0, after_teardown u.1, true)
      ]
    ]

-- Whether RunJob goes on to drain after the guest's answer.
abbrev pub dispatched : RunOutcome → Bool
dispatched run_accepted = true
dispatched run_already_running = true
dispatched run_already_completed = true
dispatched run_conflict = false
dispatched run_unspecified = false

-- What errors.Is says of drainJob's errors to the pool; the text names the VM and the execution.
abbrev pub pool_error : String → JobError → Error
pool_error text e = record {
  text = text;
  is_job_terminal = elim e [ job_terminal code message ↦ true | _ ↦ false ];
  is_canceled = elim e [ detached ↦ true | _ ↦ false ];
  is_drain_stalled = elim e [ drain_stalled ↦ true | torn_down stalled ↦ true | _ ↦ false ];
}
