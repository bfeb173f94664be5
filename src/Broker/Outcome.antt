-- ===== src/Broker/Outcome.antt =====
-- What a drain of internal/broker/bind.go reports, against the guest's execution and for the pool.
use mathlib.Core.Bool.{true≢false}
use gha_mac_broker.Prelude.{
  Bool-cases, inl, inr, ℕ, zero, suc, String, ◌+◌, ◌<◌, ◌≡◌, ◌⊎◌, refl, sym, ap, ◌∙◌, false, List,
  [], ◌∷◌, ◌++◌, some, ℤ, get_elem?, get_elem?-append_old, All-get_elem?, arith,
}
use gha_mac_broker.GuestExec.Types.{
  Payload, phase_change, log_chunk, heartbeat, terminal_result, Event, Execution,
}
use gha_mac_broker.GuestExec.Registry.Executions.Life.{ExecutionIsValid}
use gha_mac_broker.GuestExec.Registry.Executions.Terminal.{is_final, IsOpen}
use gha_mac_broker.GuestExec.Registry.Streaming.{subscribe}
use gha_mac_broker.GuestExec.Registry.Replay.{subscribe-suffix}
use gha_mac_broker.GuestAgent.Wire.{WireEvent, wire_result}
use gha_mac_broker.GuestAgent.Convert.{event_to_proto, payload_to_proto}
use gha_mac_broker.GuestAgent.Stream.{job_status}
use gha_mac_broker.Broker.Drain.{Mirror, receive, drain_stream}

result_or_later :
    (m : WireEvent) (ms : List WireEvent) (s : Mirror) (code : ℤ) (message : String)
    → (drain_stream (m ∷ ms) s).1 ≡ some (code, message)
    → (m.event ≡ wire_result code message)
      ⊎ ((drain_stream ms (receive m s)).1 ≡ some (code, message))
unfolding drain_stream
result_or_later m ms s code message h = ground (arith, h)

-- The result that a drain of a stream reports is one of its messages.
drain_stream-result :
    (ms : List WireEvent) (s : Mirror) (code : ℤ) (message : String)
    → (drain_stream ms s).1 ≡ some (code, message)
    → (i : ℕ) × (m : WireEvent) × (get_elem? ms i ≡ some m) × (m.event ≡ wire_result code message)
unfolding drain_stream
drain_stream-result [] s code message h = cc
drain_stream-result (m ∷ ms) s code message h = elim (result_or_later m ms s code message h) [
  | inl e ↦ (0, m, refl, e)
  | inr later ↦
      let (i, x, at, is) = drain_stream-result ms (receive m s) code message later in
      (suc i, x, at, is)
]

-- A message of JobStatus is an event of the subscription.
job_status-event :
    (es : List Event) (i : ℕ) (m : WireEvent)
    → get_elem? (job_status es) i ≡ some m
    → (x : Event) × (get_elem? es i ≡ some x) × ((event_to_proto x).0 ≡ m)
unfolding job_status
job_status-event [] i m h = cc
job_status-event (e ∷ es) zero m h = (e, refl, ground (arith, h))
job_status-event (e ∷ es) (suc i) m h = elim (Bool-cases (event_to_proto e).1) [
  | inl b ↦ let q : job_status (e ∷ es) ≡ (event_to_proto e).0 ∷ [] = rw b refl in cc (q, h)
  | inr b ↦
      let q : job_status (e ∷ es) ≡ (event_to_proto e).0 ∷ job_status es = rw b refl in
      job_status-event es i m (ap (λ l. get_elem? l (suc i)) (sym q) ∙ h)
]

payload-result :
    (p : Payload) (code : ℤ) (message : String)
    → payload_to_proto p ≡ wire_result code message
    → p ≡ terminal_result code message
payload-result (phase_change p) code message h = cc
payload-result (log_chunk s bytes) code message h = cc
payload-result (heartbeat n) code message h = cc
payload-result (terminal_result c m) code message h = cc

-- If a stream begins with what the guest sends for a well-formed execution, and the drain takes a
-- result from it, then the execution is completed and its log holds a terminal result with exactly
-- this exit code and message.
pub drain_stream-completed :
    (cursor : ℕ) (e : Execution) (ms rest : List WireEvent) (s : Mirror) (code : ℤ)
    (message : String)
    → ExecutionIsValid e
    → cursor < 18446744073709551615
    → job_status (subscribe cursor e) ≡ ms ++ rest
    → (drain_stream ms s).1 ≡ some (code, message)
    → (e.running ≡ false)
      × ((i : ℕ) × (x : Event) × (get_elem? e.log.events i ≡ some x)
          × (x.payload ≡ terminal_result code message))
drain_stream-completed cursor e ms rest s code message v small split h =
    let (i, m, at, is) = drain_stream-result ms s code message h in
    let sent : get_elem? (job_status (subscribe cursor e)) i ≡ some m =
      ap (λ l. get_elem? l i) split ∙ get_elem?-append_old ms rest i at in
    let (x, here, message_of) = job_status-event (subscribe cursor e) i m sent in
    let place : get_elem? e.log.events (cursor + i) ≡ some x =
      sym (subscribe-suffix cursor i e small) ∙ here in
    let final : x.payload ≡ terminal_result code message =
      payload-result x.payload code message (ap (λ y. y.event) message_of ∙ is) in
    (
      elim (Bool-cases e.running) [
        | inr off ↦ off
        | inl on ↦ absurd (
            true≢false (
              sym (ap is_final final)
              ∙ All-get_elem? IsOpen (cursor + i) e.log.events (v.unfinished on) place))
      ],
      (cursor + i, x, place, final),
    )
