-- ===== src/Broker/Finish.antt =====
-- A drain of internal/broker/bind.go comes to the result of a completed execution.
use gha_mac_broker.Prelude.{
  ℕ, zero, suc, String, ◌+◌, ◌-◌, ◌<◌, ◌≡◌, ◌≢◌, refl, sym, ap, ◌∙◌, Bool, false, List, [], ◌∷◌,
  ◌++◌, Option, none, some, ℤ, pos, eqb_ℤ, if◌then◌else◌, length, length-append, get_elem?,
  All-get_elem?, arith, Option-cases, inl, inr, get_elem?-append_cases,
}
use mathlib.Core.Option.{some-injective}
use gha_mac_broker.GuestExec.Types.{
  Payload, phase_change, log_chunk, heartbeat, terminal_result, Event, Execution,
}
use gha_mac_broker.GuestExec.Registry.Executions.Life.{ExecutionIsValid}
use gha_mac_broker.GuestExec.Registry.Executions.Terminal.{is_final, IsOpen, Unfinished}
use gha_mac_broker.GuestExec.Registry.Streaming.{subscribe}
use gha_mac_broker.GuestExec.Registry.Replay.{subscribe-suffix}
use gha_mac_broker.GuestAgent.Convert.{event_to_proto}
use gha_mac_broker.GuestAgent.Stream.{job_status}
use gha_mac_broker.Broker.Drain.{
  Mirror, receive, drain_stream, Attempt, stopped, missing, unreachable, streamed, StreamEnd,
  exited, Drained, outcome, running_on, drain_round, drain_to_terminal, terminal_to_error,
}

open_head :
    (x : Event) (es : List Event) (s : Mirror)
    → IsOpen x
    → (drain_stream (job_status (x ∷ es)) s).1
      ≡ (drain_stream (job_status es) (receive (event_to_proto x).0 s)).1
unfolding drain_stream job_status
open_head x es s free = by_payload x.payload free
  where
    with_payload : Payload → Event
    with_payload p = record x { payload = p }

    by_payload :
        (p : Payload)
        → is_final p ≡ false
        → (drain_stream (job_status (with_payload p ∷ es)) s).1
          ≡ (drain_stream (job_status es) (receive (event_to_proto (with_payload p)).0 s)).1
    by_payload (phase_change q) free_p = refl
    by_payload (log_chunk o bytes) free_p = refl
    by_payload (heartbeat n) free_p = refl
    by_payload (terminal_result c m) free_p = cc

-- A stream that comes to a terminal result behind events of other kinds gives it.
stream-result :
    (i : ℕ) (es : List Event) (s : Mirror) (x : Event) (code : ℤ) (message : String)
    → get_elem? es i ≡ some x
    → x.payload ≡ terminal_result code message
    → ((j : ℕ) (y : Event) → j < i → get_elem? es j ≡ some y → IsOpen y)
    → (drain_stream (job_status es) s).1 ≡ some (code, message)
stream-result i [] s x code message at is before = cc
stream-result zero (y ∷ es) s x code message at is before =
    let same : y ≡ x = some-injective _ _ at in
    let mine = ap (λ z. z.payload) same ∙ is in with_result y.payload mine
  where
    with_result :
        (p : Payload)
        → p ≡ terminal_result code message
        → (drain_stream (job_status (record y { payload = p } ∷ es)) s).1 ≡ some (code, message)
    with_result p same = unfold drain_stream in unfold job_status in rw same refl
stream-result (suc i) (y ∷ es) s x code message at is before =
    open_head y es s (before 0 y (omega arith) refl)
    ∙ stream-result i es (receive (event_to_proto y).0 s) x code message at is
        (λ j z h. before (suc j) z (omega arith))

drain_round-decided : (a : Attempt) (s : Mirror) → (drain_round a s).1 ≢ some running_on
unfolding drain_round
drain_round-decided stopped s = λ q. cc
drain_round-decided missing s = λ q. cc
drain_round-decided unreachable s = λ q. cc
drain_round-decided (streamed ms end done) s = ground arith

drain_to_terminal-append :
    (before rest : List (ℕ → Attempt)) (s : Mirror)
    → (drain_to_terminal before s).1 ≡ running_on
    → drain_to_terminal (before ++ rest) s ≡ drain_to_terminal rest (drain_to_terminal before s).0
unfolding drain_to_terminal
drain_to_terminal-append [] rest s h = refl
drain_to_terminal-append (round ∷ before) rest s h = elim (Option-cases t.1) [
  | inl on ↦
      let later = drain_to_terminal-append before rest t.0 (ground (arith, on, h)) in
      ground (arith, on, later)
  | inr (d, off) ↦
      absurd (drain_round-decided (round s.cursor) s (off ∙ ap some (ground (arith, off, h))))
]
  where
    t : Mirror × Option Drained
    t = drain_round (round s.cursor) s

last-cases :
    (first : List Event) (x : Event) (j : ℕ) (y : Event)
    → Unfinished first
    → j < length first
    → get_elem? (first ++ x ∷ []) j ≡ some y
    → IsOpen y
last-cases first x j y free small at = elim (get_elem?-append_cases first j x at) [
  | inl (q, _) ↦ absurd (omega (arith, q, small))
  | inr old ↦ All-get_elem? IsOpen j first free old
]

-- A subscription to a completed execution, from a cursor before the end of its log, gives its result.
completed-result :
    (cursor place : ℕ) (e : Execution) (s : Mirror) (x : Event) (code : ℤ) (message : String)
    → ExecutionIsValid e
    → e.running ≡ false
    → cursor < length e.log.events
    → length e.log.events < 18446744073709551615
    → get_elem? e.log.events place ≡ some x
    → x.payload ≡ terminal_result code message
    → (drain_stream (job_status (subscribe cursor e)) s).1 ≡ some (code, message)
completed-result cursor place e s x code message v over small few at is =
    let (first, y, split, free, final) = v.finished over in
    let size : length e.log.events ≡ length first + 1 =
      ap length split ∙ length-append first (y ∷ []) in
    let last : place ≡ length first =
      elim (get_elem?-append_cases first place y (ap (λ es. get_elem? es place) (sym split) ∙ at)) [
        | inl (q, _) ↦ q
        | inr old ↦
            let free_x = All-get_elem? IsOpen place first free old in
            absurd (ground (arith, free_x, is))
      ] in
    let here : cursor + (place - cursor) ≡ place = omega (arith, last, size, small) in
    stream-result (place - cursor) (subscribe cursor e) s x code message
      (subscribe-suffix cursor (place - cursor) e (omega (arith, small, few))
        ∙ ap (λ n. get_elem? e.log.events n) here
        ∙ at)
      is
      λ j z less there. last-cases first y (cursor + j) z free (omega (arith, less, last, here)) (
        ap (λ es. get_elem? es (cursor + j)) (sym split)
        ∙ sym (subscribe-suffix cursor j e (omega (arith, small, few)))
        ∙ there)

-- A drain that still goes on, when the guest serves it all that there is of a completed execution,
-- which is well formed and has fewer than 2^64 - 1 events, returns the result of the job: success if
-- its exit code is 0, and else its exit code and message. That holds after any rounds before that have
-- not brought the cursor to the end of the log, and however the stream ends behind the result.
pub drain_to_terminal-finishes :
    (before after : List (ℕ → Attempt)) (end : StreamEnd) (done : Bool) (s : Mirror) (e : Execution)
    (place : ℕ) (x : Event) (code : ℤ) (message : String)
    → ExecutionIsValid e
    → e.running ≡ false
    → length e.log.events < 18446744073709551615
    → get_elem? e.log.events place ≡ some x
    → x.payload ≡ terminal_result code message
    → (drain_to_terminal before s).1 ≡ running_on
    → (drain_to_terminal before s).0.cursor < length e.log.events
    → (drain_to_terminal
        (before ++ (λ cursor. streamed (job_status (subscribe cursor e)) end done) ∷ after)
        s).1
      ≡ outcome (if eqb_ℤ code (pos 0) then none else some (exited code message))
unfolding drain_to_terminal drain_round terminal_to_error
drain_to_terminal-finishes before after end done s e place x code message v over few m is on small =
    let t = (drain_to_terminal before s).0 in
    let result = completed-result t.cursor place e t x code message v over small few m is in
    ap (λ r. r.1)
      (drain_to_terminal-append before
        ((λ cursor. streamed (job_status (subscribe cursor e)) end done) ∷ after) s on)
    ∙ ground (arith, result)
