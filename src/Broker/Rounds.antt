-- ===== src/Broker/Rounds.antt =====
-- What a drain of internal/broker/bind.go takes over its rounds, and what a guest serves in them.
use gha_mac_broker.Prelude.{ℕ, ◌<◌, ◌≡◌, refl, List, [], ◌∷◌, ◌++◌, none, some, arith}
use gha_mac_broker.GuestExec.Types.{Execution}
use gha_mac_broker.GuestExec.Log.{max_retained_log_bytes}
use gha_mac_broker.GuestExec.Log.Invariant.{LogIsValid}
use gha_mac_broker.GuestExec.Registry.Streaming.{subscribe}
use gha_mac_broker.GuestAgent.Wire.{WireEvent, wire_phase, wire_log, wire_heartbeat, wire_result}
use gha_mac_broker.GuestAgent.Stream.{job_status}
use gha_mac_broker.Broker.Drain.{
  Mirror, receive, drain_stream, Attempt, stopped, missing, unreachable, streamed, drain_round,
}

-- The messages that drainStream takes from a stream: all up to the result.
abbrev pub consumed : List WireEvent → List WireEvent
consumed [] = []
consumed (m ∷ ms) = elim m.event [
  | wire_phase p ↦ m ∷ consumed ms
  | wire_log o bytes ↦ m ∷ consumed ms
  | wire_heartbeat n ↦ m ∷ consumed ms
  | wire_result code message ↦ m ∷ []
]

abbrev pub mirrored : List WireEvent → Mirror → Mirror
mirrored [] s = s
mirrored (m ∷ ms) s = mirrored ms (receive m s)

-- The data of the log chunks, in order.
abbrev pub bytes_of : List WireEvent → List ℕ
bytes_of [] = []
bytes_of (m ∷ ms) = elim m.event [
  | wire_phase p ↦ bytes_of ms
  | wire_log o bytes ↦ bytes ++ bytes_of ms
  | wire_heartbeat n ↦ bytes_of ms
  | wire_result code message ↦ bytes_of ms
]

-- The messages that a round takes.
abbrev pub taken : Attempt → List WireEvent
taken stopped = []
taken missing = []
taken unreachable = []
taken (streamed ms end done) = consumed ms

-- What the rounds meet, each at the cursor that the drain has then, up to the one that ends it.
unfoldable pub met : List (ℕ → Attempt) → Mirror → List Attempt
unfolding drain_round
met [] s = []
met (round ∷ rounds) s =
    let t = drain_round (round s.cursor) s in
    let rest = met rounds t.0 in round s.cursor ∷ (elim t.1 [ none ↦ rest | some d ↦ [] ])

abbrev pub all_taken : List Attempt → List WireEvent
all_taken [] = []
all_taken (a ∷ as_) = taken a ++ all_taken as_

-- The messages that a drain takes over all its rounds.
abbrev pub received : List (ℕ → Attempt) → Mirror → List WireEvent
received rounds s = all_taken (met rounds s)

pub drain_stream-mirrored :
    (ms : List WireEvent) (s : Mirror) → (drain_stream ms s).0 ≡ mirrored (consumed ms) s
unfolding drain_stream
drain_stream-mirrored [] s = refl
drain_stream-mirrored (m ∷ ms) s = ground (arith, drain_stream-mirrored ms (receive m s))

-- The numbers that a guest's stream takes up from a cursor are below this.
abbrev pub max_sequence : ℕ
max_sequence = 18446744073709551615

-- An answer of the guest to JobStatus from a cursor: the first messages that it sends for an execution
-- with a well-formed log, or no stream.
abbrev pub IsServed : ℕ → Attempt → Type 0
IsServed cursor stopped = Unit
IsServed cursor missing = Unit
IsServed cursor unreachable = Unit
IsServed cursor (streamed ms end done) =
    (e : Execution) × (rest : List WireEvent) × LogIsValid max_retained_log_bytes e.log
    × (job_status (subscribe cursor e) ≡ ms ++ rest)

-- Every round has an answer of the guest to whatever cursor below the largest it asks for. Between the
-- rounds the guest's log may grow and drop data.
abbrev pub Serves : List (ℕ → Attempt) → Type 0
Serves [] = Unit
Serves (round ∷ rounds) =
    ((cursor : ℕ) → cursor < max_sequence → IsServed cursor (round cursor)) × Serves rounds
