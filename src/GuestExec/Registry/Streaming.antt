-- ===== src/GuestExec/Registry/Streaming.antt =====
-- stream of internal/guestexec/registry.go: replay from a cursor, then the live events.
use gha_mac_broker.Prelude.{
  ℕ, zero, suc, ◌%◌, List, [], ◌∷◌, none, some, length, get_elem?, if◌then◌else◌,
}
use gha_mac_broker.GuestExec.Types.{Event, Execution}

-- What one look under the lock decides: send an event, return, or wait for a notification.
pub data Turn : Type 0 where
  deliver : Event → Turn
  finish wait : Turn

-- `next` is nextSequence; a uint64 of 0 comes from a cursor of 2^64 - 1.
unfoldable pub turn : ℕ → Execution → Turn
turn zero e = if e.running then wait else finish
turn (suc n) e = elim (get_elem? e.log.events n) [
  | some event ↦ deliver event
  | none ↦ if e.running then wait else finish
]

-- The events that the loop sends without waiting, from `next` on, in so many rounds.
unfoldable pub replay : ℕ → ℕ → Execution → List Event
unfolding turn
replay zero next e = []
replay (suc rounds) next e =
    let rest = replay rounds (suc next) e in
    elim (turn next e) [ deliver event ↦ event ∷ rest | finish ↦ [] | wait ↦ [] ]

-- A subscription from a cursor of the client.
unfoldable pub subscribe : ℕ → Execution → List Event
unfolding replay
subscribe from_sequence e =
    replay (suc (length e.log.events)) (suc from_sequence % 18446744073709551616) e
