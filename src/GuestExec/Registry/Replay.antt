-- ===== src/GuestExec/Registry/Replay.antt =====
-- What a subscriber of internal/guestexec/registry.go is sent before it waits.
use gha_mac_broker.Prelude.{
  ℕ, zero, suc, ◌+◌, ◌%◌, ◌<◌, ◌≤◌, ◌≡◌, refl, sym, List, [], ◌∷◌, Option, none, some, length,
  get_elem?, arith,
}
use gha_mac_broker.GuestExec.Types.{Event, Execution}
use gha_mac_broker.GuestExec.Log.Invariant.{out_of_range}
use gha_mac_broker.GuestExec.Registry.Streaming.{turn, replay, subscribe}

past_end : (es : List Event) (i : ℕ) → length es ≤ i → get_elem? es i ≡ none
past_end [] i h = refl
past_end (x ∷ es) zero h = absurd (omega arith)
past_end (x ∷ es) (suc i) h = past_end es i (omega arith)

-- Past the last event, the loop waits or ends, and sends nothing.
replay-end :
    (rounds n : ℕ) (e : Execution)
    → get_elem? e.log.events n ≡ none
    → replay (suc rounds) (suc n) e ≡ []
unfolding replay turn
replay-end rounds n e at = ground (arith, at)

replay-at :
    (rounds n : ℕ) (e : Execution) (x : Event)
    → get_elem? e.log.events n ≡ some x
    → replay (suc rounds) (suc n) e ≡ x ∷ replay rounds (suc (suc n)) e
unfolding replay turn
replay-at rounds n e x at = ground (arith, at)

replay-step :
    (rounds n : ℕ) (e : Execution)
    → length e.log.events < n + suc rounds
    → ((i : ℕ) → get_elem? (replay rounds (suc (suc n)) e) i ≡ get_elem? e.log.events (suc n + i))
    → (o : Option Event) → get_elem? e.log.events n ≡ o
    → (i : ℕ) → get_elem? (replay (suc rounds) (suc n) e) i ≡ get_elem? e.log.events (n + i)
replay-step rounds n e h later none at i =
    rw (replay-end rounds n e at)
      (sym (past_end e.log.events (n + i) (omega (arith, out_of_range e.log.events n at))))
replay-step rounds n e h later (some x) at zero =
    let q : n + 0 ≡ n = omega arith in rw (replay-at rounds n e x at, q) (sym at)
replay-step rounds n e h later (some x) at (suc i) =
    let q : n + suc i ≡ suc n + i = omega arith in rw (replay-at rounds n e x at, q) (later i)

replay-from :
    (rounds n i : ℕ) (e : Execution)
    → length e.log.events < n + rounds
    → get_elem? (replay rounds (suc n) e) i ≡ get_elem? e.log.events (n + i)
replay-from zero n i e h = unfold replay in sym (past_end e.log.events (n + i) (omega arith))
replay-from (suc rounds) n i e h =
    replay-step rounds n e h (λ i. replay-from rounds (suc n) i e (omega arith))
      (get_elem? e.log.events n) refl i

-- For any cursor below 2^64 - 1, the events that a subscriber gets without waiting are exactly those
-- after the cursor, in the order of the log: the one at `i` is the log's event at the cursor plus
-- `i`, and there is none where the log has none.
pub subscribe-suffix :
    (from_sequence i : ℕ) (e : Execution)
    → from_sequence < 18446744073709551615
    → get_elem? (subscribe from_sequence e) i ≡ get_elem? e.log.events (from_sequence + i)
unfolding subscribe
subscribe-suffix from_sequence i e h =
    let q : suc from_sequence % 18446744073709551616 ≡ suc from_sequence = omega arith in
    rw q (replay-from (suc (length e.log.events)) from_sequence i e (omega arith))
