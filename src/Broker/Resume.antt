-- ===== src/Broker/Resume.antt =====
-- drainToTerminal of internal/broker/bind.go over reconnections to the guest's log.
use mathlib.Core.List.{append-nil, append_assoc}
use gha_mac_broker.Prelude.{
  Option-cases, inl, inr, ℕ, suc, ◌+◌, ◌<◌, ◌≡◌, refl, sym, ap, ◌∙◌, subst, List, [], ◌∷◌, ◌++◌,
  Option, none, some, length, length-append, arith,
}
use gha_mac_broker.GuestAgent.Wire.{WireEvent}
use gha_mac_broker.GuestAgent.Stream.{Consecutive, subscribe-Consecutive}
use gha_mac_broker.Broker.Drain.{
  Mirror, chunk_of, receive, Attempt, stopped, missing, unreachable, streamed, drain_round, Drained,
  drain_to_terminal,
}
use gha_mac_broker.Broker.Rounds.{
  consumed, mirrored, bytes_of, taken, met, received, drain_stream-mirrored, max_sequence, IsServed,
  Serves,
}

Consecutive-append_left :
    (n : ℕ) (xs ys : List WireEvent) → Consecutive n (xs ++ ys) → Consecutive n xs
Consecutive-append_left n [] ys v = tt
Consecutive-append_left n (x ∷ xs) ys v = (v.0, Consecutive-append_left (suc n) xs ys v.1)

Consecutive-append :
    (n k : ℕ) (xs ys : List WireEvent)
    → n + length xs ≡ k
    → Consecutive n xs
    → Consecutive k ys
    → Consecutive n (xs ++ ys)
Consecutive-append n k [] ys e v w =
    let q : k ≡ n = omega arith in subst (λ i. Consecutive i ys) q w
Consecutive-append n k (x ∷ xs) ys e v w =
    (v.0, Consecutive-append (suc n) k xs ys (omega arith) v.1 w)

Consecutive-consumed :
    (n : ℕ) (ms : List WireEvent) → Consecutive n ms → Consecutive n (consumed ms)
Consecutive-consumed n [] v = tt
Consecutive-consumed n (m ∷ ms) v = ground (arith, v.0, Consecutive-consumed (suc n) ms v.1)

mirrored-append :
    (xs ys : List WireEvent) (s : Mirror) → mirrored (xs ++ ys) s ≡ mirrored ys (mirrored xs s)
mirrored-append [] ys s = refl
mirrored-append (x ∷ xs) ys s = mirrored-append xs ys (receive x s)

drain_round-mirrored : (a : Attempt) (s : Mirror) → (drain_round a s).0 ≡ mirrored (taken a) s
unfolding drain_round
drain_round-mirrored stopped s = refl
drain_round-mirrored missing s = refl
drain_round-mirrored unreachable s = refl
drain_round-mirrored (streamed ms end done) s = ground (arith, drain_stream-mirrored ms s)

drain-mirrored :
    (rounds : List (ℕ → Attempt)) (s : Mirror)
    → (drain_to_terminal rounds s).0 ≡ mirrored (received rounds s) s
unfolding drain_to_terminal met
drain-mirrored [] s = refl
drain-mirrored (round ∷ rounds) s =
    let a = round s.cursor in
    let t = drain_round a s in
    ground (
      arith,
      drain_round-mirrored a s,
      drain-mirrored rounds t.0,
      append-nil (taken a),
      mirrored-append (taken a) (received rounds t.0) s,
    )

cursor-mirrored :
    (ms : List WireEvent) (s : Mirror)
    → Consecutive (suc s.cursor) ms
    → (mirrored ms s).cursor ≡ s.cursor + length ms
cursor-mirrored [] s v = omega arith
cursor-mirrored (m ∷ ms) s v =
    let rest =
      cursor-mirrored ms (receive m s)
        (unfold receive in subst (λ i. Consecutive (suc i) ms) (sym v.0) v.1) in
    let here : (receive m s).cursor ≡ suc s.cursor = unfold receive in v.0 in
    omega (arith, rest, here)

-- Bytes behind what the run log holds, where there is one.
abbrev pub logged : Option (List ℕ) → List ℕ → Option (List ℕ)
logged none bytes = none
logged (some written) bytes = some (written ++ bytes)

logged-nil : (o : Option (List ℕ)) → logged o [] ≡ o
logged-nil none = refl
logged-nil (some written) = ap some (append-nil written)

logged-append :
    (o : Option (List ℕ)) (xs ys : List ℕ) → logged (logged o xs) ys ≡ logged o (xs ++ ys)
logged-append none xs ys = refl
logged-append (some written) xs ys = ap some (append_assoc written xs ys)

log-receive : (m : WireEvent) (s : Mirror) → (receive m s).run_log ≡ logged s.run_log (chunk_of m)
unfolding receive
log-receive m s =
    elim s.run_log
      as (λ o.
        (elim o [ none ↦ none | some written ↦ some (written ++ chunk_of m) ])
        ≡ logged o (chunk_of m)) [ none ↦ refl | some written ↦ refl ]

bytes_of-cons :
    (m : WireEvent) (ms : List WireEvent) → bytes_of (m ∷ ms) ≡ chunk_of m ++ bytes_of ms
bytes_of-cons m ms = ground arith

log-mirrored :
    (ms : List WireEvent) (s : Mirror) → (mirrored ms s).run_log ≡ logged s.run_log (bytes_of ms)
log-mirrored [] s = sym (logged-nil s.run_log)
log-mirrored (m ∷ ms) s =
    log-mirrored ms (receive m s)
    ∙ ap (λ o. logged o (bytes_of ms)) (log-receive m s)
    ∙ logged-append s.run_log (chunk_of m) (bytes_of ms)
    ∙ ap (logged s.run_log) (sym (bytes_of-cons m ms))

taken-Consecutive :
    (cursor : ℕ) (a : Attempt)
    → cursor < max_sequence
    → IsServed cursor a
    → Consecutive (suc cursor) (taken a)
taken-Consecutive cursor stopped small v = tt
taken-Consecutive cursor missing small v = tt
taken-Consecutive cursor unreachable small v = tt
taken-Consecutive cursor (streamed ms end done) small (e, rest, valid, split) =
    Consecutive-consumed (suc cursor) ms (
      Consecutive-append_left (suc cursor) ms rest
        (subst (Consecutive (suc cursor)) split (subscribe-Consecutive cursor e valid small)))

received-Consecutive :
    (rounds : List (ℕ → Attempt)) (s : Mirror)
    → Serves rounds
    → s.cursor + length (received rounds s) < max_sequence
    → Consecutive (suc s.cursor) (received rounds s)
unfolding met
received-Consecutive [] s v small = tt
received-Consecutive (round ∷ rounds) s (here, later) small = elim (Option-cases t.1) [
  | inl on ↦
      let size : length (received (round ∷ rounds) s)
          ≡ length (taken a) + length (received rounds t.0) =
        rw on (length-append (taken a) (received rounds t.0)) in
      rw on (
        Consecutive-append (suc s.cursor) (suc t.0.cursor) (taken a) (received rounds t.0)
          (omega (arith, moved)) first
          (received-Consecutive rounds t.0 later (omega (arith, size, moved, small))))
  | inr (d, off) ↦ rw off (
      Consecutive-append (suc s.cursor) (suc s.cursor + length (taken a)) (taken a) [] refl first
        tt)
]
  where
    a : Attempt
    a = round s.cursor

    t : Mirror × Option Drained
    t = drain_round a s

    first : Consecutive (suc s.cursor) (taken a)
    first = taken-Consecutive s.cursor a (omega arith) (here s.cursor (omega arith))

    moved : t.0.cursor ≡ s.cursor + length (taken a)
    moved = ap (λ q. q.cursor) (drain_round-mirrored a s) ∙ cursor-mirrored (taken a) s first

-- A drain resumes where it was cut off. If each round has an answer of the guest for the cursor at
-- which it opens the stream, and the sequence numbers do not run out, the messages that the drain
-- takes over all rounds carry the sequence numbers after the first cursor without a gap or a
-- repetition; the cursor ends at the last of them; and the run log, if there is one, holds, behind
-- what it held, the data of their log chunks in order. The guest may have dropped the data of a chunk
-- before it is sent; such a chunk adds nothing to the run log.
pub drain_to_terminal-Contiguous :
    (rounds : List (ℕ → Attempt)) (s : Mirror)
    → Serves rounds
    → s.cursor + length (received rounds s) < max_sequence
    → let got = received rounds s in
      let end = (drain_to_terminal rounds s).0 in
      Consecutive (suc s.cursor) got
      × (end.cursor ≡ s.cursor + length got)
      × (end.run_log ≡ logged s.run_log (bytes_of got))
drain_to_terminal-Contiguous rounds s v small =
    let order = received-Consecutive rounds s v small in
    (
      order,
      ap (λ q. q.cursor) (drain-mirrored rounds s) ∙ cursor-mirrored (received rounds s) s order,
      ap (λ q. q.run_log) (drain-mirrored rounds s) ∙ log-mirrored (received rounds s) s,
    )
