-- ===== src/Broker/Reuse.antt =====
-- When the pool goes on with a slot after a resumed job, by internal/broker/bind.go and
-- internal/runnerpool/worker.go.
use gha_mac_broker.Prelude.{
  Option-cases, inl, inr, ℕ, String, ℤ, ◌≡◌, ◌≢◌, ◌⊎◌, refl, Bool, true, false, ◌||◌, any, List, [],
  ◌∷◌, Option, none, some, arith,
}
use gha_mac_broker.RunnerPool.Types.{Vm, Pool}
use gha_mac_broker.RunnerPool.Jobs.{after_resume}
use gha_mac_broker.GuestAgent.Wire.{WireEvent}
use gha_mac_broker.GuestAgent.Convert.{is_result}
use gha_mac_broker.Broker.Rounds.{met}
use gha_mac_broker.Broker.Drain.{
  Mirror, receive, drain_stream, Attempt, stopped, missing, unreachable, streamed, expired_midway,
  DrainError, exited, stalled, Drained, cancelled, outcome, running_on, drain_round,
  drain_to_terminal, ContextCause, not_done, plain_cancel, deadline, custom, cancel_detach,
  classify_cancel, JobError, job_terminal, drain_stalled, detached, teardown_timed_out, torn_down,
  ended, drain_job, pool_error, undisturbed, after_teardown,
}

-- The stream holds the result of the job.
abbrev pub has_result : List WireEvent → Bool
has_result [] = false
has_result (m ∷ ms) = is_result m.event || has_result ms

-- The round shows that the guest no longer runs the job: its result, or NotFound.
abbrev pub shows_end : Attempt → Bool
shows_end stopped = false
shows_end missing = true
shows_end unreachable = false
shows_end (streamed ms end done) = has_result ms || (elim end [ expired_midway ↦ true | _ ↦ false ])

no_result :
    (ms : List WireEvent) (s : Mirror) → has_result ms ≡ false → (drain_stream ms s).1 ≡ none
unfolding drain_stream
no_result [] s h = refl
no_result (m ∷ ms) s h = ground (arith, h, no_result ms (receive m s))

round-shown :
    (a : Attempt) (s : Mirror) (e : Option DrainError)
    → (drain_round a s).1 ≡ some (outcome e)
    → e ≢ some stalled
    → shows_end a ≡ true
unfolding drain_round
round-shown stopped s e h n = cc
round-shown missing s e h n = refl
round-shown unreachable s e h n = cc
round-shown (streamed ms end done) s e h n = ground (arith, h, n, no_result ms s)

-- An outcome other than a stall comes from a round that shows the end of the job.
outcome-shown :
    (rounds : List (ℕ → Attempt)) (s : Mirror) (e : Option DrainError)
    → (drain_to_terminal rounds s).1 ≡ outcome e
    → e ≢ some stalled
    → any shows_end (met rounds s) ≡ true
unfolding drain_to_terminal met
outcome-shown [] s e h n = cc
outcome-shown (round ∷ rounds) s e h n = elim (Option-cases t.1) [
  | inl on ↦
      let rest = outcome-shown rounds t.0 e (ground (arith, h, on)) n in ground (arith, on, rest)
  | inr (d, off) ↦
      let shown = round-shown (round s.cursor) s e (ground (arith, h, off)) n in
      ground (arith, shown)
]
  where
    t : Mirror × Option Drained
    t = drain_round (round s.cursor) s

-- The errors after which the pool goes on with the slot.
abbrev keeps_slot : Option JobError → Bool
keeps_slot none = true
keeps_slot (some (job_terminal code message)) = true
keeps_slot (some detached) = true
keeps_slot (some drain_stalled) = false
keeps_slot (some teardown_timed_out) = false
keeps_slot (some (torn_down e)) = false

keeps :
    (e : Option JobError) (now index slot_index : ℕ) (vm : Vm) (context : ℕ) (text : String)
    (p : Pool)
    → (after_resume now index slot_index vm context
        (elim e [ none ↦ none | some x ↦ some (pool_error text x) ])
        p).1
      ≡ true
    → keeps_slot e ≡ true
unfolding after_resume
keeps none now index slot_index vm context text p h = refl
keeps (some (job_terminal code message)) now index slot_index vm context text p h = refl
keeps (some detached) now index slot_index vm context text p h = refl
keeps (some drain_stalled) now index slot_index vm context text p h = h
keeps (some teardown_timed_out) now index slot_index vm context text p h = h
keeps (some (torn_down (exited code message))) now index slot_index vm context text p h = h
keeps (some (torn_down stalled)) now index slot_index vm context text p h = h

-- What `keeps_slot` leaves of an undisturbed drain: no stall, and success or the job's own failure.
abbrev pub JobIsOver : Option JobError → Type 0
JobIsOver e =
    (e ≡ none) ⊎ ((code : ℤ) × (message : String) × (e ≡ some (job_terminal code message)))

undisturbed-JobIsOver :
    (o : Option DrainError) (e : Option JobError)
    → e ≡ undisturbed o
    → keeps_slot e ≡ true
    → (o ≢ some stalled) × JobIsOver e
undisturbed-JobIsOver none e q k = (λ stall. cc, inl q)
undisturbed-JobIsOver (some stalled) e q k = absurd (ground (arith, q, k))
undisturbed-JobIsOver (some (exited code message)) e q k = (λ stall. cc, inr (code, message, q))

detaches :
    (cause : ContextCause)
    → classify_cancel cause ≡ cancel_detach
    → (cause ≡ plain_cancel) ⊎ (cause ≡ deadline)
detaches not_done q = absurd (ground (arith, q))
detaches plain_cancel q = inl refl
detaches deadline q = inr refl
detaches custom q = absurd (ground (arith, q))

-- The three ways in which drainJob ends.
ending :
    (first second : List (ℕ → Attempt)) (cause : ContextCause) (s : Mirror) (e : Option JobError)
    → (drain_job first cause second s).1 ≡ ended e
    → ((o : Option DrainError) × ((drain_to_terminal first s).1 ≡ outcome o) × (e ≡ undisturbed o))
      ⊎ ((classify_cancel cause ≡ cancel_detach) × (e ≡ some detached))
      ⊎ (after_teardown (drain_to_terminal second (drain_to_terminal first s).0).1 ≡ ended e)
unfolding drain_job
ending first second cause s e h = by_first (drain_to_terminal first s).1 refl
  where
    by_first :
        (t : Drained)
        → (drain_to_terminal first s).1 ≡ t
        → ((o : Option DrainError) × ((drain_to_terminal first s).1 ≡ outcome o)
            × (e ≡ undisturbed o))
          ⊎ ((classify_cancel cause ≡ cancel_detach) × (e ≡ some detached))
          ⊎ (after_teardown (drain_to_terminal second (drain_to_terminal first s).0).1 ≡ ended e)
    by_first running_on at = absurd (ground (arith, h, at))
    by_first (outcome o) at = inl (o, at, ground (arith, h, at))
    by_first cancelled at = inr (ground (arith, h, at))

torn-shown :
    (rounds : List (ℕ → Attempt)) (s : Mirror) (e : Option JobError)
    → keeps_slot e ≡ true
    → after_teardown (drain_to_terminal rounds s).1 ≡ ended e
    → (any shows_end (met rounds s) ≡ true) × (e ≡ none)
torn-shown rounds s e k h = by_second (drain_to_terminal rounds s).1 refl
  where
    by_second :
        (t : Drained)
        → (drain_to_terminal rounds s).1 ≡ t
        → (any shows_end (met rounds s) ≡ true) × (e ≡ none)
    by_second running_on at = absurd (ground (arith, h, at))
    by_second cancelled at = absurd (ground (arith, h, at, k))
    by_second (outcome none) at = (outcome-shown rounds s none at (λ q. cc), ground (arith, h, at))
    by_second (outcome (some x)) at = absurd (ground (arith, h, at, k))

-- If drainJob ends an adopted job and the pool goes on with its slot, then one of three things has
-- happened. A round of the drain showed that the guest no longer runs the job, by its result or by
-- NotFound, and drainJob returned success or the job's own failure. Or a round of the drain after
-- CancelJob showed it, and drainJob returned success. Or the cause of the cancellation was a plain
-- cancel or a deadline, which leaves the job to the next broker, and drainJob returned its error for
-- that. So after a stall, a teardown that times out, and any error of a torn-down job, the pool
-- does not go on with the slot.
pub drain_job-reuse :
    (first second : List (ℕ → Attempt)) (cause : ContextCause) (s : Mirror) (e : Option JobError)
    → (now index slot_index : ℕ) (vm : Vm) (context : ℕ) (text : String) (p : Pool)
    → (drain_job first cause second s).1 ≡ ended e
    → (after_resume now index slot_index vm context
        (elim e [ none ↦ none | some x ↦ some (pool_error text x) ])
        p).1
      ≡ true
    → ((any shows_end (met first s) ≡ true) × JobIsOver e)
      ⊎ ((any shows_end (met second (drain_to_terminal first s).0) ≡ true) × (e ≡ none))
      ⊎ (((cause ≡ plain_cancel) ⊎ (cause ≡ deadline)) × (e ≡ some detached))
drain_job-reuse first second cause s e now index slot_index vm context text p h kept =
    let k = keeps e now index slot_index vm context text p kept in
    elim (ending first second cause s e h) [
      | inl (o, at, is) ↦
          let (fine, over) = undisturbed-JobIsOver o e is k in
          inl (outcome-shown first s o at fine, over)
      | inr (inl (detach, q)) ↦ inr (inr (detaches cause detach, q))
      | inr (inr at) ↦ inr (inl (torn-shown second (drain_to_terminal first s).0 e k at))
    ]
