-- ===== src/Broker/Run.antt =====
-- RunJob, ResumeJob and RunningSlots of internal/broker/bind.go.
use gha_mac_broker.Prelude.{ℕ, Bool, List, [], ◌∷◌, Option, none, some, if◌then◌else◌}
use gha_mac_broker.GuestAgent.Wire.{RunOutcome, WireState}
use gha_mac_broker.Broker.Drain.{Mirror, Attempt, ContextCause, JobEnd, drain_job, dispatched}
use gha_mac_broker.Broker.Adopt.{Guest, unresolved, no_reattach, answers}

-- How the dispatch of a job goes, up to the answer of the guest.
pub data Dispatch : Type 0 where
  malformed_repo unresolved_guest no_jit_config call_failed : Dispatch
  answered : RunOutcome → Dispatch

-- RunJob; `none` is an error before the drain. It replays the stream from the start.
unfoldable pub run_job :
    Dispatch
    → List (ℕ → Attempt)
    → ContextCause
    → List (ℕ → Attempt)
    → Option (List ℕ)
    → Option (Mirror × JobEnd × Bool)
unfolding drain_job
run_job dispatch first cause second run_log = elim dispatch [
  | answered o ↦
      if dispatched o
      then some (drain_job first cause second (record { cursor = 0; run_log = run_log }))
      else none
  | _ ↦ none
]

-- ResumeJob, of whether the guest is resolved; it goes on from the cursor of the slot.
unfoldable pub resume_job :
    Bool
    → ℕ
    → List (ℕ → Attempt)
    → ContextCause
    → List (ℕ → Attempt)
    → Option (List ℕ)
    → Option (Mirror × JobEnd × Bool)
unfolding drain_job
resume_job resolved from_cursor first cause second run_log =
    if resolved
    then some (drain_job first cause second (record { cursor = from_cursor; run_log = run_log }))
    else none

abbrev pub running_in : List WireState → List ℕ
running_in [] = []
running_in (s ∷ ss) = if s.running then s.slot ∷ running_in ss else running_in ss

-- RunningSlots: the slots, or an error if the guest is not resolved or does not answer.
unfoldable pub running_slots : Guest → Option (List ℕ)
running_slots unresolved = none
running_slots no_reattach = none
running_slots (answers states) = some (running_in states)
