-- ===== src/RunnerPool/Recycle.antt =====
-- requestRecycle, requestBusyRecycle and CancelRun of internal/runnerpool/pool.go, and
-- claimSlotReapWarning of internal/runnerpool/reap.go.
use gha_mac_broker.Prelude.{
  ℕ, Bool, true, false, not, ◌&&◌, List, [], ◌∷◌, ◌++◌, Option, none, some, ℤ, eqb_ℤ, ◌==◌,
  get_elem?, set, is_some, if◌then◌else◌,
}
use gha_mac_broker.RunnerPool.Types.{
  Error, Vm, Cause, recycle_slot, cancel_run, Cancel, Slot, Worker, Pool, empty_slot_state, owns,
  worker_busy,
}
use gha_mac_broker.RunnerPool.Workers.{at_worker}

unfoldable pub mark_recycle : Vm → Option Error → Worker → Worker
unfolding worker_busy
mark_recycle vm err w =
    if owns w vm && not (worker_busy w) then record w { recycle = true; last_err = err } else w

unfoldable pub request_recycle : ℕ → Vm → Option Error → Pool → Pool
unfolding at_worker mark_recycle
request_recycle index vm err p = at_worker index (λ w. (mark_recycle vm err w, [])) p

-- busyCandidate: a busy slot as the reaper read it.
pub record BusyCandidate : Type 0 where
  pub index : ℕ
  pub slot_index : ℕ
  pub slot_count : ℕ
  pub vm : Vm
  pub bound_at : ℕ
  pub job_id : ℤ
  pub run_id : ℤ
  pub now : ℕ

-- The slot still has the binding that the reaper read.
abbrev pub same_binding : BusyCandidate → Slot → Bool
same_binding c s =
    s.busy && eqb_ℤ s.job_id c.job_id && eqb_ℤ s.run_id c.run_id && s.bound_at == c.bound_at

abbrev pub cancel_calls : Cause → Slot → List Cancel
cancel_calls why s = elim s.job_cancel [ none ↦ [] | some c ↦ (c, why) ∷ [] ]

-- A slot after its jobCancel is taken: an adopted slot that was never resumed is emptied.
abbrev pub take_cancel : Slot → Slot
take_cancel s =
    if s.adopted && not (is_some s.job_cancel)
    then empty_slot_state
    else record s { job_cancel = none }

unfoldable pub busy_recycle : BusyCandidate → Worker → Worker × List Cancel
busy_recycle c w =
    if owns w c.vm
    then elim (get_elem? w.slots c.slot_index) [
      | none ↦ (w, [])
      | some s ↦
          if same_binding c s
          then (
            record w { recycle = true; slots = set w.slots c.slot_index (take_cancel s) },
            cancel_calls recycle_slot s,
          )
          else (w, [])
    ]
    else (w, [])

unfoldable pub request_busy_recycle : BusyCandidate → Pool → Pool
unfolding at_worker busy_recycle
request_busy_recycle c p = at_worker c.index (busy_recycle c) p

unfoldable pub warn_slot : BusyCandidate → Worker → Worker × Bool
warn_slot c w =
    if owns w c.vm && not w.recycle
    then elim (get_elem? w.slots c.slot_index) [
      | none ↦ (w, false)
      | some s ↦
          if same_binding c s && not (s.reap_warned_at == c.bound_at)
          then (
            record w {
              slots = set w.slots c.slot_index (record s { reap_warned_at = c.bound_at });
            },
            true,
          )
          else (w, false)
    ]
    else (w, false)

unfoldable pub claim_slot_reap_warning : BusyCandidate → Pool → Pool × Bool
unfolding at_worker warn_slot
claim_slot_reap_warning c p = elim (get_elem? p.states c.index) [
  | none ↦ (p, false)
  | some w ↦ (at_worker c.index (λ v. ((warn_slot c v).0, [])) p, (warn_slot c w).1)
]

-- The inner loop of CancelRun: the first busy slot with the job, if there is one.
unfoldable pub cancel_in_slots : ℤ → List Slot → Option (List Slot × List Cancel)
cancel_in_slots job_id [] = none
cancel_in_slots job_id (s ∷ ss) =
    let rest = cancel_in_slots job_id ss in
    if s.busy && eqb_ℤ s.job_id job_id
    then some (take_cancel s ∷ ss, cancel_calls cancel_run s)
    else elim rest [ none ↦ none | some (ss', calls) ↦ some (s ∷ ss', calls) ]

-- The outer loop.
unfoldable pub cancel_in_workers : ℤ → List Worker → List Worker × List Cancel
unfolding cancel_in_slots
cancel_in_workers job_id [] = ([], [])
cancel_in_workers job_id (w ∷ ws) =
    let rest = cancel_in_workers job_id ws in
    elim (cancel_in_slots job_id w.slots) [
      | none ↦ (w ∷ rest.0, rest.1)
      | some (slots, calls) ↦ (record w { recycle = true; slots = slots } ∷ ws, calls)
    ]

-- CancelRun
unfoldable pub cancel_job : ℤ → Pool → Pool
unfolding cancel_in_workers
cancel_job job_id p =
    let (states, calls) = cancel_in_workers job_id p.states in
    record p { states = states; cancels = calls ++ p.cancels }
