-- ===== src/RunnerPool/Workers.antt =====
-- The worker's side of internal/runnerpool (pool.go and worker.go): warming, activation, recycling
-- and clearing of one worker's VM. Each function is one critical section of the pool's mutex.
use gha_mac_broker.Prelude.{
  ℕ, suc, Bool, true, false, not, ◌&&◌, ◌||◌, List, [], ◌∷◌, ◌++◌, Option, none, some, ℤ, pos_part,
  is_pos, ◌==◌, length, get_elem?, set, replicate, map, if◌then◌else◌,
}
use gha_mac_broker.RunnerPool.Types.{
  Error, Vm, plain, Cancel, Slot, Worker, Pool, empty_slot_state, owns, worker_busy,
}
use gha_mac_broker.RunnerPool.Options.{default_jobs_per_vm, new_worker_state}

-- One access to `p.states[index]`: the worker is read, and the new one and the calls of jobCancel
-- are recorded. The callers' indices come from loops over the workers; Go would panic at another.
unfoldable pub at_worker : ℕ → (Worker → Worker × List Cancel) → Pool → Pool
at_worker index f p = elim (get_elem? p.states index) [
  | none ↦ p
  | some w ↦ record p { states = set p.states index (f w).0; cancels = (f w).1 ++ p.cancels }
]

-- The calls `cancel(nil)` of resetSlots.
unfoldable pub slot_cancels : List Slot → List Cancel
slot_cancels [] = []
slot_cancels (s ∷ ss) =
    let rest = slot_cancels ss in elim s.job_cancel [ none ↦ rest | some c ↦ (c, plain) ∷ rest ]

abbrev reset_slots : List Slot → List Slot
reset_slots = map (λ _. empty_slot_state)

-- The slots that resetWorkerSlotsToLocked leaves, and its calls of jobCancel. A new length drops
-- the old slots without a call.
abbrev pub slot_count_or : ℤ → ℕ
slot_count_or count = pos_part (if is_pos count then count else default_jobs_per_vm)

unfoldable pub reset_worker_slots_to : ℤ → List Slot → List Slot × List Cancel
unfolding slot_cancels
reset_worker_slots_to count slots =
    if length slots == slot_count_or count
    then (reset_slots slots, slot_cancels slots)
    else (replicate (slot_count_or count) empty_slot_state, [])

-- claimWorker
unfoldable pub claim_worker : ℕ → Pool → Option Vm
claim_worker index p = elim (get_elem? p.states index) [
  | none ↦ none
  | some w ↦ if w.warming then none else w.vm
]

unfoldable pub mark_warming : ℕ → Pool → Pool
unfolding at_worker reset_worker_slots_to
mark_warming index p =
    at_worker index
      (λ w.
        let (slots, calls) = reset_worker_slots_to p.options.jobs_per_vm w.slots in
        (
          record w {
            vm = none;
            born_at = 0;
            idle_since = 0;
            warming = true;
            recycle = false;
            last_err = none;
            slots = slots;
          },
          calls,
        ))
      p

unfoldable pub mark_warm_error : ℕ → Error → Pool → Pool
unfolding at_worker reset_worker_slots_to
mark_warm_error index err p =
    at_worker index
      (λ w.
        let (slots, calls) = reset_worker_slots_to p.options.jobs_per_vm w.slots in
        (record w { last_err = some err; warming = false; recycle = false; slots = slots }, calls))
      p

unfoldable pub activate_worker : ℕ → ℕ → Vm → ℤ → Pool → Pool
unfolding at_worker reset_worker_slots_to
activate_worker now index vm slot_count p =
    at_worker index
      (λ w.
        let (slots, calls) = reset_worker_slots_to slot_count w.slots in
        (
          record w {
            vm = some vm;
            born_at = now;
            idle_since = now;
            warming = false;
            recycle = false;
            last_err = none;
            slots = slots;
          },
          calls,
        ))
      p

-- nextID's counter; the id is the run token, a dash and this number.
unfoldable pub next_id : Pool → Pool × ℕ
next_id p = (record p { counter = suc p.counter }, suc p.counter)

unfoldable pub worker_slot_count : ℕ → Vm → Pool → ℕ
worker_slot_count index vm p = elim (get_elem? p.states index) [
  | none ↦ 0
  | some w ↦ if owns w vm then length w.slots else 0
]

-- What one look of waitForWorkerRecycleOrShutdown finds: return (false, false), return (true, true),
-- or wait for the next broadcast.
pub data Watch : Type 0 where
  shutdown recycled waiting : Watch

-- The part under the lock once neither the pool nor the context has ended.
unfoldable pub recycle_worker : Pool → Vm → Worker → Worker × List Cancel × Watch
unfolding reset_worker_slots_to worker_busy
recycle_worker p vm w =
    if not (owns w vm)
    then (w, [], recycled)
    else if w.recycle && not (worker_busy w)
    then (
      record w {
        vm = none;
        recycle = false;
        warming = true;
        idle_since = 0;
        slots = (reset_worker_slots_to p.options.jobs_per_vm w.slots).0;
      },
      (reset_worker_slots_to p.options.jobs_per_vm w.slots).1,
      recycled,
    )
    else (w, [], waiting)

-- One pass of the loop; `ctx_done` is `ctx.Err() != nil`.
unfoldable pub wait_for_worker_recycle_or_shutdown : Bool → ℕ → Vm → Pool → Pool × Watch
unfolding at_worker recycle_worker
wait_for_worker_recycle_or_shutdown ctx_done index vm p =
    if p.shutting_down || ctx_done then (p, shutdown) else elim (get_elem? p.states index) [
      | none ↦ (p, shutdown)
      | some w ↦ (
        at_worker index (λ v. ((recycle_worker p vm v).0, (recycle_worker p vm v).1)) p,
        (recycle_worker p vm w).2,
      )
    ]

unfoldable pub clear_worker : ℕ → Pool → Pool
unfolding at_worker
clear_worker index p = at_worker index (λ _. (new_worker_state p.options.jobs_per_vm, [])) p
