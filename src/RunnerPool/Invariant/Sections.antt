-- ===== src/RunnerPool/Invariant/Sections.antt =====
-- Each critical section of internal/runnerpool keeps the worker that it touches well formed.
use mathlib.Core.Bool.{false≢true}
use gha_mac_broker.Prelude.{
  ℕ, ◌≡◌, refl, Bool, true, not, ◌&&◌, List, Option, get_elem?, arith, All-get_elem?, found_cases,
  if_cases, ◌==◌, is_some,
}
use gha_mac_broker.RunnerPool.Types.{Error, Vm, Cancel, Slot, Worker, Pool, owns, worker_busy}
use gha_mac_broker.RunnerPool.Workers.{Watch, recycle_worker}
use gha_mac_broker.RunnerPool.Jobs.{free_slot, drop_slot, settle_idle}
use gha_mac_broker.RunnerPool.Recycle.{
  BusyCandidate, mark_recycle, busy_recycle, warn_slot, same_binding,
}
use gha_mac_broker.RunnerPool.Invariant.Defs.{SlotIsValid, WorkerIsValid}
use gha_mac_broker.RunnerPool.Invariant.Slots.{
  slot_count_or-pos, reset_worker_slots_to-IsReset, IsReset-worker,
}
use gha_mac_broker.RunnerPool.Invariant.Workers.{
  set_slot-IsValid, recycle-IsValid, owns-is_some, freed-IsValid, take_cancel-IsValid,
  settle_idle-IsValid,
}

module _ {w : Worker} (v : WorkerIsValid w) where
  settled-IsValid : (now : ℕ) → is_some w.vm ≡ true → WorkerIsValid (settle_idle now w)
  settled-IsValid now h =
      if_cases WorkerIsValid (worker_busy w) (λ _. v) (λ e. settle_idle-IsValid _ v h e)

module _ {w : Worker} (v : WorkerIsValid w) where
  pub free_slot-IsValid :
      (now j : ℕ) (vm : Vm) (err : Option Error) → WorkerIsValid (free_slot now j vm err w)
  unfolding free_slot
  free_slot-IsValid now j vm err =
      found_cases WorkerIsValid (owns w vm) (get_elem? w.slots j) v λ s o at.
        settled-IsValid (set_slot-IsValid v j at _ (freed-IsValid err) (λ _. refl)) now
          (owns-is_some w vm o)

  pub drop_slot-IsValid :
      (j : ℕ) (vm : Vm) (err : Option Error) → WorkerIsValid (drop_slot j vm err w)
  unfolding drop_slot
  drop_slot-IsValid j vm err =
      found_cases WorkerIsValid (owns w vm) (get_elem? w.slots j) v λ s o at.
        recycle-IsValid (set_slot-IsValid v j at _ (freed-IsValid err) (λ _. refl))
          (owns-is_some w vm o)

  pub mark_recycle-IsValid : (vm : Vm) (err : Option Error) → WorkerIsValid (mark_recycle vm err w)
  unfolding mark_recycle worker_busy
  mark_recycle-IsValid vm err =
      if_cases WorkerIsValid (owns w vm && not (worker_busy w))
        (λ e. record {
          slots_valid = v.slots_valid;
          nonempty = v.nonempty;
          vm_less = v.vm_less;
          idle_free = v.idle_free;
          idle_vm = v.idle_vm;
          warming_vm_less = v.warming_vm_less;
          recycle_vm = λ _. owns-is_some w vm (ground arith);
        })
        (λ _. v)

  pub busy_recycle-IsValid : (c : BusyCandidate) → WorkerIsValid (busy_recycle c w).0
  unfolding busy_recycle
  busy_recycle-IsValid c =
      found_cases (λ (r : Worker × List Cancel). WorkerIsValid r.0) (owns w c.vm)
        (get_elem? w.slots c.slot_index) v
        λ s o at.
          if_cases (λ (r : Worker × List Cancel). WorkerIsValid r.0) (same_binding c s)
            (λ same.
              recycle-IsValid
                (set_slot-IsValid v c.slot_index at _
                  (take_cancel-IsValid s
                    (All-get_elem? SlotIsValid c.slot_index w.slots v.slots_valid at)
                    (ground arith))
                  (λ free. cc))
                (owns-is_some w c.vm o))
            (λ _. v)

  pub warn_slot-IsValid : (c : BusyCandidate) → WorkerIsValid (warn_slot c w).0
  unfolding warn_slot
  warn_slot-IsValid c =
      found_cases (λ (r : Worker × Bool). WorkerIsValid r.0) (owns w c.vm && not w.recycle)
        (get_elem? w.slots c.slot_index) v
        λ s o at.
          if_cases (λ (r : Worker × Bool). WorkerIsValid r.0)
            (same_binding c s && not (s.reap_warned_at == c.bound_at))
            (λ same.
              set_slot-IsValid v c.slot_index at _
                (warned s (All-get_elem? SlotIsValid c.slot_index w.slots v.slots_valid at)
                  (ground arith))
                (λ free. free))
            (λ _. v)
    where
      warned :
          (s : Slot)
          → SlotIsValid s
          → s.busy ≡ true
          → SlotIsValid (record s { reap_warned_at = c.bound_at })
      warned s h b = record { free = λ e. absurd (ground arith); bound = h.bound }

  pub recycle_worker-IsValid : (p : Pool) (vm : Vm) → WorkerIsValid (recycle_worker p vm w).0
  unfolding recycle_worker
  recycle_worker-IsValid p vm =
      if_cases (λ (r : Worker × List Cancel × Watch). WorkerIsValid r.0) (not (owns w vm)) (λ _. v)
        λ _.
          if_cases (λ (r : Worker × List Cancel × Watch). WorkerIsValid r.0)
            (w.recycle && not (worker_busy w))
            (λ _.
              IsReset-worker _ (slot_count_or-pos p.options.jobs_per_vm)
                (reset_worker_slots_to-IsReset p.options.jobs_per_vm w.slots) (λ e. elim e [ ])
                (λ _. refl) (λ e. absurd (false≢true e)))
            (λ _. v)
