-- ===== src/RunnerPool/Invariant/Workers.antt =====
-- The changes to one worker that the critical sections of internal/runnerpool make keep it well formed.
use gha_mac_broker.Prelude.{
  ℕ, ◌≡◌, true, false, Option, some, All, All-get_elem?, All-set, any, any-set-false, any-false_get,
  length-set, get_elem?, set, arith, is_some,
}
use gha_mac_broker.RunnerPool.Types.{Error, Vm, Slot, Worker, empty_slot_state, owns, worker_busy}
use gha_mac_broker.RunnerPool.Recycle.{take_cancel}
use gha_mac_broker.RunnerPool.Invariant.Defs.{SlotIsValid, WorkerIsValid}

-- A slot takes the place of another: the worker stays valid if the new slot is valid, and is busy
-- only if the old one was.
module _ {w : Worker} (v : WorkerIsValid w) (j : ℕ) {s : Slot} (at : get_elem? w.slots j ≡ some s)
    (s' : Slot) (valid : SlotIsValid s') where
  pub old_slot-IsValid : SlotIsValid s
  old_slot-IsValid = All-get_elem? SlotIsValid j w.slots v.slots_valid at

  slots_set : All SlotIsValid (set w.slots j s')
  slots_set = All-set SlotIsValid w.slots j s' valid v.slots_valid

  still_free :
      (s.busy ≡ false → s'.busy ≡ false)
      → any (λ (x : Slot). x.busy) w.slots ≡ false
      → any (λ (x : Slot). x.busy) (set w.slots j s') ≡ false
  still_free k h = any-set-false _ w.slots j s' h (k (any-false_get (λ x. x.busy) w.slots j h at))

  pub set_slot-IsValid :
      (s.busy ≡ false → s'.busy ≡ false) → WorkerIsValid (record w { slots = set w.slots j s' })
  unfolding worker_busy
  set_slot-IsValid k = record {
    slots_valid = slots_set;
    nonempty = ground (arith, length-set w.slots j s', v.nonempty);
    vm_less = λ h. still_free k (v.vm_less h);
    idle_free = λ h. still_free k (v.idle_free h);
    idle_vm = v.idle_vm;
    warming_vm_less = v.warming_vm_less;
    recycle_vm = v.recycle_vm;
  }

  -- With a VM, the worker may also be marked for recycling, and is not idle once a slot is bound.
  pub bound_slot-IsValid :
      is_some w.vm ≡ true → WorkerIsValid (record w { idle_since = 0; slots = set w.slots j s' })
  unfolding worker_busy
  bound_slot-IsValid h = record {
    slots_valid = slots_set;
    nonempty = ground (arith, length-set w.slots j s', v.nonempty);
    vm_less = λ e. ground arith;
    idle_free = λ e. elim e [ ];
    idle_vm = λ e. elim e [ ];
    warming_vm_less = v.warming_vm_less;
    recycle_vm = v.recycle_vm;
  }

pub recycle-IsValid :
    {w : Worker}
    → WorkerIsValid w
    → is_some w.vm ≡ true
    → WorkerIsValid (record w { recycle = true })
unfolding worker_busy
recycle-IsValid v h = record {
  slots_valid = v.slots_valid;
  nonempty = v.nonempty;
  vm_less = v.vm_less;
  idle_free = v.idle_free;
  idle_vm = v.idle_vm;
  warming_vm_less = v.warming_vm_less;
  recycle_vm = λ _. h;
}

pub owns-is_some : (w : Worker) (vm : Vm) → owns w vm ≡ true → is_some w.vm ≡ true
owns-is_some w vm h = ground arith

pub freed-IsValid : (err : Option Error) → SlotIsValid (record empty_slot_state { last_err = err })
freed-IsValid err = ground arith

pub take_cancel-IsValid : (s : Slot) → SlotIsValid s → s.busy ≡ true → SlotIsValid (take_cancel s)
take_cancel-IsValid s v h = ground arith

pub settle_idle-IsValid :
    {w : Worker} (now : ℕ)
    → WorkerIsValid w
    → is_some w.vm ≡ true
    → worker_busy w ≡ false
    → WorkerIsValid (record w { idle_since = now })
unfolding worker_busy
settle_idle-IsValid now v h e = record {
  slots_valid = v.slots_valid;
  nonempty = v.nonempty;
  vm_less = v.vm_less;
  idle_free = λ _. e;
  idle_vm = λ _. h;
  warming_vm_less = v.warming_vm_less;
  recycle_vm = v.recycle_vm;
}
