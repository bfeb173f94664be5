-- ===== src/RunnerPool/Adopt.antt =====
-- installAdoptedWorkersLocked of internal/runnerpool/adopt.go, and the start and the end of the pool.
use gha_mac_broker.Prelude.{
  ℕ, true, false, List, [], ◌∷◌, none, some, ℤ, pos, negsuc, pos_part, ◌==◌, get_elem?, set,
  replicate, if◌then◌else◌,
}
use gha_mac_broker.RunnerPool.Types.{
  Vm, Slot, Worker, Pool, SlotBinding, AdoptedVm, empty_slot_state, adopted_slot_binding_busy,
}

abbrev pub adopted_slot : ℕ → SlotBinding → Slot
adopted_slot now b = record {
  bound_at = if b.bound_at == 0 then now else b.bound_at;
  busy = true;
  job_id = b.job_id;
  run_id = b.run_id;
  execution_id = b.execution_id;
  resume_cursor = b.resume_cursor;
  job_cancel = none;
  reap_warned_at = 0;
  adopted = true;
  last_err = none;
}

-- A binding into a slot that the worker has.
abbrev pub bind_at : ℕ → SlotBinding → ℕ → Worker → Worker
bind_at now b j w = elim (get_elem? w.slots j) [
  | none ↦ w
  | some s ↦
      if adopted_slot_binding_busy b
      then record w { slots = set w.slots j (adopted_slot now b); idle_since = 0 }
      else w
]

unfoldable pub bind_adopted : ℕ → SlotBinding → Worker → Worker
unfolding adopted_slot_binding_busy
bind_adopted now b w = elim b.slot_index [ negsuc n ↦ w | pos j ↦ bind_at now b j w ]

unfoldable pub bind_all : ℕ → List SlotBinding → Worker → Worker
unfolding bind_adopted
bind_all now [] w = w
bind_all now (b ∷ bs) w = bind_all now bs (bind_adopted now b w)

abbrev pub adopted_worker : ℕ → ℤ → Vm → Worker
adopted_worker now jobs_per_vm vm = record {
  vm = some vm;
  born_at = now;
  idle_since = now;
  warming = false;
  recycle = false;
  slots = replicate (pos_part jobs_per_vm) empty_slot_state;
  last_err = none;
}

-- The loop over the adopted VMs, with the workers from `stateIndex` on.
unfoldable pub install_from : ℕ → ℤ → List AdoptedVm → List Worker → List Worker
unfolding bind_all
install_from now jobs_per_vm [] ws = ws
install_from now jobs_per_vm (a ∷ as_) [] = []
install_from now jobs_per_vm (a ∷ as_) (w ∷ ws) = elim a.vm [
  | none ↦ install_from now jobs_per_vm as_ (w ∷ ws)
  | some vm ↦
      bind_all now a.slots (adopted_worker now jobs_per_vm vm) ∷ install_from now jobs_per_vm as_ ws
]

-- Start, up to the launch of the goroutines.
unfoldable pub start : ℕ → List AdoptedVm → Pool → Pool
unfolding install_from
start now adopted p = record p {
  started = true;
  states = install_from now p.options.jobs_per_vm adopted p.states;
}

-- Shutdown, and the watcher of the pool's context: the waiting goroutines see the flag.
unfoldable pub shutdown : Pool → Pool
shutdown p = record p { shutting_down = true }
